-- ===== src/Agents/Lineage.antt =====
-- No session is its own parent, and a recorded lineage is read back.
use claude_dbus.Prelude.{
  String, Option, none, some, false, not, ◌||◌, ◌==◌, if◌then◌else◌, ◌>>=◌, ◌or_else◌, ◌≡◌, ◌≢◌,
  refl, ==_ne, eq_iff, arith, Bool-cases, Option-cases, inl, inr,
}
use claude_dbus.Json.{Value}
use claude_dbus.Session.Object.{SessionObject}
use claude_dbus.Agents.{
  SubagentInfo, not_its_own_parent, opencode_parent, opencode_subagent_info, codex_subagent_info,
  hook_subagent_info, apply_subagent_info, subagent_parent_session_id, subagent_info_from_value,
  codex_session_meta_from_hook, codex_session_meta_from_path,
}

-- A parent that has a name and is another session.
pub record IsForeign (session_id : String) (info : SubagentInfo) : Type 0 where
  pub named : info.parent_session_id ≢ ""
  pub other : info.parent_session_id ≢ session_id

tested :
    (session_id parent : String)
    → (parent == "" || parent == session_id) ≡ false
    → (parent ≢ "") × (parent ≢ session_id)
tested session_id parent h =
    (λ e. ground (arith, eq_iff parent ""), λ e. ground (arith, eq_iff parent session_id))

opencode-IsForeign :
    (session_id : String) (v : Value) (info : SubagentInfo)
    → opencode_subagent_info session_id v ≡ some info
    → IsForeign session_id info
unfolding opencode_subagent_info
opencode-IsForeign session_id v info h =
    let parent = opencode_parent v in
    elim (Bool-cases (parent == "" || parent == session_id)) [
      | inl e ↦ absurd (ground arith)
      | inr e ↦
          let same : info.parent_session_id ≡ parent = ground arith in
          let (named, other) = tested session_id parent e in
          record { named = rw same named; other = rw same other }
    ]

kept-IsForeign :
    (session_id : String) (found : Option SubagentInfo) (info : SubagentInfo)
    → (found >>= not_its_own_parent session_id) ≡ some info
    → IsForeign session_id info
kept-IsForeign session_id none info h = absurd (ground arith)
kept-IsForeign session_id (some meta) info h =
    elim (Bool-cases (meta.parent_session_id == "" || meta.parent_session_id == session_id)) [
      | inl e ↦ absurd (ground arith)
      | inr e ↦
          let same : info.parent_session_id ≡ meta.parent_session_id = ground arith in
          let (named, other) = tested session_id meta.parent_session_id e in
          record { named = rw same named; other = rw same other }
    ]

module _ (from_str : String → Option Value) (read_file : String → Option String)
    (codex_session_file : String → Option String) where
  codex-IsForeign :
      (agent session_id : String) (v : Value) (info : SubagentInfo)
      → codex_subagent_info from_str read_file codex_session_file agent session_id v ≡ some info
      → IsForeign session_id info
  unfolding codex_subagent_info
  codex-IsForeign agent session_id v info h = elim (Bool-cases (agent == "codex")) [
    | inl e ↦
        kept-IsForeign session_id
          (subagent_info_from_value v
            or_else codex_session_meta_from_hook from_str read_file codex_session_file session_id v
            or_else (codex_session_file session_id
                >>= codex_session_meta_from_path from_str read_file codex_session_file session_id))
          info (rw e at h)
    | inr e ↦ absurd (ground arith)
  ]

  -- Whatever a hook, a transcript or a rollout says, the lineage that comes out of a hook names a
  -- parent, and a session other than itself; and a session object that takes the lineage is read back
  -- as the subagent of just that parent.
  pub lineage_lem :
      (agent session_id : String) (v : Value) (s : SessionObject) (info : SubagentInfo)
      → hook_subagent_info from_str read_file codex_session_file agent session_id v ≡ some info
      → IsForeign session_id info
        × (subagent_parent_session_id (some (apply_subagent_info s (some info)))
            ≡ some info.parent_session_id)
  unfolding hook_subagent_info subagent_parent_session_id apply_subagent_info
  lineage_lem agent session_id v s info h =
      elim (Option-cases
        (codex_subagent_info from_str read_file codex_session_file agent session_id v)) [
          | inl e ↦ let f = opencode-IsForeign session_id v info (rw e at h) in (f, read_back f)
          | inr (i, e) ↦
              let f = codex-IsForeign agent session_id v info (ground arith) in (f, read_back f)
        ]
    where
      read_back :
          IsForeign session_id info
          → (if not (info.parent_session_id == "") then some info.parent_session_id else none)
            ≡ some info.parent_session_id
      read_back f = rw (==_ne info.parent_session_id "" f.named) refl
