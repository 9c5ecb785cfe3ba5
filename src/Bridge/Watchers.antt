-- ===== src/Bridge/Watchers.antt =====
-- The watchers of Codex's files keep what is true of the state of the service.
use claude_dbus.Prelude.{
  String, ℕ, List, [], ◌∷◌, Option, none, some, Bool, true, false, ◌==◌, eqb, ltb, if◌then◌else◌,
  Bool-cases, Option-cases, inl, inr,
}
use claude_dbus.Dict
use claude_dbus.Text.{lines}
use claude_dbus.Json.{Value}
use claude_dbus.Core.Path.{session_path}
use claude_dbus.Session.Object.{
  SessionObject, SessionState, no_session, idle, thinking, tool_use, compacting,
}
use claude_dbus.Session.Pending.{clear_attention_reasons}
use claude_dbus.Session.Pending.Attention.{IsConsistent, refresh-IsConsistent}
use claude_dbus.Bus.Store
use claude_dbus.Bus.Store.{Store}
use claude_dbus.Codex.Compact.{
  CodexCompactLogEvent, compacted, apply_event, apply_lines, compact_watcher,
  parse_codex_compact_log_line,
}
use claude_dbus.Codex.Title.{
  Seen, is_seen, titled, apply_index_line, apply_index, title_watcher,
  parse_codex_session_index_line,
}
use claude_dbus.Bridge.{Bridge, World}
use claude_dbus.Bridge.Sound.{AllConsistent, IsSound, plain-IsSafe}
use claude_dbus.Bridge.Keeps.{insert-AllConsistent, update_session-IsSound}

compacted-IsConsistent :
    (active : Bool) (s : SessionObject) → IsConsistent s → IsConsistent (compacted active s)
unfolding compacted clear_attention_reasons
compacted-IsConsistent true s v = refresh-IsConsistent _ v.bounded
compacted-IsConsistent false s v = go s.state
  where
    go :
        (state : SessionState)
        → IsConsistent (elim state [
          | compacting ↦ clear_attention_reasons (record s { state = idle; task_complete = true })
          | no_session ↦ s
          | idle ↦ s
          | thinking ↦ s
          | tool_use ↦ s
        ])
    go compacting = refresh-IsConsistent _ v.bounded
    go no_session = v
    go idle = v
    go thinking = v
    go tool_use = v

event-IsSound :
    (owned : List ℕ) (clock : ℕ) (w : World) (br : Bridge) (e : Option CodexCompactLogEvent)
    → IsSound owned clock br
    → IsSound owned clock (apply_event w br e).0
event-IsSound owned clock w br none v = v
event-IsSound owned clock w br (some e) v =
    update_session-IsSound owned clock w br "codex" e.session_id _
      (plain-IsSafe (compacted e.active) (compacted-IsConsistent e.active)) v

lines-IsSound :
    (owned : List ℕ) (clock : ℕ) (w : World) (br : Bridge) (ls : List String)
    → IsSound owned clock br
    → IsSound owned clock (apply_lines w br ls).0
unfolding apply_lines
lines-IsSound owned clock w br [] v = v
lines-IsSound owned clock w br (line ∷ ls) v =
    let e = parse_codex_compact_log_line line in
    lines-IsSound owned clock w (apply_event w br e).0 ls (event-IsSound owned clock w br e v)

pub compact-IsSound :
    (owned : List ℕ) (clock : ℕ) (w : World) (br : Bridge) (offset : ℕ) (len : Option ℕ)
    (read : ℕ → Option String)
    → IsSound owned clock br
    → IsSound owned clock (compact_watcher w br offset len read).1.0
unfolding compact_watcher
compact-IsSound owned clock w br offset none read v = v
compact-IsSound owned clock w br offset (some len) read v =
    let start = if ltb len offset then 0 else offset in
    elim (Bool-cases (eqb len start)) [
      | inl e ↦ rw e v
      | inr e ↦ elim (Option-cases (read start)) [
        | inl f ↦ rw (e, f) v
        | inr (chunk, f) ↦ rw (e, f) (lines-IsSound owned clock w br (lines chunk) v)
      ]
    ]

existing-AllConsistent :
    (store : Store) (agent id title : String)
    → AllConsistent store
    → AllConsistent (Store.update_existing_session store agent id (titled title)).0
unfolding Store.update_existing_session Store.updated
existing-AllConsistent store agent id title all =
    elim (Option-cases (Dict.get store (session_path agent id))) [
      | inl e ↦ rw e all
      | inr (s, e) ↦
          let v = all _ s e in
          rw e (
            insert-AllConsistent store (session_path agent id) _ all
              (record { attention = v.attention; bounded = v.bounded }))
    ]

line-AllConsistent :
    (store : Store) (line : Option (String × String))
    → AllConsistent store
    → AllConsistent (apply_index_line store line)
unfolding apply_index_line
line-AllConsistent store none all = all
line-AllConsistent store (some (id, title)) all = elim (Bool-cases (title == "")) [
  | inl e ↦ rw e all
  | inr e ↦ rw e (existing-AllConsistent store "codex" id title all)
]

module _ (from_str : String → Option Value) where
  index-AllConsistent :
      (store : Store) (ls : List String)
      → AllConsistent store
      → AllConsistent (apply_index from_str store ls)
  unfolding apply_index
  index-AllConsistent store [] all = all
  index-AllConsistent store (line ∷ ls) all =
      let entry = parse_codex_session_index_line from_str line in
      index-AllConsistent (apply_index_line store entry) ls (line-AllConsistent store entry all)

  pub title-AllConsistent :
      (last_seen seen : Option Seen) (store : Store) (contents : Option String)
      → AllConsistent store
      → AllConsistent (title_watcher from_str last_seen store seen contents).1
  unfolding title_watcher
  title-AllConsistent last_seen none store contents all = all
  title-AllConsistent last_seen (some seen) store contents all =
      elim (Bool-cases (is_seen last_seen seen)) [
        | inl e ↦ rw e all
        | inr e ↦ elim (Option-cases contents) [
          | inl f ↦ rw (e, f) all
          | inr (text, f) ↦ rw (e, f) (index-AllConsistent store (lines text) all)
        ]
      ]
