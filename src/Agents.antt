-- ===== src/Agents.antt =====
-- Who is whose subagent: agent-dbus-service/src/providers/codex/subagent.rs, the lineage of
-- providers/opencode.rs, and `hook_subagent_info` of service.rs. The parsing of JSON, the contents of
-- a file (its first 256 KiB) and the search for a rollout are arguments.
pub mod Lineage
use claude_dbus.Prelude.{
  String, List, [], ◌∷◌, Option, none, some, Bool, true, false, not, ◌&&◌, ◌||◌, ◌==◌,
  if◌then◌else◌, ◌>>=◌, ◌>>◌, guard, ◌or_else◌, unwrap_or, find_map, is_some,
}
use claude_dbus.Text.{lines}
use claude_dbus.Json.{Value, as_str, is_object, equals_str, pointer, ◌at◌}
use claude_dbus.Session.Object.{SessionObject}
use claude_dbus.Service.{json_string_at}

pub record SubagentInfo : Type 0 where
  pub parent_session_id : String
  pub nickname : String
  pub role : String

abbrev pub is_text : Option String → String → Bool
is_text none s = false
is_text (some t) s = t == s

abbrev pub nickname_of : Value → String
nickname_of v =
    unwrap_or
      (json_string_at v ("agent_nickname" ∷ [])
        or_else json_string_at v ("payload" ∷ "agent_nickname" ∷ []))
      ""

abbrev pub role_of : Value → String
role_of v =
    unwrap_or
      (json_string_at v ("agent_role" ∷ [])
        or_else json_string_at v ("payload" ∷ "agent_role" ∷ []))
      ""

abbrev pub object_there : Option Value → Bool
object_there none = false
object_there (some v) = is_object v

unfoldable pub explicit_subagent : Value → Bool
explicit_subagent v =
    is_text
      (json_string_at v ("thread_source" ∷ [])
        or_else json_string_at v ("payload" ∷ "thread_source" ∷ []))
      "subagent"
    || object_there (pointer v ("source" ∷ "subagent" ∷ "thread_spawn" ∷ []))
    || object_there (pointer v ("payload" ∷ "source" ∷ "subagent" ∷ "thread_spawn" ∷ []))

unfoldable pub codex_parent : Value → String
codex_parent v =
    unwrap_or
      (json_string_at v ("source" ∷ "subagent" ∷ "thread_spawn" ∷ "parent_thread_id" ∷ [])
        or_else json_string_at v
            ("payload" ∷ "source" ∷ "subagent" ∷ "thread_spawn" ∷ "parent_thread_id" ∷ [])
        or_else json_string_at v ("thread_spawn" ∷ "parent_thread_id" ∷ [])
        or_else json_string_at v ("parent_thread_id" ∷ []))
      ""

unfoldable pub subagent_info_from_value : Value → Option SubagentInfo
unfolding explicit_subagent codex_parent
subagent_info_from_value v =
    let parent = codex_parent v in
    if not (explicit_subagent v) && parent == ""
    then none
    else some (record { parent_session_id = parent; nickname = nickname_of v; role = role_of v })

unfoldable pub opencode_parent : Value → String
opencode_parent v =
    unwrap_or
      (json_string_at v ("parent_session_id" ∷ [])
        or_else json_string_at v ("parentID" ∷ [])
        or_else json_string_at v ("parentId" ∷ [])
        or_else json_string_at v ("parent_id" ∷ [])
        or_else json_string_at v ("info" ∷ "parentID" ∷ [])
        or_else json_string_at v ("payload" ∷ "parent_session_id" ∷ []))
      ""

unfoldable pub opencode_subagent_info : String → Value → Option SubagentInfo
unfolding opencode_parent
opencode_subagent_info session_id v =
    let parent = opencode_parent v in
    if parent == "" || parent == session_id
    then none
    else some (record { parent_session_id = parent; nickname = nickname_of v; role = role_of v })

-- The last step of `codex_subagent_info`.
abbrev pub not_its_own_parent : String → SubagentInfo → Option SubagentInfo
not_its_own_parent session_id meta =
    if meta.parent_session_id == "" || meta.parent_session_id == session_id then none else some meta

module _ (from_str : String → Option Value) (read_file : String → Option String)
    (codex_session_file : String → Option String) where
  -- A line of a transcript: a record of the session itself.
  unfoldable pub session_meta : String → Value → Option SubagentInfo
  session_meta session_id entry = do
    kind ← as_str (entry at "type")
    guard (kind == "session_meta")
    guard (is_text (as_str (entry at "payload" at "id")) session_id)
    subagent_info_from_value (entry at "payload")

  unfoldable pub codex_session_meta_from_path : String → String → Option SubagentInfo
  unfolding session_meta
  codex_session_meta_from_path session_id path = do
    contents ← read_file path
    find_map (λ line. from_str line >>= session_meta session_id) (lines contents)

  unfoldable pub codex_session_meta_from_hook : String → Value → Option SubagentInfo
  codex_session_meta_from_hook session_id v = do
    path ←
        as_str (v at "transcript_path")
        or_else as_str (v at "session_path")
        or_else as_str (v at "session_file")
    codex_session_meta_from_path session_id path

  unfoldable pub codex_subagent_info : String → String → Value → Option SubagentInfo
  codex_subagent_info agent_name session_id v =
      if not (agent_name == "codex")
      then none
      else (subagent_info_from_value v
          or_else codex_session_meta_from_hook session_id v
          or_else (codex_session_file session_id >>= codex_session_meta_from_path session_id))
        >>= not_its_own_parent session_id

  unfoldable pub hook_subagent_info : String → String → Value → Option SubagentInfo
  hook_subagent_info agent_name session_id v =
      codex_subagent_info agent_name session_id v or_else opencode_subagent_info session_id v

unfoldable pub apply_subagent_info : SessionObject → Option SubagentInfo → SessionObject
apply_subagent_info s none = s
apply_subagent_info s (some info) = record s {
  is_subagent = true;
  parent_session_id = info.parent_session_id;
  agent_nickname = info.nickname;
  agent_role = info.role;
}

-- `subagent_parent_session_id`, on the session object if there is one
unfoldable pub subagent_parent_session_id : Option SessionObject → Option String
subagent_parent_session_id none = none
subagent_parent_session_id (some s) =
    if s.is_subagent && not (s.parent_session_id == "") then some s.parent_session_id else none
