-- ===== src/Service.antt =====
-- agent-dbus-service/src/service.rs: what hooks say, and what they do to a session.
pub mod Metrics
pub mod Events
pub mod Keeps
pub mod Boundary
use Prim.Native.Char.{Char, code}
use claude_dbus.Prelude.{
  String, ℕ, List, [], ◌∷◌, Option, none, some, Bool, true, false, ◌&&◌, ◌||◌, ◌==◌, not, eqb,
  if◌then◌else◌, ◌>>=◌, ◌or_else◌, unwrap_or, find_map, filter_option,
}
use claude_dbus.Text.{trim, to_ascii_lowercase, replace_chars}
use claude_dbus.Json
use claude_dbus.Json.{Value, as_str, as_bool, ◌at◌}
use claude_dbus.Session.Object.{
  SessionObject, SessionState, no_session, idle, thinking, tool_use, compacting,
}

-- The loop over the segments of a path.
unfoldable pub json_at : Value → List String → Option Value
json_at current [] = some current
json_at current (segment ∷ path) = elim (Json.get current segment) [
  | none ↦ none
  | some next ↦ json_at next path
]

unfoldable pub json_string_at : Value → List String → Option String
unfolding json_at
json_string_at value path = json_at value path >>= as_str

unfoldable pub json_string_at_any : Value → List (List String) → Option String
unfolding json_string_at
json_string_at_any value paths = find_map (json_string_at value) paths

unfoldable pub json_bool_at : Value → List String → Option Bool
unfolding json_at
json_bool_at value path = json_at value path >>= as_bool

unfoldable pub json_bool_at_any : Value → List (List String) → Option Bool
unfolding json_bool_at
json_bool_at_any value paths = find_map (json_bool_at value) paths

abbrev pub one_of : String → List String → Bool
one_of s [] = false
one_of s (t ∷ ts) = s == t || one_of s ts

-- The `match` of `parse_session_state`, on the normalized word.
abbrev pub state_of_word : String → Option SessionState
state_of_word s =
    if s == "no-session"
    then some no_session
    else if one_of s ("idle" ∷ "stopped" ∷ "complete" ∷ "completed" ∷ "done" ∷ [])
    then some idle
    else if one_of s ("thinking" ∷ "working" ∷ "running" ∷ "busy" ∷ [])
    then some thinking
    else if one_of s ("tool-use" ∷ "tool" ∷ "tooluse" ∷ [])
    then some tool_use
    else if one_of s ("compacting" ∷ "compact" ∷ "compressing" ∷ "compress" ∷ [])
    then some compacting
    else none

unfoldable pub parse_session_state : String → Option SessionState
unfolding to_ascii_lowercase trim replace_chars
parse_session_state state =
    state_of_word (replace_chars (λ c. eqb (code c) b'_') "-" (to_ascii_lowercase (trim state)))

abbrev pub state_paths : List (List String)
state_paths =
    ("state" ∷ [])
    ∷ ("status" ∷ [])
    ∷ ("session" ∷ "state" ∷ [])
    ∷ ("session" ∷ "status" ∷ [])
    ∷ ("payload" ∷ "state" ∷ [])
    ∷ ("payload" ∷ "status" ∷ [])
    ∷ []

unfoldable pub hook_state : Value → Option SessionState
unfolding json_string_at_any parse_session_state
hook_state data' = json_string_at_any data' state_paths >>= parse_session_state

abbrev pub task_paths : List (List String)
task_paths =
    ("task_complete" ∷ [])
    ∷ ("taskComplete" ∷ [])
    ∷ ("session" ∷ "task_complete" ∷ [])
    ∷ ("session" ∷ "taskComplete" ∷ [])
    ∷ ("payload" ∷ "task_complete" ∷ [])
    ∷ ("payload" ∷ "taskComplete" ∷ [])
    ∷ []

unfoldable pub hook_task_complete : Value → Option Bool
unfolding json_bool_at_any
hook_task_complete data' = json_bool_at_any data' task_paths

abbrev pub title_paths : List (List String)
title_paths =
    ("session_title" ∷ [])
    ∷ ("thread_name" ∷ [])
    ∷ ("title" ∷ [])
    ∷ ("payload" ∷ "session_title" ∷ [])
    ∷ ("payload" ∷ "thread_name" ∷ [])
    ∷ ("payload" ∷ "title" ∷ [])
    ∷ []

unfoldable pub hook_session_title : Value → Option String
unfolding json_string_at_any
hook_session_title data' =
    filter_option (λ title. not (title == "")) (json_string_at_any data' title_paths)

unfoldable pub model_name : Value → String
model_name data' =
    unwrap_or
      (as_str (data' at "model" at "display_name")
        or_else as_str (data' at "model")
        or_else as_str (data' at "llm_request" at "model"))
      "unknown"

unfoldable pub hook_tool_name : Value → String
hook_tool_name data' = unwrap_or (as_str (data' at "tool_name")) ""

unfoldable pub attention_reason : Value → String
attention_reason data' =
    unwrap_or
      (as_str (data' at "reason")
        or_else as_str (data' at "kind")
        or_else as_str (data' at "attention_kind"))
      "attention"

unfoldable pub attention_state : Value → Option SessionState
unfolding parse_session_state
attention_state data' = as_str (data' at "state") >>= parse_session_state

unfoldable pub mark_turn_complete : SessionObject → SessionObject
mark_turn_complete s = record s { state = idle; task_complete = true }

abbrev pub with_task_complete : Option Bool → SessionObject → SessionObject
with_task_complete none s = s
with_task_complete (some true) s = mark_turn_complete s
with_task_complete (some false) s = record s { task_complete = false }

unfoldable pub apply_hook_task_complete : SessionObject → Value → SessionObject
unfolding hook_task_complete
apply_hook_task_complete s data' = with_task_complete (hook_task_complete data') s

-- Subagents own no window and no app instance.
unfoldable pub transport_metadata_for_hook :
    Bool → Option String → Option String → Option String × Option String
transport_metadata_for_hook true app_instance_id window_id = (none, none)
transport_metadata_for_hook false app_instance_id window_id = (app_instance_id, window_id)

unfoldable pub apply_transport_metadata :
    SessionObject → String → Option String → Option String → SessionObject
apply_transport_metadata s id app_instance_id window_id = record s {
  session_id = id;
  app_instance_id = unwrap_or app_instance_id s.app_instance_id;
  window_id = unwrap_or window_id s.window_id;
}
