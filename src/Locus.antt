-- ===== src/Locus.antt =====
-- agent-dbus-service/src/locus.rs: the relations between sessions, windows and app instances that
-- are set at the Locus service. A call is a value; the connection and the service are not modelled.
pub mod Refs
pub mod Tries
use claude_dbus.Prelude.{
  String, List, [], ◌∷◌, ◌++◌, Option, none, some, Bool, ◌==◌, not, if◌then◌else◌, ◌>>=◌, ◌or_else◌,
  unwrap_or, filter_option,
}
use claude_dbus.Text.{trim, strip_prefix}
use claude_dbus.Core.Path.{agent_session_node_key, session_path}

-- A `HashMap` with the keys type, kind and id.
pub record RelationEndpoint : Type 0 where
  pub type_name : String
  pub kind : String
  pub id : String

pub data Call : Type 0 where
  -- subject, relation, target, and the metadata: agent, session id and session path
  set_one : RelationEndpoint → String → RelationEndpoint → List (String × String) → Call
  unset : RelationEndpoint → String → RelationEndpoint → Call

unfoldable pub non_empty : String → Option String
non_empty value = filter_option (λ s. not (s == "")) (some (trim value))

abbrev pub stable_key : String → String → RelationEndpoint
stable_key kind id = record { type_name = "stable-key"; kind = kind; id = id }

-- The id without a `prefix:` or `window:` before it.
unfoldable pub bare_key : String → String → String
bare_key prefix value =
    unwrap_or
      ((strip_prefix value prefix >>= λ rest. strip_prefix rest ":")
        or_else strip_prefix value "window:")
      value

unfoldable pub normalized_ref : String → String → Option String → Option RelationEndpoint
unfolding bare_key
normalized_ref prefix kind value = do
  v ← value
  trimmed ← non_empty v
  key ← non_empty (bare_key prefix trimmed)
  some (stable_key kind key)

unfoldable pub window_ref : Option String → Option RelationEndpoint
unfolding normalized_ref
window_ref = normalized_ref "niri-window" "org.rsynapse.niri.window.id"

unfoldable pub app_instance_ref : Option String → Option RelationEndpoint
unfolding normalized_ref
app_instance_ref = normalized_ref "app-instance" "org.rsynapse.app-instance.id"

unfoldable pub agent_session_ref : String → String → Option RelationEndpoint
agent_session_ref agent_name session_id = do
  nonempty ← non_empty session_id
  some (stable_key "org.rsynapse.agent.session.id" (agent_session_node_key agent_name session_id))

unfoldable pub session_metadata : String → String → List (String × String)
session_metadata agent_name session_id =
    ("agent", agent_name)
    ∷ ("session_id", session_id)
    ∷ ("session_path", session_path agent_name session_id)
    ∷ []

abbrev pub window_agent_relation : String
window_agent_relation = "org.rsynapse.window.agent-session"

abbrev pub app_instance_agent_relation : String
app_instance_agent_relation = "org.rsynapse.app-instance.agent-session"

-- A call for a subject that is there.
abbrev pub call_for : Option RelationEndpoint → (RelationEndpoint → Call) → List Call
call_for none call = []
call_for (some subject) call = call subject ∷ []

-- The calls for the endpoint of a session, if it has one.
abbrev pub set_relations :
    List (String × String)
    → Option RelationEndpoint
    → Option RelationEndpoint
    → Option RelationEndpoint
    → List Call
set_relations metadata window app none = []
set_relations metadata window app (some target) =
    call_for window (λ subject. set_one subject window_agent_relation target metadata)
    ++ call_for app (λ subject. set_one subject app_instance_agent_relation target metadata)

abbrev pub unset_relations :
    Option RelationEndpoint → Option RelationEndpoint → Option RelationEndpoint → List Call
unset_relations window app none = []
unset_relations window app (some target) =
    call_for window (λ subject. unset subject window_agent_relation target)
    ++ call_for app (λ subject. unset subject app_instance_agent_relation target)

unfoldable pub link_session : String → String → Option String → Option String → List Call
unfolding agent_session_ref window_ref app_instance_ref session_metadata
link_session agent_name session_id app_instance_id window_id =
    set_relations (session_metadata agent_name session_id) (window_ref window_id)
      (app_instance_ref app_instance_id) (agent_session_ref agent_name session_id)

unfoldable pub unlink_session : String → String → Option String → Option String → List Call
unfolding agent_session_ref window_ref app_instance_ref
unlink_session agent_name session_id app_instance_id window_id =
    unset_relations (window_ref window_id) (app_instance_ref app_instance_id)
      (agent_session_ref agent_name session_id)
