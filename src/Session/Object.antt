-- ===== src/Session/Object.antt =====
-- The data of agent-dbus-service/src/types.rs and src/dbus.rs.
-- A `BTreeSet` is its list of elements in order, and a
-- `HashSet` a map to the unit.
use claude_dbus.Prelude.{String, ℕ, List, [], Bool, false}
use claude_dbus.Dict.{Dict}
use claude_dbus.Json.{F64}
use claude_dbus.Core.Telemetry.{TokenUsage}

pub data SessionState : Type 0 where
  no_session idle thinking tool_use compacting : SessionState

abbrev pub as_str : SessionState → String
as_str no_session = "no-session"
as_str idle = "idle"
as_str thinking = "thinking"
as_str tool_use = "tool-use"
as_str compacting = "compacting"

pub record PendingRequest : Type 0 where
  pub id : String
  pub tool_name : String
  pub prompt : String
  pub detail_kind : String
  pub detail_text : String
  pub options : List String
  pub option_descriptions : List String

pub record SessionObject : Type 0 where
  pub session_id : String
  pub agent_name : String
  pub app_instance_id : String
  pub window_id : String
  pub is_subagent : Bool
  pub parent_session_id : String
  pub agent_nickname : String
  pub agent_role : String
  pub session_title : String
  pub state : SessionState
  pub task_complete : Bool
  pub requires_attention : Bool
  pub context_pct : F64
  pub model_name : String
  pub reasoning_effort : String
  pub token_usage : TokenUsage
  pub last_token_usage : TokenUsage
  pub usage_epoch : ℕ
  pub usage_revision : ℕ
  pub opencode_usage_events : Dict (Unit {0})
  pub opencode_usage_order : List String
  pub cwd : String
  pub cost_usd : F64
  pub five_hour_usage_pct : F64
  pub five_hour_resets_at : ℕ
  pub seven_day_usage_pct : F64
  pub seven_day_resets_at : ℕ
  pub pending_requests : List PendingRequest
  pub attention_reasons : List String

-- `Default`
abbrev pub default_session : SessionObject
default_session = record {
  session_id = "";
  agent_name = "";
  app_instance_id = "";
  window_id = "";
  is_subagent = false;
  parent_session_id = "";
  agent_nickname = "";
  agent_role = "";
  session_title = "";
  state = no_session;
  task_complete = false;
  requires_attention = false;
  context_pct = 0;
  model_name = "";
  reasoning_effort = "unknown";
  token_usage = [];
  last_token_usage = [];
  usage_epoch = 0;
  usage_revision = 0;
  opencode_usage_events = [];
  opencode_usage_order = [];
  cwd = "";
  cost_usd = 0;
  five_hour_usage_pct = 0;
  five_hour_resets_at = 0;
  seven_day_usage_pct = 0;
  seven_day_resets_at = 0;
  pending_requests = [];
  attention_reasons = [];
}

-- `SessionObject::new`
abbrev pub new : String → String → SessionObject
new agent session = record default_session { session_id = session; agent_name = agent }
