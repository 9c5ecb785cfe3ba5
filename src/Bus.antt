-- ===== src/Bus.antt =====
-- agent-dbus-service/src/dbus.rs: the snapshots of a session, and the properties whose change the bus
-- announces. A signal is the name of its property, and no signal fails.
pub mod Properties
pub mod Store
use claude_dbus.Prelude.{
  String, ℕ, ◌%◌, List, [], ◌∷◌, Bool, true, false, not, ◌&&◌, ◌||◌, ◌==◌, eqb, ltb, if◌then◌else◌,
  length,
}
use claude_dbus.Dict
use claude_dbus.Json.{F64}
use claude_dbus.Core.Telemetry.{TokenUsage}
use claude_dbus.Session.Object.{
  SessionObject, SessionState, no_session, idle, thinking, tool_use, compacting,
}
use claude_dbus.Session.Pending.{
  attention_reasons_value, pending_prompt_value, pending_detail_kind_value,
  pending_detail_text_value, pending_options_value, pending_request_ids_value,
  pending_prompts_value, pending_detail_kinds_value, pending_detail_texts_value,
  pending_options_list_value, pending_option_descriptions_value,
  pending_option_descriptions_list_value,
}

-- `==` of the types of the properties
abbrev pub bool_eq : Bool → Bool → Bool
bool_eq true b = b
bool_eq false b = not b

-- The number of a constructor.
abbrev pub tag : SessionState → ℕ
tag no_session = 0
tag idle = 1
tag thinking = 2
tag tool_use = 3
tag compacting = 4

abbrev pub state_eq : SessionState → SessionState → Bool
state_eq a b = eqb (tag a) (tag b)

abbrev pub texts_eq : List String → List String → Bool
texts_eq [] [] = true
texts_eq [] (y ∷ ys) = false
texts_eq (x ∷ xs) [] = false
texts_eq (x ∷ xs) (y ∷ ys) = x == y && texts_eq xs ys

abbrev pub lists_eq : List (List String) → List (List String) → Bool
lists_eq [] [] = true
lists_eq [] (y ∷ ys) = false
lists_eq (x ∷ xs) [] = false
lists_eq (x ∷ xs) (y ∷ ys) = texts_eq x y && lists_eq xs ys

-- The bits of an `f64` without its sign.
abbrev pub magnitude : F64 → ℕ
magnitude x = x % 9223372036854775808

-- IEEE 754: a NaN, with more bits than an infinity, equals nothing, and the two zeros are equal.
unfoldable pub f64_eq : F64 → F64 → Bool
f64_eq x y =
    not (ltb 9218868437227405312 (magnitude x))
    && not (ltb 9218868437227405312 (magnitude y))
    && (eqb x y || (eqb (magnitude x) 0 && eqb (magnitude y) 0))

pub record SessionSnapshot : Type 0 where
  pub session_id : String
  pub agent_name : String
  pub app_instance_id : String
  pub window_id : String
  pub is_subagent : Bool
  pub parent_session_id : String
  pub agent_nickname : String
  pub agent_role : String
  pub session_title : String
  pub state : SessionState
  pub task_complete : Bool
  pub requires_attention : Bool
  pub attention_reasons : List String
  pub context_pct : F64
  pub model_name : String
  pub reasoning_effort : String
  pub token_usage : TokenUsage
  pub last_token_usage : TokenUsage
  pub usage_epoch : ℕ
  pub usage_revision : ℕ
  pub cwd : String
  pub cost_usd : F64
  pub five_hour_usage_pct : F64
  pub five_hour_resets_at : ℕ
  pub seven_day_usage_pct : F64
  pub seven_day_resets_at : ℕ
  pub pending_prompt : String
  pub pending_detail_kind : String
  pub pending_detail_text : String
  pub pending_options : List String
  pub pending_count : ℕ
  pub pending_request_ids : List String
  pub pending_prompts : List String
  pub pending_detail_kinds : List String
  pub pending_detail_texts : List String
  pub pending_options_list : List (List String)
  pub pending_option_descriptions : List String
  pub pending_option_descriptions_list : List (List String)

unfoldable pub snapshot : SessionObject → SessionSnapshot
snapshot s = record {
  session_id = s.session_id;
  agent_name = s.agent_name;
  app_instance_id = s.app_instance_id;
  window_id = s.window_id;
  is_subagent = s.is_subagent;
  parent_session_id = s.parent_session_id;
  agent_nickname = s.agent_nickname;
  agent_role = s.agent_role;
  session_title = s.session_title;
  state = s.state;
  task_complete = s.task_complete;
  requires_attention = s.requires_attention;
  attention_reasons = attention_reasons_value s;
  context_pct = s.context_pct;
  model_name = s.model_name;
  reasoning_effort = s.reasoning_effort;
  token_usage = s.token_usage;
  last_token_usage = s.last_token_usage;
  usage_epoch = s.usage_epoch;
  usage_revision = s.usage_revision;
  cwd = s.cwd;
  cost_usd = s.cost_usd;
  five_hour_usage_pct = s.five_hour_usage_pct;
  five_hour_resets_at = s.five_hour_resets_at;
  seven_day_usage_pct = s.seven_day_usage_pct;
  seven_day_resets_at = s.seven_day_resets_at;
  pending_prompt = pending_prompt_value s;
  pending_detail_kind = pending_detail_kind_value s;
  pending_detail_text = pending_detail_text_value s;
  pending_options = pending_options_value s;
  pending_count = length s.pending_requests;
  pending_request_ids = pending_request_ids_value s;
  pending_prompts = pending_prompts_value s;
  pending_detail_kinds = pending_detail_kinds_value s;
  pending_detail_texts = pending_detail_texts_value s;
  pending_options_list = pending_options_list_value s;
  pending_option_descriptions = pending_option_descriptions_value s;
  pending_option_descriptions_list = pending_option_descriptions_list_value s;
}

-- The names, in order, of the checks that hold.
abbrev pub emitted : List (Bool × String) → List String
emitted [] = []
emitted ((b, name) ∷ checks) = let rest = emitted checks in if b then name ∷ rest else rest

-- `before` and `after`
unfoldable pub emit_changed_properties : SessionSnapshot → SessionSnapshot → List String
emit_changed_properties b a = emitted (
    (not (b.session_id == a.session_id), "SessionId")
    ∷ (not (b.agent_name == a.agent_name), "AgentName")
    ∷ (not (b.app_instance_id == a.app_instance_id), "AppInstanceId")
    ∷ (not (b.window_id == a.window_id), "WindowId")
    ∷ (not (bool_eq b.is_subagent a.is_subagent), "IsSubagent")
    ∷ (not (b.parent_session_id == a.parent_session_id), "ParentSessionId")
    ∷ (not (b.agent_nickname == a.agent_nickname), "AgentNickname")
    ∷ (not (b.agent_role == a.agent_role), "AgentRole")
    ∷ (not (b.session_title == a.session_title), "SessionTitle")
    ∷ (not (state_eq b.state a.state), "State")
    ∷ (not (bool_eq b.task_complete a.task_complete), "TaskComplete")
    ∷ (not (bool_eq b.requires_attention a.requires_attention), "RequiresAttention")
    ∷ (not (texts_eq b.attention_reasons a.attention_reasons), "AttentionReasons")
    ∷ (not (f64_eq b.context_pct a.context_pct), "ContextPct")
    ∷ (not (b.model_name == a.model_name), "ModelName")
    ∷ (not (b.reasoning_effort == a.reasoning_effort), "ReasoningEffort")
    ∷ (not (Dict.equal b.token_usage a.token_usage), "TokenUsage")
    ∷ (not (Dict.equal b.last_token_usage a.last_token_usage), "LastTokenUsage")
    ∷ (not (eqb b.usage_epoch a.usage_epoch), "UsageEpoch")
    ∷ (not (eqb b.usage_revision a.usage_revision), "UsageRevision")
    ∷ (not (b.cwd == a.cwd), "Cwd")
    ∷ (not (f64_eq b.cost_usd a.cost_usd), "CostUsd")
    ∷ (not (f64_eq b.five_hour_usage_pct a.five_hour_usage_pct), "FiveHourUsagePct")
    ∷ (not (eqb b.five_hour_resets_at a.five_hour_resets_at), "FiveHourResetsAt")
    ∷ (not (f64_eq b.seven_day_usage_pct a.seven_day_usage_pct), "SevenDayUsagePct")
    ∷ (not (eqb b.seven_day_resets_at a.seven_day_resets_at), "SevenDayResetsAt")
    ∷ (not (b.pending_prompt == a.pending_prompt), "PendingPrompt")
    ∷ (not (b.pending_detail_kind == a.pending_detail_kind), "PendingDetailKind")
    ∷ (not (b.pending_detail_text == a.pending_detail_text), "PendingDetailText")
    ∷ (not (texts_eq b.pending_options a.pending_options), "PendingOptions")
    ∷ (not (eqb b.pending_count a.pending_count), "PendingCount")
    ∷ (not (texts_eq b.pending_request_ids a.pending_request_ids), "PendingRequestIds")
    ∷ (not (texts_eq b.pending_prompts a.pending_prompts), "PendingPrompts")
    ∷ (not (texts_eq b.pending_detail_kinds a.pending_detail_kinds), "PendingDetailKinds")
    ∷ (not (texts_eq b.pending_detail_texts a.pending_detail_texts), "PendingDetailTexts")
    ∷ (not (lists_eq b.pending_options_list a.pending_options_list), "PendingOptionsList")
    ∷ (
      not (texts_eq b.pending_option_descriptions a.pending_option_descriptions),
      "PendingOptionDescriptions",
    )
    ∷ (
      not (lists_eq b.pending_option_descriptions_list a.pending_option_descriptions_list),
      "PendingOptionDescriptionsList",
    )
    ∷ [])

-- The signals after an answer or another change of the pending requests.
abbrev pub emit_pending_changed : List String
emit_pending_changed =
    "RequiresAttention" ∷ "AttentionReasons" ∷ "PendingPrompt" ∷ "PendingDetailKind"
    ∷ "PendingDetailText" ∷ "PendingOptions" ∷ "PendingCount" ∷ "PendingRequestIds"
    ∷ "PendingPrompts" ∷ "PendingDetailKinds" ∷ "PendingDetailTexts" ∷ "PendingOptionsList"
    ∷ "PendingOptionDescriptions" ∷ "PendingOptionDescriptionsList" ∷ []
