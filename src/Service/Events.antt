-- ===== src/Service/Events.antt =====
-- agent-dbus-service/src/service.rs, `handle_hook_connection`: which event a hook names, and how
-- the event updates its session. The closures that `update_session` runs are functions here.
use claude_dbus.Prelude.{
  String, List, [], ◌∷◌, Option, none, some, Bool, true, false, ◌&&◌, ◌==◌, if◌then◌else◌,
  unwrap_or, filter_option, not, ◌or_else◌,
}
use claude_dbus.Json.{Value, as_str, as_bool, as_f64, ◌at◌}
use claude_dbus.Core.{is_gemini_agent, is_opencode_agent}
use claude_dbus.Broker.{RequestBroker}
use claude_dbus.Session.Object.{
  SessionObject, SessionState, no_session, idle, thinking, tool_use, compacting,
}
use claude_dbus.Session.Pending.{
  cancel_pending_requests, cancel_pending_requests_for_tool, set_attention_reason,
  clear_attention_reason, clear_attention_reasons,
}
use claude_dbus.Opencode.{apply_telemetry}
use claude_dbus.Service.{
  one_of, model_name, hook_tool_name, hook_state, attention_reason, attention_state,
  mark_turn_complete, apply_hook_task_complete, apply_transport_metadata,
}
use claude_dbus.Service.Metrics.{CodexSessionMetrics, context_pct, apply_usage_limits}

-- The arms of the `match` on the event.
pub data Event : Type 0 where
  telemetry update_state session_start stop session_end task_completed prompt_submit : Event
  after_model gemini_tool before_tool after_tool notify pre_compact permission elicitation : Event
  attention : String → SessionState → Bool → Event
  resolved : String → Event
  attention_required attention_resolved unknown : Event

-- The arms that `apply_attention_event` and `clear_attention_event` stand for, and the general ones.
abbrev pub approval_events : List (String × Event)
approval_events =
    ("ExecApprovalRequest", attention "exec-approval" thinking false)
    ∷ ("ExecApprovalResolved", resolved "exec-approval")
    ∷ ("ApplyPatchApprovalRequest", attention "apply-patch-approval" thinking false)
    ∷ ("ApplyPatchApprovalResolved", resolved "apply-patch-approval")
    ∷ ("RequestPermissions", attention "request-permissions" thinking false)
    ∷ ("RequestPermissionsResolved", resolved "request-permissions")
    ∷ ("McpServerElicitationRequest", attention "mcp-server-elicitation" thinking false)
    ∷ ("McpServerElicitationResolved", resolved "mcp-server-elicitation")
    ∷ ("AttentionRequired", attention_required)
    ∷ ("AttentionResolved", attention_resolved)
    ∷ []

abbrev pub attention_events : List (String × Event)
attention_events =
    ("RequestUserInput", attention "request-user-input" thinking false)
    ∷ ("RequestUserInputResolved", resolved "request-user-input")
    ∷ ("PlanModePrompt", attention "plan-mode-prompt" idle true)
    ∷ ("PlanModePromptResolved", resolved "plan-mode-prompt")
    ∷ ("AgentTurnCompleteAttention", attention "agent-turn-complete" idle true)
    ∷ ("AgentTurnCompleteAttentionResolved", resolved "agent-turn-complete")
    ∷ ("ToolSuggestion", attention "tool-suggestion" idle false)
    ∷ ("ToolSuggestionResolved", resolved "tool-suggestion")
    ∷ approval_events

abbrev pub listed : List (String × Event) → String → Event
listed [] name = unknown
listed ((n, e) ∷ events) name = if name == n then e else listed events name

-- The arms in the order of the source, with their guards on the agent.
unfoldable pub event_of : String → String → Event
event_of agent name =
    if name == "Telemetry" && is_opencode_agent agent
    then telemetry
    else if name == "UpdateState"
    then update_state
    else if name == "SessionStart"
    then session_start
    else if one_of name ("Stop" ∷ "AfterAgent" ∷ [])
    then stop
    else if name == "SessionEnd"
    then session_end
    else if name == "TaskCompleted"
    then task_completed
    else if one_of name
        ("UserPromptSubmit" ∷ "BeforeAgent" ∷ "BeforeModel" ∷ "BeforeToolSelection" ∷ [])
    then prompt_submit
    else if name == "AfterModel"
    then after_model
    else if name == "BeforeTool" && is_gemini_agent agent
    then gemini_tool
    else if one_of name ("PreToolUse" ∷ "BeforeTool" ∷ [])
    then before_tool
    else if one_of name ("PostToolUse" ∷ "AfterTool" ∷ [])
    then after_tool
    else if one_of name ("Notify" ∷ "Notification" ∷ [])
    then notify
    else if one_of name ("PreCompact" ∷ "PreCompress" ∷ [])
    then pre_compact
    else if name == "PermissionRequest"
    then permission
    else if name == "Elicitation"
    then elicitation
    else listed attention_events name

-- What the handler knows when it reaches the `match`: the transport metadata are those of
-- `transport_metadata_for_hook`, and `metrics` is the answer of `codex_session_metrics`.
pub record Hook : Type 0 where
  pub agent : String
  pub session_id : String
  pub app_instance_id : Option String
  pub window_id : Option String
  pub data' : Value
  pub metrics : Option CodexSessionMetrics

unfoldable pub transported : Hook → SessionObject → SessionObject
unfolding apply_transport_metadata
transported h s = apply_transport_metadata s h.session_id h.app_instance_id h.window_id

unfoldable pub limited : Hook → SessionObject → SessionObject
unfolding apply_usage_limits
limited h s = apply_usage_limits s h.agent h.metrics h.data'

-- The last three steps of most arms.
unfoldable pub described : Hook → SessionObject → SessionObject
unfolding limited model_name
described h s =
    limited h
      (record s { model_name = model_name h.data'; cwd = unwrap_or (as_str (h.data' at "cwd")) "" })

abbrev pub with_cwd : Option String → SessionObject → SessionObject
with_cwd none s = s
with_cwd (some cwd) s = record s { cwd = cwd }

unfoldable pub on_telemetry : Hook → SessionObject → SessionObject
unfolding transported
on_telemetry h s =
    (apply_telemetry
      (with_cwd (filter_option (λ cwd. not (cwd == "")) (as_str (h.data' at "cwd")))
        (transported h s))
      h.data').0

abbrev pub with_state : Option SessionState → SessionObject → SessionObject
with_state (some state) s = record s { state = state }
with_state none s = record s {
  state = elim s.state [
    | no_session ↦ idle
    | idle ↦ idle
    | thinking ↦ thinking
    | tool_use ↦ tool_use
    | compacting ↦ compacting
  ];
}

unfoldable pub on_update_state : Hook → SessionObject → SessionObject
unfolding transported limited context_pct hook_state apply_hook_task_complete
on_update_state h s =
    let t = transported h s in
    apply_hook_task_complete
      (with_state (hook_state h.data') (
        limited h (record t {
          context_pct = unwrap_or (context_pct h.data') t.context_pct;
          model_name =
              unwrap_or
                (as_str (h.data' at "model" at "display_name") or_else as_str (h.data' at "model"))
                "unknown";
          cwd = unwrap_or (as_str (h.data' at "cwd")) "";
          cost_usd = unwrap_or (as_f64 (h.data' at "cost" at "total_cost_usd")) 0;
        })))
      h.data'

-- `clear_pending_and_attention`
unfoldable pub cleared : SessionObject → RequestBroker → SessionObject × RequestBroker
unfolding cancel_pending_requests
cleared s b = let (s', n, b') = cancel_pending_requests s b in (s', b')

unfoldable pub apply_nonblocking_attention :
    Hook → String → SessionState → Bool → SessionObject → SessionObject
unfolding set_attention_reason described
apply_nonblocking_attention h reason state task_complete s =
    described h
      (set_attention_reason (record s { state = state; task_complete = task_complete }) reason)

abbrev pub on_session_start : Hook → SessionObject → RequestBroker → SessionObject × RequestBroker
on_session_start h s b =
    cleared
      (record (described h (record (transported h s) { state = idle })) { task_complete = false }) b

-- The session of a top-level agent; that of a subagent is removed.
abbrev pub on_stop : Hook → SessionObject → RequestBroker → SessionObject × RequestBroker
on_stop h s b =
    let (s', b') = cleared (mark_turn_complete (transported h s)) b in (described h s', b')

abbrev pub on_task_completed : Hook → SessionObject → RequestBroker → SessionObject × RequestBroker
on_task_completed h s b = cleared (mark_turn_complete (transported h s)) b

abbrev pub on_prompt : Hook → SessionObject → RequestBroker → SessionObject × RequestBroker
on_prompt h s b =
    let (s', b') =
      cleared (record (transported h s) { state = thinking; task_complete = false }) b in
    (described h s', b')

abbrev pub on_after_model : Hook → SessionObject → SessionObject
on_after_model h s = described h (record (transported h s) { state = thinking })

-- Gemini's `BeforeTool`, which goes on to ask for a permission.
abbrev pub on_gemini_tool : Hook → SessionObject → SessionObject
on_gemini_tool h s = described h (record (transported h s) { state = tool_use })

-- The update before a tool of another agent runs.
abbrev pub on_before_tool : Hook → SessionObject → SessionObject
on_before_tool h s = described h (record (transported h s) { state = tool_use })

abbrev pub on_after_tool : Hook → SessionObject → RequestBroker → SessionObject × RequestBroker
on_after_tool h s b =
    let t = clear_attention_reasons (record (transported h s) { state = thinking }) in
    let (s', n, b') = cancel_pending_requests_for_tool t (hook_tool_name h.data') b in
    (described h s', b')

abbrev pub on_compact : Hook → SessionObject → RequestBroker → SessionObject × RequestBroker
on_compact h s b = cleared (record (transported h s) { state = compacting }) b

-- The update before the client is asked.
abbrev pub on_permission : Hook → SessionObject → SessionObject
on_permission h s = described h (transported h s)

abbrev pub on_attention_required : Hook → SessionObject → SessionObject
on_attention_required h s =
    apply_nonblocking_attention h (attention_reason h.data')
      (unwrap_or (attention_state h.data') idle)
      (unwrap_or (as_bool (h.data' at "task_complete")) s.task_complete) s

-- The session and the broker after the update of an event; the arms that run none leave them.
unfoldable pub apply_event :
    Hook → Event → SessionObject → RequestBroker → SessionObject × RequestBroker
apply_event h telemetry s b = (on_telemetry h s, b)
apply_event h update_state s b = (on_update_state h s, b)
apply_event h session_start s b = on_session_start h s b
apply_event h stop s b = on_stop h s b
apply_event h session_end s b = (s, b)
apply_event h task_completed s b = on_task_completed h s b
apply_event h prompt_submit s b = on_prompt h s b
apply_event h after_model s b = (on_after_model h s, b)
apply_event h gemini_tool s b = (on_gemini_tool h s, b)
apply_event h before_tool s b = (on_before_tool h s, b)
apply_event h after_tool s b = on_after_tool h s b
apply_event h notify s b = (s, b)
apply_event h pre_compact s b = on_compact h s b
apply_event h permission s b = (on_permission h s, b)
apply_event h elicitation s b = (transported h s, b)
apply_event h (attention reason state task_complete) s b =
    (apply_nonblocking_attention h reason state task_complete s, b)
apply_event h (resolved reason) s b = (clear_attention_reason s reason, b)
apply_event h attention_required s b = (on_attention_required h s, b)
apply_event h attention_resolved s b = (clear_attention_reason s (attention_reason h.data'), b)
apply_event h unknown s b = (s, b)
