-- ===== src/Service/Keeps.antt =====
-- Events keep the attention of a session consistent; limits and descriptions touch nothing of it.
use claude_dbus.Prelude.{
  String, ℕ, Option, none, some, Bool, true, false, not, ◌&&◌, ◌==◌, if◌then◌else◌, is_some, arith,
  Bool-cases, inl, inr, ◌or_else◌, ◌>>=◌,
}
use claude_dbus.Json
use claude_dbus.Json.{Value, F64, as_str, as_bool, ◌at◌}
use claude_dbus.Core.{is_opencode_agent}
use claude_dbus.Broker.{RequestBroker}
use claude_dbus.Session.Object.{SessionObject, SessionState, idle, thinking, compacting}
use claude_dbus.Session.Pending.{
  clear_attention_reasons, clear_attention_reason, cancel_pending_requests,
  cancel_pending_requests_for_tool,
}
use claude_dbus.Session.Pending.Attention.{
  IsConsistent, refresh-IsConsistent, set_reason-IsConsistent, cancel_for_tool-IsConsistent,
}
use claude_dbus.Opencode.{apply_telemetry}
use claude_dbus.Opencode.Unchanged.{SameLife, SameLife-trans, telemetry-SameLife}
use claude_dbus.Service.{
  mark_turn_complete, apply_hook_task_complete, with_task_complete, hook_task_complete, hook_state,
  hook_tool_name, apply_transport_metadata,
}
use claude_dbus.Service.Metrics.{
  context_pct, apply_usage_limits, with_context, with_five_hour, with_seven_day, five_hour_limit,
  seven_day_limit,
}
use claude_dbus.Service.Events.{
  Hook, Event, apply_event, transported, limited, described, cleared, on_telemetry, on_update_state,
  with_state, with_cwd, apply_nonblocking_attention, telemetry, update_state, session_start, stop,
  session_end, task_completed, prompt_submit, after_model, gemini_tool, before_tool, after_tool,
  notify, pre_compact, permission, elicitation, attention, resolved, attention_required,
  attention_resolved, unknown,
}

measured-SameLife :
    (s : SessionObject) (c : Option F64) (five seven : Option (F64 × ℕ))
    → SameLife s (with_seven_day seven (with_five_hour five (with_context c s)))
measured-SameLife s c five seven = ground arith

pub limited-SameLife : (h : Hook) (s : SessionObject) → SameLife s (limited h s)
unfolding limited apply_usage_limits
limited-SameLife h s =
    let fallback = if h.agent == "codex" then h.metrics else none in
    let c = context_pct h.data' or_else (fallback >>= λ m. m.context_pct) in
    let five = five_hour_limit h.data' fallback in
    let seven = seven_day_limit h.data' fallback in
    elim (Bool-cases
      (is_opencode_agent h.agent && not (is_some (Json.get h.data' "token_usage")))) [
        | inl e ↦ rw e (
            SameLife-trans (telemetry-SameLife s h.data')
              (measured-SameLife (apply_telemetry s h.data').0 c five seven))
        | inr e ↦ rw e (measured-SameLife s c five seven)
      ]

named-SameLife :
    (s : SessionObject) (model cwd : String)
    → SameLife s (record s { model_name = model; cwd = cwd })
named-SameLife s model cwd = ground arith

pub described-SameLife : (h : Hook) (s : SessionObject) → SameLife s (described h s)
unfolding described
described-SameLife h s = SameLife-trans (named-SameLife s _ _) (limited-SameLife h _)

pub life-IsConsistent : {s s' : SessionObject} → SameLife s s' → IsConsistent s → IsConsistent s'
life-IsConsistent e v = record {
  attention = rw (e.requires_attention, e.pending, e.reasons) v.attention;
  bounded = rw e.pending v.bounded;
}

pub transported-IsConsistent :
    (h : Hook) (s : SessionObject) → IsConsistent s → IsConsistent (transported h s)
unfolding transported apply_transport_metadata
transported-IsConsistent h s v = record { attention = v.attention; bounded = v.bounded }

cleared-IsConsistent : (s : SessionObject) (b : RequestBroker) → IsConsistent (cleared s b).0
unfolding cleared cancel_pending_requests
cleared-IsConsistent s b = refresh-IsConsistent _ (omega arith)

described-IsConsistent :
    (h : Hook) (s : SessionObject) → IsConsistent s → IsConsistent (described h s)
described-IsConsistent h s v = life-IsConsistent (described-SameLife h s) v

set-IsConsistent :
    (s : SessionObject) (state : SessionState) (task : Bool)
    → IsConsistent s
    → IsConsistent (record s { state = state; task_complete = task })
set-IsConsistent s state task v = record { attention = v.attention; bounded = v.bounded }

stated-IsConsistent :
    (s : SessionObject) (state : Option SessionState)
    → IsConsistent s
    → IsConsistent (with_state state s)
stated-IsConsistent s none v = record { attention = v.attention; bounded = v.bounded }
stated-IsConsistent s (some st) v = record { attention = v.attention; bounded = v.bounded }

tasked-IsConsistent :
    (s : SessionObject) (task : Option Bool)
    → IsConsistent s
    → IsConsistent (with_task_complete task s)
unfolding mark_turn_complete
tasked-IsConsistent s none v = v
tasked-IsConsistent s (some true) v = record { attention = v.attention; bounded = v.bounded }
tasked-IsConsistent s (some false) v = record { attention = v.attention; bounded = v.bounded }

pub cwd-SameLife : (s : SessionObject) (cwd : Option String) → SameLife s (with_cwd cwd s)
cwd-SameLife s cwd = ground arith

telemetry-IsConsistent :
    (h : Hook) (s : SessionObject) → IsConsistent s → IsConsistent (on_telemetry h s)
unfolding on_telemetry
telemetry-IsConsistent h s v =
    life-IsConsistent (telemetry-SameLife _ h.data')
      (life-IsConsistent (cwd-SameLife (transported h s) _) (transported-IsConsistent h s v))

update-IsConsistent :
    (h : Hook) (s : SessionObject) → IsConsistent s → IsConsistent (on_update_state h s)
unfolding on_update_state apply_hook_task_complete
update-IsConsistent h s v =
    let t = transported-IsConsistent h s v in
    tasked-IsConsistent _ (hook_task_complete h.data') (
      stated-IsConsistent _ (hook_state h.data') (
        life-IsConsistent (limited-SameLife h _)
          (record { attention = t.attention; bounded = t.bounded })))

attention-IsConsistent :
    (h : Hook) (reason : String) (state : SessionState) (task : Bool) (s : SessionObject)
    → IsConsistent s
    → IsConsistent (apply_nonblocking_attention h reason state task s)
unfolding apply_nonblocking_attention
attention-IsConsistent h reason state task s v =
    described-IsConsistent h _ (set_reason-IsConsistent _ reason (set-IsConsistent s state task v))

resolved-IsConsistent :
    (s : SessionObject) (reason : String)
    → IsConsistent s
    → IsConsistent (clear_attention_reason s reason)
unfolding clear_attention_reason
resolved-IsConsistent s reason v = refresh-IsConsistent _ v.bounded

after_tool-IsConsistent :
    (h : Hook) (t : SessionObject) (b : RequestBroker)
    → IsConsistent t
    → IsConsistent
        (cancel_pending_requests_for_tool (clear_attention_reasons t) (hook_tool_name h.data') b).0
after_tool-IsConsistent h t b v =
    cancel_for_tool-IsConsistent (clear_attention_reasons t) (hook_tool_name h.data') b
      (unfold clear_attention_reasons in refresh-IsConsistent _ v.bounded)

-- Whatever event a hook names, its update keeps a session whose `requires_attention` says whether a
-- request is pending or a reason is set, and whose pending requests are at most four, so.
pub apply_event-IsConsistent :
    (h : Hook) (e : Event) (s : SessionObject) (b : RequestBroker)
    → IsConsistent s
    → IsConsistent (apply_event h e s b).0
unfolding apply_event
apply_event-IsConsistent h e s b v =
    let t' = transported h s in
    let t = transported-IsConsistent h s v in
    let moved : (state : SessionState) → IsConsistent (record (transported h s) { state = state }) =
      λ state. set-IsConsistent (transported h s) state (transported h s).task_complete t in
    elim e as (λ k. IsConsistent (apply_event h k s b).0) [
      | telemetry ↦ telemetry-IsConsistent h s v
      | update_state ↦ update-IsConsistent h s v
      | session_start ↦
          cleared-IsConsistent
            (record (described h (record t' { state = idle })) { task_complete = false }) b
      | stop ↦ described-IsConsistent h _ (cleared-IsConsistent (mark_turn_complete t') b)
      | session_end ↦ v
      | task_completed ↦ cleared-IsConsistent (mark_turn_complete t') b
      | prompt_submit ↦
          described-IsConsistent h _
            (cleared-IsConsistent (record t' { state = thinking; task_complete = false }) b)
      | after_model ↦ described-IsConsistent h _ (moved _)
      | gemini_tool ↦ described-IsConsistent h _ (moved _)
      | before_tool ↦ described-IsConsistent h _ (moved _)
      | after_tool ↦ described-IsConsistent h _ (after_tool-IsConsistent h _ b (moved _))
      | notify ↦ v
      | pre_compact ↦ cleared-IsConsistent (record t' { state = compacting }) b
      | permission ↦ described-IsConsistent h _ t
      | elicitation ↦ t
      | attention reason state task ↦ attention-IsConsistent h reason state task s v
      | resolved reason ↦ resolved-IsConsistent s reason v
      | attention_required ↦ attention-IsConsistent h _ _ _ s v
      | attention_resolved ↦ resolved-IsConsistent s _ v
      | unknown ↦ v
    ]
