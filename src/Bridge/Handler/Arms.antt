-- ===== src/Bridge/Handler/Arms.antt =====
-- agent-dbus-service/src/service.rs, `handle_hook_connection`: the arms of the `match` on the event.
use claude_dbus.Prelude.{
  String, List, [], ◌∷◌, map, Option, none, some, Bool, true, false, ◌==◌, if◌then◌else◌, unwrap_or,
  ◌>>=◌, ◌or_else◌,
}
use claude_dbus.Json.{Value, as_str, ◌at◌}
use claude_dbus.Core.Path.{session_path}
use claude_dbus.Core.Telemetry.{UsageReport}
use claude_dbus.Ended
use claude_dbus.Ended.{ExpiringSessionSet}
use claude_dbus.Agents.{subagent_parent_session_id}
use claude_dbus.Opencode.{apply_telemetry}
use claude_dbus.Permission.{build_permission_options}
use claude_dbus.Permission.Describe.{build_permission_option_descriptions}
use claude_dbus.Permission.Elicitation.{build_elicitation_options}
use claude_dbus.Permission.Prompt.{build_permission_prompt, build_permission_detail}
use claude_dbus.Permission.Review.{should_defer_permission_to_auto_review}
use claude_dbus.Service.{hook_tool_name}
use claude_dbus.Service.Events.{
  Hook, Event, apply_event, transported, with_cwd, telemetry, update_state, session_start, stop,
  session_end, task_completed, prompt_submit, after_model, gemini_tool, before_tool, after_tool,
  notify, pre_compact, permission, elicitation, attention, resolved, attention_required,
  attention_resolved, unknown,
}
use claude_dbus.Bus.Store.{session_exists}
use claude_dbus.Bridge.{
  Bridge, World, Effect, reported, notified, Run, ◌and_then◌, subject, update_session,
  remove_session,
}
use claude_dbus.Bridge.Wait.{ElicitationRequest}
use claude_dbus.Bridge.Handler.Prepared.{RawHook, object_of, key_of, lineage}

-- How an arm of the `match` ends: it returns from the handler, goes on to link the session, or first
-- asks the user.
pub data Next : Type 0 where
  returns : Next
  links : Next
  asks : ElicitationRequest → Next

abbrev pub Arm : Type 0
Arm = Option (Run × Next)

-- Ended sessions go no further.
abbrev pub unless_ended : Bridge → ExpiringSessionSet × Bool → (Bridge → Arm) → Arm
unless_ended br (ended, true) rest = some ((record br { ended = ended }, []), returns)
unless_ended br (ended, false) rest = rest (record br { ended = ended })

abbrev pub update_arm : World → Bridge → Hook → Event → Next → Arm
update_arm w br h e next = some (update_session w br h.agent h.session_id (apply_event h e), next)

-- The report of `opencode::apply_telemetry`, on the object that the closure gets.
unfoldable pub usage_report : Bridge → Hook → Option UsageReport
usage_report br h =
    let s = transported h (subject br.store h.agent h.session_id) in
    let cwd = as_str (h.data' at "cwd") >>= λ cwd. if cwd == "" then none else some cwd in
    (apply_telemetry (with_cwd cwd s) h.data').1

abbrev pub report_at : String → Option UsageReport → List Effect
report_at path none = []
report_at path (some report) = reported path report ∷ []

unfoldable pub telemetry_arm : World → Bridge → Hook → Arm
unfolding usage_report
telemetry_arm w br h =
    let path = session_path h.agent h.session_id in
    some (
      update_session w br h.agent h.session_id (apply_event h telemetry) and_then λ br'.
          (br', if session_exists br'.store path then report_at path (usage_report br h) else []),
      links,
    )

unfoldable pub permission_request : World → Value → ElicitationRequest
permission_request w v =
    let options = build_permission_options v in
    let detail = build_permission_detail w.to_string w.to_string_pretty v in
    record {
      tool_name = hook_tool_name v;
      prompt = build_permission_prompt w.to_string w.to_string_pretty v;
      detail_kind = detail.kind;
      detail_text = detail.text;
      options = options;
      option_descriptions = build_permission_option_descriptions w.to_string v options;
    }

unfoldable pub elicitation_request : Value → ElicitationRequest
elicitation_request v = record {
  tool_name = "";
  prompt =
      unwrap_or (as_str (v at "elicitation" at "message") or_else as_str (v at "message"))
        "Agent needs input";
  detail_kind = "";
  detail_text = "";
  options = build_elicitation_options v;
  option_descriptions = map (λ _. "") (build_elicitation_options v);
}

abbrev pub after_removal : Next → Option Run → Arm
after_removal next run = run >>= λ r. some (r, next)

-- `parent` is the parent of a subagent.
abbrev pub stop_arm : World → Bridge → Hook → Option String → Arm
stop_arm w br h (some parent) = after_removal returns (remove_session w br h.agent h.session_id)
stop_arm w br h none = update_arm w br h stop links

unfoldable pub parent_of : World → Bridge → RawHook → Option String
parent_of w br raw =
    (lineage w raw >>= λ info. some info.parent_session_id)
    or_else subagent_parent_session_id (object_of br raw)

unfoldable pub notify_arm : Bridge → Hook → Arm
notify_arm br h =
    let path = session_path h.agent h.session_id in
    let message = unwrap_or (as_str (h.data' at "message")) "" in
    some ((br, if session_exists br.store path then notified path message ∷ [] else []), links)

abbrev pub permission_next : World → Hook → Next
permission_next w h =
    if should_defer_permission_to_auto_review w.codex_config h.agent h.data'
    then returns
    else asks (permission_request w h.data')

-- Gemini asks for a permission before a tool runs.
abbrev pub gemini_tool_arm : World → Bridge → Hook → Arm
gemini_tool_arm w br h = update_arm w br h gemini_tool (asks (permission_request w h.data'))

-- The `match` on the event.
unfoldable pub arm_of : World → Bridge → RawHook → Hook → Event → Arm
unfolding telemetry_arm permission_request elicitation_request parent_of notify_arm
arm_of w br raw h telemetry = telemetry_arm w br h
arm_of w br raw h update_state =
    unless_ended br (Ended.remove br.ended (key_of raw) w.now)
      λ br'. update_arm w br' h update_state links
arm_of w br raw h session_start =
    unless_ended br (Ended.contains br.ended (key_of raw) w.now)
      λ br'. update_arm w br' h session_start links
arm_of w br raw h stop =
    unless_ended br (Ended.contains br.ended (key_of raw) w.now)
      λ br'. stop_arm w br' h (parent_of w br' raw)
arm_of w br raw h session_end = after_removal links (remove_session w br h.agent h.session_id)
arm_of w br raw h task_completed = update_arm w br h task_completed links
arm_of w br raw h prompt_submit = update_arm w br h prompt_submit links
arm_of w br raw h after_model = update_arm w br h after_model links
arm_of w br raw h gemini_tool = gemini_tool_arm w br h
arm_of w br raw h before_tool = update_arm w br h before_tool links
arm_of w br raw h after_tool = update_arm w br h after_tool links
arm_of w br raw h notify = notify_arm br h
arm_of w br raw h pre_compact = update_arm w br h pre_compact links
arm_of w br raw h permission = update_arm w br h permission (permission_next w h)
arm_of w br raw h elicitation = some ((br, []), asks (elicitation_request h.data'))
arm_of w br raw h (attention reason state task_complete) =
    update_arm w br h (attention reason state task_complete) links
arm_of w br raw h (resolved reason) = update_arm w br h (resolved reason) links
arm_of w br raw h attention_required = update_arm w br h attention_required links
arm_of w br raw h attention_resolved = update_arm w br h attention_resolved links
arm_of w br raw h unknown = some ((br, []), links)
