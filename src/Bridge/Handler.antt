-- ===== src/Bridge/Handler.antt =====
-- agent-dbus-service/src/service.rs, `handle_hook_connection`: one hook from its arrival to the end of
-- its handler, or to the wait for an answer. `none` stands for a loop that never ends.
mod Prepared
mod Arms
use claude_dbus.Prelude.{
  String, List, [], ◌∷◌, ◌++◌, map, Option, none, some, Bool, true, false, ◌==◌, if◌then◌else◌,
  ◌>>=◌,
}
use claude_dbus.Ended
use claude_dbus.Ended.{ExpiringSessionSet}
use claude_dbus.Permission.{permission_response}
use claude_dbus.Service.Events.{Hook, event_of, telemetry}
use claude_dbus.Locus
use claude_dbus.Bridge.{Bridge, World, Effect, located, wrote, Run}
use claude_dbus.Bridge.Wait.{Waiting, ask, finish}
unfoldable pub use claude_dbus.Bridge.Handler.Prepared.{
  lineage, hook_of, ensure_subagent_identity, session_title, refresh_session_title, prepare,
}
pub use claude_dbus.Bridge.Handler.Prepared.{RawHook, object_of, key_of, titled, with_title}
unfoldable pub use claude_dbus.Bridge.Handler.Arms.{
  usage_report, telemetry_arm, permission_request, elicitation_request, parent_of, notify_arm,
  arm_of,
}
pub use claude_dbus.Bridge.Handler.Arms.{
  Next, Arm, unless_ended, update_arm, report_at, after_removal, stop_arm, permission_next,
  gemini_tool_arm, returns, links, asks,
}

-- The relations are set anew after every event but the end of a session.
unfoldable pub linked : String → Hook → List Effect
linked event h =
    if event == "SessionEnd"
    then []
    else map located (Locus.link_session h.agent h.session_id h.app_instance_id h.window_id)

abbrev pub written : Option String → List Effect
written none = []
written (some text) = wrote text ∷ []

-- What the hook reads: the decision, or the answer itself to a question that gates no tool.
unfoldable pub reply : World → String → Hook → String → List Effect
reply w event h answer =
    if event == "Elicitation"
    then wrote answer ∷ []
    else written (permission_response w.to_string h.agent h.data' answer)

-- A request that nobody was asked has the empty answer.
abbrev pub asked : World → String → Hook → Run × Option Waiting → Run × Option Waiting
asked w event h (run, some wait) = (run, some wait)
asked w event h ((br, effects), none) =
    ((br, effects ++ reply w event h "" ++ linked event h), none)

abbrev pub proceed : World → String → Hook → Run × Next → Run × Option Waiting
proceed w event h (run, returns) = (run, none)
proceed w event h ((br, effects), links) = ((br, effects ++ linked event h), none)
proceed w event h ((br, effects), asks request) =
    let ((br', effects'), wait) = asked w event h (ask w br h request) in
    ((br', effects ++ effects'), wait)

abbrev pub after : List Effect → Run × Option Waiting → Run × Option Waiting
after effects ((br, effects'), wait) = ((br, effects ++ effects'), wait)

-- The handler of a hook that is not late telemetry.
unfoldable pub handle_event : World → Bridge → RawHook → Hook → Option (Run × Option Waiting)
unfolding prepare arm_of linked reply
handle_event w br raw h =
    let (br1, effects) = prepare w br raw h in
    arm_of w br1 raw h (event_of raw.agent raw.event) >>= λ arm.
    some (after effects (proceed w raw.event h arm))

abbrev pub late :
    Bridge
    → ExpiringSessionSet × Bool
    → (Bridge → Option (Run × Option Waiting))
    → Option (Run × Option Waiting)
late br (ended, true) rest = some ((record br { ended = ended }, []), none)
late br (ended, false) rest = rest (record br { ended = ended })

-- `handle_hook_connection`, once the hook is read.
unfoldable pub handle : World → Bridge → RawHook → Option (Run × Option Waiting)
unfolding hook_of handle_event
handle w br raw =
    let rest : Bridge → Option (Run × Option Waiting) =
      λ br'. handle_event w br' raw (hook_of w br' raw) in
    if raw.event == "Telemetry"
    then late br (Ended.contains br.ended (key_of raw) w.now) rest
    else rest br

-- The rest of the handler once the wait is over.
unfoldable pub resume : World → Bridge → RawHook → Hook → Waiting → Run
unfolding linked reply
resume w br raw h wait =
    let ((br', effects), answer) = finish br wait in
    (br', effects ++ reply w raw.event h answer ++ linked raw.event h)
