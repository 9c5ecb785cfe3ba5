-- ===== src/Tests/Shown.antt =====
-- A permission request on the bus, and a client that answers it.
use claude_dbus.Prelude.{String, ◌≡◌, refl, List, ◌∷◌, ◌++◌, some, true, mem, unwrap_or}
use claude_dbus.Dict
use claude_dbus.Core.Path.{session_path}
use claude_dbus.Text.{hex_digit}
use claude_dbus.Decimal.{print, print_loop}
use claude_dbus.Session.Object.{SessionObject, new}
use claude_dbus.Session.Pending.{
  pending_request_ids_value, refresh_requires_attention, push_pending_request,
}
use claude_dbus.Bus.Store
use claude_dbus.Json
use claude_dbus.Agents.{hook_subagent_info, codex_subagent_info, opencode_subagent_info}
use claude_dbus.Permission.Review.{should_defer_permission_to_auto_review}
use claude_dbus.Service.{hook_session_title}
use claude_dbus.Service.Events.{event_of, transported, apply_event, described}
use claude_dbus.Bridge.{pending_changed, maybe_watch_parent, update_session, dbus_update}
use claude_dbus.Bridge.Wait.{request_id, ask}
use claude_dbus.Bridge.Handler.{handle, hook_of, resume, reply, linked}
use claude_dbus.Bridge.System.{Held, start, answers}
use claude_dbus.Bridge.Fate.Spec.{fate, now}
use claude_dbus.Bridge.Fate.Desk.{Allows, deed}
use claude_dbus.Bridge.Fate.Serves.{Step-Allows}
use claude_dbus.Bridge.Shown.Keeps.{IsShown}
use claude_dbus.Bridge.Shown.Reached.{homes, Reachable-IsShown}
use claude_dbus.Bridge.Shown.Heard.{after_answer, shown_answered}
use claude_dbus.Tests.Bridge.{world, one, waits}

Reachable-IsShown_example : IsShown (homes one.held) one.bridge
Reachable-IsShown_example = Reachable-IsShown one waits

abbrev path : String
path = session_path "claude" "s"

abbrev object : SessionObject
object = unwrap_or (Dict.get one.bridge.store path) (new "claude" "s")

there : Dict.get one.bridge.store path ≡ some object
unfolding handle start event_of hook_of Dict.get Dict.insert update_session dbus_update
    Store.update_session session_path push_pending_request transported ask
    should_defer_permission_to_auto_review maybe_watch_parent hook_session_title Json.get
    hook_subagent_info codex_subagent_info opencode_subagent_info Store.updated apply_event
    described Json.is_object Json.◌at◌ Json.as_f64
there = refl

shows : mem "req-1" (pending_request_ids_value object) ≡ true
unfolding handle start event_of hook_of Dict.get Dict.insert update_session dbus_update
    Store.update_session session_path push_pending_request transported ask pending_request_ids_value
    print print_loop hex_digit refresh_requires_attention should_defer_permission_to_auto_review
    maybe_watch_parent hook_session_title Json.get hook_subagent_info codex_subagent_info
    opencode_subagent_info Store.updated apply_event described Json.is_object Json.◌at◌ Json.as_f64
shows = refl

Step-Allows_example :
    Allows
      (deed (answers {s = one} path (some "req-1") "Allow"))
      (fate one)
      (fate (after_answer one path "req-1" "Allow"))
Step-Allows_example =
    Step-Allows one (after_answer one path "req-1" "Allow")
      (answers {s = one} path (some "req-1") "Allow") waits

shown_answered_example :
    (x : Held) × (earlier : List Held) × (later : List Held) × (one.held ≡ earlier ++ (x ∷ later))
    × (x.wait.path ≡ path)
    × (request_id x.wait.number ≡ "req-1")
    × ((resume (world 3) (after_answer one path "req-1" "Allow").bridge x.raw x.hook x.wait).1
        ≡ pending_changed path
          ∷ (reply (world 3) x.raw.event x.hook "Allow" ++ linked x.raw.event x.hook))
shown_answered_example =
    shown_answered (world 3) one (after_answer one path "req-1" "Allow") path "req-1" "Allow" object
      waits there shows (λ e. cc e) now
