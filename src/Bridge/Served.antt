-- ===== src/Bridge/Served.antt =====
-- The handler of a hook returns, and keeps what is true of the state of the service.
use claude_dbus.Prelude.{
  List, [], String, ℕ, ◌≤◌, ◌≡◌, refl, Option, none, some, Bool, true, false, ◌==◌, arith,
  Bool-cases, inl, inr,
}
use claude_dbus.Ended
use claude_dbus.Ended.{ExpiringSessionSet}
use claude_dbus.Ended.Total.{IsCurrent, contains-IsCurrent, remove-IsCurrent}
use claude_dbus.Service.Events.{
  Hook, Event, event_of, telemetry, update_state, session_start, stop, session_end, task_completed,
  prompt_submit, after_model, gemini_tool, before_tool, after_tool, notify, pre_compact, permission,
  elicitation, attention, resolved, attention_required, attention_resolved, unknown,
}
use claude_dbus.Bridge.{Bridge, World, Run, remove_session}
use claude_dbus.Bridge.Wait.{Waiting, ask}
use claude_dbus.Bridge.Handler.{
  RawHook, Next, Arm, returns, links, asks, hook_of, prepare, unless_ended, update_arm,
  telemetry_arm, notify_arm, stop_arm, after_removal, parent_of, arm_of, key_of, proceed, asked,
  after, late, handle_event, handle,
}
use claude_dbus.Bridge.Sound.{IsSound, event-IsSafe}
use claude_dbus.Bridge.Keeps.{update_session-IsSound}
use claude_dbus.Bridge.Removal.{Removed, remove_session_returns}
use claude_dbus.Bridge.Steps.{with_wait, IsSound-later, ended-IsSound, prepare-IsSound, ask-IsSound}

-- An arm ended, with a sound state.
record Armed (owned : List ℕ) (clock : ℕ) (r : Arm) : Type 0 where
  out : Run × Next
  returned : r ≡ some out
  sound : IsSound owned clock out.0.0

armed :
    {owned : List ℕ} {clock : ℕ} (run : Run) (next : Next)
    → IsSound owned clock run.0
    → Armed owned clock (some (run, next))
armed run next v = record { out = (run, next); returned = refl; sound = v }

update-Armed :
    (owned : List ℕ) (clock : ℕ) (w : World) (br : Bridge) (h : Hook) (e : Event) (next : Next)
    → IsSound owned clock br
    → Armed owned clock (update_arm w br h e next)
update-Armed owned clock w br h e next v =
    armed _ next
      (update_session-IsSound owned clock w br h.agent h.session_id _ (event-IsSafe h e) v)

unless_ended-Armed :
    (owned : List ℕ) (clock clock' : ℕ) (br : Bridge) (found : ExpiringSessionSet × Bool)
    (rest : Bridge → Arm)
    → clock ≤ clock'
    → IsCurrent clock found.0
    → IsSound owned clock br
    → ((br' : Bridge) → IsSound owned clock br' → Armed owned clock' (rest br'))
    → Armed owned clock' (unless_ended br found rest)
unless_ended-Armed owned clock clock' br (ended, true) rest h c v k =
    armed (record br { ended = ended }, []) returns
      (IsSound-later owned clock clock' _ h (ended-IsSound owned clock br ended c v))
unless_ended-Armed owned clock clock' br (ended, false) rest h c v k =
    k _ (ended-IsSound owned clock br ended c v)

removal-Armed :
    {owned : List ℕ} {clock : ℕ} (next : Next) (r : Option Run)
    → Removed owned clock r
    → Armed owned clock (after_removal next r)
removal-Armed next r d = record {
  out = (d.run, next);
  returned = rw d.returned refl;
  sound = d.sound;
}

-- A step of the service that starts at a time and ends at a later one.
pub record IsTimely (clock : ℕ) (w : World) (clock' : ℕ) : Type 0 where
  pub starts : clock ≤ w.ended_at
  pub ends : w.ended_at ≤ clock'

module _ (owned : List ℕ) (clock clock' : ℕ) (w : World) (t : IsTimely clock w clock') where
  passes : clock ≤ clock'
  passes = omega (arith, t.starts, t.ends)

  removed :
      (br : Bridge) (h : Hook) (next : Next)
      → IsSound owned clock br
      → Armed owned clock' (after_removal next (remove_session w br h.agent h.session_id))
  removed br h next v =
      removal-Armed next _
        (remove_session_returns owned clock clock' w br h.agent h.session_id t.starts t.ends v)

  stop-Armed :
      (br : Bridge) (h : Hook) (parent : Option String)
      → IsSound owned clock br
      → Armed owned clock' (stop_arm w br h parent)
  stop-Armed br h (some parent) v = removed br h returns v
  stop-Armed br h none v =
      update-Armed owned clock' w br h stop links (IsSound-later owned clock clock' br passes v)

  arm-Armed :
      (br : Bridge) (raw : RawHook) (h : Hook) (e : Event)
      → IsSound owned clock br
      → Armed owned clock' (arm_of w br raw h e)
  unfolding arm_of telemetry_arm notify_arm
  arm-Armed br raw h e v =
      let v' = IsSound-later owned clock clock' br passes v in
      elim e as (λ k. Armed owned clock' (arm_of w br raw h k)) [
        | telemetry ↦ armed _ links (
            update_session-IsSound owned clock' w br h.agent h.session_id _
              (event-IsSafe h telemetry) v')
        | update_state ↦
            unless_ended-Armed owned clock clock' br (Ended.remove br.ended (key_of raw) w.now) _
              passes (remove-IsCurrent clock w.now br.ended (key_of raw) v.tombstones) v
              λ br' u.
                update-Armed owned clock' w br' h update_state links
                  (IsSound-later owned clock clock' br' passes u)
        | session_start ↦
            unless_ended-Armed owned clock clock' br (Ended.contains br.ended (key_of raw) w.now) _
              passes (contains-IsCurrent clock w.now br.ended (key_of raw) v.tombstones) v
              λ br' u.
                update-Armed owned clock' w br' h session_start links
                  (IsSound-later owned clock clock' br' passes u)
        | stop ↦
            unless_ended-Armed owned clock clock' br (Ended.contains br.ended (key_of raw) w.now) _
              passes (contains-IsCurrent clock w.now br.ended (key_of raw) v.tombstones) v
              λ br' u. stop-Armed br' h (parent_of w br' raw) u
        | session_end ↦ removed br h links v
        | task_completed ↦ update-Armed owned clock' w br h task_completed links v'
        | prompt_submit ↦ update-Armed owned clock' w br h prompt_submit links v'
        | after_model ↦ update-Armed owned clock' w br h after_model links v'
        | gemini_tool ↦ update-Armed owned clock' w br h gemini_tool _ v'
        | before_tool ↦ update-Armed owned clock' w br h before_tool links v'
        | after_tool ↦ update-Armed owned clock' w br h after_tool links v'
        | notify ↦ armed (br, _) links v'
        | pre_compact ↦ update-Armed owned clock' w br h pre_compact links v'
        | permission ↦ update-Armed owned clock' w br h permission _ v'
        | elicitation ↦ armed (br, []) _ v'
        | attention reason state task ↦
            update-Armed owned clock' w br h (attention reason state task) links v'
        | resolved reason ↦ update-Armed owned clock' w br h (resolved reason) links v'
        | attention_required ↦ update-Armed owned clock' w br h attention_required links v'
        | attention_resolved ↦ update-Armed owned clock' w br h attention_resolved links v'
        | unknown ↦ armed (br, []) links v'
      ]

-- A handler ended or waits, with a sound state.
pub record Served (owned : List ℕ) (clock : ℕ) (r : Option (Run × Option Waiting)) : Type 0 where
  pub outcome : Run × Option Waiting
  pub returned : r ≡ some outcome
  pub sound : IsSound (with_wait outcome.1 owned) clock outcome.0.0

asked-IsSound :
    (owned : List ℕ) (clock : ℕ) (w : World) (event : String) (h : Hook) (p : Run × Option Waiting)
    → IsSound (with_wait p.1 owned) clock p.0.0
    → let (run, wait) = asked w event h p in IsSound (with_wait wait owned) clock run.0
asked-IsSound owned clock w event h (run, some wait) v = v
asked-IsSound owned clock w event h ((br, effects), none) v = v

proceed-IsSound :
    (owned : List ℕ) (clock : ℕ) (w : World) (event : String) (h : Hook) (p : Run × Next)
    → IsSound owned clock p.0.0
    → let (run, wait) = proceed w event h p in IsSound (with_wait wait owned) clock run.0
proceed-IsSound owned clock w event h (run, returns) v = v
proceed-IsSound owned clock w event h ((br, effects), links) v = v
proceed-IsSound owned clock w event h ((br, effects), asks request) v =
    asked-IsSound owned clock w event h (ask w br h request)
      (ask-IsSound owned clock w br h request v)

module _ (owned : List ℕ) (clock clock' : ℕ) (w : World) (t : IsTimely clock w clock')
    (raw : RawHook) where
  handle_event-Served :
      (br : Bridge) (h : Hook)
      → IsSound owned clock br
      → Served owned clock' (handle_event w br raw h)
  unfolding handle_event
  handle_event-Served br h v =
      let (br1, effects) = prepare w br raw h in
      let a =
        arm-Armed owned clock clock' w t br1 raw h (event_of raw.agent raw.event)
          (prepare-IsSound owned clock w br raw h v) in
      record {
        outcome = after effects (proceed w raw.event h a.out);
        returned = rw a.returned refl;
        sound = proceed-IsSound owned clock' w raw.event h a.out a.sound;
      }

  late-Served :
      (br : Bridge) (found : ExpiringSessionSet × Bool)
      (rest : Bridge → Option (Run × Option Waiting))
      → IsCurrent clock found.0
      → IsSound owned clock br
      → ((br' : Bridge) → IsSound owned clock br' → Served owned clock' (rest br'))
      → Served owned clock' (late br found rest)
  late-Served br (ended, true) rest c v k = record {
    outcome = ((record br { ended = ended }, []), none);
    returned = refl;
    sound =
        IsSound-later owned clock clock' _ (omega (arith, t.starts, t.ends))
          (ended-IsSound owned clock br ended c v);
  }
  late-Served br (ended, false) rest c v k = k _ (ended-IsSound owned clock br ended c v)

  -- The handler of a hook ends or comes to its wait, whatever the hook holds, and leaves a sound
  -- state.
  pub handle-Served : (br : Bridge) → IsSound owned clock br → Served owned clock' (handle w br raw)
  unfolding handle
  handle-Served br v =
      let rest : (br' : Bridge)
          → IsSound owned clock br'
          → Served owned clock' (handle_event w br' raw (hook_of w br' raw)) =
        λ br' u. handle_event-Served br' (hook_of w br' raw) u in
      elim (Bool-cases (raw.event == "Telemetry")) [
        | inl e ↦ rw e (
            late-Served br (Ended.contains br.ended (key_of raw) w.now) _
              (contains-IsCurrent clock w.now br.ended (key_of raw) v.tombstones) v rest)
        | inr e ↦ rw e (rest br v)
      ]
