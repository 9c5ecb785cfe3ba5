-- ===== src/Bridge/Carried/Handled.antt =====
-- The handler of a hook keeps what its parts keep: up to its end, or up to its wait, where it may
-- wait for an answer that a client is asked for.
use claude_dbus.Prelude.{
  String, Option, none, some, true, false, ◌==◌, Bool, Bool-cases, Option-cases, inl, inr,
}
use claude_dbus.Ended
use claude_dbus.Ended.{ExpiringSessionSet}
use claude_dbus.Service.Events.{Hook, event_of}
use claude_dbus.Bridge.{Bridge, World, Run}
use claude_dbus.Bridge.Wait.{ElicitationRequest, Waiting, ask}
use claude_dbus.Bridge.Handler.{
  RawHook, Next, returns, links, asks, hook_of, prepare, arm_of, key_of, proceed, asked, late,
  handle_event, handle,
}
use claude_dbus.Bridge.Carried.{IsCarried}
use claude_dbus.Bridge.Carried.Arms.{ArmKeeps, prepare-Keeps, arm-Keeps}

-- What holds when a handler has ended, or waits.
pub record IsAsked (P : Bridge → Type 0) (Q : Bridge → Option Waiting → Type 0) : Type 0 where
  pub ended : (br : Bridge) → P br → Q br none
  pub waits :
      (w : World) (br : Bridge) (h : Hook) (request : ElicitationRequest)
      → P br
      → let (run, wait) = ask w br h request in Q run.0 wait

module _ (P : Bridge → Type 0) (Q : Bridge → Option Waiting → Type 0) (k : IsCarried P)
    (a : IsAsked P Q) where
  abbrev pub EndKeeps : Option (Run × Option Waiting) → Type 0
  EndKeeps none = Unit
  EndKeeps (some out) = Q out.0.0 out.1

  asked-Keeps :
      (w : World) (event : String) (h : Hook) (p : Run × Option Waiting)
      → Q p.0.0 p.1
      → EndKeeps (some (asked w event h p))
  asked-Keeps w event h (run, some wait) q = q
  asked-Keeps w event h ((br, effects), none) q = q

  proceed-Keeps :
      (w : World) (event : String) (h : Hook) (p : Run × Next)
      → P p.0.0
      → EndKeeps (some (proceed w event h p))
  proceed-Keeps w event h (run, returns) p = a.ended run.0 p
  proceed-Keeps w event h ((br, effects), links) p = a.ended br p
  proceed-Keeps w event h ((br, effects), asks request) p =
      asked-Keeps w event h (ask w br h request) (a.waits w br h request p)

  handle_event-Keeps :
      (w : World) (br : Bridge) (raw : RawHook) (h : Hook)
      → P br
      → EndKeeps (handle_event w br raw h)
  unfolding handle_event
  handle_event-Keeps w br raw h p =
      let br1 = (prepare w br raw h).0 in
      let e = event_of raw.agent raw.event in
      elim (Option-cases (arm_of w br1 raw h e)) [
        | inl f ↦ rw f tt
        | inr (arm, f) ↦
            let q : ArmKeeps P k (some arm) =
              rw f at (arm-Keeps P k w br1 raw h e (prepare-Keeps P k w br raw h p)) in
            let end = proceed-Keeps w raw.event h arm q in rw f end
      ]

  -- A hook from its arrival to the end of its handler, or to its wait.
  pub handle-Keeps : (w : World) (br : Bridge) (raw : RawHook) → P br → EndKeeps (handle w br raw)
  unfolding handle
  handle-Keeps w br raw p = elim (Bool-cases (raw.event == "Telemetry")) [
    | inl e ↦ rw e (go (Ended.contains br.ended (key_of raw) w.now))
    | inr e ↦ rw e (handle_event-Keeps w br raw (hook_of w br raw) p)
  ]
    where
      go :
          (found : ExpiringSessionSet × Bool)
          → EndKeeps (late br found λ br'. handle_event w br' raw (hook_of w br' raw))
      go (ended, true) = a.ended _ (k.beside br ended br.parents p)
      go (ended, false) = handle_event-Keeps w _ raw _ (k.beside br ended br.parents p)
