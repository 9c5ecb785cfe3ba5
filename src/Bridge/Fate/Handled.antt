-- ===== src/Bridge/Fate/Handled.antt =====
-- A handler lets the channels stand, and waits for a new number when it comes to its wait.
use claude_dbus.Prelude.{String, ◌≤◌, ◌<◌, Option, none, some, Bool, true, false, arith}
use claude_dbus.Dict
use claude_dbus.Core.Path.{session_path}
use claude_dbus.Session.Object.{SessionObject}
use claude_dbus.Session.Pending.{push_pending_request}
use claude_dbus.Service.Events.{Hook, transported}
use claude_dbus.Bridge.{Bridge, World, update_session}
use claude_dbus.Bridge.Wait.{
  ElicitationRequest, Waiting, request_id, pending_request, pushed, ask_object, ask,
}
use claude_dbus.Bridge.Fate.{
  Advances, Advances-trans, plain-IsStanding, update_session-Advances, ask-Advances,
}
use claude_dbus.Bridge.Carried.Handled.{IsAsked}

abbrev pub IsNew : Bridge → Bridge → Option Waiting → Type 0
IsNew br br' none = Unit
IsNew br br' (some wait) = (br.next_request ≤ wait.number) × (wait.number < br'.next_request)

-- A handler that comes to its wait.
pushed-IsNew :
    (br : Bridge) (path : String) (request : ElicitationRequest) (p : SessionObject × Bool)
    → let (run, wait) = pushed br path request p in IsNew br run.0 wait
pushed-IsNew br path request (s, true) = (omega arith, omega arith)
pushed-IsNew br path request (s, false) = tt

ask_object-IsNew :
    (br : Bridge) (path : String) (request : ElicitationRequest) (found : Option SessionObject)
    → let (run, wait) = ask_object br path request found in IsNew br run.0 wait
ask_object-IsNew br path request none = tt
ask_object-IsNew br path request (some s) =
    pushed-IsNew br path request
      (push_pending_request s (pending_request (request_id br.next_request) request))

earlier-IsNew :
    (br br1 br' : Bridge) (wait : Option Waiting)
    → Advances br br1
    → IsNew br1 br' wait
    → IsNew br br' wait
earlier-IsNew br br1 br' none a n = tt
earlier-IsNew br br1 br' (some wait) a n = (omega (arith, a.numbers, n.0), n.1)

ask-IsNew :
    (w : World) (br : Bridge) (h : Hook) (request : ElicitationRequest)
    → let (run, wait) = ask w br h request in IsNew br run.0 wait
unfolding ask
ask-IsNew w br h request =
    let br1 = (update_session w br h.agent h.session_id (λ s b. (transported h s, b))).0 in
    let path = session_path h.agent h.session_id in
    let found = Dict.get br1.store path in
    earlier-IsNew br br1 (ask_object br1 path request found).0.0
      (ask_object br1 path request found).1
      (update_session-Advances w br h.agent h.session_id _ (plain-IsStanding (transported h)))
      (ask_object-IsNew br1 path request found)

pub Advances-IsAsked :
    (br0 : Bridge) → IsAsked (Advances br0) (λ br wait. Advances br0 br × IsNew br0 br wait)
Advances-IsAsked br0 = record {
  ended = λ br p. (p, tt);
  waits = λ w br h request p.
      let out = ask w br h request in
      (
        Advances-trans br0 br out.0.0 p (ask-Advances w br h request),
        earlier-IsNew br0 br out.0.0 out.1 p (ask-IsNew w br h request),
      );
}
