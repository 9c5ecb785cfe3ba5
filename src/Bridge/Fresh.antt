-- ===== src/Bridge/Fresh.antt =====
-- A new request takes the place of no other.
use text.Mathlib.TextLemmas.{append_cancel_left}
use claude_dbus.Prelude.{
  String, ℕ, List, ◌≡◌, refl, ap, ◌∙◌, Option, none, some, Bool, true, false, ◌==◌, ==_ne, eqb,
  arith, Option-cases, Bool-cases, inl, inr,
}
use claude_dbus.Dict
use claude_dbus.Dict.Laws.{get-insert, get-remove, get-insert_self}
use claude_dbus.Decimal.{print}
use claude_dbus.Decimal.Roundtrip.{print_injective}
use claude_dbus.Core.Path.{session_path}
use claude_dbus.Broker
use claude_dbus.Broker.{RequestBroker}
use claude_dbus.Session.Object.{SessionObject}
use claude_dbus.Session.Pending.{push_pending_request}
use claude_dbus.Service.Events.{Hook, transported}
use claude_dbus.Bridge.{Bridge, World, update_session, update_hook, dbus_update}
use claude_dbus.Bridge.Wait.{
  ElicitationRequest, request_id, pending_request, registered, pushed, ask_object, ask,
}
use claude_dbus.Bridge.Sound.{AllOwned, IsSound}

pub request_id_injective : (m n : ℕ) → request_id m ≡ request_id n → m ≡ n
request_id_injective m n e = print_injective m n (append_cancel_left "req-" (print m) (print n) e)

-- A registered request and its channel, as they were.
abbrev pub IsUntouched : RequestBroker → RequestBroker → String → ℕ → Type 0
IsUntouched b b' id n = (Dict.get b'.inner id ≡ some n) × (b'.channels n ≡ b.channels n)

-- The id of the next request is not in use.
fresh :
    (owned : List ℕ) (b : RequestBroker) (next : ℕ)
    → AllOwned owned b next
    → Dict.get b.inner (request_id next) ≡ none
fresh owned b next all = elim (Option-cases (Dict.get b.inner (request_id next))) [
  | inl e ↦ e
  | inr (tx, e) ↦
      let old = all (request_id next) tx e in
      let same = request_id_injective next tx old.1 in absurd (omega (arith, old.0, same))
]

registered-IsUntouched :
    (owned : List ℕ) (b : RequestBroker) (next : ℕ) (id : String) (n : ℕ)
    → AllOwned owned b next
    → Dict.get b.inner id ≡ some n
    → IsUntouched b (registered b next) id n
unfolding Broker.register Broker.drop_sender
registered-IsUntouched owned b next id n all h =
    let f = fresh owned b next all in
    let old = all id n h in
    let other : eqb next n ≡ false = ground (arith, old.0) in
    let mine : (request_id next == id) ≡ false =
      ==_ne (request_id next) id (λ e. ground (arith, ap (Dict.get b.inner) e)) in
    (get-insert b.inner (request_id next) id next ∙ rw mine h, rw (f, other) refl)

dropped-IsUntouched :
    (owned : List ℕ) (b : RequestBroker) (next : ℕ) (id : String) (n : ℕ)
    → AllOwned owned b next
    → Dict.get b.inner id ≡ some n
    → IsUntouched b (Broker.remove (registered b next) (request_id next)) id n
unfolding Broker.register Broker.remove Broker.drop_sender
dropped-IsUntouched owned b next id n all h =
    let mine = request_id next in
    let r = registered-IsUntouched owned b next id n all h in
    let old = all id n h in
    let other : eqb next n ≡ false = ground (arith, old.0) in
    let apart : (mine == id) ≡ false =
      ==_ne mine id (λ e. ground (arith, ap (Dict.get b.inner) e, fresh owned b next all)) in
    (
      get-remove (Dict.insert b.inner mine next) mine id ∙ rw apart r.0,
      rw (get-insert_self b.inner mine next, other) r.1,
    )

ask_object-IsUntouched :
    (owned : List ℕ) (br : Bridge) (path : String) (request : ElicitationRequest)
    (found : Option SessionObject) (id : String) (n : ℕ)
    → AllOwned owned br.broker br.next_request
    → Dict.get br.broker.inner id ≡ some n
    → IsUntouched br.broker (ask_object br path request found).0.0.broker id n
ask_object-IsUntouched owned br path request none id n all h = (h, refl)
ask_object-IsUntouched owned br path request (some s) id n all h =
    go (push_pending_request s (pending_request (request_id br.next_request) request))
  where
    go :
        (p : SessionObject × Bool)
        → IsUntouched br.broker (pushed br path request p).0.0.broker id n
    go (s', true) = registered-IsUntouched owned br.broker br.next_request id n all h
    go (s', false) = dropped-IsUntouched owned br.broker br.next_request id n all h

-- An update of the session alone leaves the broker.
update-broker :
    (w : World) (br : Bridge) (agent id : String) (g : SessionObject → SessionObject)
    → let br' = (update_session w br agent id (λ s b. (g s, b))).0 in
      (br'.broker ≡ br.broker) × (br'.next_request ≡ br.next_request)
unfolding update_session update_hook dbus_update
update-broker w br agent id g = elim (Bool-cases (agent == "codex")) [
  | inl e ↦ rw e (refl, refl)
  | inr e ↦ rw e (refl, refl)
]

-- In a sound state, `handle_elicitation_event` up to its wait leaves every registered request
-- registered, and its channel as it was: a request that is published, or dropped at the limit,
-- takes the id of no other.
pub ask_keeps_others :
    (owned : List ℕ) (clock : ℕ) (w : World) (br : Bridge) (h : Hook) (request : ElicitationRequest)
    (id : String) (n : ℕ)
    → IsSound owned clock br
    → Dict.get br.broker.inner id ≡ some n
    → IsUntouched br.broker (ask w br h request).0.0.broker id n
unfolding ask
ask_keeps_others owned clock w br h request id n v e =
    let br1 = (update_session w br h.agent h.session_id (λ s b. (transported h s, b))).0 in
    let (same, next) = update-broker w br h.agent h.session_id (transported h) in
    let all : AllOwned owned br1.broker br1.next_request = rw (same, next) v.requests in
    let path = session_path h.agent h.session_id in
    let u =
      ask_object-IsUntouched owned br1 path request (Dict.get br1.store path) id n all
        (rw same e) in
    (u.0, u.1 ∙ ap (λ (b : RequestBroker). b.channels n) same)
