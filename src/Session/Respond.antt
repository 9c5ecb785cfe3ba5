-- ===== src/Session/Respond.antt =====
-- agent-dbus-service/src/dbus.rs: the bus methods by which a client answers a request. The flag says
-- whether the changed properties of the pending requests are emitted.
use claude_dbus.Prelude.{
  String, ℕ, List, ◌∷◌, Option, none, some, Bool, true, false, not, ◌&&◌, ◌==◌, if◌then◌else◌, ◌≡◌,
  ◌≢◌, refl, ==_ne, inl, inr, ◌⊎◌,
}
use claude_dbus.Broker.{RequestBroker, waiting, answered, respond}
use claude_dbus.Broker.Answers.{respond_once}
use claude_dbus.Dict
use claude_dbus.Session.Object.{PendingRequest, SessionObject}
use claude_dbus.Session.Pending.{
  take_pending_response, take_request, pop_front, refresh_requires_attention,
}
use claude_dbus.Session.Pending.Queue.{Lacks, TakenFrom, take_by_id_lem}

unfoldable pub respond_taken :
    SessionObject
    → RequestBroker
    → String
    → Option (SessionObject × String)
    → SessionObject × RequestBroker × Bool
respond_taken s b answer none = (s, b, false)
respond_taken s b answer (some (s', id)) = (s', (respond b id answer).0, true)

unfoldable pub respond_to_elicitation :
    SessionObject → RequestBroker → String → SessionObject × RequestBroker × Bool
unfolding respond_taken
respond_to_elicitation s b answer =
    if not (answer == "")
    then respond_taken s b answer (take_pending_response s none)
    else (s, b, false)

unfoldable pub respond_to_elicitation_by_id :
    SessionObject → RequestBroker → String → String → SessionObject × RequestBroker × Bool
unfolding respond_taken
respond_to_elicitation_by_id s b request_id answer =
    if not (request_id == "") && not (answer == "")
    then respond_taken s b answer (take_pending_response s (some request_id))
    else (s, b, false)

-- An answer that is not empty, with no id, goes to the oldest pending request: its handler, if it
-- waits, receives the answer, the request leaves the queue and the others keep their order.
pub respond_oldest :
    (s : SessionObject) (b : RequestBroker) (answer : String) (r : PendingRequest)
    (rs : List PendingRequest) (tx : ℕ)
    → answer ≢ ""
    → s.pending_requests ≡ r ∷ rs
    → Dict.get b.inner r.id ≡ some tx
    → b.channels tx ≡ waiting
    → let (s', b', emitted) = respond_to_elicitation s b answer in
      (b'.channels tx ≡ answered answer) × (s'.pending_requests ≡ rs) × (emitted ≡ true)
unfolding respond_to_elicitation take_pending_response take_request pop_front
    refresh_requires_attention
respond_oldest s b answer r rs tx h whole found wait =
    rw (==_ne answer "" h, whole) ((respond_once b r.id answer "" tx found wait).1, refl, refl)

-- The outcome of an answer with an id, when a request with that id is pending: the first such request
-- leaves the queue, and its handler receives the answer.
pub record Answered (s : SessionObject) (b : RequestBroker) (id answer : String) (tx : ℕ)
    (after : SessionObject × RequestBroker × Bool) : Type 0 where
  pub request : PendingRequest
  pub split : TakenFrom id s.pending_requests request after.0.pending_requests
  pub heard : after.1.channels tx ≡ answered answer
  pub emitted : after.2 ≡ true

-- An answer with an id, neither of them empty, reaches the handler that waits under that id if a
-- request with the id is pending; otherwise nothing changes.
pub respond_by_id :
    (s : SessionObject) (b : RequestBroker) (id answer : String) (tx : ℕ)
    → id ≢ ""
    → answer ≢ ""
    → Dict.get b.inner id ≡ some tx
    → b.channels tx ≡ waiting
    → ((Lacks id s.pending_requests) × (respond_to_elicitation_by_id s b id answer ≡ (s, b, false)))
      ⊎ Answered s b id answer tx (respond_to_elicitation_by_id s b id answer)
unfolding respond_to_elicitation_by_id take_pending_response take_request refresh_requires_attention
respond_by_id s b id answer tx hid ha found wait =
    rw (==_ne id "" hid, ==_ne answer "" ha)
      (elim (take_by_id_lem id s.pending_requests) [
        | inl (gone, lacks) ↦ inl (lacks, rw gone refl)
        | inr (r, rest, e, t) ↦
            let here : Dict.get b.inner r.id ≡ some tx = rw t.matches found in
            inr (
              rw e (record {
                request = r;
                split = t;
                heard = (respond_once b r.id answer "" tx here wait).1;
                emitted = refl;
              }))
      ])
