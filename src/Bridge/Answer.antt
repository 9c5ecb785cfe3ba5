-- ===== src/Bridge/Answer.antt =====
-- A request from its publication to the answer that its hook reads.
use claude_dbus.Prelude.{
  String, ℕ, ◌<◌, ◌≡◌, ◌≢◌, refl, List, [], ◌∷◌, ◌++◌, Option, none, some, Bool, true, false,
  eq_iff, arith, Bool-cases, Option-cases, inl, inr, eqb, eqb_refl, leb, length, all,
}
use claude_dbus.Dict
use claude_dbus.Dict.Laws.{get-remove_self, get-insert_self}
use claude_dbus.Broker
use claude_dbus.Broker.{RequestBroker, waiting, answered}
use claude_dbus.Session.Object.{SessionObject, PendingRequest}
use claude_dbus.Session.Pending.{
  max_pending_requests_per_session, push_pending_request, refresh_requires_attention,
}
use claude_dbus.Session.Pending.Queue.{Lacks}
use claude_dbus.Session.Respond.{respond_by_id}
use claude_dbus.Service.Events.{Hook, transported}
use claude_dbus.Service.Keeps.{transported-IsConsistent}
use claude_dbus.Bridge.{Bridge, World, Run}
use claude_dbus.Bridge.Wait.{
  ElicitationRequest, Waiting, request_id, pending_request, registered, pushed, ask_object, ask,
  request_id-nonempty, finish,
}
use claude_dbus.Bridge.System.{client_answer}
use claude_dbus.Bridge.Sound.{AllOwned, IsSound, plain-IsSafe}
use claude_dbus.Bridge.Keeps.{update_session-IsSound}

-- The state in which a handler waits: the request is the last one of its object, and the broker leads
-- to a channel that waits.
record IsPosted (br : Bridge) (wait : Waiting) : Type 0 where
  object : SessionObject
  there : Dict.get br.store wait.path ≡ some object
  not_lacking : Lacks (request_id wait.number) object.pending_requests → ⊥
  registered' : Dict.get br.broker.inner (request_id wait.number) ≡ some wait.number
  open' : br.broker.channels wait.number ≡ waiting

abbrev Outcome : Bridge → Option Waiting → Type 0
Outcome br none = Unit
Outcome br (some wait) = IsPosted br wait

-- The new channel waits: a sender that its registration drops is another one.
pub registered-waiting :
    (b : RequestBroker) (next : ℕ)
    → ((id : String) (n : ℕ) → Dict.get b.inner id ≡ some n → n < next)
    → (registered b next).channels next ≡ waiting
unfolding Broker.register Broker.drop_sender
registered-waiting b next below = elim (Option-cases (Dict.get b.inner (request_id next))) [
  | inl e ↦ rw (e, eqb_refl next) refl
  | inr (tx, e) ↦
      let other : eqb tx next ≡ false = ground (arith, below (request_id next) tx e) in
      rw (e, other, eqb_refl next) refl
]

last_found :
    (id : String) (rs : List PendingRequest) (r : PendingRequest)
    → r.id ≡ id
    → Lacks id (rs ++ (r ∷ []))
    → ⊥
last_found id [] r e h = ground (arith, eq_iff r.id id)
last_found id (x ∷ rs) r e h = last_found id rs r e (ground arith)

pushed-Outcome :
    (owned : List ℕ) (br : Bridge) (path : String) (request : ElicitationRequest)
    (p : SessionObject × Bool)
    → AllOwned owned br.broker br.next_request
    → (p.1 ≡ true → Lacks (request_id br.next_request) p.0.pending_requests → ⊥)
    → let (run, wait) = pushed br path request p in Outcome run.0 wait
unfolding Broker.register
pushed-Outcome owned br path request (s, false) all l = tt
pushed-Outcome owned br path request (s, true) all l = record {
  object = s;
  there = get-insert_self br.store path s;
  not_lacking = l refl;
  registered' = get-insert_self br.broker.inner (request_id br.next_request) br.next_request;
  open' = registered-waiting br.broker br.next_request (λ id n h. (all id n h).0);
}

push_found :
    (s : SessionObject) (r : PendingRequest)
    → (push_pending_request s r).1 ≡ true
    → Lacks r.id (push_pending_request s r).0.pending_requests
    → ⊥
unfolding push_pending_request refresh_requires_attention
push_found s r e h =
    elim (Bool-cases (leb max_pending_requests_per_session (length s.pending_requests))) [
      | inl full ↦ absurd (ground arith)
      | inr fits ↦ last_found r.id s.pending_requests r refl (rw fits at h)
    ]

ask_object-Outcome :
    (owned : List ℕ) (br : Bridge) (path : String) (request : ElicitationRequest)
    (found : Option SessionObject)
    → AllOwned owned br.broker br.next_request
    → let (run, wait) = ask_object br path request found in Outcome run.0 wait
ask_object-Outcome owned br path request none all = tt
ask_object-Outcome owned br path request (some s) all =
    let r = pending_request (request_id br.next_request) request in
    pushed-Outcome owned br path request (push_pending_request s r) all (push_found s r)

ask-Outcome :
    (owned : List ℕ) (clock : ℕ) (w : World) (br : Bridge) (h : Hook) (request : ElicitationRequest)
    → IsSound owned clock br
    → let (run, wait) = ask w br h request in Outcome run.0 wait
unfolding ask
ask-Outcome owned clock w br h request v =
    let v1 =
      update_session-IsSound owned clock w br h.agent h.session_id _
        (plain-IsSafe (transported h) (transported-IsConsistent h)) v in
    ask_object-Outcome owned _ _ request _ v1.requests

posted_answer :
    (br : Bridge) (wait : Waiting) (answer : String)
    → answer ≢ ""
    → IsPosted br wait
    → let br' = client_answer br wait.path (some (request_id wait.number)) answer in
      (finish br' wait).1 ≡ answer
unfolding client_answer finish
posted_answer br wait answer ne p =
    let id = request_id wait.number in
    elim (respond_by_id p.object br.broker id answer wait.number (request_id-nonempty wait.number)
      ne p.registered' p.open') [
        | inl (lacks, same) ↦ absurd (p.not_lacking lacks)
        | inr a ↦ rw (p.there, a.heard) refl
      ]

-- In a sound state, when `handle_elicitation_event` has come to its wait, a client's answer to the
-- request by its id, if it is not empty, is what the handler goes on with; and a request that nobody
-- answers gives the empty answer. In both cases the broker has then forgotten the request.
pub ask_answer :
    (owned : List ℕ) (clock : ℕ) (w : World) (br : Bridge) (h : Hook) (request : ElicitationRequest)
    (answer : String) {run : Run} {wait : Waiting}
    → IsSound owned clock br
    → answer ≢ ""
    → ask w br h request ≡ (run, some wait)
    → let id = request_id wait.number in
      let br' = client_answer run.0 wait.path (some id) answer in
      ((finish br' wait).1 ≡ answer)
      × ((finish run.0 wait).1 ≡ "")
      × (Dict.get (finish br' wait).0.0.broker.inner id ≡ none)
      × (Dict.get (finish run.0 wait).0.0.broker.inner id ≡ none)
unfolding finish Broker.remove
ask_answer owned clock w br h request answer {run} {wait} v ne e =
    let p : IsPosted run.0 wait = rw e at (ask-Outcome owned clock w br h request v) in
    (
      posted_answer run.0 wait answer ne p,
      rw p.open' refl,
      get-remove_self _ (request_id wait.number),
      get-remove_self _ (request_id wait.number),
    )
