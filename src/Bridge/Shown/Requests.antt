-- ===== src/Bridge/Shown/Requests.antt =====
-- A question, an answer and the end of a wait leave every pending request answerable.
use claude_dbus.Prelude.{
  String, ℕ, List, [], ◌∷◌, ◌≡◌, refl, Option, none, some, true, false, not, ◌==◌, ◌&&◌, eq_iff,
  mem, Distinct, arith, Bool-cases, Option-cases, inl, inr,
}
use claude_dbus.Dict
use claude_dbus.Broker.{RequestBroker, respond}
use claude_dbus.Broker.Live.{respond-Live}
use claude_dbus.Session.Object.{SessionObject, PendingRequest}
use claude_dbus.Session.Pending.{
  ids, refresh_requires_attention, take_request, pop_front, take_pending_response,
}
use claude_dbus.Session.Pending.Ids.{IsTaken, head-IsTaken, take-IsTaken}
use claude_dbus.Session.Respond.{
  respond_taken, respond_to_elicitation, respond_to_elicitation_by_id,
}
use claude_dbus.Bridge.{Bridge}
use claude_dbus.Bridge.Wait.{Waiting}
use claude_dbus.Bridge.System.{respond_method, client_answer}
use claude_dbus.Bridge.Invariant.{respond-Shrinks}
use claude_dbus.Bridge.Shown.{IsNumbered, Leaves, calm, numbered-IsUnshared}
use claude_dbus.Bridge.Shown.Keeps.{IsShown, pending_of, put-IsShown}

-- A request leaves the queue, and its answer the broker.
taken-Leaves :
    (xs ys : List PendingRequest) (b : RequestBroker) (next : ℕ) (id answer : String)
    → IsNumbered b next
    → IsTaken id xs ys
    → Leaves xs b ys (respond b id answer).0
taken-Leaves xs ys b next id answer num t =
    let kept : (j : String) → (mem j (ids xs) ≡ true → mem j (ids ys) ≡ true) → (id == j) ≡ false =
      λ j m. elim (Bool-cases (id == j)) [
        | inl e ↦
            let same : id ≡ j = (eq_iff id j).0 e in
            absurd (ground (arith, t.gone, rw same at t.gone, m (rw same at t.there)))
        | inr e ↦ e
      ] in
    record {
      distinct = t.distinct;
      fewer = λ j m. elim (Bool-cases (id == j)) [
        | inl e ↦ rw ((eq_iff id j).0 e) at t.there
        | inr e ↦ rw (← t.others j e) m
      ];
      keeps = λ j n m l. respond-Live b id j answer n (numbered-IsUnshared b next num) (kept j m) l;
      shrinks = respond-Shrinks b id answer;
    }

request-IsTaken :
    (choice : Option String) (rs : List PendingRequest) {r : PendingRequest}
    {rest : List PendingRequest}
    → Distinct (ids rs)
    → take_request choice rs ≡ some (r, rest)
    → IsTaken r.id rs rest
unfolding take_request pop_front
request-IsTaken none [] d e = absurd (cc e)
request-IsTaken none (x ∷ rs) {r} {rest} d e =
    let first : x ≡ r = cc e in
    let left : rs ≡ rest = cc e in rw (← first, ← left) (head-IsTaken x rs d)
request-IsTaken (some id) rs d e = let (same, t) = take-IsTaken id rs d e in rw same t

chosen-Leaves :
    (s : SessionObject) (b : RequestBroker) (next : ℕ) (choice : Option String) (answer : String)
    → IsNumbered b next
    → Distinct (ids s.pending_requests)
    → let (s', b', emitted) = respond_taken s b answer (take_pending_response s choice) in
      Leaves s.pending_requests b s'.pending_requests b'
unfolding respond_taken take_pending_response refresh_requires_attention
chosen-Leaves s b next choice answer num d =
    elim (Option-cases (take_request choice s.pending_requests)) [
      | inl e ↦ rw e (calm s.pending_requests s.pending_requests b refl d)
      | inr ((r, rest), e) ↦ rw e (
          taken-Leaves s.pending_requests rest b next r.id answer num
            (request-IsTaken choice s.pending_requests d e))
    ]

method-Leaves :
    (s : SessionObject) (b : RequestBroker) (next : ℕ) (id : Option String) (answer : String)
    → IsNumbered b next
    → Distinct (ids s.pending_requests)
    → let (s', b', emitted) = respond_method s b id answer in
      Leaves s.pending_requests b s'.pending_requests b'
unfolding respond_to_elicitation respond_to_elicitation_by_id
method-Leaves s b next none answer num d = elim (Bool-cases (not (answer == ""))) [
  | inl e ↦ rw e (chosen-Leaves s b next none answer num d)
  | inr e ↦ rw e (calm s.pending_requests s.pending_requests b refl d)
]
method-Leaves s b next (some id) answer num d =
    elim (Bool-cases (not (id == "") && not (answer == ""))) [
      | inl e ↦ rw e (chosen-Leaves s b next (some id) answer num d)
      | inr e ↦ rw e (calm s.pending_requests s.pending_requests b refl d)
    ]

pub answer-IsShown :
    (waits : List Waiting) (br : Bridge) (path : String) (id : Option String) (answer : String)
    → IsShown waits br
    → IsShown waits (client_answer br path id answer)
unfolding client_answer
answer-IsShown waits br path id answer v = elim (Option-cases (Dict.get br.store path)) [
  | inl e ↦ rw e v
  | inr (s, e) ↦
      let r = respond_method s br.broker id answer in
      let l =
        method-Leaves s br.broker br.next_request id answer v.numbered (v.distinct path s e) in
      let l' : Leaves (pending_of (Dict.get br.store path)) br.broker r.0.pending_requests r.1 =
        rw e l in
      let put = put-IsShown waits br path r.0 r.1 l' v in rw e put
]
