-- ===== src/Session/Pending/Attention.antt =====
-- `RequiresAttention` is on exactly while a request is pending or a reason is set, and at most four
-- requests are pending, after any sequence of the methods.
use claude_dbus.Prelude.{
  String, suc, ◌≤◌, ◌≡◌, refl, List, [], ◌∷◌, Option, none, some, not, ◌||◌, ◌==◌, length,
  length-append, length-filter-le, is_empty, arith, Option-cases, Bool-cases, inl, inr,
}
use claude_dbus.Broker.{RequestBroker}
use claude_dbus.Session.Object.{PendingRequest, SessionObject, new}
use claude_dbus.Session.Pending.{
  max_pending_requests_per_session, refresh_requires_attention, take_by_id, pop_front, take_request,
  take_pending_response, push_pending_request, remove_pending_request, cancel_pending_requests,
  cancel_pending_requests_for_tool, set_attention_reason, clear_attention_reason,
  clear_attention_reasons, gates,
}

pub record IsConsistent (s : SessionObject) : Type 0 where
  pub attention :
      s.requires_attention
      ≡ (not (is_empty s.pending_requests) || not (is_empty s.attention_reasons))
  pub bounded : length s.pending_requests ≤ max_pending_requests_per_session

pub refresh-IsConsistent :
    (s : SessionObject)
    → length s.pending_requests ≤ max_pending_requests_per_session
    → IsConsistent (refresh_requires_attention s)
unfolding refresh_requires_attention
refresh-IsConsistent s h = record { attention = refl; bounded = h }

take_by_id-shorter :
    (id : String) (rs : List PendingRequest) {r : PendingRequest} {rest : List PendingRequest}
    → take_by_id id rs ≡ some (r, rest)
    → suc (length rest) ≡ length rs
unfolding take_by_id
take_by_id-shorter id [] h = cc
take_by_id-shorter id (x ∷ rs) h = elim (Bool-cases (x.id == id)) [
  | inl e ↦ ground arith
  | inr e ↦ elim (Option-cases (take_by_id id rs)) [
    | inl gone ↦ ground arith
    | inr ((y, ys), found) ↦ ground (arith, take_by_id-shorter id rs found)
  ]
]

pub push-IsConsistent :
    (s : SessionObject) (r : PendingRequest)
    → IsConsistent s
    → IsConsistent (push_pending_request s r).0
unfolding push_pending_request refresh_requires_attention
push-IsConsistent s r v = ground (arith, length-append s.pending_requests (r ∷ []))

pub remove-IsConsistent :
    (s : SessionObject) (id : String)
    → IsConsistent s
    → IsConsistent (remove_pending_request s id).0
unfolding remove_pending_request
remove-IsConsistent s id v = elim (Option-cases (take_by_id id s.pending_requests)) [
  | inl e ↦ rw e v
  | inr ((r, rest), e) ↦
      rw e (refresh-IsConsistent _ (omega (arith, take_by_id-shorter id s.pending_requests e)))
]

abbrev pub taken : SessionObject → Option (SessionObject × String) → SessionObject
taken s none = s
taken s (some (s', id)) = s'

take_request-shorter :
    (id : Option String) (rs : List PendingRequest) {r : PendingRequest}
    {rest : List PendingRequest}
    → take_request id rs ≡ some (r, rest)
    → suc (length rest) ≡ length rs
unfolding take_request pop_front
take_request-shorter none [] h = cc
take_request-shorter none (x ∷ rs) h = ground arith
take_request-shorter (some id) rs h = take_by_id-shorter id rs h

pub take-IsConsistent :
    (s : SessionObject) (id : Option String)
    → IsConsistent s
    → IsConsistent (taken s (take_pending_response s id))
unfolding take_pending_response
take-IsConsistent s id v = elim (Option-cases (take_request id s.pending_requests)) [
  | inl e ↦ rw e v
  | inr ((r, rest), e) ↦ rw e (
      refresh-IsConsistent _
        (omega (arith, take_request-shorter id s.pending_requests e, v.bounded)))
]

pub cancel_for_tool-IsConsistent :
    (s : SessionObject) (tool : String) (b : RequestBroker)
    → IsConsistent s
    → IsConsistent (cancel_pending_requests_for_tool s tool b).0
unfolding cancel_pending_requests_for_tool
cancel_for_tool-IsConsistent s tool b v = elim (Bool-cases (tool == "")) [
  | inl e ↦ rw e v
  | inr e ↦ rw e (
      refresh-IsConsistent _
        (omega (arith, length-filter-le (λ r. not (gates tool r)) s.pending_requests, v.bounded)))
]

pub set_reason-IsConsistent :
    (s : SessionObject) (reason : String)
    → IsConsistent s
    → IsConsistent (set_attention_reason s reason)
unfolding set_attention_reason refresh_requires_attention
set_reason-IsConsistent s reason v = ground arith

-- The methods of a session that touch its requests and reasons, as calls.
pub data Call : Type 0 where
  push : PendingRequest → Call
  take : Option String → Call
  retire : String → Call
  cancel_all : Call
  cancel_tool set_reason clear_reason : String → Call
  clear_reasons : Call

abbrev pub State : Type 0
State = SessionObject × RequestBroker

pub step : State → Call → State
step (s, b) (push r) = ((push_pending_request s r).0, b)
step (s, b) (take id) = (taken s (take_pending_response s id), b)
step (s, b) (retire id) = ((remove_pending_request s id).0, b)
step (s, b) cancel_all = let (s', n, b') = cancel_pending_requests s b in (s', b')
step (s, b) (cancel_tool tool) =
    let (s', n, b') = cancel_pending_requests_for_tool s tool b in (s', b')
step (s, b) (set_reason reason) = (set_attention_reason s reason, b)
step (s, b) (clear_reason reason) = (clear_attention_reason s reason, b)
step (s, b) clear_reasons = (clear_attention_reasons s, b)

pub run : State → List Call → State
run st [] = st
run st (c ∷ cs) = run (step st c) cs

pub step-IsConsistent : (st : State) (c : Call) → IsConsistent st.0 → IsConsistent (step st c).0
unfolding step
step-IsConsistent (s, b) (push r) v = push-IsConsistent s r v
step-IsConsistent (s, b) (take id) v = take-IsConsistent s id v
step-IsConsistent (s, b) (retire id) v = remove-IsConsistent s id v
step-IsConsistent (s, b) cancel_all v =
    unfold cancel_pending_requests in refresh-IsConsistent _ (omega arith)
step-IsConsistent (s, b) (cancel_tool tool) v = cancel_for_tool-IsConsistent s tool b v
step-IsConsistent (s, b) (set_reason reason) v = set_reason-IsConsistent s reason v
step-IsConsistent (s, b) (clear_reason reason) v =
    unfold clear_attention_reason in refresh-IsConsistent _ v.bounded
step-IsConsistent (s, b) clear_reasons v =
    unfold clear_attention_reasons in refresh-IsConsistent _ v.bounded

run-IsConsistent : (st : State) (cs : List Call) → IsConsistent st.0 → IsConsistent (run st cs).0
unfolding run
run-IsConsistent st [] v = v
run-IsConsistent st (c ∷ cs) v = run-IsConsistent (step st c) cs (step-IsConsistent st c v)

-- After any sequence of the methods on a new session, `requires_attention` says whether a request
-- is pending or a reason is set, and at most four requests are pending.
pub run-new-IsConsistent :
    (agent session : String) (b : RequestBroker) (cs : List Call)
    → IsConsistent (run (new agent session, b) cs).0
run-new-IsConsistent agent session b cs =
    run-IsConsistent (new agent session, b) cs (record { attention = refl; bounded = omega arith })
