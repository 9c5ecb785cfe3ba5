-- ===== src/Session/Pending.antt =====
-- agent-dbus-service/src/dbus.rs: the pending requests and the attention reasons of a session. The
-- methods that cancel reach the request broker, which they take and return.
use Prim.Native.Nat.{Ordering}
use Prim.Native.String.{compare}
pub mod Attention
pub mod Queue
pub mod Ids
use claude_dbus.Prelude.{
  String, ℕ, List, [], ◌∷◌, ◌++◌, map, Option, none, some, Bool, true, false, not, ◌||◌, ◌==◌, leb,
  if◌then◌else◌, length, is_empty, filter, head?, unwrap_or, ◌>>=◌,
}
use claude_dbus.Broker.{RequestBroker, cancel_all}
use claude_dbus.Session.Object.{PendingRequest, SessionObject}

abbrev pub max_pending_requests_per_session : ℕ
max_pending_requests_per_session = 4

unfoldable pub refresh_requires_attention : SessionObject → SessionObject
refresh_requires_attention s = record s {
  requires_attention = not (is_empty s.pending_requests) || not (is_empty s.attention_reasons);
}

abbrev pub behind :
    PendingRequest
    → Option (PendingRequest × List PendingRequest)
    → Option (PendingRequest × List PendingRequest)
behind r none = none
behind r (some (x, xs)) = some (x, r ∷ xs)

-- `position(|request| request.id == request_id)` and `remove(index)`
unfoldable pub take_by_id :
    String → List PendingRequest → Option (PendingRequest × List PendingRequest)
take_by_id id [] = none
take_by_id id (r ∷ rs) =
    let rest = behind r (take_by_id id rs) in if r.id == id then some (r, rs) else rest

unfoldable pub pop_front : List PendingRequest → Option (PendingRequest × List PendingRequest)
pop_front [] = none
pop_front (r ∷ rs) = some (r, rs)

-- The request that an answer is for: the one with the id, or the oldest one.
unfoldable pub take_request :
    Option String → List PendingRequest → Option (PendingRequest × List PendingRequest)
take_request (some id) rs = take_by_id id rs
take_request none rs = pop_front rs

unfoldable pub take_pending_response :
    SessionObject → Option String → Option (SessionObject × String)
take_pending_response s request_id = do
  (request, rest) ← take_request request_id s.pending_requests
  some (refresh_requires_attention (record s { pending_requests = rest }), request.id)

unfoldable pub push_pending_request : SessionObject → PendingRequest → SessionObject × Bool
push_pending_request s request =
    if leb max_pending_requests_per_session (length s.pending_requests) then (s, false) else (
      refresh_requires_attention
          (record s { pending_requests = s.pending_requests ++ request ∷ [] }),
      true,
    )

unfoldable pub removed_pending :
    SessionObject → Option (PendingRequest × List PendingRequest) → SessionObject × Bool
removed_pending s none = (s, false)
removed_pending s (some (request, rest)) =
    (refresh_requires_attention (record s { pending_requests = rest }), true)

unfoldable pub remove_pending_request : SessionObject → String → SessionObject × Bool
unfolding removed_pending
remove_pending_request s id = removed_pending s (take_by_id id s.pending_requests)

abbrev pub ids : List PendingRequest → List String
ids = map λ r. r.id

-- The session, the number of requests cancelled, and the broker.
unfoldable pub cancel_pending_requests :
    SessionObject → RequestBroker → SessionObject × ℕ × RequestBroker
cancel_pending_requests s broker = (
  refresh_requires_attention (record s { pending_requests = []; attention_reasons = [] }),
  length s.pending_requests,
  cancel_all broker (ids s.pending_requests),
)

abbrev pub gates : String → PendingRequest → Bool
gates tool request = request.tool_name == tool

unfoldable pub cancel_pending_requests_for_tool :
    SessionObject → String → RequestBroker → SessionObject × ℕ × RequestBroker
cancel_pending_requests_for_tool s tool broker =
    let cancelled = ids (filter (gates tool) s.pending_requests) in
    let kept = filter (λ r. not (gates tool r)) s.pending_requests in
    if tool == "" then (s, 0, broker) else (
      refresh_requires_attention (record s { pending_requests = kept }),
      length cancelled,
      cancel_all broker cancelled,
    )

-- `BTreeSet::insert`: the elements stand in the order of `str`.
unfoldable pub set_insert : String → List String → List String
set_insert x [] = x ∷ []
set_insert x (y ∷ ys) =
    let rest = set_insert x ys in
    elim (compare x y) [ Ordering.lt ↦ x ∷ y ∷ ys | Ordering.eq ↦ y ∷ ys | Ordering.gt ↦ y ∷ rest ]

-- `BTreeSet::remove`
unfoldable pub set_remove : String → List String → List String
set_remove x = filter (λ y. not (x == y))

unfoldable pub set_attention_reason : SessionObject → String → SessionObject
set_attention_reason s reason = refresh_requires_attention (
    if reason == ""
    then s
    else record s { attention_reasons = set_insert reason s.attention_reasons })

unfoldable pub clear_attention_reason : SessionObject → String → SessionObject
clear_attention_reason s reason =
    refresh_requires_attention
      (record s { attention_reasons = set_remove reason s.attention_reasons })

unfoldable pub clear_attention_reasons : SessionObject → SessionObject
clear_attention_reasons s = refresh_requires_attention (record s { attention_reasons = [] })

-- What the bus reads: the properties of the oldest request, and those of all.
unfoldable pub pending_prompt_value : SessionObject → String
pending_prompt_value s = elim (head? s.pending_requests) [ none ↦ "" | some r ↦ r.prompt ]

unfoldable pub pending_options_value : SessionObject → List String
pending_options_value s = elim (head? s.pending_requests) [ none ↦ [] | some r ↦ r.options ]

unfoldable pub pending_detail_kind_value : SessionObject → String
pending_detail_kind_value s = elim (head? s.pending_requests) [ none ↦ "" | some r ↦ r.detail_kind ]

unfoldable pub pending_detail_text_value : SessionObject → String
pending_detail_text_value s = elim (head? s.pending_requests) [ none ↦ "" | some r ↦ r.detail_text ]

unfoldable pub pending_option_descriptions_value : SessionObject → List String
pending_option_descriptions_value s = elim (head? s.pending_requests) [
  | none ↦ []
  | some r ↦ r.option_descriptions
]

unfoldable pub pending_request_ids_value : SessionObject → List String
pending_request_ids_value s = ids s.pending_requests

unfoldable pub pending_prompts_value : SessionObject → List String
pending_prompts_value s = map (λ r. r.prompt) s.pending_requests

unfoldable pub pending_detail_kinds_value : SessionObject → List String
pending_detail_kinds_value s = map (λ r. r.detail_kind) s.pending_requests

unfoldable pub pending_detail_texts_value : SessionObject → List String
pending_detail_texts_value s = map (λ r. r.detail_text) s.pending_requests

unfoldable pub pending_options_list_value : SessionObject → List (List String)
pending_options_list_value s = map (λ r. r.options) s.pending_requests

unfoldable pub pending_option_descriptions_list_value : SessionObject → List (List String)
pending_option_descriptions_list_value s = map (λ r. r.option_descriptions) s.pending_requests

unfoldable pub attention_reasons_value : SessionObject → List String
attention_reasons_value s =
    if is_empty s.pending_requests
    then s.attention_reasons
    else "pending-request" ∷ s.attention_reasons
