-- ===== src/Session/Pending/Queue.antt =====
-- Which request an answer reaches, and which requests a finished tool retires.
use claude_dbus.Prelude.{
  String, ℕ, ◌+◌, ◌≡◌, ◌≢◌, refl, ap, ◌∙◌, List, [], ◌∷◌, ◌++◌, none, some, Bool, true, false, not,
  ◌==◌, ==_ne, eq_iff, if◌then◌else◌, length, filter, arith, Bool-cases, inl, inr, ◌⊎◌, all, mem,
}
use claude_dbus.Broker.{RequestBroker, waiting, answered}
use claude_dbus.Broker.Answers.{IsUnshared, cancel_all_answers}
use claude_dbus.Dict
use claude_dbus.Session.Object.{PendingRequest, SessionObject}
use claude_dbus.Session.Pending.{
  refresh_requires_attention, take_by_id, cancel_pending_requests_for_tool, ids, gates,
}

-- No request in the list has the id.
abbrev pub Lacks : String → List PendingRequest → Type 0
Lacks id rs = all (λ (r : PendingRequest). not (r.id == id)) rs ≡ true

-- Where a request was taken from: the first one with the id, the others in their order.
pub record TakenFrom (id : String) (rs : List PendingRequest) (r : PendingRequest)
    (rest : List PendingRequest) : Type 0 where
  pub earlier : List PendingRequest
  pub later : List PendingRequest
  pub whole : rs ≡ earlier ++ (r ∷ later)
  pub left : rest ≡ earlier ++ later
  pub matches : r.id ≡ id
  pub first : Lacks id earlier

pub take_by_id_lem :
    (id : String) (rs : List PendingRequest)
    → ((take_by_id id rs ≡ none) × Lacks id rs)
      ⊎ ((r : PendingRequest) × (rest : List PendingRequest) × (take_by_id id rs ≡ some (r, rest))
          × TakenFrom id rs r rest)
unfolding take_by_id
take_by_id_lem id [] = inl (refl, refl)
take_by_id_lem id (x ∷ rs) = elim (Bool-cases (x.id == id)) [
  | inl e ↦ inr (
    x,
    rs,
    rw e refl,
    record {
      earlier = [];
      later = rs;
      whole = refl;
      left = refl;
      matches = (eq_iff x.id id).0 e;
      first = refl;
    },
  )
  | inr e ↦ elim (take_by_id_lem id rs) [
    | inl (none_left, lacks) ↦ inl (rw (e, none_left) refl, rw (e, lacks) refl)
    | inr (r, rest, found, t) ↦ inr (
      r,
      x ∷ rest,
      rw (e, found) refl,
      record {
        earlier = x ∷ t.earlier;
        later = t.later;
        whole = ap (◌∷◌ x) t.whole;
        left = ap (◌∷◌ x) t.left;
        matches = t.matches;
        first = rw e t.first;
      },
    )
  ]
]

Lacks-mem :
    (p : PendingRequest → Bool) (id : String) (rs : List PendingRequest)
    → Lacks id rs
    → mem id (ids (filter p rs)) ≡ false
Lacks-mem p id [] h = refl
Lacks-mem p id (x ∷ rs) h = ground (arith, Lacks-mem p id rs)

filter_around :
    (p : PendingRequest → Bool) (r : PendingRequest) (xs ys : List PendingRequest)
    → Lacks r.id xs
    → Lacks r.id ys
    → mem r.id (ids (filter p (xs ++ (r ∷ ys)))) ≡ p r
filter_around p r [] ys hx hy = ground (arith, eq_iff r.id r.id, Lacks-mem p r.id ys hy)
filter_around p r (x ∷ xs) ys hx hy = ground (arith, filter_around p r xs ys)

length-split :
    (p : PendingRequest → Bool) (rs : List PendingRequest)
    → length (ids (filter p rs)) + length (filter (λ r. not (p r)) rs) ≡ length rs
length-split p [] = omega arith
length-split p (x ∷ rs) = ground (arith, length-split p rs)

-- Retiring the requests of a tool with a name, in a broker in which no two share a channel: the
-- handler of a pending request with an id of its own, if it waits, is answered with the empty text
-- when the request is for that tool and else goes on waiting; the requests of other tools stay, in
-- their order; and the count is that of the rest.
pub retire_for_tool :
    (s : SessionObject) (tool : String) (b : RequestBroker) (r : PendingRequest)
    (xs ys : List PendingRequest) (tx : ℕ)
    → tool ≢ ""
    → s.pending_requests ≡ xs ++ (r ∷ ys)
    → Lacks r.id xs
    → Lacks r.id ys
    → IsUnshared b
    → Dict.get b.inner r.id ≡ some tx
    → b.channels tx ≡ waiting
    → let (s', n, b') = cancel_pending_requests_for_tool s tool b in
      (b'.channels tx ≡ (if gates tool r then answered "" else waiting))
      × (s'.pending_requests ≡ filter (λ q. not (gates tool q)) s.pending_requests)
      × (n + length s'.pending_requests ≡ length s.pending_requests)
unfolding cancel_pending_requests_for_tool refresh_requires_attention
retire_for_tool s tool b r xs ys tx named whole hx hy u h w = rw (==_ne tool "" named) (
  cancel_all_answers b (ids (filter (gates tool) s.pending_requests)) r.id tx u h w
      ∙ ap (λ (c : Bool). if c then answered "" else waiting)
          (ap (λ (rs : List PendingRequest). mem r.id (ids (filter (gates tool) rs))) whole
            ∙ filter_around (gates tool) r xs ys hx hy),
  refl,
  length-split (gates tool) s.pending_requests,
)
