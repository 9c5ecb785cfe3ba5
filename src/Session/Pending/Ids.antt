-- ===== src/Session/Pending/Ids.antt =====
-- The ids of the pending requests of a session, when requests leave the list.
use claude_dbus.Prelude.{
  String, List, [], ◌∷◌, ◌++◌, ◌≡◌, refl, ap, none, some, Bool, true, false, not, ◌==◌, eq_iff,
  ==_comm, ◌∙◌, filter, mem, Distinct, arith, Bool-cases, Option-cases, inl, inr,
}
use claude_dbus.Session.Object.{PendingRequest}
use claude_dbus.Session.Pending.{ids, take_by_id}

pub mem-filter :
    (p : PendingRequest → Bool) (id : String) (rs : List PendingRequest)
    → mem id (ids (filter p rs)) ≡ true
    → mem id (ids rs) ≡ true
mem-filter p id [] h = h
mem-filter p id (r ∷ rs) h = ground (arith, mem-filter p id rs)

pub mem-filter-false :
    (p : PendingRequest → Bool) (id : String) (rs : List PendingRequest)
    → mem id (ids rs) ≡ false
    → mem id (ids (filter p rs)) ≡ false
mem-filter-false p id rs h = elim (Bool-cases (mem id (ids (filter p rs)))) [
  | inl e ↦ ground (arith, mem-filter p id rs e)
  | inr e ↦ e
]

pub filter-Distinct :
    (p : PendingRequest → Bool) (rs : List PendingRequest)
    → Distinct (ids rs)
    → Distinct (ids (filter p rs))
filter-Distinct p [] h = tt
filter-Distinct p (r ∷ rs) h = elim (Bool-cases (p r)) [
  | inl e ↦ rw e (mem-filter-false p r.id rs h.0, filter-Distinct p rs h.1)
  | inr e ↦ rw e (filter-Distinct p rs h.1)
]

-- A request stays or goes, and not both.
pub filter-apart :
    (p : PendingRequest → Bool) (id : String) (rs : List PendingRequest)
    → Distinct (ids rs)
    → mem id (ids (filter (λ r. not (p r)) rs)) ≡ true
    → mem id (ids (filter p rs)) ≡ false
filter-apart p id [] h m = refl
filter-apart p id (r ∷ rs) h m = ground (
  arith,
  eq_iff r.id id,
  mem-filter-false p id rs,
  mem-filter p id rs,
  mem-filter (λ (r : PendingRequest). not (p r)) id rs,
  filter-apart p id rs h.1,
)

-- The first request with an id goes: it was the only one, and the others stay.
pub record IsTaken (id : String) (rs rest : List PendingRequest) : Type 0 where
  pub there : mem id (ids rs) ≡ true
  pub gone : mem id (ids rest) ≡ false
  pub others : (j : String) → (id == j) ≡ false → mem j (ids rest) ≡ mem j (ids rs)
  pub distinct : Distinct (ids rest)

pub head-IsTaken :
    (r : PendingRequest) (rs : List PendingRequest)
    → Distinct (ids (r ∷ rs))
    → IsTaken r.id (r ∷ rs) rs
head-IsTaken r rs h = record {
  there = ground (arith, eq_iff r.id r.id);
  gone = h.0;
  others = λ j e. rw e refl;
  distinct = h.1;
}

pub take-IsTaken :
    (id : String) (rs : List PendingRequest) {r : PendingRequest} {rest : List PendingRequest}
    → Distinct (ids rs)
    → take_by_id id rs ≡ some (r, rest)
    → (r.id ≡ id) × IsTaken id rs rest
unfolding take_by_id
take-IsTaken id [] h e = absurd (cc e)
take-IsTaken id (x ∷ rs) {r} {rest} h e = elim (Bool-cases (x.id == id)) [
  | inl f ↦
      let same : x.id ≡ id = (eq_iff x.id id).0 f in
      let e' : (some (x, rs)) ≡ some (r, rest) = rw f at e in
      let first : x ≡ r = cc e' in
      let left : rs ≡ rest = cc e' in (rw (← first) same, rw (← same, ← left) (head-IsTaken x rs h))
  | inr f ↦ elim (Option-cases (take_by_id id rs)) [
    | inl g ↦ let e' : none ≡ some (r, rest) = rw (f, g) at e in absurd (cc e')
    | inr ((y, left), g) ↦
        let t = take-IsTaken id rs h.1 g in
        let e' : (some (y, x ∷ left)) ≡ some (r, rest) = rw (f, g) at e in
        let first : y ≡ r = cc e' in
        let whole : (x ∷ left) ≡ rest = cc e' in
        let apart : (id == x.id) ≡ false = ==_comm id x.id ∙ f in
        (
          rw (← first) t.0,
          rw (← whole) (record {
            there = rw f t.1.there;
            gone = rw f t.1.gone;
            others = λ j d. rw (t.1.others j d) refl;
            distinct = (rw (t.1.others x.id apart) h.0, t.1.distinct);
          }),
        )
  ]
]

pub take-none :
    (id : String) (rs : List PendingRequest) → take_by_id id rs ≡ none → mem id (ids rs) ≡ false
unfolding take_by_id
take-none id [] e = refl
take-none id (x ∷ rs) e = elim (Bool-cases (x.id == id)) [
  | inl f ↦ ground arith
  | inr f ↦ elim (Option-cases (take_by_id id rs)) [
    | inl g ↦ rw f (take-none id rs g)
    | inr (p, g) ↦ ground arith
  ]
]

pub ids-append : (xs ys : List PendingRequest) → ids (xs ++ ys) ≡ ids xs ++ ids ys
ids-append [] ys = refl
ids-append (x ∷ xs) ys = ap (λ (l : List String). x.id ∷ l) (ids-append xs ys)
