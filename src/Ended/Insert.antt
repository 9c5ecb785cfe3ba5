-- ===== src/Ended/Insert.antt =====
-- `insert` always returns, keeps the set valid, and its key is contained until its time runs out.
use claude_dbus.Prelude.{
  String, ℕ, ◌-◌, ◌≤◌, ◌<◌, ◌≡◌, ◌⊎◌, refl, sym, [], ◌∷◌, ◌++◌, Option, some, ltb, arith, All,
  All-append, ◌==◌, eq_iff, Bool-cases, Option-cases, inl, inr,
}
use claude_dbus.Dict
use claude_dbus.Dict.{Dict}
use claude_dbus.Dict.Laws.{get-insert, get-insert_self, empty_of_none}
use claude_dbus.Dict.Distinct.{insert-IsDistinct, len-le-one}
use claude_dbus.Ended.{ExpiringSessionSet, drop_entry, prune, evict, insert, contains}
use claude_dbus.Ended.Invariant.{
  Queue, Queued, IsAscending, IsTracked, IsValid, get-drop_entry, drop_entry-IsTracked,
  prune-IsValid, prune_loop-All,
}
use claude_dbus.Ended.Lookup.{contains_lem}

-- Tracked entries with an empty queue are no entries at all, so the loop never spins.
untracked_empty : (es : Dict ℕ) → IsTracked es [] → es ≡ []
untracked_empty es v =
    empty_of_none es
      λ k. elim (Option-cases (Dict.get es k)) [ inl e ↦ e | inr (t, e) ↦ absurd (v.queued k t e) ]

-- What the loop of `insert` leaves, given that it ends.
pub record Evicted (max : ℕ) (r : Option (Dict ℕ × Queue)) : Type 0 where
  pub entries : Dict ℕ
  pub order : Queue
  pub ends : r ≡ some (entries, order)
  pub tracked : IsTracked entries order
  pub ascending : IsAscending order
  pub bounded : Dict.len entries ≤ max

pub evict_ends :
    (max : ℕ) (es : Dict ℕ) (o : Queue)
    → IsTracked es o
    → IsAscending o
    → Evicted max (evict max es o)
unfolding evict
evict_ends max es [] v asc =
    let e = untracked_empty es v in
    record {
      entries = [];
      order = [];
      ends = rw e (ground arith);
      tracked = rw e at v;
      ascending = tt;
      bounded = omega arith;
    }
evict_ends max es ((key, at) ∷ o) v asc = elim (Bool-cases (ltb max (Dict.len es))) [
  | inl more ↦
      rw more (evict_ends max (drop_entry es key at) o (drop_entry-IsTracked es key at o v) asc.1)
  | inr fits ↦ rw fits (record {
    entries = es;
    order = (key, at) ∷ o;
    ends = refl;
    tracked = v;
    ascending = asc;
    bounded = ground arith;
  })
]

-- An entry that was queued last, and later than all others, is not evicted.
last_alone : (es : Dict ℕ) (k : String) (t : ℕ) → IsTracked es ((k, t) ∷ []) → Dict.len es ≤ 1
last_alone es k t v = len-le-one es k v.distinct λ j u h. alone (v.queued j u h)
  where
    alone : {j : String} {u : ℕ} → Queued j u ((k, t) ∷ []) → j ≡ k
    alone (inl (e, _)) = sym e
    alone (inr q) = absurd q

evict_keeps :
    (max : ℕ) (es : Dict ℕ) (o : Queue) (k : String) (t : ℕ) {es' : Dict ℕ} {o' : Queue}
    → 0 < max
    → IsTracked es (o ++ (k, t) ∷ [])
    → All (λ (e : String × ℕ). e.1 < t) o
    → Dict.get es k ≡ some t
    → evict max es (o ++ (k, t) ∷ []) ≡ some (es', o')
    → Dict.get es' k ≡ some t
unfolding evict
evict_keeps max es [] k t pos v below h e = ground (arith, last_alone es k t v)
evict_keeps max es ((key, at) ∷ o) k t pos v below h e = elim (Bool-cases (ltb max (Dict.len es))) [
  | inl more ↦
      evict_keeps max (drop_entry es key at) o k t pos (drop_entry-IsTracked es key at _ v) below.1
        (ground (arith, get-drop_entry es key at k, eq_iff key k)) (rw more at e)
  | inr fits ↦ ground arith
]

-- The queue with one more entry.
Queued-append_left : (k : String) (t : ℕ) (o p : Queue) → Queued k t o → Queued k t (o ++ p)
Queued-append_left k t [] p q = absurd q
Queued-append_left k t ((j, u) ∷ o) p (inl e) = inl e
Queued-append_left k t ((j, u) ∷ o) p (inr q) = inr (Queued-append_left k t o p q)

Queued-last : (k : String) (t : ℕ) (o : Queue) → Queued k t (o ++ (k, t) ∷ [])
Queued-last k t [] = inl (refl, refl)
Queued-last k t ((j, u) ∷ o) = inr (Queued-last k t o)

append-IsAscending :
    (o : Queue) (k : String) (t : ℕ)
    → IsAscending o
    → All (λ (e : String × ℕ). e.1 < t) o
    → IsAscending (o ++ (k, t) ∷ [])
append-IsAscending [] k t asc below = (tt, tt)
append-IsAscending ((j, u) ∷ o) k t asc below = (
  All-append (λ (e : String × ℕ). u ≤ e.1) o ((k, t) ∷ []) asc.0 (omega arith, tt),
  append-IsAscending o k t asc.1 below.1,
)

pub insert-IsTracked :
    (es : Dict ℕ) (o : Queue) (k : String) (t : ℕ)
    → IsTracked es o
    → IsTracked (Dict.insert es k t) (o ++ (k, t) ∷ [])
insert-IsTracked es o k t v = record {
  distinct = insert-IsDistinct es k t v.distinct;
  queued = λ j u h. elim (Bool-cases (k == j)) [
    | inl e ↦
        let here = Queued-last k t o in
        let p : k ≡ j = (eq_iff k j).0 e in
        let q : t ≡ u = ground (arith, get-insert es k j t) in rw (← p, ← q) here
    | inr e ↦ Queued-append_left j u o _ (v.queued j u (ground (arith, get-insert es k j t)))
  ];
}

zero_or_pos : (n : ℕ) → (n ≡ 0) ⊎ (0 < n)
zero_or_pos n = omega arith

-- `insert` returned; what it left.
pub record Inserted (s : ExpiringSessionSet) (key : String) (now at : ℕ) : Type 0 where
  pub result : ExpiringSessionSet
  pub returns : insert s key now at ≡ some result
  pub valid : IsValid result
  pub ttl : result.ttl ≡ s.ttl
  pub max : result.max_entries ≡ s.max_entries
  pub found : (s.max_entries ≡ 0) ⊎ (Dict.get result.entries key ≡ some at)

-- In a valid set whose stamps are all earlier than the new one, `insert` returns: its loop ends. The
-- set stays valid with the same limits, and holds the new stamp unless the limit is 0.
pub insert_total :
    (s : ExpiringSessionSet) (key : String) (now at : ℕ)
    → IsValid s
    → All (λ (e : String × ℕ). e.1 < at) s.order
    → Inserted s key now at
unfolding insert
insert_total s key now at v below =
    let p = prune s now in
    let pv = prune-IsValid s now v in
    let r = evict_ends p.max_entries _ _ (insert-IsTracked p.entries p.order key at pv.tracked) (
      append-IsAscending p.order key at pv.ascending
        (unfold prune in prune_loop-All now s.ttl at s.entries s.order below)) in
    record {
      result = record p { entries = r.entries; order = r.order };
      returns = rw r.ends refl;
      valid = record { tracked = r.tracked; ascending = r.ascending; bounded = r.bounded };
      ttl = unfold prune in refl;
      max = unfold prune in refl;
      found = elim (zero_or_pos s.max_entries) [
        | inl none_kept ↦ inl none_kept
        | inr pos ↦ inr (
            evict_keeps p.max_entries (Dict.insert p.entries key at) p.order key at
              (unfold prune in pos) (insert-IsTracked p.entries p.order key at pv.tracked)
              (unfold prune in prune_loop-All now s.ttl at s.entries s.order below)
              (get-insert_self p.entries key at) r.ends)
      ];
    }

-- In a valid set with a positive limit and stamps earlier than the new one, the key that `insert`
-- has added is contained exactly until the time to live has passed since its stamp.
pub contains-insert :
    (s : ExpiringSessionSet) (key : String) (now at later : ℕ) {s' : ExpiringSessionSet}
    → IsValid s
    → All (λ (e : String × ℕ). e.1 < at) s.order
    → 0 < s.max_entries
    → insert s key now at ≡ some s'
    → (contains s' key later).1 ≡ ltb (later - at) s.ttl
contains-insert s key now at later {s'} v below pos e =
    let i = insert_total s key now at v below in
    let same : i.result ≡ s' = cc (i.returns, e) in
    let stamp : Dict.get i.result.entries key ≡ some at = ground (arith, i.found) in
    rw (← same, contains_lem i.result key later i.valid, stamp, i.ttl) (ground arith)
