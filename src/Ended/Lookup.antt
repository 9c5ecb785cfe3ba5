-- ===== src/Ended/Lookup.antt =====
-- What a lookup answers: an entry counts exactly while it is younger than the time to live.
use claude_dbus.Prelude.{
  String, ℕ, ◌-◌, ◌≤◌, ◌≡◌, ◌∙◌, refl, ap, [], ◌∷◌, Option, none, some, true, false, ltb, arith,
  ◌==◌, eq_iff, Bool-cases, Option-cases, inl, inr, if◌then◌else◌, is_some, filter_option,
}
use claude_dbus.Dict
use claude_dbus.Dict.{Dict}
use claude_dbus.Dict.Laws.{get-remove, len-remove-le}
use claude_dbus.Dict.Distinct.{remove-IsDistinct}
use claude_dbus.Ended.{ExpiringSessionSet, drop_entry, prune_loop, prune, contains, remove}
use claude_dbus.Ended.Invariant.{
  Queue, IsAscending, IsTracked, IsValid, get-drop_entry, drop_entry-IsTracked, front_le,
  prune-IsValid,
}

-- The stamp of a key that has not run out at `now`.
abbrev pub live : ℕ → ℕ → Option ℕ → Option ℕ
live now ttl = filter_option (λ t. ltb (now - t) ttl)

live_all :
    (now ttl : ℕ) (key : String) (at : ℕ) (es : Dict ℕ) (o : Queue) (k : String)
    → IsTracked es ((key, at) ∷ o)
    → IsAscending ((key, at) ∷ o)
    → ltb (now - at) ttl ≡ true
    → Dict.get es k ≡ live now ttl (Dict.get es k)
live_all now ttl key at es o k v asc e = elim (Option-cases (Dict.get es k)) [
  | inl h ↦ rw h refl
  | inr (t, h) ↦
      let after : ltb (now - t) ttl ≡ true =
        ground (arith, front_le key at o k t asc (v.queued k t h)) in
      rw (h, after) refl
]

live-drop_entry :
    (now ttl : ℕ) (key : String) (at : ℕ) (es : Dict ℕ) (k : String)
    → ltb (now - at) ttl ≡ false
    → live now ttl (Dict.get (drop_entry es key at) k) ≡ live now ttl (Dict.get es k)
live-drop_entry now ttl key at es k e = ground (arith, get-drop_entry es key at k, eq_iff key k)

pub get-prune_loop :
    (now ttl : ℕ) (es : Dict ℕ) (o : Queue) (k : String)
    → IsTracked es o
    → IsAscending o
    → Dict.get (prune_loop now ttl es o).0 k ≡ live now ttl (Dict.get es k)
unfolding prune_loop
get-prune_loop now ttl es [] k v asc = elim (Option-cases (Dict.get es k)) [
  | inl h ↦ rw h refl
  | inr (t, h) ↦ absurd (v.queued k t h)
]
get-prune_loop now ttl es ((key, at) ∷ o) k v asc = elim (Bool-cases (ltb (now - at) ttl)) [
  | inl e ↦ rw e (live_all now ttl key at es o k v asc e)
  | inr e ↦ rw e (
      get-prune_loop now ttl (drop_entry es key at) o k (drop_entry-IsTracked es key at o v) asc.1
      ∙ live-drop_entry now ttl key at es k e)
]

-- In a valid set, `contains` answers whether the key has an entry that has not run out.
pub contains_lem :
    (s : ExpiringSessionSet) (k : String) (now : ℕ)
    → IsValid s
    → (contains s k now).1 ≡ is_some (live now s.ttl (Dict.get s.entries k))
unfolding contains prune Dict.contains_key
contains_lem s k now v =
    ap is_some (get-prune_loop now s.ttl s.entries s.order k v.tracked v.ascending)

pub remove-IsValid :
    (s : ExpiringSessionSet) (k : String) (now : ℕ) → IsValid s → IsValid (remove s k now).0
unfolding remove
remove-IsValid s k now v =
    let p = prune-IsValid s now v in
    let es = (prune s now).entries in
    record {
      tracked = record {
        distinct = remove-IsDistinct es k p.tracked.distinct;
        queued = λ j t h. ground (arith, get-remove es k j, p.tracked.queued j t);
      };
      ascending = p.ascending;
      bounded = omega (arith, len-remove-le es k, p.bounded);
    }

live_later :
    (now later ttl : ℕ) (o : Option ℕ)
    → now ≤ later
    → live later ttl (live now ttl o) ≡ live later ttl o
live_later now later ttl none h = refl
live_later now later ttl (some t) h = ground arith

after_remove :
    (now later ttl : ℕ) (k j : String) (o p : Option ℕ)
    → now ≤ later
    → p ≡ (if k == j then none else live now ttl o)
    → is_some (live later ttl p) ≡ (if k == j then false else is_some (live later ttl o))
after_remove now later ttl k j o p h e = elim (Bool-cases (k == j)) [
  | inl same ↦ ground arith
  | inr other ↦
      rw other (ap is_some (ap (live later ttl) (ground arith) ∙ live_later now later ttl o h))
]

-- In a valid set, `remove` answers what `contains` would have answered at the same time, and
-- afterwards, at any later time, the key is not contained and every other key is contained as
-- it would have been without the removal.
pub remove_lem :
    (s : ExpiringSessionSet) (k j : String) (now later : ℕ)
    → IsValid s
    → now ≤ later
    → ((remove s k now).1 ≡ (contains s k now).1)
      × ((contains (remove s k now).0 j later).1
          ≡ (if k == j then false else (contains s j later).1))
remove_lem s k j now later v h =
    (answers_alike, contains_lem _ j later (remove-IsValid s k now v) ∙ kept)
  where
    answers_alike : (remove s k now).1 ≡ (contains s k now).1
    answers_alike = unfold remove contains Dict.contains_key in refl

    left :
        Dict.get (remove s k now).0.entries j
        ≡ (if k == j then none else live now s.ttl (Dict.get s.entries j))
    left =
        unfold remove prune in
        get-remove (prune_loop now s.ttl s.entries s.order).0 k j
        ∙ ap (λ (o : Option ℕ). if k == j then none else o)
            (get-prune_loop now s.ttl s.entries s.order j v.tracked v.ascending)

    ttl_same : (remove s k now).0.ttl ≡ s.ttl
    ttl_same = unfold remove prune in refl

    kept :
        is_some (live later (remove s k now).0.ttl (Dict.get (remove s k now).0.entries j))
        ≡ (if k == j then false else (contains s j later).1)
    kept =
        rw (ttl_same, contains_lem s j later v)
          (after_remove now later s.ttl k j (Dict.get s.entries j) _ h left)
