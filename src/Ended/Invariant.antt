-- ===== src/Ended/Invariant.antt =====
-- Every entry is queued under its own time stamp, the queue is in the order of time, and the keys
-- are distinct. The loops keep this.
use claude_dbus.Prelude.{
  String, ℕ, ◌-◌, ◌≤◌, ◌<◌, ◌≡◌, ◌⊎◌, inl, inr, List, [], ◌∷◌, none, some, ltb, arith, All, ◌==◌,
  eq_iff, Bool-cases, if◌then◌else◌,
}
use claude_dbus.Dict
use claude_dbus.Dict.{Dict}
use claude_dbus.Dict.Laws.{get-remove, len-remove-le}
use claude_dbus.Dict.Distinct.{IsDistinct, remove-IsDistinct}
use claude_dbus.Ended.{ExpiringSessionSet, new, drop_entry, prune_loop, prune, stamped}

abbrev pub Queue : Type 0
Queue = List (String × ℕ)

abbrev pub Queued : String → ℕ → Queue → Type 0
Queued k t [] = ⊥
Queued k t ((j, u) ∷ o) = ((j ≡ k) × (u ≡ t)) ⊎ Queued k t o

abbrev pub IsAscending : Queue → Type 0
IsAscending [] = Unit
IsAscending ((k, t) ∷ o) = All (λ (e : String × ℕ). t ≤ e.1) o × IsAscending o

-- What the entries and the queue satisfy between operations.
pub record IsTracked (entries : Dict ℕ) (order : Queue) : Type 0 where
  pub distinct : IsDistinct entries
  pub queued : (k : String) (t : ℕ) → Dict.get entries k ≡ some t → Queued k t order

pub record IsValid (s : ExpiringSessionSet) : Type 0 where
  pub tracked : IsTracked s.entries s.order
  pub ascending : IsAscending s.order
  pub bounded : Dict.len s.entries ≤ s.max_entries

pub new-IsValid : (max_entries ttl : ℕ) → IsValid (new max_entries ttl)
unfolding new Dict.get
new-IsValid max_entries ttl = record {
  tracked = record { distinct = tt; queued = λ k t h. ground arith };
  ascending = tt;
  bounded = omega arith;
}

-- Dropping the front of the queue together with its entry loses track of nothing.
pub get-drop_entry :
    (es : Dict ℕ) (key : String) (at : ℕ) (j : String)
    → Dict.get (drop_entry es key at) j ≡ (
        if stamped (Dict.get es key) at
        then (if key == j then none else Dict.get es j)
        else Dict.get es j)
unfolding drop_entry
get-drop_entry es key at j = ground (arith, get-remove es key j)

pub drop_entry-IsTracked :
    (es : Dict ℕ) (key : String) (at : ℕ) (o : Queue)
    → IsTracked es ((key, at) ∷ o)
    → IsTracked (drop_entry es key at) o
drop_entry-IsTracked es key at o v = record {
  distinct = unfold drop_entry in ground (arith, remove-IsDistinct es key v.distinct);
  queued = λ k t h. ground (arith, get-drop_entry es key at k, eq_iff key k, v.queued k t);
}

-- What is queued lies no earlier than the front.
pub front_le :
    (key : String) (at : ℕ) (o : Queue) (k : String) (t : ℕ)
    → IsAscending ((key, at) ∷ o)
    → Queued k t ((key, at) ∷ o)
    → at ≤ t
front_le key at o k t (h, _) (inl (_, e)) = omega arith
front_le key at o k t (h, _) (inr q) = later o h q
  where
    later : (o : Queue) → All (λ (e : String × ℕ). at ≤ e.1) o → Queued k t o → at ≤ t
    later ((j, u) ∷ o) (h, hs) (inl (_, e)) = omega arith
    later ((j, u) ∷ o) (h, hs) (inr q) = later o hs q
    later [] h q = absurd q

pub prune_loop-IsTracked :
    (now ttl : ℕ) (es : Dict ℕ) (o : Queue)
    → IsTracked es o
    → IsTracked (prune_loop now ttl es o).0 (prune_loop now ttl es o).1
unfolding prune_loop
prune_loop-IsTracked now ttl es [] v = v
prune_loop-IsTracked now ttl es ((key, at) ∷ o) v = elim (Bool-cases (ltb (now - at) ttl)) [
  | inl e ↦ rw e v
  | inr e ↦
      rw e
        (prune_loop-IsTracked now ttl (drop_entry es key at) o (drop_entry-IsTracked es key at o v))
]

pub prune_loop-IsAscending :
    (now ttl : ℕ) (es : Dict ℕ) (o : Queue)
    → IsAscending o
    → IsAscending (prune_loop now ttl es o).1
unfolding prune_loop
prune_loop-IsAscending now ttl es [] h = h
prune_loop-IsAscending now ttl es ((key, at) ∷ o) h = elim (Bool-cases (ltb (now - at) ttl)) [
  | inl e ↦ rw e h
  | inr e ↦ rw e (prune_loop-IsAscending now ttl (drop_entry es key at) o h.1)
]

-- The queue of stamps below a bound stays below it.
pub prune_loop-All :
    (now ttl bound : ℕ) (es : Dict ℕ) (o : Queue)
    → All (λ (e : String × ℕ). e.1 < bound) o
    → All (λ (e : String × ℕ). e.1 < bound) (prune_loop now ttl es o).1
unfolding prune_loop
prune_loop-All now ttl bound es [] h = h
prune_loop-All now ttl bound es ((key, at) ∷ o) h = elim (Bool-cases (ltb (now - at) ttl)) [
  | inl e ↦ rw e h
  | inr e ↦ rw e (prune_loop-All now ttl bound (drop_entry es key at) o h.1)
]

pub len-drop_entry-le :
    (es : Dict ℕ) (key : String) (at : ℕ) → Dict.len (drop_entry es key at) ≤ Dict.len es
unfolding drop_entry
len-drop_entry-le es key at = ground (arith, len-remove-le es key)

pub len-prune_loop-le :
    (now ttl : ℕ) (es : Dict ℕ) (o : Queue) → Dict.len (prune_loop now ttl es o).0 ≤ Dict.len es
unfolding prune_loop
len-prune_loop-le now ttl es [] = omega arith
len-prune_loop-le now ttl es ((key, at) ∷ o) =
    ground (arith, len-drop_entry-le es key at, len-prune_loop-le now ttl (drop_entry es key at) o)

pub prune-IsValid : (s : ExpiringSessionSet) (now : ℕ) → IsValid s → IsValid (prune s now)
unfolding prune
prune-IsValid s now v = record {
  tracked = prune_loop-IsTracked now s.ttl s.entries s.order v.tracked;
  ascending = prune_loop-IsAscending now s.ttl s.entries s.order v.ascending;
  bounded = omega (arith, len-prune_loop-le now s.ttl s.entries s.order, v.bounded);
}
