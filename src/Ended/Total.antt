-- ===== src/Ended/Total.antt =====
-- Operations on a set whose time stamps a clock has reached: they return, keep the set valid, and the
-- clock does not run backwards.
use claude_dbus.Prelude.{
  String, ℕ, suc, ◌<◌, ◌≤◌, ◌≡◌, refl, [], ◌∷◌, ◌++◌, ltb, arith, All, All-append, Option, some,
  Bool-cases, inl, inr,
}
use claude_dbus.Dict
use claude_dbus.Dict.{Dict}
use claude_dbus.Ended.{ExpiringSessionSet, drop_entry, prune, evict, insert, contains, remove}
use claude_dbus.Ended.Invariant.{Queue, IsAscending, IsValid, prune-IsValid, prune_loop-All}
use claude_dbus.Ended.Lookup.{remove-IsValid}
use claude_dbus.Ended.Insert.{evict_ends, insert-IsTracked}

-- The clock has passed every stamp.
abbrev pub Reached : ℕ → Queue → Type 0
Reached clock = All λ (e : String × ℕ). e.1 < suc clock

-- A valid set at a time.
pub record IsCurrent (clock : ℕ) (s : ExpiringSessionSet) : Type 0 where
  pub valid : IsValid s
  pub reached : Reached clock s.order

append-IsAscending :
    (o : Queue) (k : String) (t : ℕ) → IsAscending o → Reached t o → IsAscending (o ++ (k, t) ∷ [])
append-IsAscending [] k t asc below = (tt, tt)
append-IsAscending ((j, u) ∷ o) k t asc below = (
  All-append (λ (e : String × ℕ). u ≤ e.1) o ((k, t) ∷ []) asc.0 (omega arith, tt),
  append-IsAscending o k t asc.1 below.1,
)

later : (clock clock' : ℕ) (o : Queue) → clock ≤ clock' → Reached clock o → Reached clock' o
later clock clock' [] h r = tt
later clock clock' ((j, u) ∷ o) h r = (omega arith, later clock clock' o h r.1)

pub IsCurrent-later :
    (clock clock' : ℕ) (s : ExpiringSessionSet)
    → clock ≤ clock'
    → IsCurrent clock s
    → IsCurrent clock' s
IsCurrent-later clock clock' s h c = record {
  valid = c.valid;
  reached = later clock clock' s.order h c.reached;
}

prune-IsCurrent :
    (clock now : ℕ) (s : ExpiringSessionSet) → IsCurrent clock s → IsCurrent clock (prune s now)
prune-IsCurrent clock now s c = record {
  valid = prune-IsValid s now c.valid;
  reached = unfold prune in prune_loop-All now s.ttl (suc clock) s.entries s.order c.reached;
}

pub contains-IsCurrent :
    (clock now : ℕ) (s : ExpiringSessionSet) (key : String)
    → IsCurrent clock s
    → IsCurrent clock (contains s key now).0
unfolding contains
contains-IsCurrent clock now s key c = prune-IsCurrent clock now s c

pub remove-IsCurrent :
    (clock now : ℕ) (s : ExpiringSessionSet) (key : String)
    → IsCurrent clock s
    → IsCurrent clock (remove s key now).0
unfolding remove
remove-IsCurrent clock now s key c = record {
  valid = remove-IsValid s key now c.valid;
  reached = (prune-IsCurrent clock now s c).reached;
}

evict-Reached :
    (clock max : ℕ) (es : Dict ℕ) (o : Queue) {es' : Dict ℕ} {o' : Queue}
    → evict max es o ≡ some (es', o')
    → Reached clock o
    → Reached clock o'
unfolding evict
evict-Reached clock max es [] e r = ground arith
evict-Reached clock max es ((key, at) ∷ o) e r = elim (Bool-cases (ltb max (Dict.len es))) [
  | inl more ↦ evict-Reached clock max (drop_entry es key at) o (rw more at e) r.1
  | inr fits ↦ ground arith
]

-- `insert` returned, at the time of its own stamp.
pub record Settled (at : ℕ) (r : Option ExpiringSessionSet) : Type 0 where
  pub result : ExpiringSessionSet
  pub returned : r ≡ some result
  pub current : IsCurrent at result

pub insert_settles :
    (clock now at : ℕ) (s : ExpiringSessionSet) (key : String)
    → clock ≤ at
    → IsCurrent clock s
    → Settled at (insert s key now at)
unfolding insert
insert_settles clock now at s key h c =
    let p = prune-IsCurrent at now s (IsCurrent-later clock at s h c) in
    let v = p.valid in
    let o = (prune s now).order in
    let r =
      evict_ends (prune s now).max_entries _ _ (insert-IsTracked _ o key at v.tracked)
        (append-IsAscending o key at v.ascending p.reached) in
    record {
      result = record (prune s now) { entries = r.entries; order = r.order };
      returned = rw r.ends refl;
      current = record {
        valid = record { tracked = r.tracked; ascending = r.ascending; bounded = r.bounded };
        reached =
            evict-Reached at _ _ _ r.ends
              (All-append _ o ((key, at) ∷ []) p.reached (omega arith, tt));
      };
    }
