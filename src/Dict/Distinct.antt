-- ===== src/Dict/Distinct.antt =====
-- Maps whose entries have distinct keys: every map that `insert` and `remove` build.
use claude_dbus.Prelude.{
  String, [], ◌∷◌, none, some, ℕ, ◌≤◌, ◌≡◌, refl, eq_iff, eq_refl, true, all, eqb_refl, length,
  arith,
}
use claude_dbus.Dict.{Dict, get, insert, remove, len, equal, same}
use claude_dbus.Dict.Laws.{get-insert, get-remove}

module _ {ℓ} {V : Type ℓ} where
  abbrev pub IsDistinct : Dict V → Type ℓ
  IsDistinct [] = Unit
  IsDistinct ((k, v) ∷ d) = (get d k ≡ none) × IsDistinct d

  pub insert-IsDistinct :
      (d : Dict V) (k : String) (v : V) → IsDistinct d → IsDistinct (insert d k v)
  unfolding insert
  insert-IsDistinct [] k v h = (unfold get in refl, tt)
  insert-IsDistinct ((i, w) ∷ d) k v h =
      ground (arith, eq_iff i k, eq_iff k i, get-insert d k i v, insert-IsDistinct d k v h.1)

  pub remove-IsDistinct : (d : Dict V) (k : String) → IsDistinct d → IsDistinct (remove d k)
  unfolding remove
  remove-IsDistinct [] k h = tt
  remove-IsDistinct ((i, w) ∷ d) k h = ground (arith, get-remove d k i, remove-IsDistinct d k h.1)

  -- A map with one key at most has one entry at most.
  pub len-le-one :
      (d : Dict V) (k : String)
      → IsDistinct d
      → ((j : String) (v : V) → get d j ≡ some v → j ≡ k)
      → len d ≤ 1
  unfolding get
  len-le-one [] k h only = omega arith
  len-le-one ((i, w) ∷ []) k h only = omega arith
  len-le-one ((i, w) ∷ (j, v) ∷ d) k h only =
      ground (arith, eq_refl i, eq_refl j, eq_iff i j, eq_iff j i, only i w, only j v)

all_found :
    (d e : Dict ℕ)
    → IsDistinct d
    → ((k : String) (v : ℕ) → get d k ≡ some v → get e k ≡ some v)
    → all (λ (kv : String × ℕ). same (get e kv.0) kv.1) d ≡ true
unfolding get
all_found [] e h found = refl
all_found ((k, v) ∷ d) e h found =
    let here : get e k ≡ some v = found k v (ground (arith, eq_refl k)) in
    rw (here, eqb_refl v) (all_found d e h.1 λ j u p. found j u (ground (arith, eq_iff k j)))

pub equal_refl : (d : Dict ℕ) → IsDistinct d → equal d d ≡ true
unfolding equal
equal_refl d h = rw (eqb_refl (length d), all_found d d h (λ k v e. e)) refl
