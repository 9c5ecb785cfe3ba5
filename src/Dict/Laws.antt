-- ===== src/Dict/Laws.antt =====
-- The laws by which the other modules use a `Dict`.
use claude_dbus.Prelude.{
  String, List, [], ◌∷◌, Option, none, some, ℕ, suc, zero, ◌+◌, ◌-◌, ◌≤◌, ◌<◌, ◌≡◌, ◌≢◌, refl, ap,
  ◌==◌, eq_iff, eq_refl, if◌then◌else◌, length, arith, is_some,
}
use claude_dbus.Dict.{Dict, get, insert, remove, len}

module _ {ℓ} {V : Type ℓ} where
  pub get-insert :
      (d : Dict V) (k j : String) (v : V)
      → get (insert d k v) j ≡ (if k == j then some v else get d j)
  unfolding get insert
  get-insert [] k j v = refl
  get-insert ((i, w) ∷ d) k j v =
      ground (arith, eq_iff k j, eq_iff i k, eq_iff i j, get-insert d k j v)

  pub get-remove :
      (d : Dict V) (k j : String) → get (remove d k) j ≡ (if k == j then none else get d j)
  unfolding get remove
  get-remove [] k j = ground arith
  get-remove ((i, w) ∷ d) k j = ground (arith, eq_iff k j, eq_iff i k, eq_iff i j, get-remove d k j)

  pub get-insert_self : (d : Dict V) (k : String) (v : V) → get (insert d k v) k ≡ some v
  get-insert_self d k v = simp (get-insert, eq_refl)

  pub get-remove_self : (d : Dict V) (k : String) → get (remove d k) k ≡ none
  get-remove_self d k = simp (get-remove, eq_refl)

  pub len-insert :
      (d : Dict V) (k : String) (v : V)
      → len (insert d k v) ≡ (if is_some (get d k) then len d else suc (len d))
  unfolding insert get
  len-insert [] k v = refl
  len-insert ((i, w) ∷ d) k v = ground (arith, len-insert d k v)

  pub len-remove-le : (d : Dict V) (k : String) → len (remove d k) ≤ len d
  unfolding remove
  len-remove-le [] k = omega arith
  len-remove-le ((i, w) ∷ d) k = ground (arith, len-remove-le d k)

  pub len-remove-lt :
      (d : Dict V) (k : String) (v : V) → get d k ≡ some v → len (remove d k) < len d
  unfolding remove get
  len-remove-lt [] k v h = cc
  len-remove-lt ((i, w) ∷ d) k v h = ground (arith, len-remove-le d k, len-remove-lt d k v)

  -- A map in which nothing is found is empty.
  pub empty_of_none : (d : Dict V) → ((k : String) → get d k ≡ none) → d ≡ []
  unfolding get
  empty_of_none [] h = refl
  empty_of_none ((i, w) ∷ d) h = ground (arith, eq_refl i, h i)

  pub remove_missing : (d : Dict V) (k : String) → get d k ≡ none → remove d k ≡ d
  unfolding get remove
  remove_missing [] k h = refl
  remove_missing ((i, w) ∷ d) k h = ground (arith, remove_missing d k)

pub ruleset dict_laws = (get-insert, get-remove, eq_refl)
