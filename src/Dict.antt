-- ===== src/Dict.antt =====
-- `HashMap<String, V>` as an association list. A write to a key that is there replaces its value in
-- place, so the entries have distinct keys and their number is `HashMap::len`.
pub mod Laws
pub mod Distinct
use claude_dbus.Prelude.{
  String, List, [], ◌∷◌, Option, none, some, Bool, ◌&&◌, ℕ, ◌==◌, if◌then◌else◌, length, eqb, all,
  is_some,
}

abbrev pub Dict {ℓ} : Type ℓ → Type ℓ
Dict V = List (String × V)

module _ {ℓ} {V : Type ℓ} where
  unfoldable pub get : Dict V → String → Option V
  get [] k = none
  get ((j, v) ∷ d) k = let rest = get d k in if j == k then some v else rest

  unfoldable pub insert : Dict V → String → V → Dict V
  insert [] k v = (k, v) ∷ []
  insert ((j, w) ∷ d) k v = let rest = insert d k v in if j == k then (j, v) ∷ d else (j, w) ∷ rest

  -- On distinct keys this drops the one entry of the key.
  unfoldable pub remove : Dict V → String → Dict V
  remove [] k = []
  remove ((j, w) ∷ d) k = let rest = remove d k in if j == k then rest else (j, w) ∷ rest

  unfoldable pub contains_key : Dict V → String → Bool
  unfolding get
  contains_key d k = is_some (get d k)

  abbrev pub len : Dict V → ℕ
  len d = length d

abbrev pub same : Option ℕ → ℕ → Bool
same none v = Bool.false
same (some w) v = eqb w v

-- `==` of two maps to numbers, whatever the order of their entries.
unfoldable pub equal : Dict ℕ → Dict ℕ → Bool
unfolding get
equal d e = eqb (length d) (length e) && all (λ (kv : String × ℕ). same (get e kv.0) kv.1) d
