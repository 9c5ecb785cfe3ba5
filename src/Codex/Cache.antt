-- ===== src/Codex/Cache.antt =====
-- agent-dbus-service/src/providers/codex/artifacts.rs, `BoundedCache`: the session files found so far,
-- with the least recently used one dropped first. `none` stands for a loop that never ends.
pub mod Lru
use claude_dbus.Prelude.{
  String, ℕ, List, [], ◌∷◌, ◌++◌, Option, none, some, ltb, if◌then◌else◌, without,
}
use claude_dbus.Dict
use claude_dbus.Dict.{Dict}

pub record BoundedCache {ℓ} (T : Type ℓ) : Type ℓ where
  pub entries : Dict T
  pub order : List String
  pub max_entries : ℕ

module _ {ℓ} {T : Type ℓ} where
  unfoldable pub new : ℕ → BoundedCache T
  new max_entries = record { entries = []; order = []; max_entries = max_entries }

  unfoldable pub touch : BoundedCache T → String → BoundedCache T
  touch c key = record c { order = without key c.order ++ key ∷ [] }

  abbrev pub found : BoundedCache T → String → Option T → BoundedCache T × Option T
  found c key none = (c, none)
  found c key (some value) = (touch c key, some value)

  unfoldable pub get : BoundedCache T → String → BoundedCache T × Option T
  unfolding touch
  get c key = found c key (Dict.get c.entries key)

  -- `while self.entries.len() > self.max_entries`: with an empty queue it would spin.
  unfoldable pub evict : ℕ → Dict T → List String → Option (Dict T × List String)
  evict max_entries entries [] =
      if ltb max_entries (Dict.len entries) then none else some (entries, [])
  evict max_entries entries (expired ∷ order) =
      let rest = evict max_entries (Dict.remove entries expired) order in
      if ltb max_entries (Dict.len entries) then rest else some (entries, expired ∷ order)

  abbrev pub evicted : BoundedCache T → Option (Dict T × List String) → Option (BoundedCache T)
  evicted c none = none
  evicted c (some (entries, order)) = some (record c { entries = entries; order = order })

  unfoldable pub insert : BoundedCache T → String → T → Option (BoundedCache T)
  unfolding touch evict
  insert c key value =
      let c' = touch (record c { entries = Dict.insert c.entries key value }) key in
      evicted c' (evict c'.max_entries c'.entries c'.order)

  unfoldable pub remove : BoundedCache T → String → BoundedCache T
  remove c key = record c { entries = Dict.remove c.entries key; order = without key c.order }
