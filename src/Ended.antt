-- ===== src/Ended.antt =====
-- agent-dbus-service/src/main.rs, `ExpiringSessionSet`: the tombstones of ended sessions.
-- An `Instant` is a number of clock ticks; each reading of the clock is an argument. A `while` loop
-- that pops the queue recurs on the queue; `none` stands for a loop that never ends.
pub mod Invariant
pub mod Lookup
pub mod Insert
pub mod Total
use claude_dbus.Prelude.{
  String, ℕ, ◌-◌, List, [], ◌∷◌, ◌++◌, Option, none, some, Bool, false, ltb, eqb, if◌then◌else◌,
  is_some,
}
use claude_dbus.Dict
use claude_dbus.Dict.{Dict}

pub record ExpiringSessionSet : Type 0 where
  pub entries : Dict ℕ
  pub order : List (String × ℕ)
  pub max_entries : ℕ
  pub ttl : ℕ

unfoldable pub new : ℕ → ℕ → ExpiringSessionSet
new max_entries ttl = record { entries = []; order = []; max_entries = max_entries; ttl = ttl }

abbrev pub stamped : Option ℕ → ℕ → Bool
stamped none at = false
stamped (some t) at = eqb t at

-- `if self.entries.get(&key) == Some(&inserted_at) { self.entries.remove(&key); }`
unfoldable pub drop_entry : Dict ℕ → String → ℕ → Dict ℕ
drop_entry entries key at =
    if stamped (Dict.get entries key) at then Dict.remove entries key else entries

-- The loop of `prune`. `Instant::duration_since` is 0 for a later instant.
unfoldable pub prune_loop : ℕ → ℕ → Dict ℕ → List (String × ℕ) → Dict ℕ × List (String × ℕ)
prune_loop now ttl entries [] = (entries, [])
prune_loop now ttl entries ((key, at) ∷ order) =
    let rest = prune_loop now ttl (drop_entry entries key at) order in
    if ltb (now - at) ttl then (entries, (key, at) ∷ order) else rest

unfoldable pub prune : ExpiringSessionSet → ℕ → ExpiringSessionSet
prune s now =
    let (entries, order) = prune_loop now s.ttl s.entries s.order in
    record s { entries = entries; order = order }

-- The loop of `insert`: with an empty queue and too many entries it would spin.
unfoldable pub evict : ℕ → Dict ℕ → List (String × ℕ) → Option (Dict ℕ × List (String × ℕ))
evict max_entries entries [] =
    if ltb max_entries (Dict.len entries) then none else some (entries, [])
evict max_entries entries ((key, at) ∷ order) =
    let rest = evict max_entries (drop_entry entries key at) order in
    if ltb max_entries (Dict.len entries) then rest else some (entries, (key, at) ∷ order)

unfoldable pub after_evict :
    ExpiringSessionSet → Option (Dict ℕ × List (String × ℕ)) → Option ExpiringSessionSet
after_evict s none = none
after_evict s (some (entries, order)) = some (record s { entries = entries; order = order })

-- `now` is the clock reading of `prune`, `inserted_at` that of `insert` itself.
unfoldable pub insert : ExpiringSessionSet → String → ℕ → ℕ → Option ExpiringSessionSet
unfolding after_evict
insert s key now inserted_at =
    let p = prune s now in
    after_evict p (
      evict p.max_entries (Dict.insert p.entries key inserted_at)
        (p.order ++ (key, inserted_at) ∷ []))

pub remove : ExpiringSessionSet → String → ℕ → ExpiringSessionSet × Bool
remove s key now =
    let p = prune s now in
    (record p { entries = Dict.remove p.entries key }, is_some (Dict.get p.entries key))

unfoldable pub contains : ExpiringSessionSet → String → ℕ → ExpiringSessionSet × Bool
contains s key now = let p = prune s now in (p, Dict.contains_key p.entries key)
