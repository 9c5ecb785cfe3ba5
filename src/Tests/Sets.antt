-- ===== src/Tests/Sets.antt =====
-- Tombstones and the cache of session files.
use claude_dbus.Prelude.{
  String, ◌-◌, ◌≡◌, refl, subst, [], ◌∷◌, some, false, ltb, if◌then◌else◌, ◌==◌, arith,
}
use claude_dbus.Dict
use claude_dbus.Ended
use claude_dbus.Ended.{ExpiringSessionSet}
use claude_dbus.Ended.Invariant
use claude_dbus.Ended.Invariant.{new-IsValid}
use claude_dbus.Ended.Insert.{insert_total, contains-insert}
use claude_dbus.Ended.Lookup.{remove_lem}
use claude_dbus.Codex.Cache
use claude_dbus.Codex.Cache.{BoundedCache}
use claude_dbus.Codex.Cache.Lru
use claude_dbus.Codex.Cache.Lru.{insert_room, get_lem}

-- A set of two tombstones at most, and one with a tombstone in it.
abbrev empty_set : ExpiringSessionSet
empty_set = record { entries = []; order = []; max_entries = 2; ttl = 30 }

empty_set-IsValid : Invariant.IsValid empty_set
unfolding Ended.new
empty_set-IsValid = new-IsValid 2 30

abbrev ended_once : ExpiringSessionSet
ended_once = record {
  entries = Dict.insert [] "codex:a" 100;
  order = ("codex:a", 100) ∷ [];
  max_entries = 2;
  ttl = 30;
}

first_end : Ended.insert empty_set "codex:a" 100 100 ≡ some ended_once
unfolding Ended.insert Ended.prune Ended.prune_loop Ended.evict Ended.new Ended.after_evict
    Dict.insert
first_end = refl

ended_once-IsValid : Invariant.IsValid ended_once
ended_once-IsValid =
    let i = insert_total empty_set "codex:a" 100 100 empty_set-IsValid tt in
    let same : i.result ≡ ended_once = cc (i.returns, first_end) in
    subst Invariant.IsValid same i.valid

contains-insert_example : (Ended.contains ended_once "codex:a" 120).1 ≡ ltb (120 - 100) 30
contains-insert_example =
    contains-insert empty_set "codex:a" 100 100 120 empty_set-IsValid tt (omega arith) first_end

remove_lem_example :
    ((Ended.remove ended_once "codex:a" 110).1 ≡ (Ended.contains ended_once "codex:a" 110).1)
    × ((Ended.contains (Ended.remove ended_once "codex:a" 110).0 "codex:b" 120).1
        ≡ (if "codex:a" == "codex:b" then false else (Ended.contains ended_once "codex:b" 120).1))
remove_lem_example =
    remove_lem ended_once "codex:a" "codex:b" 110 120 ended_once-IsValid (omega arith)

abbrev no_files : BoundedCache String
no_files = record { entries = []; order = []; max_entries = 1 }

no_files-IsValid : Lru.IsValid no_files
unfolding Cache.new
no_files-IsValid = Lru.new-IsValid 1

insert_room_example : Lru.Inserted no_files "a" "/sessions/a.jsonl"
insert_room_example = insert_room no_files "a" "/sessions/a.jsonl" no_files-IsValid (omega arith)
