-- ===== src/Codex/Search.antt =====
-- agent-dbus-service/src/providers/codex/artifacts.rs: the search of the directory of sessions for the
-- rollout files of a session. What a directory holds is a value, in the order of `read_dir`; names
-- are texts.

pub mod Found
pub mod Newest
use Prim.Native.String.{◌++◌}
use claude_dbus.Prelude.{
  String, ℕ, List, [], ◌∷◌, Option, none, some, Bool, true, false, not, ◌&&◌, ◌==◌, ltb, leb,
  if◌then◌else◌, ◌>>=◌,
}
use mathlib.Core.List.{◌++◌ as append}
use claude_dbus.Text.{contains}
use claude_dbus.Client.{split_last}

mutual
  -- An entry: a directory, a file, or anything else.
  pub data Entry : Type 0 where
    directory : String → Folder → Entry
    file : String → Entry
    other : String → Entry

  pub data Folder : Type 0 where
    -- no directory, or one that cannot be read
    unreadable : Folder
    empty : Folder
    -- an entry that cannot be read, or whose type cannot
    unknown : Folder → Folder
    holds : Entry → Folder → Folder

abbrev pub joined : String → String → String
joined dir name = dir ++ "/" ++ name

-- `Path::extension`: what stands behind the last dot, where something stands before it.
abbrev pub extension_of : Option (String × String) → Option String
extension_of none = none
extension_of (some (stem, ext)) = if stem == "" then none else some ext

abbrev pub is_jsonl : Option String → Bool
is_jsonl none = false
is_jsonl (some ext) = ext == "jsonl"

unfoldable pub is_rollout : String → String → Bool
is_rollout session_id name =
    is_jsonl (extension_of (split_last name ".")) && contains name session_id

-- The paths that are found go to the end of `matches`, which the recursion passes on.
unfoldable mutual
  unfolding is_rollout

  pub collect : String → String → Folder → List String → List String
  collect session_id dir unreadable matches = matches
  collect session_id dir empty matches = matches
  collect session_id dir (unknown rest) matches = collect session_id dir rest matches
  collect session_id dir (holds entry rest) matches =
      collect session_id dir rest (collect_entry session_id dir entry matches)

  pub collect_entry : String → String → Entry → List String → List String
  collect_entry session_id dir (directory name folder) matches =
      collect session_id (joined dir name) folder matches
  collect_entry session_id dir (file name) matches =
      if is_rollout session_id name then append matches (joined dir name ∷ []) else matches
  collect_entry session_id dir (other name) matches = matches

-- `Option<SystemTime>`: no time is before every time.
abbrev pub not_after : Option ℕ → Option ℕ → Bool
not_after none t = true
not_after (some t) none = false
not_after (some t) (some u) = leb t u

-- `max_by_key`: of two that were modified at the same time, the later one in the list.
unfoldable pub newest_of : (String → Option ℕ) → String → List String → String
newest_of modified path [] = path
newest_of modified path (next ∷ rest) =
    newest_of modified (if not_after (modified path) (modified next) then next else path) rest

abbrev pub newest : (String → Option ℕ) → List String → Option String
newest modified [] = none
newest modified (path ∷ rest) = some (newest_of modified path rest)

-- What `codex_session_file` finds on the disk, when its cache does not know the session.
unfoldable pub searched : (String → Option ℕ) → String → Folder → String → Option String
unfolding collect newest_of
searched modified dir sessions session_id = newest modified (collect session_id dir sessions [])
