-- ===== src/Codex/Artifacts.antt =====
-- agent-dbus-service/src/providers/codex/artifacts.rs: which rollout file is that of a session, and
-- the tail of a file, which does not grow while it is read. What stands on the disk is an argument,
-- as is the reading of bytes as text.
use claude_dbus.Prelude.{
  String, ℕ, zero, suc, ◌-◌, List, [], ◌∷◌, Option, none, some, Bool, eqb, if◌then◌else◌, ◌>>=◌,
  length,
}
use claude_dbus.Text.{split_once}
use claude_dbus.Codex.Cache
use claude_dbus.Codex.Cache.{BoundedCache}

abbrev pub codex_session_file_cache_max : ℕ
codex_session_file_cache_max = 256

abbrev pub FileCache : Type 0
FileCache = BoundedCache String

-- A path that is found goes into the cache.
abbrev pub stored : FileCache → String → Option String → Option (FileCache × Option String)
stored cache session_id none = some (cache, none)
stored cache session_id (some path) = do
  cache' ← Cache.insert cache session_id path
  some (cache', some path)

-- What `get` answers: a path that is not there any more is dropped, and searched again.
abbrev pub after_get :
    (String → Bool)
    → Option String
    → String
    → FileCache × Option String
    → Option (FileCache × Option String)
after_get there newest session_id (cache, none) = stored cache session_id newest
after_get there newest session_id (cache, some path) =
    let searched = stored (Cache.remove cache session_id) session_id newest in
    if there path then some (cache, some path) else searched

-- `newest` is the file of the session that was modified last; `none` is a loop that never ends.
unfoldable pub codex_session_file :
    (String → Bool) → Option String → FileCache → String → Option (FileCache × Option String)
codex_session_file there newest cache session_id =
    after_get there newest session_id (Cache.get cache session_id)

unfoldable pub skip_bytes : ℕ → List ℕ → List ℕ
skip_bytes zero bytes = bytes
skip_bytes (suc n) [] = []
skip_bytes (suc n) (b ∷ bytes) = skip_bytes n bytes

abbrev pub after_line : Option (String × String) → Option String
after_line none = none
after_line (some (partial, rest)) = some rest

-- A tail that begins inside the file begins after its first line break. `len` is the length of the
-- file.
unfoldable pub read_file_tail : (List ℕ → Option String) → Option (List ℕ) → ℕ → Option String
unfolding skip_bytes
read_file_tail from_utf8 file max_bytes = do
  bytes ← file
  contents ← from_utf8 (skip_bytes (length bytes - max_bytes) bytes)
  if eqb (length bytes - max_bytes) 0 then some contents else after_line (split_once contents b'\n')
