-- ===== src/Codex/Title.antt =====
-- agent-dbus-service/src/providers/codex/title.rs: where the title of a Codex thread comes from,
-- and the watcher of the session index. The output of `sqlite3`, the index and the tail of the
-- rollout are arguments.
use claude_dbus.Prelude.{
  String, List, [], ◌∷◌, ◌++◌, ℕ, true, false, eqb, Option, none, some, Bool, not, ◌&&◌, ◌==◌,
  if◌then◌else◌, ◌>>=◌, ◌>>◌, guard, ◌or_else◌, filter_option, find_map, filter_map, head?,
}
use claude_dbus.Text.{lines}
use claude_dbus.Json
use claude_dbus.Json.{Value, as_str, as_array, ◌at◌}
use claude_dbus.Session.Object.{SessionObject}
use claude_dbus.Bus.Store
use claude_dbus.Bus.Store.{Store, Signals}

abbrev pub reversed : List String → List String
reversed [] = []
reversed (x ∷ xs) = reversed xs ++ x ∷ []

-- What the watcher knows of the index: how long it was and when it was changed and created.
abbrev pub Seen : Type 0
Seen = ℕ × Option ℕ × Option ℕ

abbrev pub same_time : Option ℕ → Option ℕ → Bool
same_time none none = true
same_time none (some t) = false
same_time (some s) none = false
same_time (some s) (some t) = eqb s t

abbrev pub is_seen : Option Seen → Seen → Bool
is_seen none seen = false
is_seen (some (len, modified, created)) (len', modified', created') =
    eqb len len' && same_time modified modified' && same_time created created'

abbrev pub titled : String → SessionObject → SessionObject
titled title s = record s { session_title = title }

-- `(id == session_id && !title.is_empty()).then_some(title)`
abbrev pub title_if : String → String × String → Option String
title_if session_id (id, title) = if id == session_id && not (title == "") then some title else none

-- A line of the index renames the object of its session, if there is one.
unfoldable pub apply_index_line : Store → Option (String × String) → Store
apply_index_line store none = store
apply_index_line store (some (session_id, title)) =
    if title == ""
    then store
    else (Store.update_existing_session store "codex" session_id (titled title)).0

module _ (from_str : String → Option Value) where
  unfoldable pub parse_codex_thread_title_json : String → Option String
  parse_codex_thread_title_json output = do
    rows ← from_str output
    all_rows ← as_array rows
    row ← head? all_rows
    value ← Json.get row "title"
    filter_option (λ title. not (title == "")) (as_str value)

  unfoldable pub parse_codex_session_index_line : String → Option (String × String)
  parse_codex_session_index_line line = do
    value ← from_str line
    id ← as_str (value at "id")
    title ← as_str (value at "thread_name") or_else as_str (value at "title")
    some (id, title)

  unfoldable pub codex_thread_title_from_session_index : Option String → String → Option String
  unfolding parse_codex_session_index_line
  codex_thread_title_from_session_index index session_id = do
    contents ← index
    find_map (title_if session_id)
        (filter_map parse_codex_session_index_line (reversed (lines contents)))

  unfoldable pub title_of_entry : String → String → Option String
  title_of_entry session_id line = do
    entry ← from_str line
    kind ← as_str (entry at "type")
    guard (kind == "event_msg")
    event ← as_str (entry at "payload" at "type")
    guard (event == "thread_name_updated")
    thread ← as_str (entry at "payload" at "thread_id")
    guard (thread == session_id)
    as_str (entry at "payload" at "thread_name")

  unfoldable pub codex_thread_title_from_rollout : Option String → String → Option String
  unfolding title_of_entry
  codex_thread_title_from_rollout rollout session_id = do
    contents ← rollout
    find_map (title_of_entry session_id) (reversed (lines contents))

  unfoldable pub codex_thread_title :
      Option String → Option String → Option String → String → Option String
  unfolding parse_codex_thread_title_json codex_thread_title_from_session_index
      codex_thread_title_from_rollout
  codex_thread_title state index rollout session_id =
      (state >>= parse_codex_thread_title_json)
      or_else codex_thread_title_from_session_index index session_id
      or_else codex_thread_title_from_rollout rollout session_id

  unfoldable pub apply_index : Store → List String → Store
  unfolding apply_index_line parse_codex_session_index_line
  apply_index store [] = store
  apply_index store (line ∷ rest) =
      apply_index (apply_index_line store (parse_codex_session_index_line line)) rest

  abbrev pub apply_contents : Store → Option String → Store
  apply_contents store none = store
  apply_contents store (some contents) = apply_index store (lines contents)

  -- One turn of the watcher: `metadata` and `contents` are what the index gives.
  unfoldable pub title_watcher :
      Option Seen → Store → Option Seen → Option String → Option Seen × Store
  title_watcher last_seen store none contents = (last_seen, store)
  title_watcher last_seen store (some seen) contents =
      if is_seen last_seen seen
      then (last_seen, store)
      else (some seen, apply_contents store contents)
