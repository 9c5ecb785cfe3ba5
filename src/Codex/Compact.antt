-- ===== src/Codex/Compact.antt =====
-- agent-dbus-service/src/providers/codex/compact.rs: the log lines by which Codex says that it
-- compacts a session, and the watcher of the log.
use claude_dbus.Prelude.{
  String, ℕ, List, [], ◌∷◌, Option, none, some, Bool, true, false, not, if◌then◌else◌, ◌>>=◌, eqb,
  ltb,
}
use claude_dbus.Text.{lines, contains, split_at, split_once}
use claude_dbus.Session.Object.{SessionObject, no_session, idle, thinking, tool_use, compacting}
use claude_dbus.Session.Pending.{clear_attention_reasons}
use claude_dbus.Bridge.{Bridge, World, Run, ◌and_then◌, update_session}

pub record CodexCompactLogEvent : Type 0 where
  pub session_id : String
  pub active : Bool

unfoldable pub parse_thread_id : String → Option String
parse_thread_id line = do
  (front, rest) ← split_at line "thread_id="
  (id, back) ← split_once rest b'}'
  some id

-- Whether a compaction starts or ends.
abbrev pub compact_phase : String → Option Bool
compact_phase line =
    if contains line "codex_core::session::handlers: new"
    then some true
    else if contains line "codex_core::session::handlers: close"
    then some false
    else none

unfoldable pub parse_codex_compact_log_line : String → Option CodexCompactLogEvent
unfolding parse_thread_id
parse_codex_compact_log_line line = if not (contains line "codex.op=\"compact\"") then none else (do
  active ← compact_phase line
  id ← parse_thread_id line
  some (record { session_id = id; active = active }))

-- The closure of `apply_codex_compact_log_event`.
unfoldable pub compacted : Bool → SessionObject → SessionObject
compacted true s = clear_attention_reasons (record s { state = compacting; task_complete = false })
compacted false s = elim s.state [
  | compacting ↦ clear_attention_reasons (record s { state = idle; task_complete = true })
  | no_session ↦ s
  | idle ↦ s
  | thinking ↦ s
  | tool_use ↦ s
]

abbrev pub apply_event : World → Bridge → Option CodexCompactLogEvent → Run
apply_event w br none = (br, [])
apply_event w br (some e) =
    update_session w br "codex" e.session_id (λ s b. (compacted e.active s, b))

unfoldable pub apply_lines : World → Bridge → List String → Run
unfolding parse_codex_compact_log_line
apply_lines w br [] = (br, [])
apply_lines w br (line ∷ rest) =
    apply_event w br (parse_codex_compact_log_line line) and_then λ br'. apply_lines w br' rest

-- What is read from the offset to the end of the log, if the log can be read as text.
abbrev pub apply_chunk : World → Bridge → ℕ → ℕ → Option String → ℕ × Run
apply_chunk w br offset len none = (offset, (br, []))
apply_chunk w br offset len (some chunk) = (len, apply_lines w br (lines chunk))

-- One turn of the watcher: the length of the log, and what a read at an offset gives.
unfoldable pub compact_watcher : World → Bridge → ℕ → Option ℕ → (ℕ → Option String) → ℕ × Run
unfolding apply_lines
compact_watcher w br offset none read = (offset, (br, []))
compact_watcher w br offset (some len) read =
    let start = if ltb len offset then 0 else offset in
    if eqb len start then (start, (br, [])) else apply_chunk w br start len (read start)
