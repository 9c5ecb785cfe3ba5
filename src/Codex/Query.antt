-- ===== src/Codex/Query.antt =====
-- agent-dbus-service/src/providers/codex/title.rs: the query for the title of a thread, and the paths
-- of Codex's files, in providers/codex/artifacts.rs and providers/codex/permissions.rs.
pub mod Quoted
use Prim.Native.Char.{code}
use Prim.Native.String.{◌++◌}
use claude_dbus.Prelude.{
  String, ℕ, Option, none, some, Bool, true, false, ◌==◌, eqb, if◌then◌else◌, ◌>>=◌, ◌or_else◌,
  guard, ◌>>◌, List,
}
use claude_dbus.Text.{replace_chars}
use claude_dbus.Json.{Value}
use claude_dbus.Codex.Title.{parse_codex_thread_title_json}
use claude_dbus.Permission.Review.{parse_config_approval_reviewer}

-- `Path::join` with a relative path
abbrev pub ends_with_slash : String → Bool
ends_with_slash String.[] = false
ends_with_slash (String.◌∷◌ c s) =
    let rest = ends_with_slash s in if s == "" then eqb (code c) b'/' else rest

abbrev pub join_path : String → String → String
join_path dir name =
    if dir == "" then name else if ends_with_slash dir then dir ++ name else dir ++ "/" ++ name

-- `codex_home` of the variables CODEX_HOME and HOME
unfoldable pub codex_home : Option String → Option String → Option String
codex_home own home = own or_else (home >>= λ dir. some (join_path dir ".codex"))

unfoldable pub codex_log_file : Option String → Option String → Option String
unfolding codex_home
codex_log_file own home = codex_home own home >>= λ dir. some (join_path dir "log/codex-tui.log")

unfoldable pub codex_session_index_file : Option String → Option String → Option String
unfolding codex_home
codex_session_index_file own home =
    codex_home own home >>= λ dir. some (join_path dir "session_index.jsonl")

unfoldable pub config_file : Option String → Option String → Option String
unfolding codex_home
config_file own home = codex_home own home >>= λ dir. some (join_path dir "config.toml")

unfoldable pub sqlite_string_literal : String → String
sqlite_string_literal value = replace_chars (λ c. eqb (code c) 39) "''" value

-- The database and the query that `sqlite3` gets.
unfoldable pub state_query : Option String → String → Option (String × String)
unfolding sqlite_string_literal
state_query home session_id = do
  dir ← home
  some (
    join_path dir ".codex/state_5.sqlite",
    "select title from threads where id = '" ++ sqlite_string_literal session_id ++ "';",
  )

-- `sqlite3` with its database and its query: whether it succeeds, and what it prints.
module _ (sqlite3 : String → String → Option (Bool × List ℕ)) (from_utf8 : List ℕ → Option String)
    (from_str : String → Option Value) where
  unfoldable pub codex_thread_title_from_state : Option String → String → Option String
  unfolding state_query
  codex_thread_title_from_state home session_id = do
    (db, query) ← state_query home session_id
    (success, stdout) ← sqlite3 db query
    guard success
    output ← from_utf8 stdout
    parse_codex_thread_title_json from_str output

unfoldable pub config_approval_reviewer :
    (String → Option String) → Option String → Option String → Option String
unfolding config_file
config_approval_reviewer read_file own home = do
  path ← config_file own home
  config ← read_file path
  parse_config_approval_reviewer config
