-- ===== src/Core/Path.antt =====
-- agent-dbus-core/src/path.rs: the object path of a session on the bus, and its keys.
pub mod Valid
pub mod Key
use Prim.Native.Char.{Char, code}
use Prim.Native.String.{◌++◌}
use claude_dbus.Prelude.{String, ℕ, zero, suc, ◌/◌, ◌%◌, Bool, ◌||◌, ◌==◌, eqb, ltb, if◌then◌else◌}
use claude_dbus.Text.{single, is_ascii_alphanumeric, hex_digit}

abbrev pub root_path : String
root_path = "/io/github/AgentDBus"

-- `format!("{:x}", n)`: a code point has six digits at most, and eight rounds are given.
unfoldable pub hex_loop : ℕ → ℕ → String → String
hex_loop zero n acc = acc
hex_loop (suc f) n acc =
    let acc' = hex_digit (n % 16) ++ acc in
    let rest = hex_loop f (n / 16) acc' in if ltb n 16 then acc' else rest

unfoldable pub hex : ℕ → String
unfolding hex_loop
hex n = hex_loop 8 n ""

abbrev pub is_safe_char : Char → Bool
is_safe_char c = is_ascii_alphanumeric c || eqb (code c) b'_'

unfoldable pub escape_char : Char → String
unfolding hex
escape_char c = if is_safe_char c then single c else "_" ++ hex (code c) ++ "_"

unfoldable pub escape : String → String
unfolding escape_char
escape String.[] = ""
escape (String.◌∷◌ c s) = escape_char c ++ escape s

unfoldable pub safe_path_segment : String → String
unfolding escape
safe_path_segment value = let safe = escape value in if safe == "" then "unknown" else safe

unfoldable pub session_path : String → String → String
unfolding safe_path_segment
session_path agent_name session_id =
    root_path ++ "/sessions/" ++ safe_path_segment agent_name ++ "/" ++ safe_path_segment session_id

unfoldable pub agent_session_node_key : String → String → String
unfolding safe_path_segment
agent_session_node_key agent_name session_id =
    safe_path_segment agent_name ++ "/" ++ safe_path_segment session_id

unfoldable pub session_key : String → String → String
session_key agent_name session_id = agent_name ++ ":" ++ session_id
