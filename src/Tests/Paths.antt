-- ===== src/Tests/Paths.antt =====
-- Names and paths.
use claude_dbus.Prelude.{◌≡◌, refl, true, some}
use claude_dbus.Text.{split_once}
use claude_dbus.Core.Path.{session_path, session_key, safe_path_segment}
use claude_dbus.Core.Path.Valid.{is_object_path, session_path_valid}
use claude_dbus.Core.Path.Key.{split-session_key}

session_path_valid_example : is_object_path (session_path "codex" "a-b/c") ≡ true
session_path_valid_example = session_path_valid "codex" "a-b/c"

split-session_key_example : split_once (session_key "claude" "x:y") b':' ≡ some ("claude", "x:y")
split-session_key_example = split-session_key "claude" "x:y" refl

dashed_segment : safe_path_segment "a-b" ≡ "a_2d_b"
unfolding safe_path_segment claude_dbus.Text.hex_digit
dashed_segment = refl
