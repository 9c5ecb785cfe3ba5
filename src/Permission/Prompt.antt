-- ===== src/Permission/Prompt.antt =====
-- agent-dbus-service/src/service/permission.rs: the prompt of a permission request and its detail.
-- The two printers of JSON are arguments.
use Prim.Native.String.{◌++◌}
use claude_dbus.Prelude.{
  String, ℕ, zero, suc, List, [], ◌∷◌, Option, none, some, Bool, ◌&&◌, ◌||◌, ◌==◌, if◌then◌else◌,
  ◌>>=◌, ◌>>◌, guard, unwrap_or, is_some,
}
use claude_dbus.Text.{trim_start, starts_with, lines}
use claude_dbus.Json.{Value, as_str, is_null, ◌at◌}
use claude_dbus.Permission.{is_str}

pub record PermissionDetail : Type 0 where
  pub kind : String
  pub text : String

abbrev pub write_detail_preview_chars : ℕ
write_detail_preview_chars = 20000

abbrev pub tool_input : Value → String → Option String
tool_input v key = as_str (v at "tool_input" at key)

unfoldable pub apply_patch_command : Value → Option String
apply_patch_command v = do
  command ← tool_input v "command"
  guard (
      unwrap_or (as_str (v at "tool_name")) "" == "apply_patch"
      || starts_with (trim_start command) "*** Begin Patch")
  some command

unfoldable pub is_claude_edit : Value → Bool
is_claude_edit v =
    is_str (v at "tool_name") "Edit"
    && is_some (tool_input v "old_string")
    && is_some (tool_input v "new_string")

unfoldable pub is_claude_write : Value → Bool
is_claude_write v = is_str (v at "tool_name") "Write" && is_some (tool_input v "content")

abbrev pub quoted : String → String
quoted s = "`" ++ s ++ "`"

unfoldable pub format_file_action : String → Value → String
format_file_action action v = elim (tool_input v "file_path") [
  | none ↦ action
  | some path ↦ action ++ " " ++ quoted path
]

-- The lines of a text, as its iterator gives them.
abbrev pub summary : String → List String → String
summary text [] = quoted text
summary text (first ∷ []) = quoted first
summary text (first ∷ second ∷ rest) = quoted first ++ " ..."

unfoldable pub first_line_or_summary : String → String
first_line_or_summary text = summary text (lines text)

-- A line of the diff for each line of the text.
unfoldable pub marked : String → List String → String
marked mark [] = ""
marked mark (line ∷ rest) = mark ++ line ++ "\n" ++ marked mark rest

unfoldable pub claude_edit_diff : Value → String
unfolding marked
claude_edit_diff v =
    let path = unwrap_or (tool_input v "file_path") "unknown" in
    "--- "
    ++ path
    ++ "\n+++ "
    ++ path
    ++ "\n@@\n"
    ++ marked "-" (lines (unwrap_or (tool_input v "old_string") ""))
    ++ marked "+" (lines (unwrap_or (tool_input v "new_string") ""))

-- `chars.by_ref().take(n)`, and what is left
unfoldable pub take_chars : ℕ → String → String × String
take_chars zero s = ("", s)
take_chars (suc n) String.[] = ("", "")
take_chars (suc n) (String.◌∷◌ c s) =
    let (taken, rest) = take_chars n s in (String.◌∷◌ c taken, rest)

unfoldable pub truncate_preview : String → ℕ → String
unfolding take_chars
truncate_preview text max_chars =
    let (preview, rest) = take_chars max_chars text in
    if rest == "" then preview else preview ++ "\n\n... truncated ..."

unfoldable pub claude_write_detail : Value → String
claude_write_detail v =
    "File: "
    ++ unwrap_or (tool_input v "file_path") "unknown"
    ++ "\n\n"
    ++ truncate_preview (unwrap_or (tool_input v "content") "") write_detail_preview_chars

module _ (to_string to_string_pretty : Value → String) where
  unfoldable pub input_description : Value → String
  input_description v = elim (tool_input v "description") [
    | some desc ↦ desc
    | none ↦
        if is_claude_edit v
        then format_file_action "Edit" v
        else if is_claude_write v
        then format_file_action "Write" v
        else if is_some (apply_patch_command v)
        then "apply patch"
        else elim (tool_input v "command") [
          | some cmd ↦ first_line_or_summary cmd
          | none ↦ elim (tool_input v "file_path") [
            | some path ↦ quoted path
            | none ↦ to_string (v at "tool_input")
          ]
        ]
  ]

  unfoldable pub build_permission_prompt : Value → String
  unfolding input_description
  build_permission_prompt v =
      "Allow "
      ++ unwrap_or (as_str (v at "tool_name")) "unknown tool"
      ++ "?\n"
      ++ input_description v

  unfoldable pub build_permission_detail : Value → PermissionDetail
  build_permission_detail v = elim (apply_patch_command v) [
    | some command ↦ record { kind = "diff"; text = command }
    | none ↦
        if is_claude_edit v
        then record { kind = "diff"; text = claude_edit_diff v }
        else if is_claude_write v
        then record { kind = "text"; text = claude_write_detail v }
        else elim (tool_input v "command") [
          | some command ↦ record { kind = "command"; text = command }
          | none ↦
              if is_null (v at "tool_input")
              then record { kind = ""; text = "" }
              else record { kind = "json"; text = to_string_pretty (v at "tool_input") }
        ]
  ]
