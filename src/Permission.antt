-- ===== src/Permission.antt =====
-- agent-dbus-service/src/service/permission.rs: the options of a permission prompt, and the reply
-- to an answer, with what it takes of providers/codex/permissions.rs, gemini.rs and opencode.rs.
-- The printing of JSON is an argument.
pub mod Answered
pub mod Prompt
pub mod Describe
pub mod Elicitation
pub mod Offers
pub mod Review
use Prim.Native.String.{◌++◌}
use claude_dbus.Prelude.{
  String, List, [], ◌∷◌, Option, none, some, Bool, true, false, not, ◌&&◌, ◌||◌, ◌==◌,
  if◌then◌else◌, ◌>>=◌, ◌>>◌, guard, ◌or_else◌, unwrap_or, is_some, is_empty, filter_map, find, map,
}
use claude_dbus.Text.{trim, to_ascii_lowercase, eq_ignore_ascii_case, starts_with}
use claude_dbus.Json.{
  Value, Fields, string, array, object, field, end, from_items, as_str, as_array, ◌at◌,
}
use claude_dbus.Core.{is_gemini_agent, is_opencode_agent}

abbrev pub is_str : Value → String → Bool
is_str v s = elim (as_str v) [ none ↦ false | some t ↦ t == s ]

unfoldable pub is_codex_permission_request : Value → Bool
is_codex_permission_request v =
    is_str (v at "hook_event_name") "PermissionRequest"
    && is_some (as_str (v at "transcript_path"))
    && is_some (as_str (v at "permission_mode"))

unfoldable pub prefix_rule : Value → Option (List Value)
unfolding is_codex_permission_request
prefix_rule v = if not (is_codex_permission_request v) then none else as_array (v at "prefix_rule")

unfoldable pub permission_suggestion_label : Value → String
permission_suggestion_label s =
    let dest = unwrap_or (as_str (s at "destination")) "" in
    if dest == "" then "Always allow" else "Always allow (" ++ dest ++ ")"

abbrev pub allow_label : Value → Option String
allow_label s = do
  behavior ← as_str (s at "behavior")
  guard (behavior == "allow")
  some (permission_suggestion_label s)

unfoldable pub has_persistable_always_patterns : Value → Bool
has_persistable_always_patterns v = elim (as_array (v at "always")) [
  | none ↦ false
  | some patterns ↦ not (is_empty patterns)
]

unfoldable pub always_allow_options : Value → List String
unfolding permission_suggestion_label
always_allow_options v =
    filter_map allow_label (unwrap_or (as_array (v at "permission_suggestions")) [])

abbrev pub or_push : Bool → List String → List String
or_push b options = if is_empty options && b then "Always allow" ∷ [] else options

-- `options.push(last)`
abbrev pub with_last : List String → String → List String
with_last [] last = last ∷ []
with_last (x ∷ xs) last = x ∷ with_last xs last

unfoldable pub build_permission_options : Value → List String
unfolding always_allow_options
build_permission_options v =
    "Allow"
    ∷ with_last
        (or_push (has_persistable_always_patterns v)
          (or_push (is_some (prefix_rule v)) (always_allow_options v)))
        "Deny"

unfoldable pub is_allow_answer : String → Bool
is_allow_answer answer = eq_ignore_ascii_case answer "allow" || starts_with answer "Allow "

unfoldable pub is_always_allow_answer : String → Bool
is_always_allow_answer answer =
    let normalized = to_ascii_lowercase answer in
    normalized == "always allow" || starts_with normalized "always allow "

unfoldable pub is_deny_answer : String → Bool
is_deny_answer answer = eq_ignore_ascii_case answer "deny" || starts_with answer "Deny"

abbrev pub allows : Value → Bool
allows s = is_str (s at "behavior") "allow"

unfoldable pub permission_suggestion_for_answer : Value → String → Option Value
permission_suggestion_for_answer v answer = do
  suggestions ← as_array (v at "permission_suggestions")
  find (λ s. allows s && eq_ignore_ascii_case (permission_suggestion_label s) (trim answer))
        suggestions
      or_else find allows suggestions

-- `opencode::permission_response`
unfoldable pub opencode_permission_response : String → String → Option String
opencode_permission_response agent_name answer =
    let a = trim answer in
    if not (is_opencode_agent agent_name)
    then none
    else if is_always_allow_answer a
    then some "{\"reply\":\"always\"}"
    else if is_allow_answer a
    then some "{\"reply\":\"once\"}"
    else if is_deny_answer a
    then some "{\"reply\":\"reject\"}"
    else none

abbrev pub hook_output : Value → Value
hook_output decision = object (
    field "hookSpecificOutput"
      (object (field "hookEventName" (string "PermissionRequest") (field "decision" decision end)))
      end)

module _ (to_string : Value → String) where
  -- `gemini::permission_response`
  unfoldable pub gemini_permission_response : String → Option String
  gemini_permission_response answer =
      if is_always_allow_answer answer || is_allow_answer answer
      then some (to_string (object (field "decision" (string "allow") end)))
      else if is_deny_answer answer
      then some (
          to_string (
            object (
              field "decision" (string "deny")
                (field "reason" (string "User denied via popup") end))))
      else none

  unfoldable pub permission_allow_response : List Value → String
  permission_allow_response updated_permissions = to_string (
      hook_output (
        object (
          field "behavior" (string "allow") (
            if is_empty updated_permissions
            then end
            else field "updatedPermissions" (array (from_items updated_permissions)) end))))

  unfoldable pub permission_allow_response_with_exec_policy_amendment : List Value → String
  permission_allow_response_with_exec_policy_amendment amendment = to_string (
      hook_output (
        object (
          field "behavior" (string "allow")
            (field "execPolicyAmendment" (array (from_items amendment)) end))))

  abbrev pub always_allow_response : Value → String → Option (List Value) → String
  always_allow_response v answer (some rule) =
      permission_allow_response_with_exec_policy_amendment rule
  always_allow_response v answer none =
      permission_allow_response
        (elim (permission_suggestion_for_answer v answer) [ none ↦ [] | some s ↦ s ∷ [] ])

  -- The replies of the other agents.
  unfoldable pub claude_permission_response : Value → String → Option String
  claude_permission_response v a =
      if is_always_allow_answer a
      then some (always_allow_response v a (prefix_rule v))
      else if is_allow_answer a
      then some (permission_allow_response [])
      else if is_deny_answer a
      then some
          "{\"hookSpecificOutput\":{\"hookEventName\":\"PermissionRequest\",\"decision\":{\"behavior\":\"deny\",\"message\":\"User denied via popup\"}}}"
      else none

  unfoldable pub permission_response : String → Value → String → Option String
  permission_response agent_name v answer =
      let a = trim answer in
      if is_gemini_agent agent_name
      then gemini_permission_response a
      else opencode_permission_response agent_name a or_else claude_permission_response v a
