-- ===== src/Permission/Review.antt =====
-- agent-dbus-service/src/providers/codex/permissions.rs: which permission requests are left to the
-- automatic review of Codex. The contents of config.toml are an argument.
use Prim.Native.Char.{code}
use claude_dbus.Prelude.{
  String, ℕ, List, [], ◌∷◌, Option, none, some, Bool, false, ◌&&◌, ◌||◌, ◌==◌, not, eqb,
  if◌then◌else◌, ◌>>=◌, ◌>>◌, guard, any, find_map, filter_map, filter_option,
}
use claude_dbus.Text.{trim, to_ascii_lowercase, replace_chars, split_once, lines}
use claude_dbus.Json.{Value, as_str, as_bool, ◌at◌}
use claude_dbus.Service.{one_of}
use claude_dbus.Permission.{is_codex_permission_request}

unfoldable pub normalize_permission_value : String → String
normalize_permission_value value =
    replace_chars (λ c. eqb (code c) b'-' || eqb (code c) b' ') "_"
      (to_ascii_lowercase (trim value))

unfoldable pub is_auto_approval_reviewer : String → Bool
unfolding normalize_permission_value
is_auto_approval_reviewer value =
    one_of (normalize_permission_value value)
      ("auto_review" ∷ "autoreview" ∷ "guardian_subagent" ∷ "guardiansubagent" ∷ "guardian" ∷ [])

unfoldable pub is_auto_review_decline_value : String → Bool
unfolding normalize_permission_value
is_auto_review_decline_value value = one_of (normalize_permission_value value) (
    "denied" ∷ "deny" ∷ "declined" ∷ "decline" ∷ "rejected" ∷ "reject" ∷ "aborted" ∷ "abort"
    ∷ "blocked" ∷ "block" ∷ [])

unfoldable pub decision_source_is_auto_reviewer : Value → Bool
decision_source_is_auto_reviewer v = any is_auto_approval_reviewer (
    filter_map as_str (
      (v at "decision_source")
      ∷ (v at "approval_review" at "decision_source")
      ∷ (v at "auto_review" at "decision_source")
      ∷ (v at "guardian_assessment" at "decision_source")
      ∷ []))

abbrev pub is_true : Value → Bool
is_true v = elim (as_bool v) [ none ↦ false | some b ↦ b ]

unfoldable pub denied_flags : Value → List Value
denied_flags v =
    (v at "auto_review_denied")
    ∷ (v at "guardian_denied")
    ∷ (v at "auto_approval_declined")
    ∷ (v at "approval_review" at "denied")
    ∷ (v at "auto_review" at "denied")
    ∷ (v at "guardian_assessment" at "denied")
    ∷ []

unfoldable pub review_values : Value → List Value
review_values v =
    (v at "approval_review" at "status")
    ∷ (v at "approval_review" at "decision")
    ∷ (v at "auto_review" at "status")
    ∷ (v at "auto_review" at "decision")
    ∷ (v at "guardian_assessment" at "status")
    ∷ (v at "guardian_assessment" at "decision")
    ∷ (v at "guardian_assessment" at "user_authorization")
    ∷ (v at "guardian_assessment" at "action")
    ∷ (v at "review_status")
    ∷ (v at "review_decision")
    ∷ []

unfoldable pub decision_values : Value → List Value
decision_values v =
    (v at "decision")
    ∷ (v at "status")
    ∷ (v at "user_authorization")
    ∷ (v at "approval_decision")
    ∷ []

unfoldable pub permission_request_is_auto_review_fallback : Value → Bool
permission_request_is_auto_review_fallback v =
    any is_true (denied_flags v)
    || any is_auto_review_decline_value (filter_map as_str (review_values v))
    || (decision_source_is_auto_reviewer v
        && any is_auto_review_decline_value (filter_map as_str (decision_values v)))

unfoldable pub payload_approval_reviewer : Value → Option String
payload_approval_reviewer v = find_map as_str (
    (v at "approvals_reviewer")
    ∷ (v at "approval_reviewer")
    ∷ (v at "approval_review_mode")
    ∷ (v at "reviewer")
    ∷ (v at "approval" at "reviewer")
    ∷ (v at "approval" at "reviewer_mode")
    ∷ (v at "approval_review" at "reviewer")
    ∷ (v at "approval_review" at "mode")
    ∷ (v at "auto_review" at "reviewer")
    ∷ (v at "guardian_assessment" at "reviewer")
    ∷ [])

-- `trim_matches` with a character, by its code
unfoldable pub trim_left : ℕ → String → String
trim_left n String.[] = ""
trim_left n (String.◌∷◌ c s) =
    let rest = trim_left n s in if eqb (code c) n then rest else String.◌∷◌ c s

unfoldable pub trim_right : ℕ → String → String
trim_right n String.[] = ""
trim_right n (String.◌∷◌ c s) =
    let rest = trim_right n s in if rest == "" && eqb (code c) n then "" else String.◌∷◌ c rest

unfoldable pub trim_matches : ℕ → String → String
unfolding trim_left trim_right
trim_matches n s = trim_right n (trim_left n s)

abbrev pub before_comment : String → String
before_comment line = elim (split_once line b'#') [
  | none ↦ line
  | some (code_part, comment) ↦ code_part
]

unfoldable pub reviewer_of_line : String → Option String
unfolding trim_matches
reviewer_of_line line = do
  (key, value) ← split_once (trim (before_comment line)) b'='
  guard (trim key == "approvals_reviewer")
  filter_option (λ v. not (v == "")) (some (trim_matches b'\'' (trim_matches b'"' (trim value))))

unfoldable pub parse_config_approval_reviewer : String → Option String
unfolding reviewer_of_line
parse_config_approval_reviewer config = find_map reviewer_of_line (lines config)

abbrev pub reviews_automatically : Option String → Bool
reviews_automatically none = false
reviews_automatically (some reviewer) = is_auto_approval_reviewer reviewer

-- `config` is what config.toml holds, if it can be read.
unfoldable pub should_defer_permission_to_auto_review : Option String → String → Value → Bool
should_defer_permission_to_auto_review config agent_name v =
    if not (agent_name == "codex") || not (is_codex_permission_request v)
    then false
    else if permission_request_is_auto_review_fallback v
    then false
    else elim (payload_approval_reviewer v) [
      | some reviewer ↦ is_auto_approval_reviewer reviewer
      | none ↦ reviews_automatically (config >>= parse_config_approval_reviewer)
    ]
