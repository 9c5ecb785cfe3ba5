-- ===== src/Permission/Elicitation.antt =====
-- agent-dbus-service/src/service/permission.rs: the options of an elicitation.
use claude_dbus.Prelude.{
  String, List, [], ◌∷◌, Option, none, some, Bool, false, ◌&&◌, ◌||◌, ◌==◌, not, if◌then◌else◌,
  ◌or_else◌, unwrap_or, any, filter_map,
}
use claude_dbus.Text.{trim, to_ascii_lowercase, eq_ignore_ascii_case}
use claude_dbus.Json.{Value, as_str, as_array, ◌at◌}

abbrev pub option_text : Value → Option String
option_text v = as_str (v at "value") or_else as_str v

unfoldable pub has_allow_option : List String → Bool
has_allow_option = any λ option.
    let normalized = to_ascii_lowercase (trim option) in
    normalized == "allow" || normalized == "accept"

unfoldable pub has_always_allow_option : List String → Bool
has_always_allow_option = any λ option. eq_ignore_ascii_case (trim option) "always allow"

unfoldable pub is_decline_option : String → Bool
is_decline_option option =
    let normalized = to_ascii_lowercase (trim option) in
    normalized == "deny" || normalized == "decline" || normalized == "cancel"

abbrev pub text_is : String → Value → Bool
text_is needle v = elim (as_str v) [ none ↦ false | some s ↦ eq_ignore_ascii_case s needle ]

unfoldable pub persist_value_includes : Value → String → Bool
persist_value_includes value needle =
    text_is needle value
    || elim (as_array value) [ none ↦ false | some values ↦ any (text_is needle) values ]

unfoldable pub supports_always_allow : Value → Bool
unfolding persist_value_includes
supports_always_allow v =
    any (λ persist. persist_value_includes persist "always")
      ((v at "_meta" at "persist")
        ∷ (v at "elicitation" at "_meta" at "persist")
        ∷ (v at "meta" at "persist")
        ∷ (v at "elicitation" at "meta" at "persist")
        ∷ [])

-- `options.insert(insert_at, ..)`, where `insert_at` is the first option that declines, or the end.
unfoldable pub insert_before_decline : String → List String → List String
insert_before_decline new [] = new ∷ []
insert_before_decline new (option ∷ options) =
    let rest = insert_before_decline new options in
    if is_decline_option option then new ∷ option ∷ options else option ∷ rest

unfoldable pub offered_options : Value → List String
offered_options v =
    filter_map option_text
      (unwrap_or (as_array (v at "elicitation" at "options") or_else as_array (v at "options")) [])

abbrev pub with_always : Bool → List String → List String
with_always supported options =
    if supported && has_allow_option options && not (has_always_allow_option options)
    then insert_before_decline "Always allow" options
    else options

unfoldable pub build_elicitation_options : Value → List String
unfolding offered_options supports_always_allow
build_elicitation_options v = with_always (supports_always_allow v) (offered_options v)
