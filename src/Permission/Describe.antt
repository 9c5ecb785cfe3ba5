-- ===== src/Permission/Describe.antt =====
-- agent-dbus-service/src/service/permission.rs: a description for each option of a permission prompt.
use Prim.Native.String.{◌++◌}
use claude_dbus.Prelude.{
  String, List, [], map, Option, none, some, ◌||◌, ◌==◌, not, if◌then◌else◌, ◌or_else◌, unwrap_or,
  is_empty, filter_map,
}
use claude_dbus.Text.{trim, to_ascii_lowercase, starts_with, join}
use claude_dbus.Json.{Value, as_str, as_array, ◌at◌}
use claude_dbus.Permission.{is_always_allow_answer, prefix_rule, permission_suggestion_for_answer}

-- The rule's tool and content.
abbrev pub rule_text : Option String → Option String → Option String
rule_text (some tool) (some content) = some (tool ++ " " ++ content)
rule_text (some tool) none = some tool
rule_text none (some content) = some content
rule_text none none = none

unfoldable pub permission_rule_description : Value → Option String
permission_rule_description rule =
    rule_text (as_str (rule at "toolName") or_else as_str (rule at "tool_name"))
      (as_str (rule at "ruleContent") or_else as_str (rule at "rule_content"))

unfoldable pub permission_suggestion_description : Value → String
unfolding permission_rule_description
permission_suggestion_description suggestion =
    let rules =
      filter_map permission_rule_description (unwrap_or (as_array (suggestion at "rules")) []) in
    let destination = unwrap_or (as_str (suggestion at "destination")) "" in
    let description =
      if is_empty rules
      then "Persistently allow matching future requests."
      else "Persistently allow: " ++ join "; " rules in
    if destination == "" then description else description ++ " Destination: " ++ destination ++ "."

module _ (to_string : Value → String) where
  abbrev pub format_rule_value : Value → String
  format_rule_value value = unwrap_or (as_str value) (to_string value)

  unfoldable pub format_rule_values : List Value → String
  format_rule_values values = join " " (map format_rule_value values)

  unfoldable pub permission_option_description : Value → String → String
  permission_option_description v option =
      let normalized = to_ascii_lowercase (trim option) in
      if normalized == "allow" || starts_with normalized "allow "
      then "Allow only this request."
      else if normalized == "deny" || starts_with normalized "deny "
      then "Deny this request."
      else if not (is_always_allow_answer option)
      then ""
      else elim (prefix_rule v) [
        | some rule ↦ "Persistently allow commands starting with: " ++ format_rule_values rule
        | none ↦ elim (permission_suggestion_for_answer v option) [
          | some suggestion ↦ permission_suggestion_description suggestion
          | none ↦ "Persistently allow matching future requests."
        ]
      ]

  unfoldable pub build_permission_option_descriptions : Value → List String → List String
  build_permission_option_descriptions v options = map (permission_option_description v) options
