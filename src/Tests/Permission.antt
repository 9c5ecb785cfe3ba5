-- ===== src/Tests/Permission.antt =====
-- A permission prompt of OpenCode, and one with a suggestion.
use claude_dbus.Prelude.{String, [], ◌∷◌, ◌≡◌, refl, All}
use claude_dbus.Json.{Value, string, array, object, field, end, cons, nil}
use claude_dbus.Json
use claude_dbus.Permission.{build_permission_options}
use claude_dbus.Permission.Answered.{HasReply, options-HasReply}

abbrev suggested : Value
suggested = object (
    field "permission_suggestions"
      (array (
        cons
          (object (field "behavior" (string "allow") (field "destination" (string "session") end)))
          nil))
      end)

abbrev printed : Value → String
printed v = "{}"

offered : build_permission_options suggested ≡ "Allow" ∷ "Always allow (session)" ∷ "Deny" ∷ []
unfolding build_permission_options Json.as_array Json.◌at◌ Json.as_str
offered = refl

options-HasReply_example :
    All (HasReply printed "claude" suggested) (build_permission_options suggested)
options-HasReply_example = options-HasReply printed "claude" suggested
