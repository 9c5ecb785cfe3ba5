-- ===== src/Tests/Agents.antt =====
-- Lineage of subagents.
use claude_dbus.Prelude.{String, ◌≡◌, refl, Option, none, some}
use claude_dbus.Json
use claude_dbus.Json.{Value, string, object, field, end, ◌at◌, as_str}
use claude_dbus.Session.Object.{default_session}
use claude_dbus.Agents.{
  SubagentInfo, hook_subagent_info, apply_subagent_info, subagent_parent_session_id,
}
use claude_dbus.Agents.Lineage.{IsForeign, lineage_lem}

abbrev spawned : Value
spawned = object (field "parent_id" (string "parent") end)

abbrev info : SubagentInfo
info = record { parent_session_id = "parent"; nickname = ""; role = "" }

abbrev no_json : String → Option Value
no_json line = none

abbrev no_file : String → Option String
no_file path = none

spawned-info : hook_subagent_info no_json no_file no_file "opencode" "child" spawned ≡ some info
unfolding hook_subagent_info claude_dbus.Agents.codex_subagent_info
    claude_dbus.Agents.opencode_subagent_info claude_dbus.Service.json_string_at Json.get as_str
spawned-info = refl

lineage_lem_example :
    IsForeign "child" info
    × (subagent_parent_session_id (some (apply_subagent_info default_session (some info)))
        ≡ some "parent")
lineage_lem_example =
    lineage_lem no_json no_file no_file "opencode" "child" spawned default_session info spawned-info
