-- ===== src/Client/Message.antt =====
-- agent-dbus-service/src/agent_hook.rs, `main`: the message that a hook sends, and what it prints. The
-- reading of /proc, of JSON and of the socket are arguments; `from_u32` is the number of a pid.
use claude_dbus.Prelude.{String, ℕ, List, map, Option, none, some, ◌==◌, if◌then◌else◌, unwrap_or}
use claude_dbus.Text.{trim}
use claude_dbus.Json.{Value, Number, null, number, string, object, field, end}
use claude_dbus.Client.{
  first_non_empty, app_instance_variables, window_variables, owning_process_pid, parse_args,
  empty_response,
}

-- What the process of a hook finds around it.
pub record Surroundings : Type 0 where
  pub args : List String
  -- `std::env::var`, and `/proc/<pid>/stat`
  pub variable : String → Option String
  pub stat_of : ℕ → Option String
  pub process_id : ℕ
  -- `read_to_string`, if it succeeds
  pub stdin : Option String

-- How the connection goes: no connection, an error on it, or the service's response.
pub data Connection : Type 0 where
  refused broken : Connection
  response : String → Connection

-- The end of the program: its usage and exit code 1, an error, or what it prints.
pub data Exit : Type 0 where
  usage failed : Exit
  printed : String → Exit

module _ (from_str : String → Option Value) (from_u32 : ℕ → Number)
    (to_vec : Value → Option (List ℕ)) where
  unfoldable pub input_data : String → Value
  input_data stdin = unwrap_or (from_str (trim stdin)) null

  abbrev pub pid_value : Option ℕ → Value
  pid_value none = null
  pid_value (some pid) = number (from_u32 pid)

  unfoldable pub app_instance : Surroundings → Option String
  app_instance e = first_non_empty (map e.variable app_instance_variables)

  unfoldable pub window : Surroundings → Option String
  window e = first_non_empty (map e.variable window_variables)

  unfoldable pub message : Surroundings → String → String → String → Value
  unfolding input_data app_instance window
  message e agent event stdin = object (
      field "agent" (string agent) (
        field "event" (string event) (
          field "data" (input_data stdin) (
            field "hook_pid" (number (from_u32 e.process_id)) (
              field "parent_pid" (pid_value (owning_process_pid e.stat_of e.process_id agent)) (
                field "app_instance_id" (string (unwrap_or (app_instance e) ""))
                  (field "window_id" (string (unwrap_or (window e) "")) end)))))))

  abbrev pub exit_of : String → Connection → Exit
  exit_of agent refused = printed (empty_response agent)
  exit_of agent broken = failed
  exit_of agent (response text) = printed (if text == "" then empty_response agent else text)

  -- The bytes that are sent once there is a connection, and the end.
  abbrev pub sending : String → Connection → Option (List ℕ) → Option (List ℕ) × Exit
  sending agent c none = (none, failed)
  sending agent c (some bytes) = (some bytes, exit_of agent c)

  abbrev pub with_input :
      Surroundings → Connection → String → String → Option String → Option (List ℕ) × Exit
  with_input e c agent event none = (none, failed)
  with_input e c agent event (some stdin) = sending agent c (to_vec (message e agent event stdin))

  unfoldable pub hook_main : Surroundings → Connection → Option (List ℕ) × Exit
  unfolding message
  hook_main e c =
      let (agent, event) = parse_args (e.variable "AGENT_DBUS_AGENT") e.args in
      if event == "" then (none, usage) else with_input e c agent event e.stdin
