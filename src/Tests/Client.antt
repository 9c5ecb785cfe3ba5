-- ===== src/Tests/Client.antt =====
-- A hook below a shell below the agent, a message, the options of an elicitation, and the links of
-- a session.
use claude_dbus.Prelude.{
  String, ℕ, ◌+◌, ◌^◌, ◌≤◌, ◌<◌, ◌≡◌, ◌⊎◌, ◌↔◌, refl, List, [], ◌∷◌, map, Option, none, some, true,
  false, ltb, length, if◌then◌else◌, eqb,
}
use claude_dbus.Json.{Value, object, field, string, end, null, array, cons, nil}
use claude_dbus.Text.{
  trim, to_ascii_lowercase, split_once, strip_prefix, contains, eq_ignore_ascii_case,
}
use claude_dbus.Decimal
use claude_dbus.Json
use claude_dbus.Client.{parse_stat, process_name, owning_process_pid}
use claude_dbus.Client.Owner.{Owns, owning_process_pid_lem}
use claude_dbus.Bridge.Handler.{RawHook}
use claude_dbus.Socket.{
  HookMessage, sent, max_hook_message_bytes, first_bytes, parse_message, read_raw_hook,
}
use claude_dbus.Socket.Limit.{read_raw_hook_lem}
use claude_dbus.Permission.Elicitation.{
  has_allow_option, has_always_allow_option, offered_options, supports_always_allow, with_always,
  build_elicitation_options, insert_before_decline, is_decline_option,
}
use claude_dbus.Permission.Offers.{is_wanted, IsInserted, build_elicitation_options_lem}
use claude_dbus.Locus.{link_session, unlink_session}
use claude_dbus.Locus.Refs.{undo, unlink-link}

-- The hook is process 30, its shell 20, and the agent 10.
abbrev pub stat_of : ℕ → Option String
stat_of pid =
    if eqb pid 30
    then some "30 (agent-hook) R 20 1"
    else if eqb pid 20
    then some "20 (sh) S 10 1"
    else if eqb pid 10
    then some "10 (Codex (main) thread) S 1 1"
    else none

owns : owning_process_pid stat_of 30 " codex " ≡ some 10
unfolding owning_process_pid to_ascii_lowercase trim parse_stat split_once strip_prefix
    Decimal.parse process_name contains
owns = refl

owning_process_pid_lem_example :
    owning_process_pid stat_of 30 " codex " ≡ some 10 ↔ Owns stat_of 30 " codex " 10
owning_process_pid_lem_example = owning_process_pid_lem stat_of 30 " codex " 10

abbrev message : HookMessage
message = record {
  agent = some "claude";
  agent_name = none;
  event = some "Stop";
  data' = null;
  parent_pid = some 4294967296;
  app_instance_id = some "";
  window_id = some "7";
}

abbrev as_text : List ℕ → Option String
as_text bytes = some "{}"

abbrev as_message : String → Option HookMessage
as_message text = some message

read_raw_hook_lem_example :
    let bytes : List ℕ = 123 ∷ 125 ∷ [] in
    let r = read_raw_hook as_text as_message (sent bytes) in
    (length (first_bytes (max_hook_message_bytes + 1) bytes) ≤ max_hook_message_bytes + 1)
    × (r ≡ (
        if ltb max_hook_message_bytes (length bytes)
        then none
        else parse_message as_text as_message bytes))
    × ((raw : RawHook) (p : ℕ) → r ≡ some raw → raw.parent_pid ≡ some p → p < 2 ^ 32)
read_raw_hook_lem_example = read_raw_hook_lem as_text as_message (123 ∷ 125 ∷ [])

abbrev asks : Value
asks = object (
    field "options" (array (cons (string "Accept") (cons (string "Decline") nil)))
      (field "_meta" (object (field "persist" (string "always") end)) end))

offers : build_elicitation_options asks ≡ "Accept" ∷ "Always allow" ∷ "Decline" ∷ []
unfolding build_elicitation_options Json.as_str Json.◌at◌ eq_ignore_ascii_case has_allow_option
    Json.as_array trim has_always_allow_option insert_before_decline is_decline_option
offers = refl

build_elicitation_options_lem_example :
    (((is_wanted (supports_always_allow asks) (offered_options asks) ≡ true)
        × IsInserted "Always allow" (offered_options asks) (build_elicitation_options asks))
      ⊎ ((is_wanted (supports_always_allow asks) (offered_options asks) ≡ false)
          × (build_elicitation_options asks ≡ offered_options asks)))
    × (with_always (supports_always_allow asks) (build_elicitation_options asks)
        ≡ build_elicitation_options asks)
build_elicitation_options_lem_example = build_elicitation_options_lem asks

unlink-link_example :
    unlink_session "claude" "s" (some "app-instance:a") (some "niri-window:7")
    ≡ map undo (link_session "claude" "s" (some "app-instance:a") (some "niri-window:7"))
unlink-link_example = unlink-link "claude" "s" (some "app-instance:a") (some "niri-window:7")
