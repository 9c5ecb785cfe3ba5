-- ===== src/Tests/Usage.antt =====
-- Usage of tokens, as Codex and OpenCode report it.
use claude_dbus.Prelude.{
  String, ℕ, ◌≡◌, refl, inl, List, [], ◌∷◌, ◌++◌, Option, none, some, true, false, is_some, arith,
}
use claude_dbus.Dict
use claude_dbus.Json
use claude_dbus.Json.{Value, Fields, string, number, object, field, end, as_str, ◌at◌}
use claude_dbus.Core.Telemetry.{TokenUsage, UsageReport, next_u64}
use claude_dbus.Session.Object.{SessionObject, default_session}
use claude_dbus.Codex.Telemetry.{Parser, default_parser, observe}
use claude_dbus.Codex.Telemetry.Accounting.{Accounted, observe_accounting}
use claude_dbus.Codex.Telemetry.Replay.{IsCoherent, observe_again, observe-IsCoherent}
use claude_dbus.Codex.Reader.{Reader, read_path}
use claude_dbus.Codex.Reader.Chunks.{regular, read_in_two}
use claude_dbus.Opencode.{apply_telemetry}
use claude_dbus.Opencode.Usage.{IsRemembered}
use claude_dbus.Opencode.Once.{telemetry_once, telemetry-IsRemembered}

abbrev count : ℕ → Value
count n = number (record { u64 = some n; f64 = none })

-- An entry of a rollout file with these totals.
abbrev entry : ℕ → ℕ → ℕ → Value
entry input output total = object (
    field "type" (string "event_msg") (
      field "payload"
        (object (
          field "type" (string "token_count") (
            field "info"
              (object (
                field "total_token_usage"
                  (object (
                    field "input_tokens" (count input) (
                      field "output_tokens" (count output)
                        (field "total_tokens" (count total) end))))
                  end))
              end)))
        end))

abbrev totals : ℕ → ℕ → ℕ → TokenUsage
totals input output total = ("input", input) ∷ ("output", output) ∷ ("total", total) ∷ []

-- A parser that has read an entry.
abbrev reading : Parser
reading = record default_parser { totals = totals 10 5 15; revision = 1 }

abbrev later : Parser
later = record reading { totals = totals 30 6 36; revision = 2 }

abbrev report : UsageReport
report = record {
  epoch = 0;
  revision = 2;
  timestamp = "";
  turn_id = "";
  model = "unknown";
  effort = "unknown";
  delta = totals 20 1 21;
  totals = totals 30 6 36;
}

observed_later : observe reading (entry 30 6 36) false ≡ (later, some report)
unfolding observe Json.equals_str ◌at◌ Dict.get claude_dbus.Codex.Telemetry.counters Json.as_u64
    Dict.insert Dict.equal claude_dbus.Codex.Telemetry.accept as_str
observed_later = refl

input_30 : Dict.get later.totals "input" ≡ some 30
unfolding Dict.get
input_30 = refl

observe_accounting_example :
    Accounted reading later report "input" 30
    × (report.totals ≡ later.totals)
    × (report.epoch ≡ later.epoch)
    × (report.revision ≡ later.revision)
    × (later.revision ≡ next_u64 reading.revision)
observe_accounting_example =
    observe_accounting reading later (entry 30 6 36) report "input" 30 observed_later
      (omega arith, (omega arith, (omega arith, tt))) input_30

observe_again_example :
    observe (observe reading (entry 30 6 36) false).0 (entry 30 6 36) true
    ≡ ((observe reading (entry 30 6 36) false).0, none)
observe_again_example = observe_again reading (entry 30 6 36) false true

observe-IsCoherent_example : IsCoherent (observe default_parser (entry 30 6 36) false).0.totals
observe-IsCoherent_example = observe-IsCoherent default_parser (entry 30 6 36) false (inl refl)

-- A rollout whose every line is such an entry.
abbrev from_slice : List ℕ → Option Value
from_slice line = some (entry 30 6 36)

abbrev following : Reader
following = record {
  path = some "/r.jsonl";
  inode = 7;
  offset = 1;
  fragment = 123 ∷ [];
  parser = reading;
}

abbrev xs : List ℕ
xs = 123 ∷ 125 ∷ []

abbrev ys : List ℕ
ys = b'\n' ∷ 123 ∷ []

read_in_two_example :
    let (r1, a) = read_path from_slice following "/r.jsonl" (some (regular 7 xs)) in
    let (r2, b) = read_path from_slice r1 "/r.jsonl" (some (regular 7 (xs ++ ys))) in
    ◌≡◌ {A = Reader × List UsageReport}
      (read_path from_slice following "/r.jsonl" (some (regular 7 (xs ++ ys))))
      (r2, a ++ b)
read_in_two_example =
    read_in_two from_slice following "/r.jsonl" 7 xs ys
      (record { same_path = refl; same_inode = refl; consumed = omega arith; partial = refl })

-- An event of the OpenCode plugin.
abbrev event : String → Value
event id = object (
    field "usage_event_id" (string id) (
      field "token_usage"
        (object
          (field "input" (count 20) (field "output" (count 1) (field "total" (count 21) end))))
        end))

abbrev opened : SessionObject
opened = default_session

opened-IsRemembered : IsRemembered opened
unfolding Dict.contains_key
opened-IsRemembered = record { same = λ id. refl; once = tt; bounded = omega arith }

event_reported : is_some (apply_telemetry opened (event "e1")).1 ≡ true
unfolding apply_telemetry as_str ◌at◌ Dict.contains_key Json.is_object Json.as_u64 Dict.insert
event_reported = refl

telemetry_once_example :
    (apply_telemetry (apply_telemetry opened (event "e1")).0 (event "e1")).1 ≡ none
telemetry_once_example =
    telemetry_once opened (event "e1") (event "e1") opened-IsRemembered event_reported refl

telemetry-IsRemembered_example : IsRemembered (apply_telemetry opened (event "e1")).0
telemetry-IsRemembered_example = telemetry-IsRemembered opened (event "e1") opened-IsRemembered
