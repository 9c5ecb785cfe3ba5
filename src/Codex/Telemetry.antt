-- ===== src/Codex/Telemetry.antt =====
-- agent-dbus-service/src/providers/codex/telemetry.rs, `Parser`: token counters out of rollout
-- entries.
pub mod Accounting
pub mod Replay
use claude_dbus.Prelude.{
  String, ℕ, ◌+◌, ◌-◌, ◌%◌, List, [], ◌∷◌, Option, none, some, Bool, true, false, not, ◌||◌, ◌&&◌,
  ◌==◌, eqb, ltb, if◌then◌else◌, is_some, is_empty, any, filter_map, ◌>>=◌, u64_mod, checked_add,
  unwrap_or,
}
use claude_dbus.Json
use claude_dbus.Json.{Value, as_str, as_u64, equals_str, pointer, ◌at◌}
use claude_dbus.Dict
use claude_dbus.Dict.{Dict}
use claude_dbus.Core.Telemetry.{TokenUsage, UsageReport, counters_table, reasoning_effort, next_u64}
use claude_dbus.Session.Object.{SessionObject}

pub record Parser : Type 0 where
  pub model : String
  pub effort : String
  pub turn : String
  pub totals : TokenUsage
  pub last : TokenUsage
  pub epoch : ℕ
  pub revision : ℕ

abbrev pub default_parser : Parser
default_parser = record {
  model = "";
  effort = "";
  turn = "";
  totals = [];
  last = [];
  epoch = 0;
  revision = 0;
}

-- `collect` into a `HashMap`
unfoldable pub collect : List (String × ℕ) → TokenUsage → TokenUsage
collect [] d = d
collect ((k, v) ∷ kvs) d = collect kvs (Dict.insert d k v)

abbrev pub keyed : String → Option ℕ → Option (String × ℕ)
keyed k none = none
keyed k (some v) = some (k, v)

unfoldable pub counters : Value → TokenUsage
unfolding collect
counters value =
    collect
      (filter_map (λ (kn : String × String). keyed kn.0 (as_u64 (value at kn.1))) counters_table) []

abbrev pub or_keep : Option String → String → String
or_keep none old = old
or_keep (some s) old = s

-- The effort after a `turn_context`: an `effort` field counts even when it holds no text, and else
-- the same field of the collaboration settings.
unfoldable pub next_effort : Value → String → String
next_effort payload old =
    if is_some (Json.get payload "effort")
    then reasoning_effort (as_str (payload at "effort"))
    else elim (pointer payload ("collaboration_mode" ∷ "settings" ∷ [])) [
      | none ↦ old
      | some settings ↦
          if is_some (Json.get settings "reasoning_effort")
          then reasoning_effort (as_str (settings at "reasoning_effort"))
          else old
    ]

unfoldable pub turn_context : Parser → Value → Parser
turn_context p payload = record p {
  model = or_keep (as_str (payload at "model")) p.model;
  turn = or_keep (as_str (payload at "turn_id")) p.turn;
  effort = next_effort payload p.effort;
}

-- Totals that are complete and add up; `None` stands for the early returns.
unfoldable pub coherent : TokenUsage → Option (Unit {0})
coherent next = do
  input ← Dict.get next "input"
  output ← Dict.get next "output"
  total ← Dict.get next "total"
  sum ← checked_add input output
  if eqb sum total then some tt else none

abbrev pub below : Option ℕ → ℕ → Bool
below none v = false
below (some old) v = ltb v old

unfoldable pub is_reset : TokenUsage → TokenUsage → Bool
is_reset totals next = any (λ (kv : String × ℕ). below (Dict.get totals kv.0) kv.1) next

-- `self.totals.get(key).copied().or_else(|| self.totals.is_empty().then_some(0))`
abbrev pub base : TokenUsage → String → Option ℕ
base totals key = elim (Dict.get totals key) [
  | none ↦ if is_empty totals then some 0 else none
  | some old ↦ some old
]

-- `value - old` on `u64`, without overflow checks
abbrev pub sub_u64 : ℕ → ℕ → ℕ
sub_u64 value old = (value + u64_mod - old) % u64_mod

abbrev pub record_delta : Option ℕ → String → ℕ → TokenUsage → TokenUsage
record_delta none key value delta = delta
record_delta (some old) key value delta = Dict.insert delta key (sub_u64 value old)

-- `for (key, value) in &next`
unfoldable pub deltas : TokenUsage → List (String × ℕ) → TokenUsage → TokenUsage
deltas totals [] delta = delta
deltas totals ((key, value) ∷ next) delta =
    deltas totals next (record_delta (base totals key) key value delta)

abbrev pub or_unknown : String → String
or_unknown s = if s == "" then "unknown" else s

-- The rest of `observe`, once the counters are accepted.
unfoldable pub accept : Parser → Value → TokenUsage → Bool → Parser × Option UsageReport
unfolding is_reset deltas
accept p entry next baseline =
    let reset = is_reset p.totals next in
    let epoch' = if reset then next_u64 p.epoch else p.epoch in
    let delta = if not baseline && not reset then deltas p.totals next [] else [] in
    let p' = record p {
      totals = next;
      last = counters (entry at "payload" at "info" at "last_token_usage");
      epoch = epoch';
      revision = next_u64 p.revision;
    } in
    (
      p',
      if baseline
          then none
          else some (record {
            epoch = epoch';
            revision = next_u64 p.revision;
            timestamp = unwrap_or (as_str (entry at "timestamp")) "";
            turn_id = p.turn;
            model = or_unknown p.model;
            effort = or_unknown p.effort;
            delta = delta;
            totals = next;
          }),
    )

abbrev pub accept_if :
    Option (Unit {0}) → Parser → Value → TokenUsage → Bool → Parser × Option UsageReport
accept_if none p entry next baseline = (p, none)
accept_if (some _) p entry next baseline =
    if Dict.equal next p.totals then (p, none) else accept p entry next baseline

unfoldable pub observe : Parser → Value → Bool → Parser × Option UsageReport
unfolding turn_context coherent
observe p entry baseline =
    let payload = entry at "payload" in
    let next = counters (payload at "info" at "total_token_usage") in
    if equals_str (entry at "type") "turn_context"
    then (turn_context p payload, none)
    else if not (equals_str (entry at "type") "event_msg")
        || not (equals_str (payload at "type") "token_count")
    then (p, none)
    else accept_if (coherent next) p entry next baseline

abbrev pub if_set : String → String → String
if_set new old = if new == "" then old else new

unfoldable pub apply : Parser → SessionObject → SessionObject
apply p session = record session {
  model_name = if_set p.model session.model_name;
  reasoning_effort = if_set p.effort session.reasoning_effort;
  token_usage = p.totals;
  last_token_usage = p.last;
  usage_epoch = p.epoch;
  usage_revision = p.revision;
}
