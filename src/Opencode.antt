-- ===== src/Opencode.antt =====
-- agent-dbus-service/src/providers/opencode.rs: usage events, permission replies and lineage.
pub mod Usage
pub mod Unchanged
pub mod Once
use claude_dbus.Prelude.{
  String, ℕ, List, [], ◌∷◌, ◌++◌, Option, none, some, Bool, true, false, not, ◌&&◌, ◌||◌, ◌==◌, eqb,
  ltb, if◌then◌else◌, is_some, is_empty, length, ◌>>=◌, guard, ◌>>◌, filter_option, unwrap_or,
  checked_add,
}
use claude_dbus.Json
use claude_dbus.Json.{Value, as_str, as_u64, is_object, ◌at◌}
use claude_dbus.Dict
use claude_dbus.Dict.{Dict}
use claude_dbus.Core.Telemetry.{TokenUsage, UsageReport, reasoning_effort, next_u64}
use claude_dbus.Codex.Telemetry.{is_reset}
use claude_dbus.Session.Object.{SessionObject}

abbrev pub token_keys : List String
token_keys =
    "input" ∷ "output" ∷ "cache_read_input" ∷ "cache_write_input" ∷ "reasoning_output" ∷ "total"
    ∷ []

abbrev pub add_count : Option Value → String → TokenUsage → Option TokenUsage
add_count none key result = some result
add_count (some v) key result = as_u64 v >>= λ n. some (Dict.insert result key n)

-- The loop over the keys: a count that is no `u64` makes the whole map invalid.
unfoldable pub read_counts : Value → List String → TokenUsage → Option TokenUsage
read_counts source [] result = some result
read_counts source (key ∷ keys) result =
    add_count (Json.get source key) key result >>= λ r. read_counts source keys r

unfoldable pub checked_total : TokenUsage → Option TokenUsage
checked_total result = do
  input ← Dict.get result "input"
  output ← Dict.get result "output"
  total ← checked_add input output
  found ← Dict.get result "total"
  if eqb found total then some result else none

unfoldable pub token_map : Value → Option TokenUsage
unfolding read_counts checked_total
token_map value = do
  guard (is_object value)
  result ← read_counts value token_keys []
  checked_total result

-- Events with no usage carry the effort and the model of the session.
abbrev pub with_effort : Option Value → SessionObject → SessionObject
with_effort none s = s
with_effort (some effort) s = record s { reasoning_effort = reasoning_effort (as_str effort) }

abbrev pub with_model : Option String → SessionObject → SessionObject
with_model none s = s
with_model (some model) s = record s { model_name = model }

abbrev pub is_model : String → Bool
is_model m = not (m == "") && not (m == "unknown")

unfoldable pub apply_metadata : SessionObject → Value → SessionObject
apply_metadata s data' =
    if is_some (Json.get data' "token_usage")
    then s
    else with_model (filter_option is_model (as_str (data' at "model")))
        (with_effort (Json.get data' "reasoning_effort") s)

abbrev pub with_baseline : Option TokenUsage → SessionObject → SessionObject
with_baseline none s = s
with_baseline (some baseline) s = record s { token_usage = baseline }

unfoldable pub apply_baseline : SessionObject → Value → SessionObject
unfolding token_map
apply_baseline s data' =
    if is_empty s.token_usage && eqb s.usage_revision 0
    then with_baseline (token_map (data' at "usage_baseline")) s
    else s

abbrev pub usage_events_max : ℕ
usage_events_max = 4096

-- `next.insert(key, next.get(key).copied().unwrap_or(0).checked_add(value)?)` for each count
unfoldable pub add_counts : List (String × ℕ) → TokenUsage → Option TokenUsage
add_counts [] next = some next
add_counts ((key, value) ∷ delta) next =
    checked_add (unwrap_or (Dict.get next key) 0) value >>= λ sum.
    add_counts delta (Dict.insert next key sum)

-- The totals and the epoch, where the plugin sends its own cumulative counts.
abbrev pub resync : Option TokenUsage → TokenUsage → ℕ → TokenUsage → TokenUsage × ℕ
resync none next epoch current = (next, epoch)
resync (some cumulative) next epoch current =
    (cumulative, if is_reset current cumulative then next_u64 epoch else epoch)

-- The ids of the latest usage events, as a set and in order of arrival.
abbrev pub forget_oldest : List String → Dict (Unit {0}) → Dict (Unit {0}) × List String
forget_oldest [] events = (events, [])
forget_oldest (old ∷ order) events = (Dict.remove events old, order)

unfoldable pub remember : SessionObject → String → SessionObject
remember s event_id =
    let events = Dict.insert s.opencode_usage_events event_id tt in
    let order = s.opencode_usage_order ++ event_id ∷ [] in
    let trimmed = forget_oldest order events in
    if ltb usage_events_max (length order)
    then record s { opencode_usage_events = trimmed.0; opencode_usage_order = trimmed.1 }
    else record s { opencode_usage_events = events; opencode_usage_order = order }

-- What a new event with these counts does.
unfoldable pub count_event :
    SessionObject → Value → String → TokenUsage → TokenUsage → SessionObject × Option UsageReport
unfolding token_map remember
count_event s data' event_id delta next =
    let (totals, epoch) =
      resync (token_map (data' at "cumulative_token_usage")) next s.usage_epoch s.token_usage in
    let revision = next_u64 s.usage_revision in
    (
      record (remember s event_id) {
        last_token_usage = delta;
        token_usage = totals;
        usage_epoch = epoch;
        usage_revision = revision;
      },
      some (record {
        epoch = epoch;
        revision = revision;
        timestamp = unwrap_or (as_str (data' at "usage_timestamp")) "";
        turn_id = unwrap_or (as_str (data' at "turn_id")) "";
        model = unwrap_or (as_str (data' at "model")) "unknown";
        effort = reasoning_effort (as_str (data' at "reasoning_effort"));
        delta = delta;
        totals = totals;
      }),
    )

-- The id of a new event, its counts, and the totals that they add up to.
unfoldable pub new_event : SessionObject → Value → Option (String × TokenUsage × TokenUsage)
unfolding token_map add_counts
new_event s data' = do
  event_id ← filter_option (λ id. not (id == "")) (as_str (data' at "usage_event_id"))
  guard (not (Dict.contains_key s.opencode_usage_events event_id))
  delta ← token_map (data' at "token_usage")
  next ← add_counts delta s.token_usage
  some (event_id, delta, next)

abbrev pub counted :
    SessionObject
    → Value
    → Option (String × TokenUsage × TokenUsage)
    → SessionObject × Option UsageReport
counted s data' none = (s, none)
counted s data' (some (event_id, delta, next)) = count_event s data' event_id delta next

unfoldable pub apply_telemetry : SessionObject → Value → SessionObject × Option UsageReport
unfolding apply_metadata apply_baseline count_event new_event
apply_telemetry session data' =
    let s = apply_baseline (apply_metadata session data') data' in
    counted s data' (new_event s data')
