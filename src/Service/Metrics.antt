-- ===== src/Service/Metrics.antt =====
-- agent-dbus-service/src/service/metrics.rs: context and rate limits. What Codex keeps in its files
-- is an argument.
use claude_dbus.Prelude.{
  String, ℕ, Option, none, some, ◌&&◌, not, ◌==◌, if◌then◌else◌, is_some, ◌>>=◌, ◌or_else◌,
  unwrap_or,
}
use claude_dbus.Json
use claude_dbus.Json.{Value, F64, as_f64, as_u64, is_object, ◌at◌}
use claude_dbus.Core.{is_opencode_agent}
use claude_dbus.Session.Object.{SessionObject}
use claude_dbus.Opencode.{apply_telemetry}

-- What `codex_session_metrics` answers.
pub record CodexSessionMetrics : Type 0 where
  pub context_pct : Option F64
  pub five_hour : Option (F64 × ℕ)
  pub seven_day : Option (F64 × ℕ)

unfoldable pub context_pct : Value → Option F64
context_pct data' =
    as_f64 (data' at "context_window" at "used_percentage")
    or_else as_f64 (data' at "context_window" at "used_percent")
    or_else as_f64 (data' at "context" at "used_percentage")
    or_else as_f64 (data' at "context" at "used_percent")
    or_else as_f64 (data' at "context_pct")

abbrev pub object_at : Value → Option Value
object_at v = if is_object v then some v else none

-- The share that is used, and when it is reset.
unfoldable pub usage_limit : Value → String → Option (F64 × ℕ)
usage_limit data' key = do
  limit ←
      object_at (data' at "rate_limits" at key)
      or_else object_at (data' at "usage" at key)
      or_else object_at (data' at "limits" at key)
  pct ←
      as_f64 (limit at "used_percent")
      or_else as_f64 (limit at "usage_percent")
      or_else as_f64 (limit at "used_pct")
      or_else as_f64 (limit at "percent")
  some (
    pct,
    unwrap_or
        (as_u64 (limit at "resets_at")
          or_else as_u64 (limit at "reset_at")
          or_else as_u64 (limit at "reset_time"))
        0,
  )

abbrev pub with_context : Option F64 → SessionObject → SessionObject
with_context none s = s
with_context (some pct) s = record s { context_pct = pct }

abbrev pub with_five_hour : Option (F64 × ℕ) → SessionObject → SessionObject
with_five_hour none s = s
with_five_hour (some (pct, resets_at)) s = record s {
  five_hour_usage_pct = pct;
  five_hour_resets_at = resets_at;
}

abbrev pub with_seven_day : Option (F64 × ℕ) → SessionObject → SessionObject
with_seven_day none s = s
with_seven_day (some (pct, resets_at)) s = record s {
  seven_day_usage_pct = pct;
  seven_day_resets_at = resets_at;
}

unfoldable pub five_hour_limit : Value → Option CodexSessionMetrics → Option (F64 × ℕ)
unfolding usage_limit
five_hour_limit data' fallback =
    usage_limit data' "primary"
    or_else usage_limit data' "five_hour"
    or_else usage_limit data' "fiveHour"
    or_else usage_limit data' "5h"
    or_else (fallback >>= λ m. m.five_hour)

unfoldable pub seven_day_limit : Value → Option CodexSessionMetrics → Option (F64 × ℕ)
unfolding usage_limit
seven_day_limit data' fallback =
    usage_limit data' "secondary"
    or_else usage_limit data' "seven_day"
    or_else usage_limit data' "sevenDay"
    or_else usage_limit data' "7d"
    or_else (fallback >>= λ m. m.seven_day)

-- `metrics` is what `codex_session_metrics` answers for the session.
unfoldable pub apply_usage_limits :
    SessionObject → String → Option CodexSessionMetrics → Value → SessionObject
unfolding five_hour_limit seven_day_limit context_pct
apply_usage_limits session agent_name metrics data' =
    let s =
      if is_opencode_agent agent_name && not (is_some (Json.get data' "token_usage"))
      then (apply_telemetry session data').0
      else session in
    let fallback = if agent_name == "codex" then metrics else none in
    with_seven_day (seven_day_limit data' fallback) (
      with_five_hour (five_hour_limit data' fallback)
        (with_context (context_pct data' or_else (fallback >>= λ m. m.context_pct)) s))
