-- ===== src/Codex/Metrics.antt =====
-- agent-dbus-service/src/providers/codex/metrics.rs: the limits in the tail of a rollout file.
-- Arithmetic on `f64` is an argument: whether a window is positive, and the share in it in percent.
use claude_dbus.Prelude.{
  String, ℕ, Option, some, Bool, ◌==◌, ◌>>=◌, ◌>>◌, guard, ◌or_else◌, unwrap_or, find_map,
}
use claude_dbus.Text.{lines}
use claude_dbus.Json.{Value, F64, as_str, as_f64, as_u64, object, field, end, ◌at◌}
use claude_dbus.Service.Metrics.{CodexSessionMetrics, object_at}
use claude_dbus.Codex.Title.{reversed}

-- `CODEX_METRICS_TAIL_READ_MAX_BYTES`
abbrev pub tail_read_max_bytes : ℕ
tail_read_max_bytes = 2097152

-- The copy of the function of the same name in service/metrics.rs.
unfoldable pub context_pct : Value → Option F64
context_pct v =
    as_f64 (v at "context_window" at "used_percentage")
    or_else as_f64 (v at "context_window" at "used_percent")
    or_else as_f64 (v at "context" at "used_percentage")
    or_else as_f64 (v at "context" at "used_percent")
    or_else as_f64 (v at "context_pct")

unfoldable pub usage_limit : Value → String → Option (F64 × ℕ)
usage_limit v key = do
  limit ←
      object_at (v at "rate_limits" at key)
      or_else object_at (v at "usage" at key)
      or_else object_at (v at "limits" at key)
  pct ←
      as_f64 (limit at "used_percent")
      or_else as_f64 (limit at "usage_percent")
      or_else as_f64 (limit at "used_pct")
      or_else as_f64 (limit at "percent")
  some (
    pct,
    unwrap_or
        (as_u64 (limit at "resets_at")
          or_else as_u64 (limit at "reset_at")
          or_else as_u64 (limit at "reset_time"))
        0,
  )

module _ (from_str : String → Option Value) (positive : F64 → Bool)
    (percent : F64 → F64 → F64) where
  abbrev pub window_pct : Value → Option F64
  window_pct payload = do
    window ← as_f64 (payload at "info" at "model_context_window")
    guard (positive window)
    used ←
        as_f64 (payload at "info" at "last_token_usage" at "total_tokens")
        or_else as_f64 (payload at "info" at "last_token_usage" at "input_tokens")
    some (percent used window)

  unfoldable pub codex_context_pct : Value → Option F64
  unfolding context_pct
  codex_context_pct payload = context_pct payload or_else window_pct payload

  -- `json!({ "rate_limits": payload["rate_limits"].clone() })`
  abbrev pub limits_of : Value → Value
  limits_of payload = object (field "rate_limits" (payload at "rate_limits") end)

  unfoldable pub metrics_of_line : String → Option CodexSessionMetrics
  unfolding codex_context_pct usage_limit
  metrics_of_line line = do
    entry ← from_str line
    kind ← as_str (entry at "type")
    guard (kind == "event_msg")
    event ← as_str (entry at "payload" at "type")
    guard (event == "token_count")
    some (record {
      context_pct = codex_context_pct (entry at "payload");
      five_hour = usage_limit (limits_of (entry at "payload")) "primary";
      seven_day = usage_limit (limits_of (entry at "payload")) "secondary";
    })

  -- `codex_session_metrics`, of the tail of the rollout file
  unfoldable pub codex_session_metrics : Option String → Option CodexSessionMetrics
  unfolding metrics_of_line
  codex_session_metrics tail = do
    contents ← tail
    find_map metrics_of_line (reversed (lines contents))
