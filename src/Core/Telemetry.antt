-- ===== src/Core/Telemetry.antt =====
-- agent-dbus-core/src/telemetry.rs: the usage vocabulary. A `TokenUsage` holds `u64` values.
use claude_dbus.Prelude.{
  String, ℕ, List, [], ◌∷◌, Option, none, some, Bool, ◌||◌, ◌==◌, if◌then◌else◌, ◌%◌, ◌+◌, u64_mod,
}
use claude_dbus.Dict.{Dict}

abbrev pub TokenUsage : Type 0
TokenUsage = Dict ℕ

abbrev pub counters_table : List (String × String)
counters_table =
    ("input", "input_tokens")
    ∷ ("output", "output_tokens")
    ∷ ("cache_read_input", "cached_input_tokens")
    ∷ ("cache_write_input", "cache_write_input_tokens")
    ∷ ("reasoning_output", "reasoning_output_tokens")
    ∷ ("total", "total_tokens")
    ∷ []

abbrev pub known_effort : String → Bool
known_effort v =
    v == "none" || v == "minimal" || v == "low" || v == "medium" || v == "high" || v == "xhigh"

unfoldable pub reasoning_effort : Option String → String
reasoning_effort none = "unknown"
reasoning_effort (some v) = if known_effort v then v else "unknown"

pub record UsageReport : Type 0 where
  pub epoch : ℕ
  pub revision : ℕ
  pub timestamp : String
  pub turn_id : String
  pub model : String
  pub effort : String
  pub delta : TokenUsage
  pub totals : TokenUsage

-- `n += 1` on a `u64`, without overflow checks
abbrev pub next_u64 : ℕ → ℕ
next_u64 n = (n + 1) % u64_mod
