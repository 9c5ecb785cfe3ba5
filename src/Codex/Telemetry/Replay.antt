-- ===== src/Codex/Telemetry/Replay.antt =====
-- Reading an entry twice counts it once, and the totals stay coherent.
use claude_dbus.Prelude.{
  String, ℕ, ◌+◌, ◌<◌, ◌≡◌, ◌⊎◌, refl, inl, inr, [], Option, none, some, Bool, arith, u64_mod,
  Bool-cases, Option-cases,
}
use claude_dbus.Json.{Value, as_str, ◌at◌}
use claude_dbus.Dict
use claude_dbus.Dict.Distinct.{equal_refl}
use claude_dbus.Core.Telemetry.{TokenUsage}
use claude_dbus.Codex.Telemetry.{
  Parser, turn_context, next_effort, or_keep, coherent, accept, accept_if, observe,
}
use claude_dbus.Codex.Telemetry.Accounting.{observe_cases, reported, counters-IsDistinct}

next_effort_idem :
    (payload : Value) (old : String)
    → next_effort payload (next_effort payload old) ≡ next_effort payload old
unfolding next_effort
next_effort_idem payload old = ground arith

or_keep_idem : (o : Option String) (old : String) → or_keep o (or_keep o old) ≡ or_keep o old
or_keep_idem none old = refl
or_keep_idem (some s) old = refl

turn_context_idem :
    (p : Parser) (payload : Value)
    → turn_context (turn_context p payload) payload ≡ turn_context p payload
unfolding turn_context
turn_context_idem p payload = ground (
  arith,
  or_keep_idem (as_str (payload at "model")) p.model,
  or_keep_idem (as_str (payload at "turn_id")) p.turn,
  next_effort_idem payload p.effort,
)

accept_again :
    (p : Parser) (entry : Value) (b b' : Bool)
    → accept_if (some tt) (accept p entry (reported entry) b).0 entry (reported entry) b'
      ≡ ((accept p entry (reported entry) b).0, none)
unfolding accept
accept_again p entry b b' = rw (equal_refl (reported entry) (counters-IsDistinct _)) refl

-- An entry that has just been read, as a baseline or live, changes nothing when it is read again,
-- and yields no report.
pub observe_again :
    (p : Parser) (entry : Value) (b b' : Bool)
    → observe (observe p entry b).0 entry b' ≡ ((observe p entry b).0, none)
observe_again p entry b b' = elim (observe_cases entry) [
  | inl turn ↦
      rw
        (
          turn p b,
          turn (turn_context p (entry at "payload")) b',
          turn_context_idem p (entry at "payload"),
        )
        refl
  | inr (inl same) ↦ rw (same p b, same p b') refl
  | inr (inr (counted, good)) ↦ elim (Bool-cases (Dict.equal (reported entry) p.totals)) [
    | inl equal ↦ rw (counted p b, equal, counted p b', equal) refl
    | inr new ↦ rw (counted p b, new, counted _ b') (accept_again p entry b b')
  ]
]

-- The totals that the parser holds: none yet, or input, output and a total that is their sum.
abbrev pub IsCoherent : TokenUsage → Type 0
IsCoherent totals =
    (totals ≡ [])
    ⊎ ((input output total : ℕ) × (Dict.get totals "input" ≡ some input)
        × (Dict.get totals "output" ≡ some output)
        × (Dict.get totals "total" ≡ some total)
        × (input + output ≡ total)
        × (total < u64_mod))

coherent-IsCoherent : (next : TokenUsage) → coherent next ≡ some tt → IsCoherent next
unfolding coherent
coherent-IsCoherent next h = elim (Option-cases (Dict.get next "input")) [
  | inl e ↦ absurd (ground arith)
  | inr (input, ei) ↦ elim (Option-cases (Dict.get next "output")) [
    | inl e ↦ absurd (ground arith)
    | inr (output, eo) ↦ elim (Option-cases (Dict.get next "total")) [
      | inl e ↦ absurd (ground arith)
      | inr (total, et) ↦ inr (input, output, total, ei, eo, et, ground arith, ground arith)
    ]
  ]
]

-- Whatever entries are read, the parser's totals are empty, or have an input, an output and a total
-- count, of which the last is the sum of the others and fits 64 bits.
pub observe-IsCoherent :
    (p : Parser) (entry : Value) (b : Bool)
    → IsCoherent p.totals
    → IsCoherent (observe p entry b).0.totals
observe-IsCoherent p entry b h = elim (observe_cases entry) [
  | inl turn ↦ rw (turn p b) (unfold turn_context in h)
  | inr (inl same) ↦ rw (same p b) h
  | inr (inr (counted, good)) ↦ elim (Bool-cases (Dict.equal (reported entry) p.totals)) [
    | inl equal ↦ rw (counted p b, equal) h
    | inr new ↦ rw (counted p b, new) (unfold accept in coherent-IsCoherent (reported entry) good)
  ]
]
