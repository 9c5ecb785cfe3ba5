-- ===== src/Opencode/Once.antt =====
-- apply_telemetry of agent-dbus-service/src/providers/opencode.rs: a usage event is counted once.
use claude_dbus.Prelude.{
  String, ◌≡◌, refl, ◌∙◌, Option, none, some, Bool, true, false, not, ◌==◌, is_some, arith,
  Bool-cases, Option-cases, inl, inr, filter_option, if◌then◌else◌,
}
use claude_dbus.Json
use claude_dbus.Json.{Value, as_str, ◌at◌}
use claude_dbus.Dict
use claude_dbus.Dict.{Dict}
use claude_dbus.Core.Telemetry.{TokenUsage}
use claude_dbus.Session.Object.{SessionObject}
use claude_dbus.Opencode.{
  apply_telemetry, apply_metadata, apply_baseline, with_effort, with_model, is_model, token_map,
  new_event, count_event, remember, add_counts,
}
use claude_dbus.Opencode.Usage.{IsRemembered, remembers, remember-IsRemembered}

record SameEvents (s s' : SessionObject) : Type 0 where
  pub events : s'.opencode_usage_events ≡ s.opencode_usage_events
  pub order : s'.opencode_usage_order ≡ s.opencode_usage_order

metadata-SameEvents : (s : SessionObject) (v : Value) → SameEvents s (apply_metadata s v)
unfolding apply_metadata
metadata-SameEvents s v =
    go (is_some (Json.get v "token_usage")) (Json.get v "reasoning_effort")
      (filter_option is_model (as_str (v at "model")))
  where
    go :
        (b : Bool) (effort : Option Value) (model : Option String)
        → SameEvents s (if b then s else with_model model (with_effort effort s))
    go b effort model = ground arith

baseline-SameEvents : (s : SessionObject) (v : Value) → SameEvents s (apply_baseline s v)
unfolding apply_baseline
baseline-SameEvents s v = elim (Option-cases (token_map (v at "usage_baseline"))) [
  | inl e ↦ rw e (ground arith)
  | inr (d, e) ↦ rw e (ground arith)
]

-- The session after the first two steps of `apply_telemetry`.
abbrev prepared : SessionObject → Value → SessionObject
prepared s v = apply_baseline (apply_metadata s v) v

prepared-SameEvents : (s : SessionObject) (v : Value) → SameEvents s (prepared s v)
prepared-SameEvents s v =
    let m = metadata-SameEvents s v in
    let b = baseline-SameEvents (apply_metadata s v) v in
    record { events = b.events ∙ m.events; order = b.order ∙ m.order }

SameEvents-IsRemembered :
    {s s' : SessionObject} → SameEvents s s' → IsRemembered s → IsRemembered s'
SameEvents-IsRemembered e v = record {
  same = λ id. rw (e.events, e.order) (v.same id);
  once = rw e.order v.once;
  bounded = rw e.order v.bounded;
}

-- The id that the payload gives, when it is not empty.
abbrev event_id : Value → Option String
event_id v = filter_option (λ id. not (id == "")) (as_str (v at "usage_event_id"))

-- A new event has an id that is not remembered, valid counts and valid sums.
new_event-some :
    (s : SessionObject) (v : Value) (id : String) (delta next : TokenUsage)
    → new_event s v ≡ some (id, delta, next)
    → (event_id v ≡ some id)
      × (Dict.contains_key s.opencode_usage_events id ≡ false)
      × (token_map (v at "token_usage") ≡ some delta)
      × (add_counts delta s.token_usage ≡ some next)
unfolding new_event
new_event-some s v id delta next h = elim (Option-cases (event_id v)) [
  | inl e ↦ absurd (ground arith)
  | inr (i, e) ↦ elim (Bool-cases (Dict.contains_key s.opencode_usage_events i)) [
    | inl seen ↦ absurd (ground arith)
    | inr fresh ↦ elim (Option-cases (token_map (v at "token_usage"))) [
      | inl ed ↦ absurd (ground arith)
      | inr (d, ed) ↦ elim (Option-cases (add_counts d s.token_usage)) [
        | inl en ↦ absurd (ground arith)
        | inr (n, en) ↦ ground arith
      ]
    ]
  ]
]

-- An event whose id is remembered is not new.
seen_event :
    (s : SessionObject) (v : Value) (id : String)
    → event_id v ≡ some id
    → Dict.contains_key s.opencode_usage_events id ≡ true
    → new_event s v ≡ none
unfolding new_event
seen_event s v id e seen = rw (e, seen) refl

counted_events :
    (s : SessionObject) (v : Value) (id : String) (delta next : TokenUsage)
    → SameEvents (remember s id) (count_event s v id delta next).0
unfolding count_event
counted_events s v id delta next = record { events = refl; order = refl }

-- If the set of remembered ids and their order agree, without repetition and at most 4096 of them,
-- they do so after any telemetry.
pub telemetry-IsRemembered :
    (s : SessionObject) (v : Value) → IsRemembered s → IsRemembered (apply_telemetry s v).0
unfolding apply_telemetry
telemetry-IsRemembered s v valid =
    let before = SameEvents-IsRemembered (prepared-SameEvents s v) valid in
    elim (Option-cases (new_event (prepared s v) v)) [
      | inl e ↦ rw e before
      | inr ((id, delta, next), e) ↦
          let new = new_event-some (prepared s v) v id delta next e in
          rw e (
            SameEvents-IsRemembered (counted_events (prepared s v) v id delta next)
              (remember-IsRemembered (prepared s v) id before new.1))
    ]

-- In a session whose set of remembered ids and their order agree, an event that was counted is not
-- counted when its id comes next again, whatever else the second payload holds.
pub telemetry_once :
    (s : SessionObject) (v w : Value)
    → IsRemembered s
    → is_some (apply_telemetry s v).1 ≡ true
    → as_str (w at "usage_event_id") ≡ as_str (v at "usage_event_id")
    → (apply_telemetry (apply_telemetry s v).0 w).1 ≡ none
unfolding apply_telemetry
telemetry_once s v w valid reported again = elim (Option-cases (new_event (prepared s v) v)) [
  | inl e ↦ absurd (ground arith)
  | inr ((id, delta, next), e) ↦
      let s' = prepared s v in
      let t = (count_event s' v id delta next).0 in
      let new = new_event-some s' v id delta next e in
      let seen : Dict.contains_key t.opencode_usage_events id ≡ true =
        rw ((counted_events s' v id delta next).events)
          (remembers s' id (SameEvents-IsRemembered (prepared-SameEvents s v) valid) new.1) in
      let still : Dict.contains_key (prepared t w).opencode_usage_events id ≡ true =
        rw ((prepared-SameEvents t w).events) seen in
      rw (e, seen_event (prepared t w) w id (rw again new.0) still) refl
]
