-- ===== src/Codex/Telemetry/Accounting.antt =====
-- What a usage report says of the counters before and after it.
use claude_dbus.Prelude.{
  String, ℕ, ◌+◌, ◌≤◌, ◌<◌, ◌≡◌, ◌⊎◌, refl, subst, sym, ◌∙◌, inl, inr, List, [], ◌∷◌, Option, none,
  some, Bool, true, false, not, ◌||◌, ◌==◌, eq_iff, if◌then◌else◌, All, arith, u64_mod, Bool-cases,
  Option-cases, filter_map,
}
use claude_dbus.Json.{Value, equals_str, as_u64, ◌at◌}
use claude_dbus.Dict
use claude_dbus.Dict.{Dict}
use claude_dbus.Dict.Laws.{get-insert}
use claude_dbus.Dict.Distinct.{IsDistinct, insert-IsDistinct}
use claude_dbus.Core.Telemetry.{TokenUsage, UsageReport, counters_table, next_u64}
use claude_dbus.Codex.Telemetry.{
  Parser, collect, keyed, counters, turn_context, coherent, is_reset, base, sub_u64, record_delta,
  deltas, accept, accept_if, observe,
}

collect-IsDistinct :
    (kvs : List (String × ℕ)) (d : TokenUsage) → IsDistinct d → IsDistinct (collect kvs d)
unfolding collect
collect-IsDistinct [] d h = h
collect-IsDistinct ((k, v) ∷ kvs) d h =
    collect-IsDistinct kvs (Dict.insert d k v) (insert-IsDistinct d k v h)

pub counters-IsDistinct : (value : Value) → IsDistinct (counters value)
unfolding counters
counters-IsDistinct value =
    collect-IsDistinct
      (filter_map (λ (kn : String × String). keyed kn.0 (as_u64 (value at kn.1))) counters_table) []
      tt

-- The counters that an entry reports.
abbrev pub reported : Value → TokenUsage
reported entry = counters (entry at "payload" at "info" at "total_token_usage")

-- The three kinds of entry: a turn context, one that is ignored, and coherent counters.
pub observe_cases :
    (entry : Value)
    → ((q : Parser) (b : Bool) → observe q entry b ≡ (turn_context q (entry at "payload"), none))
      ⊎ ((q : Parser) (b : Bool) → observe q entry b ≡ (q, none))
      ⊎ (((q : Parser) (b : Bool)
            → observe q entry b ≡ accept_if (some tt) q entry (reported entry) b)
          × (coherent (reported entry) ≡ some tt))
unfolding observe
observe_cases entry = elim (Bool-cases (equals_str (entry at "type") "turn_context")) [
  | inl turn ↦ inl (λ q b. rw turn refl)
  | inr e ↦
      elim (Bool-cases (
        not (equals_str (entry at "type") "event_msg")
        || not (equals_str (entry at "payload" at "type") "token_count"))) [
          | inl other ↦ inr (inl (λ q b. rw (e, other) refl))
          | inr event ↦ elim (Option-cases (coherent (reported entry))) [
            | inl bad ↦ inr (inl (λ q b. rw (e, event, bad) refl))
            | inr (tt, good) ↦ inr (inr (λ q b. rw (e, event, good) refl, good))
          ]
        ]
]

get-record_delta :
    (o : Option ℕ) (key : String) (value : ℕ) (delta : TokenUsage) (k : String)
    → Dict.get (record_delta o key value delta) k ≡ (
        if key == k
        then (elim o [ none ↦ Dict.get delta k | some old ↦ some (sub_u64 value old) ])
        else Dict.get delta k)
get-record_delta none key value delta k = ground arith
get-record_delta (some old) key value delta k = get-insert delta key k (sub_u64 value old)

abbrev delta_of : Option ℕ → Option ℕ → Option ℕ → Option ℕ
delta_of none o acc = acc
delta_of (some v) none acc = acc
delta_of (some v) (some old) acc = some (sub_u64 v old)

get-deltas :
    (totals next acc : TokenUsage) (k : String)
    → IsDistinct next
    → Dict.get (deltas totals next acc) k
      ≡ delta_of (Dict.get next k) (base totals k) (Dict.get acc k)
unfolding deltas Dict.get
get-deltas totals [] acc k h = refl
get-deltas totals ((key, value) ∷ next) acc k h = elim (Bool-cases (key == k)) [
  | inl e ↦
      let same = (eq_iff key k).0 e in
      let gone : Dict.get next k ≡ none = rw (← same) h.0 in
      let last = get-deltas totals next (record_delta (base totals key) key value acc) k h.1 in
      rw (last, gone, get-record_delta (base totals key) key value acc k, e, same)
        (stored (base totals k))
  | inr e ↦
      let last = get-deltas totals next (record_delta (base totals key) key value acc) k h.1 in
      rw (last, get-record_delta (base totals key) key value acc k, e) refl
]
  where
    stored :
        (o : Option ℕ)
        → (elim o [ none ↦ Dict.get acc k | some old ↦ some (sub_u64 value old) ])
          ≡ delta_of (some value) o (Dict.get acc k)
    stored none = refl
    stored (some old) = refl

below_of_no_reset :
    (totals next : TokenUsage) (k : String) {v old : ℕ}
    → is_reset totals next ≡ false
    → Dict.get next k ≡ some v
    → Dict.get totals k ≡ some old
    → old ≤ v
unfolding is_reset Dict.get
below_of_no_reset totals [] k h e f = cc
below_of_no_reset totals ((j, u) ∷ next) k h e f = elim (Bool-cases (j == k)) [
  | inl same ↦ ground (arith, eq_iff j k)
  | inr other ↦ below_of_no_reset totals next k (ground arith) (ground arith) f
]

bounded_value :
    (d : TokenUsage) (k : String) {v : ℕ}
    → All (λ (kv : String × ℕ). kv.1 < u64_mod) d
    → Dict.get d k ≡ some v
    → v < u64_mod
unfolding Dict.get
bounded_value [] k h e = cc
bounded_value ((j, u) ∷ d) k h e = elim (Bool-cases (j == k)) [
  | inl same ↦ ground arith
  | inr other ↦ bounded_value d k h.1 (ground arith)
]

-- How a report accounts for the counter `k`, which stands at `v` after it: with no reset, the delta
-- is what the counter has gained since it was last known (since 0 if none was known at all), and a
-- counter that appears beside known ones has no delta.
pub data Accounted (p p' : Parser) (r : UsageReport) (k : String) (v : ℕ) : Type 0 where
  reset :
      is_reset p.totals p'.totals ≡ true
      → p'.epoch ≡ next_u64 p.epoch
      → r.delta ≡ []
      → Accounted p p' r k v
  gained :
      (old d : ℕ)
      → is_reset p.totals p'.totals ≡ false
      → p'.epoch ≡ p.epoch
      → base p.totals k ≡ some old
      → Dict.get r.delta k ≡ some d
      → old + d ≡ v
      → Accounted p p' r k v
  appeared :
      is_reset p.totals p'.totals ≡ false
      → p'.epoch ≡ p.epoch
      → base p.totals k ≡ none
      → Dict.get r.delta k ≡ none
      → Accounted p p' r k v

sub_u64_exact : (v old : ℕ) → old ≤ v → v < u64_mod → old + sub_u64 v old ≡ v
sub_u64_exact v old h b = omega arith

gain :
    (totals next : TokenUsage) (k : String) (v : ℕ)
    → IsDistinct next
    → All (λ (kv : String × ℕ). kv.1 < u64_mod) next
    → is_reset totals next ≡ false
    → Dict.get next k ≡ some v
    → ((base totals k ≡ none) × (Dict.get (deltas totals next []) k ≡ none))
      ⊎ ((old : ℕ) × (d : ℕ) × (base totals k ≡ some old)
          × (Dict.get (deltas totals next []) k ≡ some d)
          × (old + d ≡ v))
gain totals next k v distinct bounded no_reset e = elim (Option-cases (base totals k)) [
  | inl missing ↦ inl (missing, get-deltas totals next [] k distinct ∙ rw (e, missing) nothing)
  | inr (old, known) ↦ inr (
    old,
    sub_u64 v old,
    known,
    get-deltas totals next [] k distinct ∙ rw (e, known) refl,
    sub_u64_exact v old (old_le known) (bounded_value next k bounded e),
  )
]
  where
    nothing : Dict.get {V = ℕ} [] k ≡ none
    nothing = unfold Dict.get in refl

    old_le : {old : ℕ} → base totals k ≡ some old → old ≤ v
    old_le {old} known = elim (Option-cases (Dict.get totals k)) [
      | inl missing ↦ ground arith
      | inr (u, found) ↦ let le = below_of_no_reset totals next k no_reset e found in ground arith
    ]

accept_accounting :
    (p : Parser) (entry : Value) (next : TokenUsage) (k : String) (v : ℕ) {p' : Parser}
    {r : UsageReport}
    → IsDistinct next
    → accept p entry next false ≡ (p', some r)
    → All (λ (kv : String × ℕ). kv.1 < u64_mod) p'.totals
    → Dict.get p'.totals k ≡ some v
    → Accounted p p' r k v
unfolding accept
accept_accounting p entry next k v {p'} {r} distinct e bounded found =
    let totals : p'.totals ≡ next = ground arith in
    let bounded' =
      subst (λ (d : TokenUsage). All (λ (kv : String × ℕ). kv.1 < u64_mod) d) totals bounded in
    let found' : Dict.get next k ≡ some v = rw totals at found in
    elim (Bool-cases (is_reset p.totals next)) [
      | inl is ↦ reset (rw totals is) (ground arith) (ground arith)
      | inr none_yet ↦
          let delta : r.delta ≡ deltas p.totals next [] = ground arith in
          elim (gain p.totals next k v distinct bounded' none_yet found') [
            | inl (missing, absent) ↦
                appeared (rw totals none_yet) (ground arith) missing (rw delta absent)
            | inr (old, d, known, gained_d, sum) ↦
                gained old d (rw totals none_yet) (ground arith) known (rw delta gained_d) sum
          ]
    ]

-- When an entry read live yields a report, with counters below 2 ^ 64: the report carries the new
-- totals, epoch and revision of the parser, the revision has gone up by one, and each counter of the
-- new totals is accounted for: after a counter fell the epoch goes up and the delta is empty; else
-- the epoch stays, and a counter that was known, or any counter where none was known at all, which
-- then counts from 0, has a delta that adds up with the old count to the new one, while a counter
-- that appears beside known ones has no delta.
pub observe_accounting :
    (p p' : Parser) (entry : Value) (r : UsageReport) (k : String) (v : ℕ)
    → observe p entry false ≡ (p', some r)
    → All (λ (kv : String × ℕ). kv.1 < u64_mod) p'.totals
    → Dict.get p'.totals k ≡ some v
    → Accounted p p' r k v
      × (r.totals ≡ p'.totals)
      × (r.epoch ≡ p'.epoch)
      × (r.revision ≡ p'.revision)
      × (p'.revision ≡ next_u64 p.revision)
observe_accounting p p' entry r k v e bounded found = elim (observe_cases entry) [
  | inl turn ↦ cc (turn p false)
  | inr (inl same) ↦ cc (same p false)
  | inr (inr (counted, good)) ↦ elim (Bool-cases (Dict.equal (reported entry) p.totals)) [
    | inl equal ↦
        let h : ◌≡◌ {A = Parser × Option UsageReport} (p, none) (p', some r) =
          rw equal at (sym (counted p false) ∙ e) in
        cc
    | inr new ↦
        let h : accept p entry (reported entry) false ≡ (p', some r) =
          rw new at (sym (counted p false) ∙ e) in
        (
          accept_accounting p entry (reported entry) k v (counters-IsDistinct _) h bounded found,
          unfold accept in ground arith,
          unfold accept in ground arith,
          unfold accept in ground arith,
          unfold accept in ground arith,
        )
  ]
]
