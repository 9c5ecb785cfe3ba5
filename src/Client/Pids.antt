-- ===== src/Client/Pids.antt =====
-- A pid that the client of hooks reads out of /proc has 32 bits.
use claude_dbus.Prelude.{
  String, ℕ, zero, suc, ◌*◌, ◌+◌, ◌-◌, ◌^◌, ◌<◌, ◌≡◌, List, [], ◌∷◌, Option, some, ◌==◌, ltb, leb,
  ◌&&◌, arith, Bool-cases, Option-cases, inl, inr,
}
use Prim.Native.Char.{code}
use claude_dbus.Decimal
use claude_dbus.Decimal.{signless}
use claude_dbus.Text.{trim, to_ascii_lowercase, split_once}
use claude_dbus.Json.{fields}
use claude_dbus.Client.{
  parent_field, split_last, split_whitespace, parse_stat, process_parent_pid, process_name,
  is_named, owning_loop, owning_process_pid,
}

parse_loop-lt :
    (limit acc : ℕ) (s : String) {n : ℕ}
    → acc < limit
    → Decimal.parse_loop limit acc s ≡ some n
    → n < limit
unfolding Decimal.parse_loop
parse_loop-lt limit acc String.[] {n} h e = let same : acc ≡ n = cc e in rw (← same) h
parse_loop-lt limit acc (String.◌∷◌ c s) h e =
    let next = acc * 10 + (code c - b'0') in
    elim (Bool-cases (leb b'0' (code c) && leb (code c) b'9' && ltb next limit)) [
      | inl f ↦ parse_loop-lt limit next s (ground arith) (rw f at e)
      | inr f ↦ ground arith
    ]

parse-lt : (limit : ℕ) (s : String) {n : ℕ} → 0 < limit → Decimal.parse limit s ≡ some n → n < limit
unfolding Decimal.parse
parse-lt limit s h e = elim (Bool-cases (signless s == "")) [
  | inl f ↦ ground arith
  | inr f ↦ parse_loop-lt limit 0 (signless s) h (rw f at e)
]

field-lt : (fields : List String) {n : ℕ} → parent_field fields ≡ some n → n < 2 ^ 32
field-lt [] e = absurd (cc e)
field-lt (state ∷ []) e = absurd (cc e)
field-lt (state ∷ parent ∷ fields) e = parse-lt (2 ^ 32) parent (omega arith) e

stat-lt : (stat : String) {name : String} {n : ℕ} → parse_stat stat ≡ some (name, n) → n < 2 ^ 32
unfolding parse_stat
stat-lt stat {name} {n} e = elim (Option-cases (split_once stat b'(')) [
  | inl f ↦ ground arith
  | inr ((pid, rest), f) ↦ elim (Option-cases (split_last rest ") ")) [
    | inl g ↦ ground arith
    | inr ((name', fs), g) ↦ elim (Option-cases (parent_field (split_whitespace fs))) [
      | inl k ↦ ground arith
      | inr (m, k) ↦
          let same : m ≡ n = ground arith in rw (← same) (field-lt (split_whitespace fs) k)
    ]
  ]
]

module _ (stat_of : ℕ → Option String) where
  parent-lt : (pid : ℕ) {n : ℕ} → process_parent_pid stat_of pid ≡ some n → n < 2 ^ 32
  unfolding process_parent_pid
  parent-lt pid {n} e = elim (Option-cases (stat_of pid)) [
    | inl f ↦ ground arith
    | inr (stat, f) ↦ elim (Option-cases (parse_stat stat)) [
      | inl g ↦ ground arith
      | inr ((name, m), g) ↦ let same : m ≡ n = ground arith in rw (← same) (stat-lt stat g)
    ]
  ]

  loop-lt :
      (agent : String) (f pid : ℕ) {n : ℕ}
      → pid < 2 ^ 32
      → owning_loop stat_of agent f pid ≡ some n
      → n < 2 ^ 32
  unfolding owning_loop
  loop-lt agent zero pid h e = absurd (cc e)
  loop-lt agent (suc f) pid {n} h e =
      elim (Bool-cases (is_named stat_of agent (process_name stat_of pid))) [
        | inl g ↦ let same : pid ≡ n = ground arith in rw (← same) h
        | inr g ↦ elim (Option-cases (process_parent_pid stat_of pid)) [
          | inl k ↦ ground arith
          | inr (q, k) ↦ loop-lt agent f q (parent-lt pid k) (rw (g, k) at e)
        ]
      ]

  pub owner-lt :
      (own : ℕ) (agent : String) {n : ℕ}
      → owning_process_pid stat_of own agent ≡ some n
      → n < 2 ^ 32
  unfolding owning_process_pid
  owner-lt own agent e =
      let name = to_ascii_lowercase (trim agent) in
      elim (Bool-cases (name == "")) [
        | inl g ↦ ground arith
        | inr g ↦ elim (Option-cases (process_parent_pid stat_of own)) [
          | inl k ↦ ground arith
          | inr (q, k) ↦ loop-lt name 32 q (parent-lt own k) (rw (g, k) at e)
        ]
      ]
