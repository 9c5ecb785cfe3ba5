-- ===== src/Socket/Limit.antt =====
-- The limit on the size of a message, and on the numbers in it.
use claude_dbus.Prelude.{
  String, ℕ, zero, suc, ◌+◌, ◌^◌, ◌≤◌, ◌<◌, ◌≡◌, refl, List, [], ◌∷◌, Option, none, some, ltb,
  if◌then◌else◌, length, arith, Bool-cases, false, Option-cases, inl, inr,
}
use claude_dbus.Text.{trim}
use claude_dbus.Bridge.Handler.{RawHook}
use claude_dbus.Socket.{
  HookMessage, sent, max_hook_message_bytes, first_bytes, to_u32, hook_of_message, parse_message,
  read_raw_hook,
}

first_bytes-le : (n : ℕ) (bytes : List ℕ) → length (first_bytes n bytes) ≤ n
unfolding first_bytes
first_bytes-le zero bytes = omega arith
first_bytes-le (suc n) [] = omega arith
first_bytes-le (suc n) (b ∷ bytes) = omega (arith, first_bytes-le n bytes)

-- Cut off, a list is as long as the limit; otherwise it is whole.
first_bytes-all : (n : ℕ) (bytes : List ℕ) → length bytes ≤ n → first_bytes n bytes ≡ bytes
unfolding first_bytes
first_bytes-all zero [] h = refl
first_bytes-all zero (b ∷ bytes) h = absurd (omega arith)
first_bytes-all (suc n) [] h = refl
first_bytes-all (suc n) (b ∷ bytes) h = rw (first_bytes-all n bytes (omega arith)) refl

first_bytes-full : (n : ℕ) (bytes : List ℕ) → n ≤ length bytes → length (first_bytes n bytes) ≡ n
unfolding first_bytes
first_bytes-full zero bytes h = refl
first_bytes-full (suc n) [] h = absurd (omega arith)
first_bytes-full (suc n) (b ∷ bytes) h = omega (arith, first_bytes-full n bytes (omega arith))

to_u32-lt : (n : ℕ) {p : ℕ} → to_u32 n ≡ some p → p < 2 ^ 32
to_u32-lt n e = ground arith

message-lt : (msg : HookMessage) {p : ℕ} → (hook_of_message msg).parent_pid ≡ some p → p < 2 ^ 32
unfolding hook_of_message
message-lt msg e = elim (Option-cases msg.parent_pid) [
  | inl h ↦ ground arith
  | inr (n, h) ↦ to_u32-lt n (rw h at e)
]

ltb-false-le : (m n : ℕ) → ltb m n ≡ false → n ≤ m
ltb-false-le m n e = ground arith

module _ (from_utf8 : List ℕ → Option String) (from_str : String → Option HookMessage) where
  parse-lt :
      (buf : List ℕ) {raw : RawHook} {p : ℕ}
      → parse_message from_utf8 from_str buf ≡ some raw
      → raw.parent_pid ≡ some p
      → p < 2 ^ 32
  unfolding parse_message
  parse-lt buf {raw} e h = elim (Option-cases (from_utf8 buf)) [
    | inl u ↦ ground arith
    | inr (text, u) ↦ elim (Option-cases (from_str (trim text))) [
      | inl m ↦ ground arith
      | inr (msg, m) ↦
          let same : hook_of_message msg ≡ raw = ground arith in message-lt msg (rw same h)
    ]
  ]

  -- However much a hook sends, at most one byte more than the limit of 1 MiB is kept. A longer
  -- message is refused, a message up to the limit is read as a whole, and the process id that it
  -- may name has 32 bits.
  pub read_raw_hook_lem :
      (bytes : List ℕ)
      → let r = read_raw_hook from_utf8 from_str (sent bytes) in
        (length (first_bytes (max_hook_message_bytes + 1) bytes) ≤ max_hook_message_bytes + 1)
        × (r ≡ (
            if ltb max_hook_message_bytes (length bytes)
            then none
            else parse_message from_utf8 from_str bytes))
        × ((raw : RawHook) (p : ℕ) → r ≡ some raw → raw.parent_pid ≡ some p → p < 2 ^ 32)
  unfolding read_raw_hook
  read_raw_hook_lem bytes =
      let n = max_hook_message_bytes + 1 in
      elim (Bool-cases (ltb max_hook_message_bytes (length bytes))) [
        | inl more ↦
            let full : length (first_bytes n bytes) ≡ n = first_bytes-full n bytes (ground arith) in
            rw (more, full) (omega arith, refl, λ raw p e h. ground arith)
        | inr fits ↦
            let short = ltb-false-le max_hook_message_bytes (length bytes) fits in
            let all : first_bytes n bytes ≡ bytes =
              first_bytes-all n bytes (omega (arith, short)) in
            rw (all, fits) (omega (arith, short), refl, λ raw p e h. parse-lt bytes e h)
      ]
