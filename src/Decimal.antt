-- ===== src/Decimal.antt =====
-- `format!("{n}")` and `str::parse::<u32>` of unsigned numbers.
pub mod Roundtrip
use Prim.Native.Char.{Char, code}
use Prim.Native.String.{◌++◌}
use claude_dbus.Prelude.{
  String, ℕ, zero, suc, ◌+◌, ◌-◌, ◌*◌, ◌/◌, ◌%◌, Option, none, some, Bool, ◌&&◌, ◌==◌, eqb, ltb,
  leb, if◌then◌else◌, ◌>>=◌,
}
use claude_dbus.Text.{hex_digit}

-- The digits of `n` before `acc`; fuel for as many digits as `n` has is enough.
unfoldable pub print_loop : ℕ → ℕ → String → String
print_loop zero n acc = acc
print_loop (suc f) n acc =
    let acc' = hex_digit (n % 10) ++ acc in
    let rest = print_loop f (n / 10) acc' in if ltb n 10 then acc' else rest

-- A number has no more digits than its successor's value.
unfoldable pub print : ℕ → String
unfolding print_loop
print n = print_loop (suc n) n ""

-- The loop of `from_str_radix`: each digit, and `checked_mul` and `checked_add` against the limit.
unfoldable pub parse_loop : ℕ → ℕ → String → Option ℕ
parse_loop limit acc String.[] = some acc
parse_loop limit acc (String.◌∷◌ c s) =
    let d = code c - b'0' in
    let next = acc * 10 + d in
    let rest = parse_loop limit next s in
    if leb b'0' (code c) && leb (code c) b'9' && ltb next limit then rest else none

-- A leading plus sign is accepted, and no text without digits.
abbrev pub signless : String → String
signless String.[] = ""
signless (String.◌∷◌ c s) = if eqb (code c) b'+' then s else String.◌∷◌ c s

unfoldable pub parse : ℕ → String → Option ℕ
unfolding parse_loop
parse limit s = let digits = signless s in if digits == "" then none else parse_loop limit 0 digits
