-- ===== src/Decimal/Roundtrip.antt =====
-- Reading a printed number gives the number, so that no two numbers are printed alike.
use Prim.Native.String.{◌++◌}
use text.Mathlib.TextLemmas.{cons-append, nil-append}
use claude_dbus.Prelude.{
  String, ℕ, zero, suc, ◌+◌, ◌*◌, ◌/◌, ◌%◌, ◌<◌, ◌≡◌, refl, ap, ◌∙◌, none, some, false, ltb,
  if◌then◌else◌, Bool-cases, inl, inr, arith,
}
use claude_dbus.Text.{hex_digit}
use claude_dbus.Decimal.{print_loop, print, parse_loop}

-- Reading one digit.
read_digit :
    (limit acc d : ℕ) (s : String)
    → d < 10
    → parse_loop limit acc (hex_digit d ++ s)
      ≡ (if ltb (acc * 10 + d) limit then parse_loop limit (acc * 10 + d) s else none)
unfolding parse_loop hex_digit
read_digit limit acc zero s h = rw (cons-append _ "" s, nil-append s) refl
read_digit limit acc (suc zero) s h = rw (cons-append _ "" s, nil-append s) refl
read_digit limit acc (suc (suc zero)) s h = rw (cons-append _ "" s, nil-append s) refl
read_digit limit acc (suc (suc (suc zero))) s h = rw (cons-append _ "" s, nil-append s) refl
read_digit limit acc (suc (suc (suc (suc zero)))) s h = rw (cons-append _ "" s, nil-append s) refl
read_digit limit acc (suc (suc (suc (suc (suc zero))))) s h =
    rw (cons-append _ "" s, nil-append s) refl
read_digit limit acc (suc (suc (suc (suc (suc (suc zero)))))) s h =
    rw (cons-append _ "" s, nil-append s) refl
read_digit limit acc (suc (suc (suc (suc (suc (suc (suc zero))))))) s h =
    rw (cons-append _ "" s, nil-append s) refl
read_digit limit acc (suc (suc (suc (suc (suc (suc (suc (suc zero)))))))) s h =
    rw (cons-append _ "" s, nil-append s) refl
read_digit limit acc (suc (suc (suc (suc (suc (suc (suc (suc (suc zero))))))))) s h =
    rw (cons-append _ "" s, nil-append s) refl
read_digit limit acc (suc (suc (suc (suc (suc (suc (suc (suc (suc (suc d)))))))))) s h =
    absurd (omega arith)

-- The digits of a number, read before what follows them.
read_loop :
    (f limit n : ℕ) (acc : String)
    → n < f
    → parse_loop limit 0 (print_loop f n acc)
      ≡ (if ltb n limit then parse_loop limit n acc else none)
unfolding print_loop
read_loop zero limit n acc h = absurd (omega arith)
read_loop (suc f) limit n acc h = elim (Bool-cases (ltb n 10)) [
  | inl e ↦
      let one : n % 10 ≡ n = ground arith in
      let start : 0 * 10 + n ≡ n = omega arith in
      rw (e, one)
        (read_digit limit 0 n acc (ground arith)
          ∙ ap (λ k. if ltb k limit then parse_loop limit k acc else none) start)
  | inr e ↦
      let rest = hex_digit (n % 10) ++ acc in
      let whole : n / 10 * 10 + n % 10 ≡ n = omega arith in
      let digit = read_digit limit (n / 10) (n % 10) acc (omega arith) in
      rw e (
        read_loop f limit (n / 10) rest (ground arith) ∙ elim (Bool-cases (ltb (n / 10) limit)) [
          | inl g ↦
              rw g (digit ∙ ap (λ k. if ltb k limit then parse_loop limit k acc else none) whole)
          | inr g ↦ let far : ltb n limit ≡ false = ground arith in rw (g, far) refl
        ])
]

pub print_injective : (m n : ℕ) → print m ≡ print n → m ≡ n
unfolding print parse_loop
print_injective m n e =
    let limit = suc (m + n) in
    let hm : parse_loop limit 0 (print m) ≡ some m =
      read_loop (suc m) limit m "" (omega arith) ∙ ground arith in
    let hn : parse_loop limit 0 (print n) ≡ some n =
      read_loop (suc n) limit n "" (omega arith) ∙ ground arith in
    let same : parse_loop limit 0 (print m) ≡ parse_loop limit 0 (print n) =
      ap (parse_loop limit 0) e in
    cc (hm, hn, same)
