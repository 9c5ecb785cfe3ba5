-- ===== src/Text.antt =====
-- The operations of Rust's `str` and `char` that the program calls, on native texts.
pub mod Laws
use Prim.Native.Char.{Char, code, char}
use Prim.Native.Nat.{Ordering, compare}
use Prim.Native.String.{◌++◌}
use claude_dbus.Prelude.{
  String, ℕ, zero, suc, ◌+◌, ◌≡◌, refl, Option, none, some, List, [], ◌∷◌, Bool, true, false, ◌&&◌,
  ◌||◌, not, ◌==◌, eqb, leb, if◌then◌else◌, is_some, map, arith,
}

abbrev pub single : Char → String
single c = String.◌∷◌ c String.[]

-- `char::is_whitespace`: the Unicode property White_Space.
abbrev pub is_whitespace : Char → Bool
is_whitespace c =
    let n = code c in
    (leb 9 n && leb n 13)
    || eqb n 32
    || eqb n 133
    || eqb n 160
    || eqb n 5760
    || (leb 8192 n && leb n 8202)
    || eqb n 8232
    || eqb n 8233
    || eqb n 8239
    || eqb n 8287
    || eqb n 12288

abbrev pub is_ascii_alphanumeric : Char → Bool
is_ascii_alphanumeric c =
    let n = code c in
    (leb b'a' n && leb n b'z') || (leb b'A' n && leb n b'Z') || (leb b'0' n && leb n b'9')

unfoldable pub trim_start : String → String
trim_start String.[] = ""
trim_start (String.◌∷◌ c s) =
    let rest = trim_start s in if is_whitespace c then rest else String.◌∷◌ c s

unfoldable pub trim_end : String → String
trim_end String.[] = ""
trim_end (String.◌∷◌ c s) =
    let rest = trim_end s in if rest == "" && is_whitespace c then "" else String.◌∷◌ c rest

unfoldable pub trim : String → String
unfolding trim_start trim_end
trim s = trim_end (trim_start s)

low_char : (n : ℕ) (o : Ordering) → compare n 55296 ≡ o → Char → Char
low_char n Ordering.lt e d = char n (rw e tt)
low_char n Ordering.eq e d = d
low_char n Ordering.gt e d = d

unfoldable pub lower_char : Char → Char
unfolding low_char
lower_char c = let n = code c in if leb b'A' n && leb n b'Z' then low_char (n + 32) _ refl c else c

unfoldable pub to_ascii_lowercase : String → String
unfolding lower_char
to_ascii_lowercase String.[] = ""
to_ascii_lowercase (String.◌∷◌ c s) = String.◌∷◌ (lower_char c) (to_ascii_lowercase s)

unfoldable pub eq_ignore_ascii_case : String → String → Bool
unfolding to_ascii_lowercase
eq_ignore_ascii_case s t = to_ascii_lowercase s == to_ascii_lowercase t

-- `str::starts_with` and `str::strip_prefix` with a text
unfoldable pub strip_prefix : String → String → Option String
strip_prefix s String.[] = some s
strip_prefix String.[] (String.◌∷◌ d t) = none
strip_prefix (String.◌∷◌ c s) (String.◌∷◌ d t) =
    let rest = strip_prefix s t in if eqb (code c) (code d) then rest else none

unfoldable pub starts_with : String → String → Bool
unfolding strip_prefix
starts_with s t = is_some (strip_prefix s t)

abbrev pub before : Char → Option (String × String) → Option (String × String)
before c none = none
before c (some (s, t)) = some (String.◌∷◌ c s, t)

-- `str::split_once` at a character, by its code
unfoldable pub split_once : String → ℕ → Option (String × String)
split_once String.[] n = none
split_once (String.◌∷◌ c s) n =
    let rest = before c (split_once s n) in if eqb (code c) n then some ("", s) else rest

-- `str::split_once` at a text
unfoldable pub split_at : String → String → Option (String × String)
unfolding strip_prefix
split_at String.[] t = elim (strip_prefix "" t) [ none ↦ none | some rest ↦ some ("", rest) ]
split_at (String.◌∷◌ c s) t =
    let later = before c (split_at s t) in
    elim (strip_prefix (String.◌∷◌ c s) t) [ none ↦ later | some rest ↦ some ("", rest) ]

-- `str::contains` with a text
unfoldable pub contains : String → String → Bool
unfolding split_at
contains s t = is_some (split_at s t)

-- `str::replace` of single characters by one text
unfoldable pub replace_chars : (Char → Bool) → String → String → String
replace_chars p to String.[] = ""
replace_chars p to (String.◌∷◌ c s) = (if p c then to else single c) ++ replace_chars p to s

abbrev pub add_to_line : Char → List String → List String
add_to_line c [] = single c ∷ []
add_to_line c (l ∷ ls) = String.◌∷◌ c l ∷ ls

-- The pieces between line feeds; a final line feed ends the last piece and opens no new one.
unfoldable pub pieces : String → List String
pieces String.[] = []
pieces (String.◌∷◌ c s) =
    let rest = pieces s in if eqb (code c) b'\n' then "" ∷ rest else add_to_line c rest

-- One carriage return before the line feed belongs to the line's end.
unfoldable pub strip_cr : String → String
strip_cr String.[] = ""
strip_cr (String.◌∷◌ c s) =
    let rest = strip_cr s in if s == "" && eqb (code c) 13 then "" else String.◌∷◌ c rest

abbrev pub ends_with_newline : String → Bool
ends_with_newline String.[] = false
ends_with_newline (String.◌∷◌ c s) =
    let rest = ends_with_newline s in if s == "" then eqb (code c) b'\n' else rest

-- The last line loses its carriage return only where a line feed follows it.
strip_lines : Bool → List String → List String
strip_lines ended [] = []
strip_lines ended (l ∷ []) = (if ended then strip_cr l else l) ∷ []
strip_lines ended (l ∷ m ∷ ls) = strip_cr l ∷ strip_lines ended (m ∷ ls)

-- `str::lines`
unfoldable pub lines : String → List String
unfolding pieces strip_cr strip_lines
lines s = strip_lines (ends_with_newline s) (pieces s)

-- `[..].join(sep)`
unfoldable pub join : String → List String → String
join sep [] = ""
join sep (x ∷ []) = x
join sep (x ∷ y ∷ xs) = x ++ sep ++ join sep (y ∷ xs)

-- A hexadecimal digit, for a number below 16.
abbrev pub nth : List String → ℕ → String
nth [] n = ""
nth (x ∷ xs) zero = x
nth (x ∷ xs) (suc n) = nth xs n

abbrev pub hex_digits : List String
hex_digits =
    "0" ∷ "1" ∷ "2" ∷ "3" ∷ "4" ∷ "5" ∷ "6" ∷ "7" ∷ "8" ∷ "9" ∷ "a" ∷ "b" ∷ "c" ∷ "d" ∷ "e" ∷ "f"
    ∷ []

unfoldable pub hex_digit : ℕ → String
hex_digit = nth hex_digits
