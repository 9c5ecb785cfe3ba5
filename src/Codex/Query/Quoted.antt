-- ===== src/Codex/Query/Quoted.antt =====
-- A session id stays inside its literal in the query.
use Prim.Native.Char.{Char, code}
use Prim.Native.String.{◌++◌}
use text.Mathlib.TextLemmas.{cons-append, nil-append, append_assoc}
use claude_dbus.Prelude.{
  String, ℕ, List, [], ◌∷◌, ◌≡◌, refl, ap, ◌∙◌, Option, none, some, Bool, true, false, eqb, eqb→eq,
  if◌then◌else◌, Bool-cases, inl, inr, arith,
}
use claude_dbus.Text.{single, replace_chars}
use claude_dbus.Codex.Query.{sqlite_string_literal}

abbrev pub codes : String → List ℕ
codes String.[] = []
codes (String.◌∷◌ c s) = code c ∷ codes s

abbrev pub after_code : ℕ → Option (List ℕ × List ℕ) → Option (List ℕ × List ℕ)
after_code n none = none
after_code n (some (text, rest)) = some (n ∷ text, rest)

-- What SQL reads after an opening quote, by the codes of characters: two quotes are one in the text,
-- and one alone ends it. The text, and what stands behind it. `quoted` says whether the last
-- character was a quote whose meaning is open.
pub read_literal : Bool → List ℕ → Option (List ℕ × List ℕ)
read_literal false [] = none
read_literal true [] = some ([], [])
read_literal false (n ∷ s) =
    let pending = read_literal true s in
    let inside = after_code n (read_literal false s) in if eqb n 39 then pending else inside
read_literal true (n ∷ s) =
    let inside = after_code n (read_literal false s) in
    if eqb n 39 then inside else some ([], n ∷ s)

doubled : (t : String) → codes ("''" ++ t) ≡ 39 ∷ 39 ∷ codes t
doubled t = rw (cons-append _ "'" t, cons-append _ "" t, nil-append t) refl

alone : (c : Char) (t : String) → codes (single c ++ t) ≡ code c ∷ codes t
alone c t = rw (cons-append c "" t, nil-append t) refl

-- The literal by its codes.
quoted_code : (n : ℕ) → List ℕ → List ℕ
quoted_code n rest = if eqb n 39 then 39 ∷ 39 ∷ rest else n ∷ rest

codes-literal :
    (c : Char) (s t : String)
    → codes (sqlite_string_literal (String.◌∷◌ c s) ++ t)
      ≡ quoted_code (code c) (codes (sqlite_string_literal s ++ t))
unfolding sqlite_string_literal replace_chars quoted_code
codes-literal c s t = elim (Bool-cases (eqb (code c) 39)) [
  | inl e ↦ rw (e, append_assoc, doubled) refl
  | inr e ↦ rw (e, append_assoc, alone) refl
]

literal-nil : codes (sqlite_string_literal "" ++ "';") ≡ codes "';"
unfolding sqlite_string_literal replace_chars
literal-nil = ap codes (nil-append "';")

read_quoted :
    (n : ℕ) (rest : List ℕ)
    → read_literal false (quoted_code n rest) ≡ after_code n (read_literal false rest)
unfolding read_literal quoted_code
read_quoted n rest = elim (Bool-cases (eqb n 39)) [
  | inl e ↦ rw (eqb→eq n 39 e) refl
  | inr e ↦ ground arith
]

-- SQL reads the literal in the query as the session id, whatever the id holds, and goes on behind
-- it with the rest of the query: no id ends the literal early.
pub read-sqlite_string_literal :
    (session_id : String)
    → read_literal false (codes (sqlite_string_literal session_id ++ "';"))
      ≡ some (codes session_id, codes ";")
unfolding read_literal
read-sqlite_string_literal String.[] = rw literal-nil refl
read-sqlite_string_literal (String.◌∷◌ c s) =
    ap (read_literal false) (codes-literal c s "';")
    ∙ read_quoted (code c) (codes (sqlite_string_literal s ++ "';"))
    ∙ ap (after_code (code c)) (read-sqlite_string_literal s)
