-- ===== src/Core/Path/Valid.antt =====
-- Every session path is a D-Bus object path, so its construction does not panic; and the escape
-- that makes it so is not injective.
use Prim.Native.Char.{Char, code}
use Prim.Native.String.{◌++◌}
use text.Mathlib.TextLemmas.{cons-append, nil-append, append-nil}
use claude_dbus.Prelude.{
  String, Option, none, some, List, [], ◌∷◌, all, ℕ, zero, suc, ◌/◌, ◌%◌, ◌≡◌, ◌≢◌, refl, sym, ap,
  ◌∙◌, Bool, true, false, not, ◌&&◌, ◌==◌, eq_iff, ==_ne, eqb, ltb, if◌then◌else◌, arith,
  Bool-cases, inl, inr,
}
use claude_dbus.Text.{hex_digit, nth, hex_digits}
use claude_dbus.Text.Laws.{all_chars, all_chars-append}
use claude_dbus.Core.Path.{
  hex_loop, is_safe_char, escape_char, escape, safe_path_segment, session_path,
}

-- The D-Bus rule: a path is `/` followed by elements of `[A-Za-z0-9_]` that are not empty, with one
-- `/` between two elements. `opened` says that an element has just been opened.
abbrev pub elements : Bool → String → Bool
elements opened String.[] = not opened
elements opened (String.◌∷◌ c s) =
    let inside = is_safe_char c && elements false s in
    let next = not opened && elements true s in if eqb (code c) b'/' then next else inside

abbrev pub is_object_path : String → Bool
is_object_path String.[] = false
is_object_path (String.◌∷◌ c s) = eqb (code c) b'/' && elements true s

nth-safe :
    (xs : List String) (n : ℕ)
    → all (all_chars is_safe_char) xs ≡ true
    → all_chars is_safe_char (nth xs n) ≡ true
nth-safe [] n h = refl
nth-safe (x ∷ xs) zero h = ground arith
nth-safe (x ∷ xs) (suc n) h = nth-safe xs n (ground arith)

hex_digit-safe : (n : ℕ) → all_chars is_safe_char (hex_digit n) ≡ true
unfolding hex_digit
hex_digit-safe n = nth-safe hex_digits n refl

hex_loop-safe :
    (f n : ℕ) (acc : String)
    → all_chars is_safe_char acc ≡ true
    → all_chars is_safe_char (hex_loop f n acc) ≡ true
unfolding hex_loop
hex_loop-safe zero n acc h = h
hex_loop-safe (suc f) n acc h =
    let acc' = hex_digit (n % 16) ++ acc in
    let h' : all_chars is_safe_char acc' ≡ true =
      rw (all_chars-append is_safe_char (hex_digit (n % 16)) acc, hex_digit-safe (n % 16), h)
        refl in
    elim (Bool-cases (ltb n 16)) [
      | inl e ↦ rw e h'
      | inr e ↦ rw e (hex_loop-safe f (n / 16) acc' h')
    ]

escape_char-safe : (c : Char) → all_chars is_safe_char (escape_char c) ≡ true
unfolding escape_char
escape_char-safe c = elim (Bool-cases (is_safe_char c)) [
  | inl e ↦ rw e (rw e refl)
  | inr e ↦
      rw
        (
          e,
          all_chars-append is_safe_char "_",
          all_chars-append is_safe_char (hex_loop 8 (code c) "") "_",
          hex_loop-safe 8 (code c) "" refl,
        )
        refl
]

escape-safe : (s : String) → all_chars is_safe_char (escape s) ≡ true
unfolding escape
escape-safe String.[] = refl
escape-safe (String.◌∷◌ c s) =
    rw (all_chars-append is_safe_char (escape_char c) (escape s), escape_char-safe c, escape-safe s)
      refl

unknown_safe : all_chars is_safe_char "unknown" ≡ true
unknown_safe = refl

unknown-ne-nil : ◌≢◌ {A = String} "unknown" ""
unknown-ne-nil = ground (arith, eq_iff "unknown" "")

pub segment-safe : (s : String) → all_chars is_safe_char (safe_path_segment s) ≡ true
unfolding safe_path_segment
segment-safe s = elim (Bool-cases (escape s == "")) [
  | inl e ↦ rw e unknown_safe
  | inr e ↦ rw e (escape-safe s)
]

segment-ne-nil : (s : String) → safe_path_segment s ≢ ""
unfolding safe_path_segment
segment-ne-nil s h = elim (Bool-cases (escape s == "")) [
  | inl e ↦ unknown-ne-nil (rw e at h)
  | inr e ↦ let same : escape s ≡ "" = rw e at h in cc (e, (eq_iff (escape s) "").1 same)
]

-- The state in which the rule is after a text that keeps it.
abbrev scan : Bool → String → Option Bool
scan opened String.[] = some opened
scan opened (String.◌∷◌ c s) =
    let inside = if is_safe_char c then scan false s else none in
    let next = if opened then none else scan true s in if eqb (code c) b'/' then next else inside

abbrev goes_on : Option Bool → String → Bool
goes_on none t = false
goes_on (some opened) t = elements opened t

elements-append :
    (opened : Bool) (s t : String) → elements opened (s ++ t) ≡ goes_on (scan opened s) t
elements-append opened String.[] t = rw (nil-append t) refl
elements-append true (String.◌∷◌ c s) t =
    rw (cons-append c s t) (ground (arith, elements-append false s t, elements-append true s t))
elements-append false (String.◌∷◌ c s) t =
    rw (cons-append c s t) (ground (arith, elements-append false s t, elements-append true s t))

scan-safe : (s : String) → all_chars is_safe_char s ≡ true → scan false s ≡ some false
scan-safe String.[] h = refl
scan-safe (String.◌∷◌ c s) h = ground (arith, scan-safe s)

-- An element that is not empty is read up to what follows it.
element-safe : (s : String) → all_chars is_safe_char s ≡ true → s ≢ "" → scan true s ≡ some false
element-safe String.[] h ne = absurd (ne refl)
element-safe (String.◌∷◌ c s) h ne = ground (arith, scan-safe s)

segment_read : (v t : String) → elements true (safe_path_segment v ++ t) ≡ elements false t
segment_read v t =
    elements-append true (safe_path_segment v) t
    ∙ ap (λ (o : Option Bool). goes_on o t)
        (element-safe (safe_path_segment v) (segment-safe v) (segment-ne-nil v))

slash_read : (t : String) → elements false ("/" ++ t) ≡ elements true t
slash_read t = elements-append false "/" t

sessions_read : (t : String) → elements false ("/sessions/" ++ t) ≡ elements true t
sessions_read t = elements-append false "/sessions/" t

-- Whatever the agent and the session are called, the path of the session is a D-Bus object path.
pub session_path_valid :
    (agent_name session_id : String) → is_object_path (session_path agent_name session_id) ≡ true
unfolding session_path
session_path_valid a s =
    let rest = "/sessions/" ++ safe_path_segment a ++ "/" ++ safe_path_segment s in
    rw (cons-append "/" "io/github/AgentDBus" rest) (
      elements-append true "io/github/AgentDBus" rest
      ∙ sessions_read (safe_path_segment a ++ "/" ++ safe_path_segment s)
      ∙ segment_read a ("/" ++ safe_path_segment s)
      ∙ slash_read (safe_path_segment s)
      ∙ ap (elements true) (sym (append-nil (safe_path_segment s)))
      ∙ segment_read s "")

escape_safe_text : (s : String) → all_chars is_safe_char s ≡ true → escape s ≡ s
unfolding escape escape_char
escape_safe_text String.[] h = refl
escape_safe_text (String.◌∷◌ c s) h =
    let safe : is_safe_char c ≡ true = ground arith in
    let rest : escape s ≡ s = escape_safe_text s (ground arith) in
    rw (safe, rest, cons-append c "" s, nil-append s) refl

-- Escaping a name again changes nothing. So a name with an unsafe character shares its path with
-- the name that is its escape.
pub segment_idem : (s : String) → safe_path_segment (safe_path_segment s) ≡ safe_path_segment s
segment_idem s =
    let safe = safe_path_segment s in
    let same : escape safe ≡ safe = escape_safe_text safe (segment-safe s) in
    unfold safe_path_segment in rw (same, ==_ne safe "" (segment-ne-nil s)) refl
