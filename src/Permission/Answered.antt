-- ===== src/Permission/Answered.antt =====
-- Every option that a permission prompt offers has a reply.
use Prim.Native.String.{◌++◌}
use text.Mathlib.TextLemmas.{cons-append, nil-append, append_assoc, concat-ne-nil}
use claude_dbus.Prelude.{
  String, List, [], ◌∷◌, Option, none, some, Bool, true, false, ◌||◌, ◌==◌, ==_ne, ◌≡◌, refl, sym,
  ap, ◌∙◌, is_some, filter_map, unwrap_or, All, arith, Bool-cases, inl, inr, ◌>>=◌, ◌>>◌, guard,
}
use claude_dbus.Text.{
  trim, trim_start, trim_end, lower_char, to_ascii_lowercase, starts_with, strip_prefix,
  eq_ignore_ascii_case,
}
use claude_dbus.Json.{Value, as_str, as_array, ◌at◌}
use claude_dbus.Permission.{
  permission_suggestion_label, allow_label, always_allow_options, or_push, with_last,
  build_permission_options, has_persistable_always_patterns, prefix_rule, is_allow_answer,
  is_always_allow_answer, is_deny_answer, permission_response, gemini_permission_response,
  opencode_permission_response, claude_permission_response,
}

-- Text that ends in a parenthesis has nothing to trim at its end.
trim_end-closed : (s : String) → (trim_end (s ++ ")") ≡ s ++ ")") × ((s ++ ")" == "") ≡ false)
unfolding trim_end
trim_end-closed String.[] = (rw (nil-append ")") refl, refl)
trim_end-closed (String.◌∷◌ c s) =
    let (same, full) = trim_end-closed s in
    (
      rw (cons-append c s ")", same, full) refl,
      ==_ne (String.◌∷◌ c s ++ ")") "" (concat-ne-nil ")" (String.◌∷◌ c s)),
    )

-- What a reply needs of an answer.
abbrev is_known : String → Bool
is_known a = is_always_allow_answer a || is_allow_answer a || is_deny_answer a

lower-append :
    (s t : String) → to_ascii_lowercase (s ++ t) ≡ to_ascii_lowercase s ++ to_ascii_lowercase t
unfolding to_ascii_lowercase
lower-append String.[] t = rw (nil-append t) (sym (nil-append (to_ascii_lowercase t)))
lower-append (String.◌∷◌ c s) t =
    rw
      (
        cons-append c s t,
        lower-append s t,
        cons-append (lower_char c) (to_ascii_lowercase s) (to_ascii_lowercase t),
      )
      refl

starts_with-append : (s t u : String) → starts_with (s ++ t ++ u) s ≡ true
unfolding starts_with strip_prefix
starts_with-append String.[] t u = refl
starts_with-append (String.◌∷◌ c s) t u =
    rw (cons-append c s (t ++ u)) (ground (arith, starts_with-append s t u))

-- The label of a suggestion with a destination.
abbrev label : String → String
label dest = "Always allow (" ++ dest ++ ")"

label_trimmed : (dest : String) → trim (label dest) ≡ label dest
unfolding trim trim_start
label_trimmed dest =
    let rest = "lways allow (" ++ dest ++ ")" in
    let front : trim_start (label dest) ≡ label dest =
      rw (cons-append "A" "lways allow (" (dest ++ ")")) refl in
    let whole : label dest ≡ ("Always allow (" ++ dest) ++ ")" =
      sym (append_assoc "Always allow (" dest ")") in
    rw (front, whole) (trim_end-closed ("Always allow (" ++ dest)).0

label_known : (dest : String) → is_always_allow_answer (label dest) ≡ true
unfolding is_always_allow_answer
label_known dest =
    let tail = to_ascii_lowercase (dest ++ ")") in
    let low : to_ascii_lowercase "Always allow (" ≡ "always allow " ++ "(" =
      unfold to_ascii_lowercase lower_char in refl in
    let e : to_ascii_lowercase (label dest) ≡ "always allow " ++ "(" ++ tail =
      lower-append "Always allow (" (dest ++ ")")
      ∙ ap (λ (t : String). t ++ tail) low
      ∙ append_assoc "always allow " "(" tail in
    let yes : starts_with (to_ascii_lowercase (label dest)) "always allow " ≡ true =
      ap (λ (t : String). starts_with t "always allow ") e
      ∙ starts_with-append "always allow " "(" tail in
    ground arith

answered :
    (to_string : Value → String) (agent : String) (v : Value) (a : String)
    → trim a ≡ a
    → is_known a ≡ true
    → is_some (permission_response to_string agent v a) ≡ true
unfolding permission_response gemini_permission_response opencode_permission_response
    claude_permission_response
answered to_string agent v a same known = rw (same, same) (ground arith)

-- An option with a reply for every agent.
abbrev pub HasReply : (Value → String) → String → Value → String → Type 0
HasReply to_string agent v option = is_some (permission_response to_string agent v option) ≡ true

module _ (to_string : Value → String) (agent : String) (v : Value) where
  allow-HasReply : HasReply to_string agent v "Allow"
  allow-HasReply = answered to_string agent v "Allow" (unfold trim trim_start trim_end in refl) (
      unfold is_always_allow_answer is_allow_answer is_deny_answer eq_ignore_ascii_case
        to_ascii_lowercase lower_char starts_with strip_prefix in
      refl)

  always-HasReply : HasReply to_string agent v "Always allow"
  always-HasReply =
      answered to_string agent v "Always allow" (unfold trim trim_start trim_end in refl) (
        unfold is_always_allow_answer is_allow_answer is_deny_answer eq_ignore_ascii_case
          to_ascii_lowercase lower_char starts_with strip_prefix in
        refl)

  deny-HasReply : HasReply to_string agent v "Deny"
  deny-HasReply = answered to_string agent v "Deny" (unfold trim trim_start trim_end in refl) (
      unfold is_always_allow_answer is_allow_answer is_deny_answer eq_ignore_ascii_case
        to_ascii_lowercase lower_char starts_with strip_prefix in
      refl)

  label-HasReply : (s : Value) → HasReply to_string agent v (permission_suggestion_label s)
  unfolding permission_suggestion_label
  label-HasReply s =
      let dest = unwrap_or (as_str (s at "destination")) "" in
      let known = label_known dest in
      elim (Bool-cases (dest == "")) [
        | inl e ↦ rw e always-HasReply
        | inr e ↦ rw e (answered to_string agent v (label dest) (label_trimmed dest) (ground arith))
      ]

  allow_labels-HasReply :
      (ss : List Value) → All (HasReply to_string agent v) (filter_map allow_label ss)
  allow_labels-HasReply [] = tt
  allow_labels-HasReply (s ∷ ss) = head (allow_label s) refl (allow_labels-HasReply ss)
    where
      head :
          (o : Option String)
          → allow_label s ≡ o
          → All (HasReply to_string agent v) (filter_map allow_label ss)
          → All
              (HasReply to_string agent v)
              (elim o [ none ↦ filter_map allow_label ss | some b ↦ b ∷ filter_map allow_label ss ])
      head none e rest = rest
      head (some b) e rest =
          let same : permission_suggestion_label s ≡ b = given (as_str (s at "behavior")) e in
          (rw (← same) (label-HasReply s), rest)
        where
          given :
              (o : Option String)
              → (o >>= λ behavior.
                  guard (behavior == "allow") >> some (permission_suggestion_label s))
                ≡ some b
              → permission_suggestion_label s ≡ b
          given none h = absurd (ground arith)
          given (some t) h = elim (Bool-cases (t == "allow")) [
            | inl allow ↦ ground arith
            | inr other ↦ absurd (ground arith)
          ]

  or_push-HasReply :
      (b : Bool) (options : List String)
      → All (HasReply to_string agent v) options
      → All (HasReply to_string agent v) (or_push b options)
  or_push-HasReply b [] h = elim (Bool-cases b) [
    | inl e ↦ rw e (always-HasReply, tt)
    | inr e ↦ rw e tt
  ]
  or_push-HasReply b (o ∷ os) h = h

  with_last-HasReply :
      (options : List String)
      → All (HasReply to_string agent v) options
      → All (HasReply to_string agent v) (with_last options "Deny")
  with_last-HasReply [] h = (deny-HasReply, tt)
  with_last-HasReply (o ∷ os) h = (h.0, with_last-HasReply os h.1)

  -- Whatever the agent and the hook, every option that the prompt offers, given as the answer, has a
  -- reply to the agent.
  pub options-HasReply : All (HasReply to_string agent v) (build_permission_options v)
  unfolding build_permission_options always_allow_options
  options-HasReply = (
    allow-HasReply,
    with_last-HasReply _ (
        or_push-HasReply (has_persistable_always_patterns v) _ (
          or_push-HasReply (is_some (prefix_rule v)) _
            (allow_labels-HasReply (unwrap_or (as_array (v at "permission_suggestions")) [])))),
  )
