-- ===== src/Permission/Offers.antt =====
-- The options of an elicitation: which one is added, and where.
use claude_dbus.Prelude.{
  String, ◌≡◌, ◌⊎◌, refl, ap, List, [], ◌∷◌, ◌++◌, Bool, true, false, not, ◌&&◌, inl, inr,
  Bool-cases, all, arith,
}
use claude_dbus.Json.{Value}
use claude_dbus.Text.{eq_ignore_ascii_case, trim}
use claude_dbus.Permission.Elicitation.{
  has_allow_option, has_always_allow_option, is_decline_option, insert_before_decline,
  offered_options, supports_always_allow, with_always, build_elicitation_options,
}

-- The list does not go on with an option that does not decline.
abbrev pub StartsDeclining : List String → Type 0
StartsDeclining [] = Unit
StartsDeclining (x ∷ xs) = is_decline_option x ≡ true

-- The new option stands before the first one that declines, and the others keep their order.
pub record IsInserted (new : String) (options options' : List String) : Type 0 where
  pub earlier : List String
  pub later : List String
  pub before : options ≡ earlier ++ later
  pub after : options' ≡ earlier ++ (new ∷ later)
  pub accepting : all (λ x. not (is_decline_option x)) earlier ≡ true
  pub declining : StartsDeclining later

insert_before_decline-IsInserted :
    (new : String) (options : List String)
    → IsInserted new options (insert_before_decline new options)
unfolding insert_before_decline
insert_before_decline-IsInserted new [] = record {
  earlier = [];
  later = [];
  before = refl;
  after = refl;
  accepting = refl;
  declining = tt;
}
insert_before_decline-IsInserted new (x ∷ options) = elim (Bool-cases (is_decline_option x)) [
  | inl e ↦ rw e (record {
    earlier = [];
    later = x ∷ options;
    before = refl;
    after = refl;
    accepting = refl;
    declining = e;
  })
  | inr e ↦
      let i = insert_before_decline-IsInserted new options in
      rw e (record {
        earlier = x ∷ i.earlier;
        later = i.later;
        before = ap (◌∷◌ x) i.before;
        after = ap (◌∷◌ x) i.after;
        accepting = rw (e, i.accepting) refl;
        declining = i.declining;
      })
]

has_always-append :
    (earlier later : List String)
    → has_always_allow_option (earlier ++ ("Always allow" ∷ later)) ≡ true
unfolding has_always_allow_option eq_ignore_ascii_case trim
has_always-append [] later = refl
has_always-append (x ∷ earlier) later = ground (arith, has_always-append earlier later)

-- Always allowing is to be offered.
abbrev pub is_wanted : Bool → List String → Bool
is_wanted supported options =
    supported && has_allow_option options && not (has_always_allow_option options)

or_unmet : (supported allow : Bool) → (supported && allow && false) ≡ false
or_unmet supported allow = ground arith

-- The same for any list of options.
with_always_lem :
    (supported : Bool) (options : List String)
    → let result = with_always supported options in
      (((is_wanted supported options ≡ true) × IsInserted "Always allow" options result)
        ⊎ ((is_wanted supported options ≡ false) × (result ≡ options)))
      × (with_always supported result ≡ result)
with_always_lem supported options = elim (Bool-cases (is_wanted supported options)) [
  | inl e ↦
      let i = insert_before_decline-IsInserted "Always allow" options in
      let now : has_always_allow_option (insert_before_decline "Always allow" options) ≡ true =
        rw i.after (has_always-append i.earlier i.later) in
      rw e (
        inl (refl, i),
        rw
            (
              now,
              or_unmet supported (has_allow_option (insert_before_decline "Always allow" options)),
            )
            refl,
      )
  | inr e ↦ rw e (inr (refl, refl), rw e refl)
]

-- Exactly where the client supports it, some option allows and none always allows yet, always
-- allowing is added to the offered options: once, before the first option that declines, the others
-- keeping their order. Everywhere else the options are those offered. Adding it again would change
-- nothing.
pub build_elicitation_options_lem :
    (v : Value)
    → (((is_wanted (supports_always_allow v) (offered_options v) ≡ true)
          × IsInserted "Always allow" (offered_options v) (build_elicitation_options v))
        ⊎ ((is_wanted (supports_always_allow v) (offered_options v) ≡ false)
            × (build_elicitation_options v ≡ offered_options v)))
      × (with_always (supports_always_allow v) (build_elicitation_options v)
          ≡ build_elicitation_options v)
unfolding build_elicitation_options
build_elicitation_options_lem v = with_always_lem (supports_always_allow v) (offered_options v)
