-- ===== src/Opencode/Usage.antt =====
-- Each usage event counts once, and its counts are added to the totals.
use claude_dbus.Prelude.{
  String, ◌≤◌, ◌≡◌, refl, ◌∙◌, List, [], ◌∷◌, ◌++◌, true, false, eq_iff, eq_refl, ltb, is_some, mem,
  mem-append, Distinct, snoc-Distinct, length, length-append, arith, Bool-cases, inl, inr,
}
use claude_dbus.Dict
use claude_dbus.Dict.{Dict}
use claude_dbus.Dict.Laws.{get-insert, get-remove, get-insert_self}
use claude_dbus.Session.Object.{SessionObject}
use claude_dbus.Opencode.{remember, forget_oldest, usage_events_max}

-- The set of remembered ids and their order agree, and there are at most 4096, each once.
pub record IsRemembered (s : SessionObject) : Type 0 where
  pub same :
      (id : String) → mem id s.opencode_usage_order ≡ Dict.contains_key s.opencode_usage_events id
  pub once : Distinct s.opencode_usage_order
  pub bounded : length s.opencode_usage_order ≤ usage_events_max

trimmed :
    (events : Dict (Unit {0})) (order : List String) (id : String)
    → ((j : String) → mem j order ≡ is_some (Dict.get events j))
    → mem id order ≡ false
    → usage_events_max ≤ length order
    → is_some (Dict.get (forget_oldest (order ++ id ∷ []) (Dict.insert events id tt)).0 id) ≡ true
trimmed events [] id same fresh full = absurd (omega arith)
trimmed events (old ∷ order) id same fresh full =
    ground (arith, get-remove (Dict.insert events id tt) old id, get-insert_self events id tt)

-- A new event is remembered.
pub remembers :
    (s : SessionObject) (id : String)
    → IsRemembered s
    → Dict.contains_key s.opencode_usage_events id ≡ false
    → Dict.contains_key (remember s id).opencode_usage_events id ≡ true
unfolding remember Dict.contains_key
remembers s id v fresh =
    elim (Bool-cases (ltb usage_events_max (length (s.opencode_usage_order ++ id ∷ [])))) [
      | inl more ↦ rw more (
          trimmed s.opencode_usage_events s.opencode_usage_order id v.same (v.same id ∙ fresh)
            (ground (arith, length-append s.opencode_usage_order (id ∷ []))))
      | inr fits ↦ rw (fits, get-insert_self s.opencode_usage_events id tt) refl
    ]

trimmed-IsRemembered :
    (s : SessionObject) (events : Dict (Unit {0})) (order : List String) (id : String)
    → ((j : String) → mem j order ≡ is_some (Dict.get events j))
    → Distinct order
    → mem id order ≡ false
    → length order ≡ usage_events_max
    → let t = forget_oldest (order ++ id ∷ []) (Dict.insert events id tt) in
      IsRemembered (record s { opencode_usage_events = t.0; opencode_usage_order = t.1 })
trimmed-IsRemembered s events [] id same once fresh full = absurd (omega arith)
trimmed-IsRemembered s events (old ∷ order) id same once fresh full = record {
  same = λ j.
      unfold Dict.contains_key in
      ground (
        arith,
        mem-append j order (id ∷ []),
        get-remove (Dict.insert events id tt) old j,
        get-insert events id j tt,
        eq_iff old j,
        eq_iff old id,
        eq_iff id j,
        eq_refl old,
        same j,
        same old,
        once.0,
      );
  once = snoc-Distinct id order (ground arith) once.1;
  bounded = omega (arith, length-append order (id ∷ []));
}

pub remember-IsRemembered :
    (s : SessionObject) (id : String)
    → IsRemembered s
    → Dict.contains_key s.opencode_usage_events id ≡ false
    → IsRemembered (remember s id)
unfolding remember
remember-IsRemembered s id v fresh =
    let order = s.opencode_usage_order in
    let unseen : mem id order ≡ false = v.same id ∙ fresh in
    elim (Bool-cases (ltb usage_events_max (length (order ++ id ∷ [])))) [
      | inl more ↦ rw more (
          trimmed-IsRemembered s s.opencode_usage_events order id
            (λ j. v.same j ∙ (unfold Dict.contains_key in refl)) v.once unseen
            (ground (arith, length-append order (id ∷ []), v.bounded)))
      | inr fits ↦ rw fits (record {
        same = λ j.
            unfold Dict.contains_key in
            ground (
              arith,
              mem-append j order (id ∷ []),
              get-insert s.opencode_usage_events id j tt,
              v.same j,
            );
        once = snoc-Distinct id order unseen v.once;
        bounded = ground arith;
      })
    ]
