-- ===== src/Codex/Search/Newest.antt =====
-- Which file the search of the sessions finds.
use claude_dbus.Prelude.{
  String, ℕ, ◌≡◌, refl, sym, subst, List, [], ◌∷◌, Option, none, some, true, false, ◌==◌, eq_iff,
  mem, if◌then◌else◌, arith, Bool-cases, inl, inr,
}
use claude_dbus.Codex.Search.{Folder, collect, not_after, newest_of, newest, searched}
use claude_dbus.Codex.Search.Found.{IsRolloutOf, collect-finds, collect-only}

not_after_refl : (t : Option ℕ) → not_after t t ≡ true
not_after_refl none = refl
not_after_refl (some t) = ground arith

not_after_trans :
    (t u v : Option ℕ) → not_after t u ≡ true → not_after u v ≡ true → not_after t v ≡ true
not_after_trans none u v h g = refl
not_after_trans (some t) none v h g = absurd (cc h)
not_after_trans (some t) (some u) none h g = absurd (cc g)
not_after_trans (some t) (some u) (some v) h g = ground arith

not_after-total : (t u : Option ℕ) → not_after t u ≡ false → not_after u t ≡ true
not_after-total none u h = absurd (cc h)
not_after-total (some t) none h = refl
not_after-total (some t) (some u) h = ground arith

-- The one kept was not modified before any other.
newest-latest :
    (modified : String → Option ℕ) (path : String) (rest : List String) (q : String)
    → mem q (path ∷ rest) ≡ true
    → not_after (modified q) (modified (newest_of modified path rest)) ≡ true
unfolding newest_of
newest-latest modified path [] q m =
    let same : path ≡ q = (eq_iff path q).0 (ground arith) in rw same (not_after_refl (modified q))
newest-latest modified path (next ∷ rest) q m =
    elim (Bool-cases (not_after (modified path) (modified next))) [
      | inl up ↦ rw up (elim (Bool-cases (path == q)) [
        | inl first ↦
            let same : path ≡ q = (eq_iff path q).0 first in
            not_after_trans (modified q) (modified next) _ (rw same at up)
              (newest-latest modified next rest next (ground (arith, eq_iff next next)))
        | inr apart ↦ newest-latest modified next rest q (ground arith)
      ])
      | inr down ↦ rw down (elim (Bool-cases (next == q)) [
        | inl second ↦
            let same : next ≡ q = (eq_iff next q).0 second in
            not_after_trans (modified q) (modified path) _
              (not_after-total (modified path) (modified q) (rw same at down))
              (newest-latest modified path rest path (ground (arith, eq_iff path path)))
        | inr apart ↦ newest-latest modified path rest q (ground arith)
      ])
    ]

mem-later : (p q : String) (rest : List String) → mem p rest ≡ true → mem p (q ∷ rest) ≡ true
mem-later p q rest h = ground arith

mem-between :
    (p path next : String) (rest : List String)
    → mem p (path ∷ rest) ≡ true
    → mem p (path ∷ next ∷ rest) ≡ true
mem-between p path next rest h = ground arith

newest-step :
    (modified : String → Option ℕ) (path next : String) (rest : List String)
    → newest_of modified path (next ∷ rest)
      ≡ newest_of modified (if not_after (modified path) (modified next) then next else path) rest
unfolding newest_of
newest-step modified path next rest = refl

newest-nil : (modified : String → Option ℕ) (path : String) → newest_of modified path [] ≡ path
unfolding newest_of
newest-nil modified path = refl

newest-there :
    (modified : String → Option ℕ) (path : String) (rest : List String)
    → mem (newest_of modified path rest) (path ∷ rest) ≡ true
newest-there modified path [] = rw newest-nil (ground (arith, eq_iff path path))
newest-there modified path (next ∷ rest) =
    let all = path ∷ next ∷ rest in
    let step = newest-step modified path next rest in
    elim (Bool-cases (not_after (modified path) (modified next))) [
      | inl up ↦
          subst (λ p. mem p all ≡ true) (sym (rw up at step))
            (mem-later (newest_of modified next rest) path (next ∷ rest)
              (newest-there modified next rest))
      | inr down ↦
          subst (λ p. mem p all ≡ true) (sym (rw down at step))
            (mem-between (newest_of modified path rest) path next rest
              (newest-there modified path rest))
    ]

-- What a search answers.
pub data Answer (modified : String → Option ℕ) (session_id dir : String) (sessions : Folder)
    : Option String → Type 0 where
  missing :
      {found : Option String}
      → found ≡ none
      → ((path : String) → IsRolloutOf session_id dir sessions path → ⊥)
      → Answer modified session_id dir sessions found
  present :
      {found : Option String} (path : String)
      → found ≡ some path
      → IsRolloutOf session_id dir sessions path
      → ((q : String)
          → IsRolloutOf session_id dir sessions q
          → not_after (modified q) (modified path) ≡ true)
      → Answer modified session_id dir sessions found

-- The search answers with a file that lies below the directory of sessions at any depth, whose name
-- holds the session id and ends in `.jsonl`, and no such file was modified later; and it answers
-- nothing only where there is no such file.
pub searched_lem :
    (modified : String → Option ℕ) (dir : String) (sessions : Folder) (session_id : String)
    → Answer modified session_id dir sessions (searched modified dir sessions session_id)
unfolding searched
searched_lem modified dir sessions session_id = go (collect session_id dir sessions []) refl
  where
    go :
        (found : List String)
        → collect session_id dir sessions [] ≡ found
        → Answer modified session_id dir sessions (newest modified found)
    go [] e = missing refl λ path r.
        let m = collect-finds session_id dir sessions [] path r.name r.named r.lies in
        let bad : mem path [] ≡ true = rw e at m in cc bad
    go (path ∷ rest) e =
        let top = newest_of modified path rest in
        present top refl
          (elim (collect-only session_id dir sessions [] top
            (rw e (newest-there modified path rest))) [
              | inl bad ↦ absurd (cc bad)
              | inr (name, l, r) ↦ record { name = name; lies = l; named = r }
            ])
          (λ q r.
            newest-latest modified path rest q
              (rw e at (collect-finds session_id dir sessions [] q r.name r.named r.lies)))
