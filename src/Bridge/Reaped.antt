-- ===== src/Bridge/Reaped.antt =====
-- What a round of the parent watcher does to the sessions whose process has exited.
use claude_dbus.Prelude.{
  String, ℕ, ◌≤◌, ◌≡◌, ap, ◌∙◌, List, [], ◌∷◌, none, some, true, false, ◌==◌, eq_iff, arith,
  Bool-cases, inl, inr, eqb_refl, eqb→eq,
}
use claude_dbus.Dict
use claude_dbus.Dict.{Dict}
use claude_dbus.Dict.Laws.{get-remove}
use claude_dbus.Core.Path.{session_path, session_key}
use claude_dbus.Core.Path.Key.{lacks_colon, split-session_key}
use claude_dbus.Bridge.{Bridge, World, Run}
use claude_dbus.Bridge.Watch.{watch_all, tick}
use claude_dbus.Bridge.Sound.{IsSound}
use claude_dbus.Bridge.Steps.{IsSound-later}
use claude_dbus.Bridge.Invariant.{watch_all-Removed}
use claude_dbus.Bridge.Turn.{Turn, kept, forgot, removed, unroll, watch_all-keeps}

-- The session of a key is gone.
IsReaped : String → String → Bridge → Type 0
IsReaped agent id br =
    (Dict.get br.parents (session_key agent id) ≡ none)
    × (Dict.get br.store (session_path agent id) ≡ none)

Turn-IsReaped :
    (agent id : String) (w : World) (key : String) (pid : ℕ) (a b : Bridge)
    → Turn w a key pid b
    → IsReaped agent id a
    → IsReaped agent id b
unfolding IsReaped
Turn-IsReaped agent id w key pid a b (kept e x) p = rw e p
Turn-IsReaped agent id w key pid a b (forgot x e) p =
    rw e (ground (arith, get-remove a.parents key (session_key agent id), p.0), p.1)
Turn-IsReaped agent id w key pid a b (removed agent' id' x split y z gone) (p, q) = (
  elim (Bool-cases (session_key agent' id' == session_key agent id)) [
    | inl e ↦
        let same : session_key agent' id' ≡ session_key agent id =
          (eq_iff (session_key agent' id') (session_key agent id)).0 e in
        rw (← same) gone.parent
    | inr e ↦ gone.other_parents (session_key agent id) e ∙ p
  ],
  elim (Bool-cases (session_path agent' id' == session_path agent id)) [
    | inl e ↦
        let same : session_path agent' id' ≡ session_path agent id =
          (eq_iff (session_path agent' id') (session_path agent id)).0 e in
        rw (← same) gone.object
    | inr e ↦ gone.others (session_path agent id) e ∙ q
  ],
)

-- A watched session whose process is there stays watched.
Turn-alive :
    (agent id : String) (pid' : ℕ) (w : World) (key : String) (pid : ℕ) (a b : Bridge)
    → lacks_colon agent ≡ true
    → w.process_exists pid' ≡ true
    → Turn w a key pid b
    → Dict.get a.parents (session_key agent id) ≡ some pid'
    → Dict.get b.parents (session_key agent id) ≡ some pid'
Turn-alive agent id pid' w key pid a b c alive (kept e x) p = rw e p
Turn-alive agent id pid' w key pid a b c alive (forgot x e) p =
    elim (Bool-cases (key == session_key agent id)) [
      | inl f ↦
          let same : key ≡ session_key agent id = (eq_iff key (session_key agent id)).0 f in
          let whole = split-session_key agent id c in absurd (ground arith)
      | inr f ↦ rw e (get-remove a.parents key (session_key agent id) ∙ rw f p)
    ]
Turn-alive agent id pid' w key pid a b c alive (removed agent' id' s split current dead gone) p =
    elim (Bool-cases (session_key agent' id' == session_key agent id)) [
      | inl f ↦
          let same : session_key agent' id' ≡ session_key agent id =
            (eq_iff (session_key agent' id') (session_key agent id)).0 f in
          let at : Dict.get a.parents key ≡ some pid' = rw (← s, same) p in
          let eq : pid' ≡ pid = eqb→eq pid' pid (rw at at current) in absurd (ground arith)
      | inr f ↦ gone.other_parents (session_key agent id) f ∙ p
    ]

-- The turns of other keys leave a watched session watched.
Turn-other :
    (name : String) (pid' : ℕ) (w : World) (key : String) (pid : ℕ) (a b : Bridge)
    → (key == name) ≡ false
    → Turn w a key pid b
    → Dict.get a.parents name ≡ some pid'
    → Dict.get b.parents name ≡ some pid'
Turn-other name pid' w key pid a b ne (kept e x) p = rw e p
Turn-other name pid' w key pid a b ne (forgot x e) p =
    rw e (get-remove a.parents key name ∙ rw ne p)
Turn-other name pid' w key pid a b ne (removed agent id s split current dead gone) p =
    gone.other_parents name (rw s ne) ∙ p

-- The turn of the key itself, when its process is not there.
Turn-dead :
    (agent id : String) (w : World) (pid : ℕ) (a b : Bridge)
    → lacks_colon agent ≡ true
    → w.process_exists pid ≡ false
    → Dict.get a.parents (session_key agent id) ≡ some pid
    → Turn w a (session_key agent id) pid b
    → IsReaped agent id b
unfolding IsReaped
Turn-dead agent id w pid a b c dead p (kept e (inl alive)) = absurd (ground arith)
Turn-dead agent id w pid a b c dead p (kept e (inr stale)) = absurd (ground (arith, eqb_refl pid))
Turn-dead agent id w pid a b c dead p (forgot none_left e) =
    let whole = split-session_key agent id c in absurd (ground arith)
Turn-dead agent id w pid a b c dead p (removed agent' id' s split current d gone) =
    let whole = split-session_key agent id c in
    let names : (agent', id') ≡ (agent, id) = cc (split, whole) in
    let path : session_path agent' id' ≡ session_path agent id =
      ap (λ (n : String × String). session_path n.0 n.1) names in
    (rw (← s) gone.parent, rw (← path) gone.object)

round-IsReaped :
    (owned : List ℕ) (w : World) (watched : List (String × ℕ)) (br : Bridge) (agent id : String)
    (pid : ℕ) {run : Run}
    → lacks_colon agent ≡ true
    → w.process_exists pid ≡ false
    → IsSound owned w.ended_at br
    → Dict.get watched (session_key agent id) ≡ some pid
    → Dict.get br.parents (session_key agent id) ≡ some pid
    → watch_all w watched br ≡ some run
    → IsReaped agent id run.0
unfolding Dict.get
round-IsReaped owned w [] br agent id pid c dead v g p e = ground arith
round-IsReaped owned w ((key, pid0) ∷ watched) br agent id pid c dead v g p e =
    let u = unroll owned w br key pid0 watched v e in
    elim (Bool-cases (key == session_key agent id)) [
      | inl f ↦
          let same : key ≡ session_key agent id = (eq_iff key (session_key agent id)).0 f in
          let eq : pid0 ≡ pid = ground arith in
          rw (← u.ends) (
            watch_all-keeps (IsReaped agent id) owned w watched u.next
              (λ k q a b. Turn-IsReaped agent id w k q a b) u.sound u.returned
              (Turn-dead agent id w pid br u.next c dead p (rw (same, eq) at u.turn)))
      | inr f ↦ rw (← u.ends) (
          round-IsReaped owned w watched u.next agent id pid c dead u.sound (ground arith)
            (Turn-other (session_key agent id) pid w key pid0 br u.next f u.turn p) u.returned)
    ]

-- In a sound state a round of the parent watcher ends. A watched session, of an agent whose name
-- has no colon, whose process has exited is on the bus no more and watched no more after the round;
-- one whose process is there is still watched.
pub tick_lem :
    (owned : List ℕ) (clock : ℕ) (w : World) (br : Bridge) (agent id : String) (pid : ℕ)
    → clock ≤ w.ended_at
    → IsSound owned clock br
    → lacks_colon agent ≡ true
    → Dict.get br.parents (session_key agent id) ≡ some pid
    → (run : Run) × (tick w br ≡ some run)
      × (w.process_exists pid ≡ false
          → (Dict.get run.0.parents (session_key agent id) ≡ none)
            × (Dict.get run.0.store (session_path agent id) ≡ none))
      × (w.process_exists pid ≡ true → Dict.get run.0.parents (session_key agent id) ≡ some pid)
unfolding tick IsReaped
tick_lem owned clock w br agent id pid h v c p =
    let v' = IsSound-later owned clock w.ended_at br h v in
    let r = watch_all-Removed owned w br.parents br v' in
    (
      r.run,
      r.returned,
      λ dead. round-IsReaped owned w br.parents br agent id pid c dead v' p p r.returned,
      λ alive.
          watch_all-keeps (λ b. Dict.get b.parents (session_key agent id) ≡ some pid) owned w
            br.parents br (λ k q a b t. Turn-alive agent id pid w k q a b c alive t) v' r.returned
            p,
    )
