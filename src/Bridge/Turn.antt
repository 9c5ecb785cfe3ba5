-- ===== src/Bridge/Turn.antt =====
-- A round of the parent watcher, turn by turn.
use Prim.Native.Char.{Char, code}
use Prim.Native.String.{◌++◌}
use text.Mathlib.TextEquality.{Char-path}
use text.Mathlib.TextLemmas.{cons-append, nil-append}
use claude_dbus.Prelude.{
  String, ℕ, ◌≡◌, ◌⊎◌, refl, ap, ◌∙◌, sym, List, [], ◌∷◌, Option, none, some, true, false, arith,
  Bool-cases, inl, inr, eqb, eqb→eq,
}
use claude_dbus.Dict
use claude_dbus.Dict.{Dict}
use claude_dbus.Text.{split_once, before}
use claude_dbus.Core.Path.{session_key}
use claude_dbus.Bridge.{Bridge, World, Run, and_effects, is_pid}
use claude_dbus.Bridge.Watch.{reap, watch_one, watch_all}
use claude_dbus.Bridge.Sound.{IsSound}
use claude_dbus.Bridge.Gone.{IsGone, remove_session_lem}
use claude_dbus.Bridge.Invariant.{watch_one-Removed, watch_all-Removed}

-- The parts of a key make up the key.
IsSplit : String → Option (String × String) → Type 0
IsSplit key none = Unit
IsSplit key (some (agent, id)) = session_key agent id ≡ key

before-IsSplit :
    (c : Char) (key : String) (parts : Option (String × String))
    → IsSplit key parts
    → IsSplit (String.◌∷◌ c key) (before c parts)
unfolding IsSplit session_key
before-IsSplit c key none e = tt
before-IsSplit c key (some (agent, id)) e = cons-append c agent (":" ++ id) ∙ ap (String.◌∷◌ c) e

colon : Char
colon = ":"

split_once-IsSplit : (key : String) → IsSplit key (split_once key b':')
unfolding IsSplit split_once session_key colon
split_once-IsSplit String.[] = tt
split_once-IsSplit (String.◌∷◌ c key) = elim (Bool-cases (eqb (code c) b':')) [
  | inl e ↦
      let same : c ≡ colon = Char-path c colon (eqb→eq (code c) b':' e) in
      rw e (
        nil-append (":" ++ key)
        ∙ cons-append colon "" key
        ∙ ap (String.◌∷◌ colon) (nil-append key)
        ∙ ap (λ d. String.◌∷◌ d key) (sym same))
  | inr e ↦ rw e (before-IsSplit c key (split_once key b':') (split_once-IsSplit key))
]

-- What the turn of one pair does.
pub data Turn (w : World) (br : Bridge) (key : String) (pid : ℕ) (br' : Bridge) : Type 0 where
  kept :
      br' ≡ br
      → (w.process_exists pid ≡ true) ⊎ (is_pid pid (Dict.get br.parents key) ≡ false)
      → Turn w br key pid br'
  forgot :
      split_once key b':' ≡ none
      → br' ≡ record br { parents = Dict.remove br.parents key }
      → Turn w br key pid br'
  removed :
      (agent id : String)
      → session_key agent id ≡ key
      → split_once key b':' ≡ some (agent, id)
      → is_pid pid (Dict.get br.parents key) ≡ true
      → w.process_exists pid ≡ false
      → IsGone agent id br br'
      → Turn w br key pid br'

record Turned (w : World) (br : Bridge) (key : String) (pid : ℕ) (r : Option Run) : Type 0 where
  run : Run
  returned : r ≡ some run
  turn : Turn w br key pid run.0

reap-Turned :
    (owned : List ℕ) (w : World) (br : Bridge) (key : String) (pid : ℕ)
    (parts : Option (String × String))
    → split_once key b':' ≡ parts
    → IsSplit key parts
    → w.process_exists pid ≡ false
    → IsSound owned w.ended_at br
    → Turned w br key pid (reap w br key pid parts)
unfolding IsSplit
reap-Turned owned w br key pid none p e dead v = record {
  run = (record br { parents = Dict.remove br.parents key }, []);
  returned = refl;
  turn = forgot p refl;
}
reap-Turned owned w br key pid (some (agent, id)) p e dead v =
    elim (Bool-cases (is_pid pid (Dict.get br.parents key))) [
      | inl current ↦
          let (run, returned, gone) =
            remove_session_lem owned w.ended_at w br agent id (omega arith) v in
          rw current (record {
            run = run;
            returned = returned;
            turn = removed agent id e p current dead gone;
          })
      | inr stale ↦
          rw stale (record { run = (br, []); returned = refl; turn = kept refl (inr stale) })
    ]

watch_one-Turned :
    (owned : List ℕ) (w : World) (br : Bridge) (key : String) (pid : ℕ)
    → IsSound owned w.ended_at br
    → Turned w br key pid (watch_one w br key pid)
unfolding watch_one
watch_one-Turned owned w br key pid v = elim (Bool-cases (w.process_exists pid)) [
  | inl e ↦ rw e (record { run = (br, []); returned = refl; turn = kept refl (inl e) })
  | inr e ↦
      rw e (reap-Turned owned w br key pid (split_once key b':') refl (split_once-IsSplit key) e v)
]

-- The first turn of a round, and the rest of it.
pub record Unrolled (owned : List ℕ) (w : World) (br : Bridge) (key : String) (pid : ℕ)
    (watched : List (String × ℕ)) (br' : Bridge) : Type 0 where
  pub next : Bridge
  pub turn : Turn w br key pid next
  pub sound : IsSound owned w.ended_at next
  pub rest : Run
  pub returned : watch_all w watched next ≡ some rest
  pub ends : rest.0 ≡ br'

pub unroll :
    (owned : List ℕ) (w : World) (br : Bridge) (key : String) (pid : ℕ)
    (watched : List (String × ℕ)) {run : Run}
    → IsSound owned w.ended_at br
    → watch_all w ((key, pid) ∷ watched) br ≡ some run
    → Unrolled owned w br key pid watched run.0
unfolding watch_all
unroll owned w br key pid watched {run} v e =
    let t = watch_one-Turned owned w br key pid v in
    let one = watch_one-Removed owned w br key pid v in
    let same : one.run ≡ t.run = cc (one.returned, t.returned) in
    let r = watch_all-Removed owned w watched one.run.0 one.sound in
    let out : Run = (r.run.0, and_effects one.run.1 r.run.1) in
    let whole : watch_all w ((key, pid) ∷ watched) br ≡ some out =
      rw (one.returned, r.returned) refl in
    let last : out ≡ run = cc (whole, e) in
    record {
      next = one.run.0;
      turn = rw same t.turn;
      sound = one.sound;
      rest = r.run;
      returned = r.returned;
      ends = ap (λ (x : Run). x.0) last;
    }

-- A property that each turn keeps holds after the round.
pub watch_all-keeps :
    (P : Bridge → Type 0) (owned : List ℕ) (w : World) (watched : List (String × ℕ)) (br : Bridge)
    {run : Run}
    → ((key : String) (pid : ℕ) (a b : Bridge) → Turn w a key pid b → P a → P b)
    → IsSound owned w.ended_at br
    → watch_all w watched br ≡ some run
    → P br
    → P run.0
unfolding watch_all
watch_all-keeps P owned w [] br {run} k v e p =
    let nothing : Run = (br, []) in let same : nothing ≡ run = cc e in rw (← same) p
watch_all-keeps P owned w ((key, pid) ∷ watched) br {run} k v e p =
    let u = unroll owned w br key pid watched v e in
    rw (← u.ends)
      (watch_all-keeps P owned w watched u.next k u.sound u.returned (k key pid br u.next u.turn p))
