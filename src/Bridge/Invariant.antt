-- ===== src/Bridge/Invariant.antt =====
-- What holds in every state that the service can reach, and that no step of it hangs.
use claude_dbus.Prelude.{
  String, ℕ, false, ◌≤◌, ◌≡◌, ◌⊎◌, refl, List, [], ◌∷◌, ◌++◌, Option, none, some, inl, inr, arith,
  Bool-cases, Option-cases, not, ◌&&◌, ◌==◌,
}
use claude_dbus.Dict
use claude_dbus.Dict.Laws.{get-remove}
use claude_dbus.Ended
use claude_dbus.Text.{split_once}
use claude_dbus.Ended.Invariant.{new-IsValid}
use claude_dbus.Broker.{RequestBroker, respond}
use claude_dbus.Session.Object.{SessionObject}
use claude_dbus.Session.Pending.Attention.{IsConsistent, take-IsConsistent, taken}
use claude_dbus.Session.Respond.{
  respond_to_elicitation, respond_to_elicitation_by_id, respond_taken,
}
use claude_dbus.Bridge.{Bridge, World, Run, is_pid}
use claude_dbus.Bridge.Wait.{Waiting}
use claude_dbus.Bridge.Handler.{RawHook, resume, hook_of, handle}
use claude_dbus.Service.Events.{Hook}
use claude_dbus.Bridge.Watch.{reap, watch_one, watch_all, tick}
use claude_dbus.Bridge.Sound.{Owns, IsSound, Shrinks}
use claude_dbus.Bridge.Keeps.{insert-AllConsistent, shrunk-AllOwned}
use claude_dbus.Bridge.Removal.{Removed, drain-IsSound, remove_session_returns}
use claude_dbus.Bridge.Steps.{with_wait, IsSound-later, finish-IsSound}
use claude_dbus.Bridge.Watchers.{compact-IsSound, title-AllConsistent}
use claude_dbus.Bridge.Served.{IsTimely, handle-Served}
use claude_dbus.Bridge.System.{
  Held, System, numbers, hold, ended_sessions_max, respond_method, client_answer, start, Step,
  arrives, answers, resumes, polls, drains, compacts, retitles, Reachable, started, stepped,
}

-- One round of the watcher ends.
reap-Removed :
    (owned : List ℕ) (w : World) (br : Bridge) (key : String) (pid : ℕ)
    (names : Option (String × String))
    → IsSound owned w.ended_at br
    → Removed owned w.ended_at (reap w br key pid names)
reap-Removed owned w br key pid none v = record {
  run = (record br { parents = Dict.remove br.parents key }, []);
  returned = refl;
  sound = record { objects = v.objects; requests = v.requests; tombstones = v.tombstones };
}
reap-Removed owned w br key pid (some (agent, id)) v =
    elim (Bool-cases (is_pid pid (Dict.get br.parents key))) [
      | inl e ↦ rw e (
          remove_session_returns owned w.ended_at w.ended_at w br agent id (omega arith)
            (omega arith) v)
      | inr e ↦ rw e (record { run = (br, []); returned = refl; sound = v })
    ]

pub watch_one-Removed :
    (owned : List ℕ) (w : World) (br : Bridge) (key : String) (pid : ℕ)
    → IsSound owned w.ended_at br
    → Removed owned w.ended_at (watch_one w br key pid)
unfolding watch_one
watch_one-Removed owned w br key pid v = elim (Bool-cases (w.process_exists pid)) [
  | inl e ↦ rw e (record { run = (br, []); returned = refl; sound = v })
  | inr e ↦ rw e (reap-Removed owned w br key pid (split_once key b':') v)
]

pub watch_all-Removed :
    (owned : List ℕ) (w : World) (watched : List (String × ℕ)) (br : Bridge)
    → IsSound owned w.ended_at br
    → Removed owned w.ended_at (watch_all w watched br)
unfolding watch_all
watch_all-Removed owned w [] br v = record { run = (br, []); returned = refl; sound = v }
watch_all-Removed owned w ((key, pid) ∷ watched) br v =
    let one = watch_one-Removed owned w br key pid v in
    let rest = watch_all-Removed owned w watched one.run.0 one.sound in
    record {
      run = (rest.run.0, one.run.1 ++ rest.run.1);
      returned = rw (one.returned, rest.returned) refl;
      sound = rest.sound;
    }

pub tick-Removed :
    (owned : List ℕ) (clock clock' : ℕ) (w : World) (br : Bridge)
    → IsTimely clock w clock'
    → IsSound owned clock br
    → Removed owned clock' (tick w br)
unfolding tick
tick-Removed owned clock clock' w br t v =
    let r =
      watch_all-Removed owned w br.parents br
        (IsSound-later owned clock w.ended_at br t.starts v) in
    record {
      run = r.run;
      returned = r.returned;
      sound = IsSound-later owned w.ended_at clock' r.run.0 t.ends r.sound;
    }

-- An answer of a client.
pub respond-Shrinks : (b : RequestBroker) (id answer : String) → Shrinks b (respond b id answer).0
unfolding respond
respond-Shrinks b id answer j n h = elim (Option-cases (Dict.get b.inner id)) [
  | inl e ↦ ground (arith, get-remove b.inner id j)
  | inr (tx, e) ↦ ground (arith, get-remove b.inner id j)
]

respond_taken-Sound :
    (s : SessionObject) (b : RequestBroker) (answer : String) (o : Option (SessionObject × String))
    → IsConsistent s
    → IsConsistent (taken s o)
    → IsConsistent (respond_taken s b answer o).0 × Shrinks b (respond_taken s b answer o).1
unfolding respond_taken
respond_taken-Sound s b answer none v c = (v, λ j n h. h)
respond_taken-Sound s b answer (some (s', id)) v c = (c, respond-Shrinks b id answer)

method-Sound :
    (s : SessionObject) (b : RequestBroker) (id : Option String) (answer : String)
    → IsConsistent s
    → IsConsistent (respond_method s b id answer).0 × Shrinks b (respond_method s b id answer).1
unfolding respond_to_elicitation respond_to_elicitation_by_id
method-Sound s b none answer v = elim (Bool-cases (not (answer == ""))) [
  | inl e ↦ rw e (respond_taken-Sound s b answer _ v (take-IsConsistent s none v))
  | inr e ↦ rw e (v, λ j n h. h)
]
method-Sound s b (some id) answer v = elim (Bool-cases (not (id == "") && not (answer == ""))) [
  | inl e ↦ rw e (respond_taken-Sound s b answer _ v (take-IsConsistent s (some id) v))
  | inr e ↦ rw e (v, λ j n h. h)
]

answer-IsSound :
    (owned : List ℕ) (clock : ℕ) (br : Bridge) (path : String) (id : Option String)
    (answer : String)
    → IsSound owned clock br
    → IsSound owned clock (client_answer br path id answer)
unfolding client_answer
answer-IsSound owned clock br path id answer v = elim (Option-cases (Dict.get br.store path)) [
  | inl e ↦ rw e v
  | inr (s, e) ↦
      let m = method-Sound s br.broker id answer (v.objects path s e) in
      rw e (record {
        objects = insert-AllConsistent br.store path _ v.objects m.0;
        requests =
            shrunk-AllOwned owned br.broker (respond_method s br.broker id answer).1 br.next_request
              m.1 v.requests;
        tombstones = v.tombstones;
      })
]

-- The numbers of the handlers but one.
Owns-others :
    (earlier later : List Held) (x : Held) (n : ℕ)
    → Owns (numbers (earlier ++ (x ∷ later))) n
    → (x.wait.number ≡ n) ⊎ Owns (numbers (earlier ++ later)) n
Owns-others [] later x n o = o
Owns-others (y ∷ earlier) later x n (inl e) = inr (inl e)
Owns-others (y ∷ earlier) later x n (inr o) = elim (Owns-others earlier later x n o) [
  | inl e ↦ inl e
  | inr o' ↦ inr (inr o')
]

held-IsSound :
    (clock : ℕ) (br : Bridge) (raw : RawHook) (h : Hook) (wait : Option Waiting) (held : List Held)
    → IsSound (with_wait wait (numbers held)) clock br
    → IsSound (numbers (hold raw h wait held)) clock br
held-IsSound clock br raw h none held v = v
held-IsSound clock br raw h (some wait) held v = v

IsSystemSound : System → Type 0
IsSystemSound s = IsSound (numbers s.held) s.clock s.bridge

Step-IsSystemSound : (s s' : System) → Step s s' → IsSystemSound s → IsSystemSound s'
unfolding IsSystemSound resume
Step-IsSystemSound s _ (arrives w raw clock' out t e) v =
    let r = handle-Served (numbers s.held) s.clock clock' w t raw s.bridge v in
    let same : r.outcome ≡ out = cc (r.returned, e) in
    held-IsSound clock' out.0.0 raw (hook_of w s.bridge raw) out.1 s.held (rw (← same) r.sound)
Step-IsSystemSound s _ (answers path id answer) v =
    answer-IsSound (numbers s.held) s.clock s.bridge path id answer v
Step-IsSystemSound s _ (resumes w earlier later x e) v =
    finish-IsSound (numbers s.held) (numbers (earlier ++ later)) s.clock s.bridge x.wait
      (λ n o. Owns-others earlier later x n (rw e at o)) v
Step-IsSystemSound s _ (polls w clock' run t e) v =
    let r = tick-Removed (numbers s.held) s.clock clock' w s.bridge t v in
    let same : r.run ≡ run = cc (r.returned, e) in rw (← same) r.sound
Step-IsSystemSound s _ (drains w id) v =
    drain-IsSound (numbers s.held) s.clock w s.bridge id false v
Step-IsSystemSound s _ (compacts w offset len read) v =
    compact-IsSound (numbers s.held) s.clock w s.bridge offset len read v
Step-IsSystemSound s _ (retitles w last_seen seen contents) v = record {
  objects = title-AllConsistent w.from_str last_seen seen s.bridge.store contents v.objects;
  requests = v.requests;
  tombstones = v.tombstones;
}

start-IsSound : (ttl clock : ℕ) → IsSound [] clock (start ttl)
unfolding start Dict.get Ended.new
start-IsSound ttl clock = record {
  objects = λ path s h. ground arith;
  requests = λ id n h. ground arith;
  tombstones = record { valid = new-IsValid ended_sessions_max ttl; reached = tt };
}

-- In every state that the service can reach, each object on the bus says truly whether it requires
-- attention and has at most four pending requests, each request that the broker knows was given out
-- and has a handler that waits for its answer, and the tombstones are valid.
pub Reachable-IsSound :
    {ttl : ℕ} (s : System) → Reachable ttl s → IsSound (numbers s.held) s.clock s.bridge
unfolding IsSystemSound
Reachable-IsSound {ttl} _ (started clock) = start-IsSound ttl clock
Reachable-IsSound s' (stepped {s} r st) = Step-IsSystemSound s s' st (Reachable-IsSound s r)

-- In every state that the service can reach, the handler of any hook ends or comes to its wait, and a
-- round of the watcher ends: no loop of theirs runs forever.
pub handlers_return :
    {ttl : ℕ} (s : System) (w : World) (raw : RawHook)
    → Reachable ttl s
    → s.clock ≤ w.ended_at
    → ((out : Run × Option Waiting) × (handle w s.bridge raw ≡ some out))
      × ((run : Run) × (tick w s.bridge ≡ some run))
handlers_return s w raw r h =
    let v = Reachable-IsSound s r in
    let t : IsTimely s.clock w w.ended_at = record { starts = h; ends = omega arith } in
    let served = handle-Served (numbers s.held) s.clock w.ended_at w t raw s.bridge v in
    let round = tick-Removed (numbers s.held) s.clock w.ended_at w s.bridge t v in
    ((served.outcome, served.returned), (round.run, round.returned))
