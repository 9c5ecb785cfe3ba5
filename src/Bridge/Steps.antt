-- ===== src/Bridge/Steps.antt =====
-- The parts of a handler keep what is true of the state of the service.
use claude_dbus.Prelude.{
  List, ◌∷◌, ◌⊎◌, String, ℕ, ◌+◌, ◌≤◌, ◌≡◌, refl, sym, Option, none, some, Bool, true, false, ◌==◌,
  eq_iff, arith, Bool-cases, Option-cases, inl, inr,
}
use claude_dbus.Dict
use claude_dbus.Dict.Laws.{get-insert, get-remove}
use claude_dbus.Broker
use claude_dbus.Broker.{RequestBroker}
use claude_dbus.Core.Path.{session_key}
use claude_dbus.Session.Object.{SessionObject}
use claude_dbus.Session.Pending.{push_pending_request}
use claude_dbus.Session.Pending.Attention.{IsConsistent, push-IsConsistent, remove-IsConsistent}
use claude_dbus.Agents.{SubagentInfo, apply_subagent_info}
use claude_dbus.Ended.{ExpiringSessionSet}
use claude_dbus.Ended.Total.{IsCurrent, IsCurrent-later}
use claude_dbus.Service.Events.{Hook, transported}
use claude_dbus.Service.Keeps.{transported-IsConsistent}
use claude_dbus.Bridge.{Bridge, World, is_pid, maybe_watch_parent}
use claude_dbus.Bridge.Wait.{
  ElicitationRequest, Waiting, request_id, pending_request, registered, pushed, ask_object, ask,
  finish,
}
use claude_dbus.Bridge.Handler.{
  RawHook, titled, with_title, session_title, ensure_subagent_identity, refresh_session_title,
  lineage, prepare,
}
use claude_dbus.Bridge.Sound.{AllOwned, Owns, IsSound, Shrinks, plain-IsSafe}
use claude_dbus.Bridge.Keeps.{insert-AllConsistent, update_session-IsSound}

pub IsSound-later :
    (owned : List ℕ) (clock clock' : ℕ) (br : Bridge)
    → clock ≤ clock'
    → IsSound owned clock br
    → IsSound owned clock' br
IsSound-later owned clock clock' br h v = record {
  objects = v.objects;
  requests = v.requests;
  tombstones = IsCurrent-later clock clock' br.ended h v.tombstones;
}

-- Another set of tombstones.
pub ended-IsSound :
    (owned : List ℕ) (clock : ℕ) (br : Bridge) (ended : ExpiringSessionSet)
    → IsCurrent clock ended
    → IsSound owned clock br
    → IsSound owned clock (record br { ended = ended })
ended-IsSound owned clock br ended c v = record {
  objects = v.objects;
  requests = v.requests;
  tombstones = c;
}

ensure-IsSound :
    (owned : List ℕ) (clock : ℕ) (w : World) (br : Bridge) (h : Hook) (info : Option SubagentInfo)
    → IsSound owned clock br
    → IsSound owned clock (ensure_subagent_identity w br h info).0
unfolding ensure_subagent_identity apply_subagent_info
ensure-IsSound owned clock w br h none v = v
ensure-IsSound owned clock w br h (some info) v =
    update_session-IsSound owned clock w br h.agent h.session_id _
      (plain-IsSafe (λ s. apply_subagent_info s (some info))
        λ s c. record { attention = c.attention; bounded = c.bounded })
      v

title-IsSound :
    (owned : List ℕ) (clock : ℕ) (w : World) (br : Bridge) (h : Hook) (title : Option String)
    → IsSound owned clock br
    → IsSound owned clock (with_title w br h title).0
title-IsSound owned clock w br h none v = v
title-IsSound owned clock w br h (some title) v = elim (Bool-cases (title == "")) [
  | inl e ↦ rw e v
  | inr e ↦ rw e (
      update_session-IsSound owned clock w br h.agent h.session_id _
        (plain-IsSafe (titled h title) λ s c.
          let t = transported-IsConsistent h s c in
          record { attention = t.attention; bounded = t.bounded })
        v)
]

watch-IsSound :
    (owned : List ℕ) (clock : ℕ) (br : Bridge) (agent id : String) (pid : Option ℕ)
    → IsSound owned clock br
    → IsSound owned clock (maybe_watch_parent br agent id pid)
unfolding maybe_watch_parent
watch-IsSound owned clock br agent id none v = v
watch-IsSound owned clock br agent id (some pid) v = elim (Bool-cases (id == "unknown")) [
  | inl e ↦ rw e v
  | inr e ↦ elim (Bool-cases (is_pid pid (Dict.get br.parents (session_key agent id)))) [
    | inl f ↦ rw (e, f) v
    | inr f ↦
        rw (e, f) (record { objects = v.objects; requests = v.requests; tombstones = v.tombstones })
  ]
]

pub prepare-IsSound :
    (owned : List ℕ) (clock : ℕ) (w : World) (br : Bridge) (raw : RawHook) (h : Hook)
    → IsSound owned clock br
    → IsSound owned clock (prepare w br raw h).0
unfolding prepare refresh_session_title
prepare-IsSound owned clock w br raw h v =
    watch-IsSound owned clock _ h.agent h.session_id raw.parent_pid (
      title-IsSound owned clock w _ h (session_title w h)
        (ensure-IsSound owned clock w br h (lineage w raw) v))

-- A new request takes the next number, and its handler waits for it.
registered-AllOwned :
    (owned : List ℕ) (b : RequestBroker) (next : ℕ)
    → AllOwned owned b next
    → AllOwned (next ∷ owned) (registered b next) (next + 1)
unfolding Broker.register
registered-AllOwned owned b next all id n h = elim (Bool-cases (request_id next == id)) [
  | inl e ↦
      let same : next ≡ n = ground (arith, get-insert b.inner (request_id next) id next) in
      (omega arith, rw (← same) (sym ((eq_iff (request_id next) id).0 e)), inl same)
  | inr e ↦
      let old = all id n (ground (arith, get-insert b.inner (request_id next) id next)) in
      (omega (arith, old.0), old.1, inr old.2)
]

-- A request that is dropped leaves nothing behind.
dropped-AllOwned :
    (owned : List ℕ) (b : RequestBroker) (next : ℕ)
    → AllOwned owned b next
    → AllOwned owned (Broker.remove (registered b next) (request_id next)) (next + 1)
unfolding Broker.register Broker.remove
dropped-AllOwned owned b next all id n h =
    let mine = request_id next in
    let old = all id n (
      ground (
        arith,
        get-remove (Dict.insert b.inner mine next) mine id,
        get-insert b.inner mine id next,
      )) in
    (omega (arith, old.0), old.1, old.2)

pub remove-Shrinks : (b : RequestBroker) (id : String) → Shrinks b (Broker.remove b id)
unfolding Broker.remove
remove-Shrinks b id j n h = ground (arith, get-remove b.inner id j)

-- The numbers waited for, with that of a handler that has come to its wait.
abbrev pub with_wait : Option Waiting → List ℕ → List ℕ
with_wait none owned = owned
with_wait (some wait) owned = wait.number ∷ owned

pushed-IsSound :
    (owned : List ℕ) (clock : ℕ) (br : Bridge) (path : String) (request : ElicitationRequest)
    (p : SessionObject × Bool)
    → IsConsistent p.0
    → IsSound owned clock br
    → let (run, wait) = pushed br path request p in IsSound (with_wait wait owned) clock run.0
pushed-IsSound owned clock br path request (s, true) c v = record {
  objects = insert-AllConsistent br.store path s v.objects c;
  requests = registered-AllOwned owned br.broker br.next_request v.requests;
  tombstones = v.tombstones;
}
pushed-IsSound owned clock br path request (s, false) c v = record {
  objects = v.objects;
  requests = dropped-AllOwned owned br.broker br.next_request v.requests;
  tombstones = v.tombstones;
}

ask_object-IsSound :
    (owned : List ℕ) (clock : ℕ) (br : Bridge) (path : String) (request : ElicitationRequest)
    (found : Option SessionObject)
    → ((s : SessionObject) → found ≡ some s → IsConsistent s)
    → IsSound owned clock br
    → let (run, wait) = ask_object br path request found in
      IsSound (with_wait wait owned) clock run.0
ask_object-IsSound owned clock br path request none c v = v
ask_object-IsSound owned clock br path request (some s) c v =
    let r = pending_request (request_id br.next_request) request in
    pushed-IsSound owned clock br path request (push_pending_request s r)
      (push-IsConsistent s r (c s refl)) v

pub ask-IsSound :
    (owned : List ℕ) (clock : ℕ) (w : World) (br : Bridge) (h : Hook) (request : ElicitationRequest)
    → IsSound owned clock br
    → let (run, wait) = ask w br h request in IsSound (with_wait wait owned) clock run.0
unfolding ask
ask-IsSound owned clock w br h request v =
    let v1 =
      update_session-IsSound owned clock w br h.agent h.session_id _
        (plain-IsSafe (transported h) (transported-IsConsistent h)) v in
    ask_object-IsSound owned clock _ _ request _ (v1.objects _) v1

-- A handler that has its answer gives its number back: the broker forgets the request.
pub finish-IsSound :
    (owned owned' : List ℕ) (clock : ℕ) (br : Bridge) (wait : Waiting)
    → ((n : ℕ) → Owns owned n → (wait.number ≡ n) ⊎ Owns owned' n)
    → IsSound owned clock br
    → IsSound owned' clock (finish br wait).0.0
unfolding finish Broker.remove
finish-IsSound owned owned' clock br wait others v = record {
  objects = elim (Option-cases (Dict.get br.store wait.path)) [
    | inl e ↦ rw e v.objects
    | inr (s, e) ↦ rw e (
        insert-AllConsistent br.store wait.path _ v.objects
          (remove-IsConsistent s (request_id wait.number) (v.objects wait.path s e)))
  ];
  requests = λ id n h.
      let mine = request_id wait.number in
      let old = v.requests id n (ground (arith, get-remove br.broker.inner mine id)) in
      elim (others n old.2) [
        | inl e ↦
            let same : mine ≡ id = rw e (sym old.1) in
            absurd (ground (arith, get-remove br.broker.inner mine id, (eq_iff mine id).1 same))
        | inr o ↦ (old.0, old.1, o)
      ];
  tombstones = v.tombstones;
}
