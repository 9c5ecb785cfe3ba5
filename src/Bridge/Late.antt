-- ===== src/Bridge/Late.antt =====
-- Hooks that arrive when their session has ended.
use claude_dbus.Prelude.{
  String, ℕ, ◌≡◌, ◌≢◌, ◌⊎◌, refl, ap, ◌∙◌, ◌>>=◌, List, [], ◌++◌, Option, none, some, true, false,
  ◌==◌, ==_ne, inl, inr, Bool-cases,
}
use claude_dbus.Dict
use claude_dbus.Dict.Laws.{get-insert_self}
use claude_dbus.Core.Path.{session_path, session_key}
use claude_dbus.Ended
use claude_dbus.Session.Object.{SessionObject}
use claude_dbus.Service.{hook_session_title}
use claude_dbus.Service.Events.{Hook, event_of}
use claude_dbus.Bridge.{
  Bridge, World, Run, Effect, dbus_update, update_session, subject, is_pid, maybe_watch_parent,
}
use claude_dbus.Bridge.Wait.{Waiting}
use claude_dbus.Bridge.Keeps.{store_lem}
use claude_dbus.Bridge.Handler.{
  RawHook, hook_of, key_of, lineage, session_title, ensure_subagent_identity, refresh_session_title,
  prepare, arm_of, handle_event, handle, titled, after, proceed,
}

-- Nothing but the tombstones that have run out is changed, and nothing is sent.
abbrev pub ignored : Bridge → World → RawHook → Option (Run × Option Waiting)
ignored br w raw =
    some ((record br { ended = (Ended.contains br.ended (key_of raw) w.now).0 }, []), none)

-- Only the parents change when one is watched.
pub watch-parents :
    (br : Bridge) (agent id : String) (pid : Option ℕ)
    → maybe_watch_parent br agent id pid
      ≡ record br { parents = (maybe_watch_parent br agent id pid).parents }
unfolding maybe_watch_parent
watch-parents br agent id none = refl
watch-parents br agent id (some pid) = elim (Bool-cases (id == "unknown")) [
  | inl e ↦ rw e refl
  | inr e ↦ elim (Bool-cases (is_pid pid (Dict.get br.parents (session_key agent id)))) [
    | inl f ↦ rw (e, f) refl
    | inr f ↦ rw (e, f) refl
  ]
]

watch-ended :
    (br : Bridge) (agent id : String) (pid : Option ℕ)
    → (maybe_watch_parent br agent id pid).ended ≡ br.ended
watch-ended br agent id pid = ap (λ (b : Bridge). b.ended) (watch-parents br agent id pid)

abbrev watched : Bridge → RawHook → Bridge
watched br raw = maybe_watch_parent br raw.agent raw.session_id raw.parent_pid

prepare_plain :
    (w : World) (br : Bridge) (raw : RawHook)
    → lineage w raw ≡ none
    → session_title w (hook_of w br raw) ≡ none
    → prepare w br raw (hook_of w br raw) ≡ (watched br raw, [])
unfolding prepare ensure_subagent_identity refresh_session_title hook_of
prepare_plain w br raw l t = rw (l, t) refl

-- The `match` on the event, and what follows it.
abbrev dispatched : World → RawHook → Hook → Run → Option (Run × Option Waiting)
dispatched w raw h p = arm_of w p.0 raw h (event_of raw.agent raw.event) >>= λ arm.
    some (after p.1 (proceed w raw.event h arm))

-- A start, or an end of turn.
abbrev pub IsTurn : RawHook → Type 0
IsTurn raw = (raw.event ≡ "SessionStart") ⊎ ((raw.event ≡ "Stop") ⊎ (raw.event ≡ "AfterAgent"))

dispatched_late :
    (w : World) (br : Bridge) (effects : List Effect) (raw : RawHook) (h : Hook)
    → IsTurn raw
    → (Ended.contains br.ended (key_of raw) w.now).1 ≡ true
    → dispatched w raw h (br, effects)
      ≡ some (
        (record br { ended = (Ended.contains br.ended (key_of raw) w.now).0 }, effects ++ []),
        none,
      )
unfolding arm_of event_of
dispatched_late w br effects raw h (inl e) ended = rw (e, ended) refl
dispatched_late w br effects raw h (inr (inl e)) ended = rw (e, ended) refl
dispatched_late w br effects raw h (inr (inr e)) ended = rw (e, ended) refl

not_telemetry : (raw : RawHook) → IsTurn raw → (raw.event == "Telemetry") ≡ false
not_telemetry raw (inl e) = rw e refl
not_telemetry raw (inr (inl e)) = rw e refl
not_telemetry raw (inr (inr e)) = rw e refl

-- While the tombstone of its session stands, telemetry changes no object, no request and no reader,
-- and sends nothing; the same holds of a start and of an end of turn that carry neither lineage nor
-- a title, but that the process that sent them is watched as the parent.
pub late_hooks :
    (w : World) (br : Bridge) (raw : RawHook)
    → (Ended.contains br.ended (key_of raw) w.now).1 ≡ true
    → (raw.event ≡ "Telemetry" → handle w br raw ≡ ignored br w raw)
      × (IsTurn raw
          → lineage w raw ≡ none
          → session_title w (hook_of w br raw) ≡ none
          → handle w br raw
            ≡ ignored (maybe_watch_parent br raw.agent raw.session_id raw.parent_pid) w raw)
unfolding handle handle_event
late_hooks w br raw ended = (
  λ e. rw (e, ended) refl,
  λ e l t.
      let kept : (Ended.contains (watched br raw).ended (key_of raw) w.now).1 ≡ true =
        rw (watch-ended br raw.agent raw.session_id raw.parent_pid) ended in
      let h = hook_of w br raw in
      rw (not_telemetry raw e) (
        ap (dispatched w raw h) (prepare_plain w br raw l t)
        ∙ dispatched_late w (watched br raw) [] raw h e kept),
)

watch-store :
    (br : Bridge) (agent id : String) (pid : Option ℕ)
    → (maybe_watch_parent br agent id pid).store ≡ br.store
watch-store br agent id pid = ap (λ (b : Bridge). b.store) (watch-parents br agent id pid)

-- The update of the title alone.
retitled : World → Bridge → RawHook → String → Run
retitled w br raw title =
    let h = hook_of w br raw in
    dbus_update br raw.agent raw.session_id (λ s b. (titled h title s, b))

prepare_titled :
    (w : World) (br : Bridge) (raw : RawHook) (title : String)
    → (raw.agent == "codex") ≡ false
    → lineage w raw ≡ none
    → hook_session_title raw.data' ≡ some title
    → (title == "") ≡ false
    → prepare w br raw (hook_of w br raw)
      ≡ (watched (retitled w br raw title).0 raw, (retitled w br raw title).1 ++ [])
unfolding prepare ensure_subagent_identity refresh_session_title hook_of session_title
    update_session retitled
prepare_titled w br raw title a l t n = rw (l, t, n, a) refl

-- A start for an ended session of an agent other than codex, with a title and without lineage, is
-- skipped by the `match` on the event; but the session is on the bus again by then, under that title.
pub titled_start_revives :
    (w : World) (br : Bridge) (raw : RawHook) (title : String)
    → (Ended.contains br.ended (key_of raw) w.now).1 ≡ true
    → raw.event ≡ "SessionStart"
    → raw.agent ≢ "codex"
    → lineage w raw ≡ none
    → hook_session_title raw.data' ≡ some title
    → title ≢ ""
    → (run : Run) × (s : SessionObject) × (handle w br raw ≡ some (run, none))
      × (Dict.get run.0.store (session_path raw.agent raw.session_id) ≡ some s)
      × (s.session_title ≡ title)
unfolding handle handle_event retitled dbus_update
titled_start_revives w br raw title ended e a l t n =
    let h = hook_of w br raw in
    let r = retitled w br raw title in
    let kept : (Ended.contains (watched r.0 raw).ended (key_of raw) w.now).1 ≡ true =
      rw (watch-ended r.0 raw.agent raw.session_id raw.parent_pid) ended in
    let ended' = (Ended.contains (watched r.0 raw).ended (key_of raw) w.now).0 in
    (
      (record (watched r.0 raw) { ended = ended' }, (r.1 ++ []) ++ []),
      titled h title (subject br.store raw.agent raw.session_id),
      rw (not_telemetry raw (inl e)) (
          ap (dispatched w raw h)
            (prepare_titled w br raw title (==_ne raw.agent "codex" a) l t (==_ne title "" n))
          ∙ dispatched_late w (watched r.0 raw) (r.1 ++ []) raw h (inl e) kept),
      rw
          (
            watch-store r.0 raw.agent raw.session_id raw.parent_pid,
            store_lem br.store raw.agent raw.session_id
                (titled h title (subject br.store raw.agent raw.session_id)),
          )
          (get-insert_self br.store (session_path raw.agent raw.session_id) _),
      refl,
    )
