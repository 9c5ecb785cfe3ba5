-- ===== src/Bridge/Buried.antt =====
-- Hooks that are late for a session that was removed.
use claude_dbus.Prelude.{
  String, ℕ, ◌-◌, ◌<◌, ◌≡◌, ◌⊎◌, refl, ap, ◌∙◌, List, [], ◌∷◌, ◌++◌, Option, none, some, true, ◌==◌,
  ltb, if◌then◌else◌, ◌>>=◌, ◌or_else◌, All, arith, Bool-cases, inl, inr,
}
use claude_dbus.Dict
use claude_dbus.Core.Path.{session_path, session_key}
use claude_dbus.Ended
use claude_dbus.Ended.{ExpiringSessionSet}
use claude_dbus.Ended.Invariant.{IsValid, prune-IsValid}
use claude_dbus.Ended.Lookup.{get-prune_loop, contains_lem}
use claude_dbus.Ended.Insert.{insert_total}
use claude_dbus.Ended.Total.{Reached}
use claude_dbus.Codex.Reader.{Reader}
use claude_dbus.Service.{hook_session_title}
use claude_dbus.Bridge.{
  Bridge, World, Run, drain_if, drain_reader, forget_reader, drain, drained, remove_entry,
  remove_session, maybe_watch_parent,
}
use claude_dbus.Bridge.Wait.{Waiting}
use claude_dbus.Bridge.Handler.{RawHook, key_of, lineage, session_title, hook_of, handle}
use claude_dbus.Bridge.Sound.{IsSound}
use claude_dbus.Bridge.Removal.{removal}
use claude_dbus.Bridge.Gone.{remove_session_lem}
use claude_dbus.Bridge.Late.{IsTurn, late_hooks, watch-parents}

-- The tombstone of a key stands, with its stamp.
record IsBuried (key : String) (at ttl : ℕ) (s : ExpiringSessionSet) : Type 0 where
  valid : IsValid s
  stamp : Dict.get s.entries key ≡ some at
  ttl' : s.ttl ≡ ttl

-- A test in time finds it, and leaves it.
contains-IsBuried :
    (key : String) (at ttl now : ℕ) (s : ExpiringSessionSet)
    → ltb (now - at) ttl ≡ true
    → IsBuried key at ttl s
    → ((Ended.contains s key now).1 ≡ true) × IsBuried key at ttl (Ended.contains s key now).0
unfolding Ended.contains Ended.prune
contains-IsBuried key at ttl now s h b =
    let h' : ltb (now - at) s.ttl ≡ true = rw b.ttl' h in
    (
      contains_lem s key now b.valid ∙ rw (b.stamp, h') refl,
      record {
        valid = prune-IsValid s now b.valid;
        stamp =
            get-prune_loop now s.ttl s.entries s.order key b.valid.tracked b.valid.ascending
            ∙ rw (b.stamp, h') refl;
        ttl' = b.ttl';
      },
    )

-- The title that a hook brings.
abbrev pub title_of : World → RawHook → Option String
title_of w raw =
    hook_session_title raw.data'
    or_else (if raw.agent == "codex" then w.codex_title raw.session_id else none)

-- A hook for a session that comes while a tombstone from `at` stands: telemetry, or a start or an end
-- of turn that carries neither lineage nor a title.
pub record IsLate (agent id : String) (at ttl : ℕ) (w : World) (raw : RawHook) : Type 0 where
  pub agent' : raw.agent ≡ agent
  pub session : raw.session_id ≡ id
  pub in_time : ltb (w.now - at) ttl ≡ true
  pub kind :
      (raw.event ≡ "Telemetry") ⊎ (IsTurn raw × (lineage w raw ≡ none) × (title_of w raw ≡ none))

-- The handlers of hooks, one after another, each up to its end or its wait.
unfoldable pub serve : List (World × RawHook) → Bridge → Option Run
serve [] br = some (br, [])
serve ((w, raw) ∷ hooks) br =
    handle w br raw >>= λ out. serve hooks out.0.0 >>= λ run. some (run.0, out.0.1 ++ run.1)

-- The handlers have returned. They have sent nothing, and no object, no request and no reader has
-- changed.
pub record IsUnmoved (br : Bridge) (r : Option Run) : Type 0 where
  pub run : Run
  pub returns : r ≡ some run
  pub silent : run.1 ≡ []
  pub store : run.0.store ≡ br.store
  pub broker : run.0.broker ≡ br.broker
  pub readers : run.0.readers ≡ br.readers
  pub next_request : run.0.next_request ≡ br.next_request

-- One late hook.
module _ (agent id : String) (at ttl : ℕ) where
  abbrev key : String
  key = session_key agent id

  record Left (br : Bridge) (r : Option (Run × Option Waiting)) : Type 0 where
    bridge : Bridge
    returned : r ≡ some ((bridge, []), none)
    buried : IsBuried key at ttl bridge.ended
    store : bridge.store ≡ br.store
    broker : bridge.broker ≡ br.broker
    readers : bridge.readers ≡ br.readers
    next_request : bridge.next_request ≡ br.next_request

  late_handle :
      (w : World) (br : Bridge) (raw : RawHook)
      → IsLate agent id at ttl w raw
      → IsBuried key at ttl br.ended
      → Left br (handle w br raw)
  late_handle w br raw l b =
      let same : key ≡ key_of raw = rw (l.agent', l.session) refl in
      let (found, b') = contains-IsBuried key at ttl w.now br.ended l.in_time b in
      let late = late_hooks w br raw (rw same at found) in
      elim l.kind [
        | inl telemetry ↦ record {
          bridge = record br { ended = (Ended.contains br.ended (key_of raw) w.now).0 };
          returned = late.0 telemetry;
          buried = rw (← same) b';
          store = refl;
          broker = refl;
          readers = refl;
          next_request = refl;
        }
        | inr (turn, no_lineage, no_title) ↦
            let watch = maybe_watch_parent br raw.agent raw.session_id raw.parent_pid in
            let only = watch-parents br raw.agent raw.session_id raw.parent_pid in
            let untitled : session_title w (hook_of w br raw) ≡ none =
              unfold session_title hook_of in no_title in
            record {
              bridge = record watch { ended = (Ended.contains watch.ended (key_of raw) w.now).0 };
              returned = late.1 turn no_lineage untitled;
              buried = rw (ap (λ (b : Bridge). b.ended) only, ← same) b';
              store = ap (λ (b : Bridge). b.store) only;
              broker = ap (λ (b : Bridge). b.broker) only;
              readers = ap (λ (b : Bridge). b.readers) only;
              next_request = ap (λ (b : Bridge). b.next_request) only;
            }
      ]

  serve-IsUnmoved :
      (hooks : List (World × RawHook)) (br : Bridge)
      → All (λ (x : World × RawHook). IsLate agent id at ttl x.0 x.1) hooks
      → IsBuried key at ttl br.ended
      → IsUnmoved br (serve hooks br)
  unfolding serve
  serve-IsUnmoved [] br late b = record {
    run = (br, []);
    returns = refl;
    silent = refl;
    store = refl;
    broker = refl;
    readers = refl;
    next_request = refl;
  }
  serve-IsUnmoved ((w, raw) ∷ hooks) br late b =
      let l = late_handle w br raw late.0 b in
      let u = serve-IsUnmoved hooks l.bridge late.1 l.buried in
      record {
        run = (u.run.0, [] ++ u.run.1);
        returns = rw (l.returned, u.returns) refl;
        silent = u.silent;
        store = u.store ∙ l.store;
        broker = u.broker ∙ l.broker;
        readers = u.readers ∙ l.readers;
        next_request = u.next_request ∙ l.next_request;
      }

-- The removal of a session reads the tombstones after the reader is drained, which leaves them.
drained-ended :
    (w : World) (br : Bridge) (agent id : String) → (drained w br agent id).0.ended ≡ br.ended
unfolding drained drain drain_reader
drained-ended w br agent id = elim (Bool-cases (agent == "codex")) [
  | inl e ↦ rw e (go (Dict.get br.readers id))
  | inr e ↦ rw e refl
]
  where
    go :
        (found : Option Reader)
        → (forget_reader id true (drain_if w br id found).0).ended ≡ br.ended
    go none = refl
    go (some r) = refl

before_stamp :
    (clock at : ℕ) (o : List (String × ℕ))
    → clock < at
    → Reached clock o
    → All (λ (e : String × ℕ). e.1 < at) o
before_stamp clock at [] h r = tt
before_stamp clock at ((j, u) ∷ o) h r = (omega arith, before_stamp clock at o h r.1)

removal-IsBuried :
    (owned : List ℕ) (clock : ℕ) (w : World) (br : Bridge) (agent id : String) {run : Run}
    → clock < w.ended_at
    → IsSound owned clock br
    → 0 < br.ended.max_entries
    → remove_session w br agent id ≡ some run
    → IsBuried (session_key agent id) w.ended_at br.ended.ttl run.0.ended
unfolding remove_session remove_entry
removal-IsBuried owned clock w br agent id {run} h v pos e =
    let same = drained-ended w br agent id in
    let i =
      insert_total (drained w br agent id).0.ended (session_key agent id) w.pruned_at w.ended_at
        (rw same v.tombstones.valid)
        (rw same (before_stamp clock w.ended_at br.ended.order h v.tombstones.reached)) in
    let whole : some (removal w br agent id i.result) ≡ some run = rw i.returns at e in
    let runs : removal w br agent id i.result ≡ run = cc whole in
    let result : run.0.ended ≡ i.result = rw (← runs) refl in
    let full : 0 < (drained w br agent id).0.ended.max_entries = rw same pos in
    rw result (record {
      valid = i.valid;
      stamp = ground (arith, i.found, full);
      ttl' = i.ttl ∙ ap (λ (s : ExpiringSessionSet). s.ttl) same;
    })

-- When a session is removed in a sound state, at a time after the clock's, and the tombstones may
-- hold one at least, then hooks for it that come one after another within the time to live, be they
-- telemetry, or a start or an end of turn (`SessionStart`, `Stop` or `AfterAgent`) that carries
-- neither lineage nor a title, leave it off the bus: the handlers return and send nothing, and no
-- object, request or reader has changed since the removal.
pub late_hooks_lem :
    (owned : List ℕ) (clock : ℕ) (w : World) (br : Bridge) (agent id : String) {run : Run}
    (hooks : List (World × RawHook))
    → clock < w.ended_at
    → IsSound owned clock br
    → 0 < br.ended.max_entries
    → remove_session w br agent id ≡ some run
    → All (λ (x : World × RawHook). IsLate agent id w.ended_at br.ended.ttl x.0 x.1) hooks
    → (Dict.get run.0.store (session_path agent id) ≡ none) × IsUnmoved run.0 (serve hooks run.0)
late_hooks_lem owned clock w br agent id {run} hooks h v pos e late =
    let (run', returned, gone) = remove_session_lem owned clock w br agent id (omega arith) v in
    let same : run' ≡ run = cc (returned, e) in
    (
      rw same at gone.object,
      serve-IsUnmoved agent id w.ended_at br.ended.ttl hooks run.0 late
          (removal-IsBuried owned clock w br agent id h v pos e),
    )
