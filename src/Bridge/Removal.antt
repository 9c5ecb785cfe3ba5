-- ===== src/Bridge/Removal.antt =====
-- The removal of a session ends, and keeps what is true of the state.
use claude_dbus.Prelude.{
  Bool, true, false, List, String, ℕ, zero, suc, ◌≤◌, ◌≡◌, refl, Option, none, some, true, ◌==◌,
  arith, Bool-cases, Option-cases, inl, inr,
}
use claude_dbus.Ended.{ExpiringSessionSet}
use claude_dbus.Dict
use claude_dbus.Core.Path.{session_path, session_key}
use claude_dbus.Broker.{RequestBroker}
use claude_dbus.Session.Object.{SessionObject}
use claude_dbus.Session.Pending.{cancel_pending_requests}
use claude_dbus.Session.Pending.Attention.{refresh-IsConsistent}
use claude_dbus.Ended.Total.{IsCurrent, insert_settles, IsCurrent-later}
use claude_dbus.Codex.Telemetry
use claude_dbus.Codex.Telemetry.{Parser}
use claude_dbus.Codex.Reader
use claude_dbus.Codex.Reader.{Reader}
use claude_dbus.Bus.Store
use claude_dbus.Bus.Store.{Store, session_exists}
use claude_dbus.Bridge.{
  Bridge, World, Run, ◌and_then◌, rollout, drain_reader, drain_if, drain, forget_reader, drained,
  retire, remove_object, remove_entry, remove_session,
}
use claude_dbus.Bridge.Sound.{
  AllConsistent, IsSound, Shrinks, applied-IsConsistent, cancel_pending-Shrinks,
}
use claude_dbus.Bridge.Keeps.{insert-AllConsistent, remove-AllConsistent, shrunk-AllOwned}

-- The same for the update of an object that may be missing.
existing-AllConsistent :
    (store : Store) (agent id : String) (parser : Parser)
    → AllConsistent store
    → AllConsistent (Store.update_existing_session store agent id (Telemetry.apply parser)).0
unfolding Store.update_existing_session Store.updated
existing-AllConsistent store agent id parser all =
    elim (Option-cases (Dict.get store (session_path agent id))) [
      | inl e ↦ rw e all
      | inr (s, e) ↦
          let v = all _ s e in
          rw e (
            insert-AllConsistent store (session_path agent id) _ all (
              applied-IsConsistent parser (Store.renamed s agent id)
                (record { attention = v.attention; bounded = v.bounded })))
    ]

drain_reader-IsSound :
    (owned : List ℕ) (clock : ℕ) (w : World) (br : Bridge) (id : String) (r : Reader)
    → IsSound owned clock br
    → IsSound owned clock (drain_reader w br id r).0
unfolding drain_reader
drain_reader-IsSound owned clock w br id r v = record {
  objects =
      existing-AllConsistent br.store "codex" id
        (Reader.read w.from_slice r (rollout w id)).0.parser v.objects;
  requests = v.requests;
  tombstones = v.tombstones;
}

drain_if-IsSound :
    (owned : List ℕ) (clock : ℕ) (w : World) (br : Bridge) (id : String) (r : Option Reader)
    → IsSound owned clock br
    → IsSound owned clock (drain_if w br id r).0
drain_if-IsSound owned clock w br id none v = v
drain_if-IsSound owned clock w br id (some r) v = drain_reader-IsSound owned clock w br id r v

forget-IsSound :
    (owned : List ℕ) (clock : ℕ) (id : String) (remove : Bool) (br : Bridge)
    → IsSound owned clock br
    → IsSound owned clock (forget_reader id remove br)
forget-IsSound owned clock id true br v = record {
  objects = v.objects;
  requests = v.requests;
  tombstones = v.tombstones;
}
forget-IsSound owned clock id false br v = v

pub drain-IsSound :
    (owned : List ℕ) (clock : ℕ) (w : World) (br : Bridge) (id : String) (remove : Bool)
    → IsSound owned clock br
    → IsSound owned clock (drain w br id remove).0
unfolding drain
drain-IsSound owned clock w br id remove v =
    forget-IsSound owned clock id remove _
      (drain_if-IsSound owned clock w br id (Dict.get br.readers id) v)

drained-IsSound :
    (owned : List ℕ) (clock : ℕ) (w : World) (br : Bridge) (agent id : String)
    → IsSound owned clock br
    → IsSound owned clock (drained w br agent id).0
unfolding drained
drained-IsSound owned clock w br agent id v = elim (Bool-cases (agent == "codex")) [
  | inl e ↦ rw e (drain-IsSound owned clock w br id true v)
  | inr e ↦ rw e v
]

remove_object-AllConsistent :
    (n : ℕ) (store : Store) (path : String)
    → AllConsistent store
    → AllConsistent (remove_object n store path)
unfolding remove_object
remove_object-AllConsistent zero store path all = all
remove_object-AllConsistent (suc n) store path all =
    let next = remove-AllConsistent store path all in
    elim (Bool-cases (session_exists (Dict.remove store path) path)) [
      | inl e ↦ rw e (remove_object-AllConsistent n (Dict.remove store path) path next)
      | inr e ↦ rw e next
    ]

-- The object that goes keeps the others as they are.
retire-AllConsistent :
    (store : Store) (path : String) (b : RequestBroker) (found : Option SessionObject)
    → AllConsistent store
    → AllConsistent (retire store path b found).0
unfolding cancel_pending_requests
retire-AllConsistent store path b none all = all
retire-AllConsistent store path b (some s) all =
    insert-AllConsistent store path _ all (refresh-IsConsistent _ (omega arith))

retire-Shrinks :
    (store : Store) (path : String) (b : RequestBroker) (found : Option SessionObject)
    → Shrinks b (retire store path b found).1
retire-Shrinks store path b none = λ j n x. x
retire-Shrinks store path b (some s) = cancel_pending-Shrinks s b

remove_entry-IsSound :
    (owned : List ℕ) (clock : ℕ) (br : Bridge) (agent id : String)
    → IsSound owned clock br
    → IsSound owned clock (remove_entry br agent id).0
unfolding remove_entry
remove_entry-IsSound owned clock br agent id v =
    let path = session_path agent id in
    let found = Dict.get br.store path in
    record {
      objects =
          remove_object-AllConsistent 3 _ path
            (retire-AllConsistent br.store path br.broker found v.objects);
      requests =
          shrunk-AllOwned owned br.broker (retire br.store path br.broker found).1 br.next_request
            (retire-Shrinks br.store path br.broker found) v.requests;
      tombstones = v.tombstones;
    }

-- What `remove_session` gives once its tombstone stands.
abbrev pub removal : World → Bridge → String → String → ExpiringSessionSet → Run
removal w br agent id ended =
    let (br1, effects) = drained w br agent id in
    (record br1 { ended = ended }, effects) and_then λ br2. remove_entry br2 agent id

-- It comes that far.
pub removal_settles :
    (owned : List ℕ) (clock : ℕ) (w : World) (br : Bridge) (agent id : String)
    → clock ≤ w.ended_at
    → IsSound owned clock br
    → (ended : ExpiringSessionSet) × (remove_session w br agent id
        ≡ some (removal w br agent id ended))
      × IsCurrent w.ended_at ended
unfolding remove_session
removal_settles owned clock w br agent id h v =
    let d = drained-IsSound owned clock w br agent id v in
    let r =
      insert_settles clock w.pruned_at w.ended_at (drained w br agent id).0.ended
        (session_key agent id) h d.tombstones in
    (r.result, rw r.returned refl, r.current)

-- `remove_session` returned, with a sound state.
pub record Removed (owned : List ℕ) (clock : ℕ) (r : Option Run) : Type 0 where
  pub run : Run
  pub returned : r ≡ some run
  pub sound : IsSound owned clock run.0

pub remove_session_returns :
    (owned : List ℕ) (clock clock' : ℕ) (w : World) (br : Bridge) (agent id : String)
    → clock ≤ w.ended_at
    → w.ended_at ≤ clock'
    → IsSound owned clock br
    → Removed owned clock' (remove_session w br agent id)
remove_session_returns owned clock clock' w br agent id h h' v =
    let d = drained-IsSound owned clock w br agent id v in
    let (ended, returned, current) = removal_settles owned clock w br agent id h v in
    record {
      run = removal w br agent id ended;
      returned = returned;
      sound = remove_entry-IsSound owned clock' _ agent id (record {
        objects = d.objects;
        requests = d.requests;
        tombstones = IsCurrent-later w.ended_at clock' ended h' current;
      });
    }
