-- ===== src/Bridge/Gone.antt =====
-- What the removal of a session does to it, and to the others.
use claude_dbus.Prelude.{
  String, ℕ, suc, ◌≤◌, ◌≡◌, refl, sym, ap, ◌∙◌, List, Option, none, some, true, false, ◌==◌, eq_iff,
  arith, Bool-cases, Option-cases, inl, inr, mem,
}
use claude_dbus.Dict
use claude_dbus.Dict.Laws.{get-insert, get-remove, get-remove_self, get-insert_self}
use claude_dbus.Core.Path.{session_path, session_key}
use claude_dbus.Broker.{RequestBroker, waiting, answered}
use claude_dbus.Broker.Answers.{IsUnshared, cancel_all_answers}
use claude_dbus.Session.Object.{SessionObject}
use claude_dbus.Session.Pending.{cancel_pending_requests, ids}
use claude_dbus.Codex.Telemetry
use claude_dbus.Codex.Telemetry.{Parser}
use claude_dbus.Codex.Reader
use claude_dbus.Codex.Reader.{Reader}
use claude_dbus.Bus.Store
use claude_dbus.Bus.Store.{Store, session_exists}
use claude_dbus.Bridge.{
  Bridge, World, Run, rollout, drain_reader, drain_if, drain, drained, retire, remove_object,
  remove_entry, remove_session,
}
use claude_dbus.Bridge.Sound.{AllOwned, IsSound}
use claude_dbus.Bridge.Removal.{removal, removal_settles}

-- In a sound state no two requests share a channel.
pub sound-IsUnshared :
    (owned : List ℕ) (b : RequestBroker) (next : ℕ) → AllOwned owned b next → IsUnshared b
sound-IsUnshared owned b next all j k tx hj hk = (all j tx hj).1 ∙ sym (all k tx hk).1

-- The object that is found has gone; it had these requests.
record IsDrained (path : String) (store store' : Store) : Type 0 where
  others : (p : String) → (path == p) ≡ false → Dict.get store' p ≡ Dict.get store p
  pending :
      (s : SessionObject)
      → Dict.get store path ≡ some s
      → (s' : SessionObject) × (Dict.get store' path ≡ some s')
        × (s'.pending_requests ≡ s.pending_requests)

same-IsDrained : (path : String) (store : Store) → IsDrained path store store
same-IsDrained path store = record { others = λ p e. refl; pending = λ s e. (s, e, refl) }

existing-IsDrained :
    (store : Store) (agent id : String) (parser : Parser)
    → IsDrained
        (session_path agent id)
        store
        (Store.update_existing_session store agent id (Telemetry.apply parser)).0
unfolding Store.update_existing_session Store.updated Telemetry.apply
existing-IsDrained store agent id parser =
    let path = session_path agent id in
    elim (Option-cases (Dict.get store path)) [
      | inl e ↦ rw e (same-IsDrained path store)
      | inr (t, e) ↦
          let t' = Telemetry.apply parser (Store.renamed t agent id) in
          rw e (record {
            others = λ p ne. get-insert store path p t' ∙ rw ne refl;
            pending = λ s h.
                let same : t ≡ s = ground arith in
                (
                  t',
                  get-insert_self store path t',
                  ap (λ (u : SessionObject). u.pending_requests) same,
                );
          })
    ]

-- The final telemetry changes the object of the session alone, and nothing else of the state.
record IsSettled (path : String) (br br' : Bridge) : Type 0 where
  drained' : IsDrained path br.store br'.store
  broker : br'.broker ≡ br.broker
  parents : br'.parents ≡ br.parents

drain_if-IsSettled :
    (w : World) (br : Bridge) (id : String) (r : Option Reader)
    → IsSettled (session_path "codex" id) br (drain_if w br id r).0
unfolding drain_reader
drain_if-IsSettled w br id none = record {
  drained' = same-IsDrained _ br.store;
  broker = refl;
  parents = refl;
}
drain_if-IsSettled w br id (some r) = record {
  drained' =
      existing-IsDrained br.store "codex" id (Reader.read w.from_slice r (rollout w id)).0.parser;
  broker = refl;
  parents = refl;
}

drained-IsSettled :
    (w : World) (br : Bridge) (agent id : String)
    → IsSettled (session_path agent id) br (drained w br agent id).0
unfolding drained drain
drained-IsSettled w br agent id = elim (Bool-cases (agent == "codex")) [
  | inl e ↦
      let same : agent ≡ "codex" = (eq_iff agent "codex").0 e in
      let d = drain_if-IsSettled w br id (Dict.get br.readers id) in
      rw (e, same) (record { drained' = d.drained'; broker = d.broker; parents = d.parents })
  | inr e ↦ rw e (record { drained' = same-IsDrained _ br.store; broker = refl; parents = refl })
]

-- The first attempt to remove an object succeeds.
remove_object_lem :
    (n : ℕ) (store : Store) (path : String)
    → remove_object (suc n) store path ≡ Dict.remove store path
unfolding remove_object session_exists
remove_object_lem n store path = rw (get-remove_self store path) refl

-- What is left when a session has been removed.
pub record IsGone (agent id : String) (br br' : Bridge) : Type 0 where
  pub object : Dict.get br'.store (session_path agent id) ≡ none
  pub others :
      (path : String)
      → (session_path agent id == path) ≡ false
      → Dict.get br'.store path ≡ Dict.get br.store path
  pub parent : Dict.get br'.parents (session_key agent id) ≡ none
  pub other_parents :
      (key : String)
      → (session_key agent id == key) ≡ false
      → Dict.get br'.parents key ≡ Dict.get br.parents key
  pub told :
      (s : SessionObject) (request : String) (tx : ℕ)
      → Dict.get br.store (session_path agent id) ≡ some s
      → mem request (ids s.pending_requests) ≡ true
      → Dict.get br.broker.inner request ≡ some tx
      → br.broker.channels tx ≡ waiting
      → br'.broker.channels tx ≡ answered ""

retired-others :
    (store : Store) (path p : String) (b : RequestBroker) (found : Option SessionObject)
    → (path == p) ≡ false
    → Dict.get (retire store path b found).0 p ≡ Dict.get store p
unfolding cancel_pending_requests
retired-others store path p b none ne = refl
retired-others store path p b (some s) ne = get-insert store path p _ ∙ rw ne refl

entry-IsGone :
    (br br1 : Bridge) (agent id : String)
    → IsUnshared br.broker
    → IsSettled (session_path agent id) br br1
    → IsGone agent id br (remove_entry br1 agent id).0
unfolding remove_entry cancel_pending_requests
entry-IsGone br br1 agent id u d =
    let path = session_path agent id in
    let found = Dict.get br1.store path in
    let store = (retire br1.store path br1.broker found).0 in
    record {
      object = rw (remove_object_lem 2 store path) (get-remove_self store path);
      others = λ p ne. rw (remove_object_lem 2 store path) (
          get-remove store path p
          ∙ rw ne (retired-others br1.store path p br1.broker found ne ∙ d.drained'.others p ne));
      parent = get-remove_self br1.parents (session_key agent id);
      other_parents =
          λ key ne. get-remove br1.parents (session_key agent id) key ∙ rw (ne, d.parents) refl;
      told = λ s request tx h m i wait.
          let (s', h', same) = d.drained'.pending s h in
          rw (h', same, d.broker)
            (cancel_all_answers br.broker (ids s.pending_requests) request tx u i wait ∙ rw m refl);
    }

-- In a sound state the removal of a session ends. Its object has gone and its parent is not watched,
-- every other object and every other watched parent is as before, and each handler that waited for an
-- answer to one of its pending requests hears the empty answer.
pub remove_session_lem :
    (owned : List ℕ) (clock : ℕ) (w : World) (br : Bridge) (agent id : String)
    → clock ≤ w.ended_at
    → IsSound owned clock br
    → (run : Run) × (remove_session w br agent id ≡ some run) × IsGone agent id br run.0
remove_session_lem owned clock w br agent id h v =
    let (ended, returned, current) = removal_settles owned clock w br agent id h v in
    let d = drained-IsSettled w br agent id in
    (
      removal w br agent id ended,
      returned,
      entry-IsGone br (record (drained w br agent id).0 { ended = ended }) agent id
          (sound-IsUnshared owned br.broker br.next_request v.requests)
          (record { drained' = d.drained'; broker = d.broker; parents = d.parents }),
    )
