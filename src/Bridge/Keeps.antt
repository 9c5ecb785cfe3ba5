-- ===== src/Bridge/Keeps.antt =====
-- The operations on the state of the service keep what is true of it.
use claude_dbus.Prelude.{
  List, String, ℕ, ◌≡◌, refl, ◌==◌, arith, Bool-cases, Option-cases, inl, inr,
}
use claude_dbus.Dict
use claude_dbus.Dict.Laws.{get-insert, get-remove}
use claude_dbus.Core.Path.{session_path}
use claude_dbus.Broker.{RequestBroker}
use claude_dbus.Session.Object.{SessionObject}
use claude_dbus.Session.Pending.Attention.{IsConsistent}
use claude_dbus.Bus.Store
use claude_dbus.Bus.Store.{Store, session_exists}
use claude_dbus.Bridge.{Bridge, World, Update, subject, dbus_update, update_hook, update_session}
use claude_dbus.Bridge.Sound.{
  AllConsistent, AllOwned, IsSound, IsSafe, Shrinks, new-IsConsistent, telemetry-IsSafe,
}

pub insert-AllConsistent :
    (store : Store) (path : String) (s : SessionObject)
    → AllConsistent store
    → IsConsistent s
    → AllConsistent (Dict.insert store path s)
insert-AllConsistent store path s all v p t h = elim (Bool-cases (path == p)) [
  | inl e ↦ let same : s ≡ t = ground (arith, get-insert store path p s) in rw (← same) v
  | inr e ↦ all p t (ground (arith, get-insert store path p s))
]

pub remove-AllConsistent :
    (store : Store) (path : String) → AllConsistent store → AllConsistent (Dict.remove store path)
remove-AllConsistent store path all p t h = all p t (ground (arith, get-remove store path p))

-- An update stores what its closure gives, and numbers stay given out.
pub store_lem :
    (store : Store) (agent id : String) (s : SessionObject)
    → (Store.update_session store agent id (λ _. s)).0 ≡ Dict.insert store (session_path agent id) s
unfolding Store.update_session Store.updated
store_lem store agent id s = elim (Option-cases (Dict.get store (session_path agent id))) [
  | inl e ↦ rw e refl
  | inr (t, e) ↦ rw e refl
]

pub shrunk-AllOwned :
    (owned : List ℕ) (b b' : RequestBroker) (next : ℕ)
    → Shrinks b b'
    → AllOwned owned b next
    → AllOwned owned b' next
shrunk-AllOwned owned b b' next sh all id n h = all id n (sh id n h)

subject-IsConsistent :
    (store : Store) (agent id : String)
    → AllConsistent store
    → IsConsistent (subject store agent id)
subject-IsConsistent store agent id all =
    elim (Option-cases (Dict.get store (session_path agent id))) [
      | inl e ↦ rw e (new-IsConsistent agent id)
      | inr (s, e) ↦
          let v = all _ s e in rw e (record { attention = v.attention; bounded = v.bounded })
    ]

pub dbus_update-IsSound :
    (owned : List ℕ) (clock : ℕ) (br : Bridge) (agent id : String) (f : Update)
    → IsSafe f
    → IsSound owned clock br
    → IsSound owned clock (dbus_update br agent id f).0
unfolding dbus_update
dbus_update-IsSound owned clock br agent id f safe v =
    let s = subject br.store agent id in
    let r = f s br.broker in
    record {
      objects = rw (store_lem br.store agent id r.0) (
          insert-AllConsistent br.store (session_path agent id) r.0 v.objects
            (safe.consistent s br.broker (subject-IsConsistent br.store agent id v.objects)));
      requests =
          shrunk-AllOwned owned br.broker r.1 br.next_request (safe.shrinks s br.broker) v.requests;
      tombstones = v.tombstones;
    }

update_hook-IsSound :
    (owned : List ℕ) (clock : ℕ) (w : World) (br : Bridge) (id : String) (f : Update)
    → IsSafe f
    → IsSound owned clock br
    → IsSound owned clock (update_hook w br id f).0
unfolding update_hook
update_hook-IsSound owned clock w br id f safe v =
    dbus_update-IsSound owned clock _ "codex" id _ (telemetry-IsSafe _ f safe)
      (record { objects = v.objects; requests = v.requests; tombstones = v.tombstones })

pub update_session-IsSound :
    (owned : List ℕ) (clock : ℕ) (w : World) (br : Bridge) (agent id : String) (f : Update)
    → IsSafe f
    → IsSound owned clock br
    → IsSound owned clock (update_session w br agent id f).0
unfolding update_session
update_session-IsSound owned clock w br agent id f safe v = elim (Bool-cases (agent == "codex")) [
  | inl e ↦ rw e (update_hook-IsSound owned clock w br id f safe v)
  | inr e ↦ rw e (dbus_update-IsSound owned clock br agent id f safe v)
]
