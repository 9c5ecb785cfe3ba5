-- ===== src/Bus/Store.antt =====
-- agent-dbus-service/src/dbus.rs: the session objects on the object server, by their paths, and how a
-- session is created or updated. The server accepts each new object.
use claude_dbus.Prelude.{
  String, ◌<◌, ◌≡◌, refl, ap, List, Option, none, some, Bool, ◌==◌, if◌then◌else◌, length, is_some,
}
use claude_dbus.Dict
use claude_dbus.Dict.{Dict}
use claude_dbus.Dict.Laws.{get-insert}
use claude_dbus.Core.Path.{session_path}
use claude_dbus.Session.Object.{SessionObject, new}
use claude_dbus.Bus.{snapshot, emit_changed_properties}
use claude_dbus.Bus.Properties.{emit_lem, changed_between, properties}

-- What clients hear of an update: a new object with all its properties, or changed properties.
pub data Signals : Type 0 where
  quiet : Signals
  interfaces_added : SessionObject → Signals
  properties_changed : List String → Signals

abbrev pub Store : Type 0
Store = Dict SessionObject

unfoldable pub session_exists : Store → String → Bool
session_exists store path = is_some (Dict.get store path)

-- The names are set again before the update runs.
abbrev pub renamed : SessionObject → String → String → SessionObject
renamed s agent id = record s { agent_name = agent; session_id = id }

unfoldable pub updated : Store → String → SessionObject → SessionObject → Store × Signals
updated store path before after = (
  Dict.insert store path after,
  properties_changed (emit_changed_properties (snapshot before) (snapshot after)),
)

abbrev pub create_or_update :
    Store
    → String
    → String
    → (SessionObject → SessionObject)
    → Option SessionObject
    → Store × Signals
create_or_update store agent id f none =
    let s = f (new agent id) in (Dict.insert store (session_path agent id) s, interfaces_added s)
create_or_update store agent id f (some s) =
    updated store (session_path agent id) s (f (renamed s agent id))

unfoldable pub update_session :
    Store → String → String → (SessionObject → SessionObject) → Store × Signals
update_session store agent id f =
    create_or_update store agent id f (Dict.get store (session_path agent id))

abbrev pub update_if_there :
    Store
    → String
    → String
    → (SessionObject → SessionObject)
    → Option SessionObject
    → Store × Signals
update_if_there store agent id f none = (store, quiet)
update_if_there store agent id f (some s) =
    updated store (session_path agent id) s (f (renamed s agent id))

unfoldable pub update_existing_session :
    Store → String → String → (SessionObject → SessionObject) → Store × Signals
update_existing_session store agent id f =
    update_if_there store agent id f (Dict.get store (session_path agent id))

-- The first update of a session publishes one object that already carries it: no client sees an
-- object without it, and no other object changes.
pub update_session-new :
    (store : Store) (agent id path : String) (f : SessionObject → SessionObject)
    → Dict.get store (session_path agent id) ≡ none
    → ((update_session store agent id f).1 ≡ interfaces_added (f (new agent id)))
      × (Dict.get (update_session store agent id f).0 path ≡ (
          if session_path agent id == path then some (f (new agent id)) else Dict.get store path))
unfolding update_session
update_session-new store agent id path f absent =
    rw absent (refl, get-insert store (session_path agent id) path (f (new agent id)))

-- An update of a session that exists, with fewer than 2 ^ 32 pending requests before and after,
-- changes its object alone, and announces exactly the properties that a client reads differently; an
-- update that must not create the session does the same.
pub update_session-existing :
    (store : Store) (agent id path : String) (s : SessionObject) (f : SessionObject → SessionObject)
    → Dict.get store (session_path agent id) ≡ some s
    → length s.pending_requests < 4294967296
    → length (f (renamed s agent id)).pending_requests < 4294967296
    → let s' = f (renamed s agent id) in
      ((update_session store agent id f).1
        ≡ properties_changed (changed_between (properties s) (properties s')))
      × (Dict.get (update_session store agent id f).0 path
          ≡ (if session_path agent id == path then some s' else Dict.get store path))
      × (update_existing_session store agent id f ≡ update_session store agent id f)
unfolding update_session update_existing_session updated
update_session-existing store agent id path s f there h h' =
    let s' = f (renamed s agent id) in
    rw there (
      ap properties_changed (emit_lem s s' h h'),
      get-insert store (session_path agent id) path s',
      refl,
    )
