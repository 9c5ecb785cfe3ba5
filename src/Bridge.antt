-- ===== src/Bridge.antt =====
-- The state of the service, and agent-dbus-service/src/session_store.rs on it, with `update_hook` and
-- `drain` of providers/codex/telemetry.rs and `maybe_watch_parent` of session_parents.rs. What the
-- service sends is a list of effects. `none` stands for a loop that never ends.
pub mod Keeps
pub mod Removal
pub mod Served
pub mod Steps
pub mod Gone
pub mod Answer
pub mod Late
pub mod Buried
pub mod Fresh
pub mod Fate
pub mod Carried
pub mod Shown
pub mod Watchers
pub mod Invariant
pub mod Reaped
pub mod Turn
pub mod System
pub mod Sound
pub mod Wait
pub mod Watch
pub mod Handler
use claude_dbus.Prelude.{
  String, ℕ, zero, suc, List, [], ◌∷◌, ◌++◌, map, Option, none, some, Bool, true, false, ◌&&◌, ◌==◌,
  not, eqb, if◌then◌else◌, unwrap_or, ◌>>=◌,
}
use claude_dbus.Dict
use claude_dbus.Dict.{Dict}
use claude_dbus.Json.{Value}
use claude_dbus.Core.Path.{session_path, session_key}
use claude_dbus.Core.Telemetry.{UsageReport}
use claude_dbus.Ended
use claude_dbus.Ended.{ExpiringSessionSet}
use claude_dbus.Broker.{RequestBroker}
use claude_dbus.Session.Object.{SessionObject, new}
use claude_dbus.Session.Pending.{cancel_pending_requests}
use claude_dbus.Codex.Telemetry
use claude_dbus.Codex.Reader
use claude_dbus.Codex.Reader.{Reader, OpenFile, default_reader}
use claude_dbus.Service.Metrics.{CodexSessionMetrics}
use claude_dbus.Bus.Store
use claude_dbus.Bus.Store.{Store, Signals, session_exists, renamed}
use claude_dbus.Locus
use claude_dbus.Locus.{non_empty}

pub record Bridge : Type 0 where
  -- the objects on the object server, by path
  pub store : Store
  pub broker : RequestBroker
  pub ended : ExpiringSessionSet
  -- `SessionParents`: the pids by session key
  pub parents : Dict ℕ
  -- `readers()` of the Codex telemetry, by session id
  pub readers : Dict Reader
  -- `NEXT_PENDING_REQUEST_ID`; the channel of a request has the same number
  pub next_request : ℕ

-- What the world answers while one step of the service runs: files, processes and the clock.
pub record World : Type 0 where
  pub from_slice : List ℕ → Option Value
  pub from_str : String → Option Value
  pub to_string : Value → String
  pub to_string_pretty : Value → String
  pub read_file : String → Option String
  -- `codex_session_file`, and how the file opens
  pub session_file : String → Option String
  pub open_file : String → Option OpenFile
  pub codex_metrics : String → Option CodexSessionMetrics
  pub codex_title : String → Option String
  pub codex_config : Option String
  pub process_exists : ℕ → Bool
  -- the clock readings of a test of the tombstones, and of `insert` at its `prune` and itself
  pub now : ℕ
  pub pruned_at : ℕ
  pub ended_at : ℕ

pub data Effect : Type 0 where
  signalled : String → Signals → Effect
  reported : String → UsageReport → Effect
  notified : String → String → Effect
  -- the signals of `emit_pending_changed`
  pending_changed : String → Effect
  -- path, request id, prompt, options and their descriptions: the four elicitation signals
  elicited : String → String → String → List String → List String → Effect
  located : Locus.Call → Effect
  -- bytes for the hook
  wrote : String → Effect

abbrev pub Run : Type 0
Run = Bridge × List Effect

abbrev pub and_effects : List Effect → List Effect → List Effect
and_effects es es' = es ++ es'

infixl 5 ◌and_then◌
abbrev pub ◌and_then◌ : Run → (Bridge → Run) → Run
(br, es) and_then k = let (br', es') = k br in (br', es ++ es')

-- An update of a session: a closure that reaches the broker.
abbrev pub Update : Type 0
Update = SessionObject → RequestBroker → SessionObject × RequestBroker

-- The object that the closure gets.
abbrev pub subject_or : Option SessionObject → String → String → SessionObject
subject_or none agent id = new agent id
subject_or (some s) agent id = renamed s agent id

abbrev pub subject : Store → String → String → SessionObject
subject store agent id = subject_or (Dict.get store (session_path agent id)) agent id

-- `dbus::update_session`
unfoldable pub dbus_update : Bridge → String → String → Update → Run
dbus_update br agent id f =
    let (s, broker) = f (subject br.store agent id) br.broker in
    let (store, signals) = Store.update_session br.store agent id (λ _. s) in
    (record br { store = store; broker = broker }, signalled (session_path agent id) signals ∷ [])

-- `telemetry::emit`: nothing is emitted for a session with no object.
unfoldable pub emit : Bridge → String → List UsageReport → List Effect
emit br id reports =
    let path = session_path "codex" id in
    if session_exists br.store path then map (reported path) reports else []

-- A model that a hook does not name stays.
abbrev pub keep_model : String → SessionObject → SessionObject
keep_model previous s =
    if s.model_name == "unknown" && not (previous == "")
    then record s { model_name = previous }
    else s

abbrev pub rollout : World → String → Option (String × Option OpenFile)
rollout w id = w.session_file id >>= λ path. some (path, w.open_file path)

abbrev pub reader_of : Bridge → String → Reader
reader_of br id = unwrap_or (Dict.get br.readers id) default_reader

-- The closure of `update_hook`.
abbrev pub with_telemetry : Telemetry.Parser → Update → Update
with_telemetry parser f s b =
    let (s', b') = f s b in (Telemetry.apply parser (keep_model s.model_name s'), b')

unfoldable pub update_hook : World → Bridge → String → Update → Run
unfolding dbus_update emit
update_hook w br id f =
    let (reader, reports) = Reader.read w.from_slice (reader_of br id) (rollout w id) in
    let (br', effects) =
      dbus_update (record br { readers = Dict.insert br.readers id reader }) "codex" id
        (with_telemetry reader.parser f) in
    (br', effects ++ emit br' id reports)

-- `session_store::update_session`
unfoldable pub update_session : World → Bridge → String → String → Update → Run
update_session w br agent id f =
    if agent == "codex" then update_hook w br id f else dbus_update br agent id f

-- The part of `drain` for a session with a reader.
unfoldable pub drain_reader : World → Bridge → String → Reader → Run
unfolding emit
drain_reader w br id r =
    let (reader, reports) = Reader.read w.from_slice r (rollout w id) in
    let (store, signals) =
      Store.update_existing_session br.store "codex" id (Telemetry.apply reader.parser) in
    let br' = record br { store = store; readers = Dict.insert br.readers id reader } in
    (br', signalled (session_path "codex" id) signals ∷ emit br' id reports)

abbrev pub drain_if : World → Bridge → String → Option Reader → Run
drain_if w br id none = (br, [])
drain_if w br id (some r) = drain_reader w br id r

abbrev pub forget_reader : String → Bool → Bridge → Bridge
forget_reader id remove br =
    if remove then record br { readers = Dict.remove br.readers id } else br

unfoldable pub drain : World → Bridge → String → Bool → Run
unfolding drain_reader
drain w br id remove =
    let (br', effects) = drain_if w br id (Dict.get br.readers id) in
    (forget_reader id remove br', effects)

-- The object of a session that goes: its requests are cancelled, and its links are known.
abbrev pub retire : Store → String → RequestBroker → Option SessionObject → Store × RequestBroker
retire store path b none = (store, b)
retire store path b (some s) =
    let (s', n, b') = cancel_pending_requests s b in (Dict.insert store path s', b')

abbrev pub link_of : (SessionObject → String) → Option SessionObject → Option String
link_of field none = none
link_of field (some s) = non_empty (field s)

-- At most three attempts to take the object off the server.
unfoldable pub remove_object : ℕ → Store → String → Store
remove_object zero store path = store
remove_object (suc n) store path =
    let removed = Dict.remove store path in
    let rest = remove_object n removed path in if session_exists removed path then rest else removed

-- `remove_session` once the tombstone stands.
unfoldable pub remove_entry : Bridge → String → String → Run
unfolding remove_object
remove_entry br agent id =
    let path = session_path agent id in
    let found = Dict.get br.store path in
    let (store, broker) = retire br.store path br.broker found in
    (
      record br {
        store = remove_object 3 store path;
        broker = broker;
        parents = Dict.remove br.parents (session_key agent id);
      },
      map located (
          Locus.unlink_session agent id (link_of (λ s. s.app_instance_id) found)
            (link_of (λ s. s.window_id) found)),
    )

abbrev pub with_tombstone : Option ExpiringSessionSet → Bridge → Option Bridge
with_tombstone none br = none
with_tombstone (some ended) br = some (record br { ended = ended })

unfoldable pub drained : World → Bridge → String → String → Run
unfolding drain
drained w br agent id = if agent == "codex" then drain w br id true else (br, [])

unfoldable pub remove_session : World → Bridge → String → String → Option Run
unfolding drained remove_entry
remove_session w br agent id =
    let (br1, effects) = drained w br agent id in
    with_tombstone (Ended.insert br1.ended (session_key agent id) w.pruned_at w.ended_at) br1
    >>= λ br2. some ((br2, effects) and_then λ br. remove_entry br agent id)

abbrev pub is_pid : ℕ → Option ℕ → Bool
is_pid pid none = false
is_pid pid (some p) = eqb p pid

-- `maybe_watch_parent`
unfoldable pub maybe_watch_parent : Bridge → String → String → Option ℕ → Bridge
maybe_watch_parent br agent id none = br
maybe_watch_parent br agent id (some pid) =
    let key = session_key agent id in
    let known = is_pid pid (Dict.get br.parents key) in
    if id == "unknown"
    then br
    else if known
    then br
    else record br { parents = Dict.insert br.parents key pid }
