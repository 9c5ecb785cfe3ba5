-- ===== src/Bridge/System.antt =====
-- The service as a whole: hooks arrive, clients answer, handlers go on after their wait, and the
-- watchers of parents, telemetry, compactions and titles take their turns, in any order. A step
-- that reads the clock ends no earlier than it starts.
use claude_dbus.Prelude.{String, ℕ, false, ◌≡◌, List, [], ◌∷◌, ◌++◌, map, Option, none, some, Bool}
use claude_dbus.Dict
use claude_dbus.Ended
use claude_dbus.Broker.{RequestBroker, waiting}
use claude_dbus.Session.Object.{SessionObject}
use claude_dbus.Session.Respond.{respond_to_elicitation, respond_to_elicitation_by_id}
use claude_dbus.Service.Events.{Hook}
use claude_dbus.Codex.Compact.{compact_watcher}
use claude_dbus.Codex.Title.{Seen, title_watcher}
use claude_dbus.Bridge.{Bridge, World, Run, drain}
use claude_dbus.Bridge.Wait.{Waiting}
use claude_dbus.Bridge.Handler.{RawHook, hook_of, handle, resume}
use claude_dbus.Bridge.Watch.{tick}
use claude_dbus.Bridge.Served.{IsTimely}

-- A handler that waits.
pub record Held : Type 0 where
  pub raw : RawHook
  pub hook : Hook
  pub wait : Waiting

pub record System : Type 0 where
  pub bridge : Bridge
  pub clock : ℕ
  pub held : List Held

abbrev pub numbers : List Held → List ℕ
numbers = map λ x. x.wait.number

abbrev pub hold : RawHook → Hook → Option Waiting → List Held → List Held
hold raw h none held = held
hold raw h (some wait) held = record { raw = raw; hook = h; wait = wait } ∷ held

-- The method that a client calls: with the id of a request, or without one.
abbrev pub respond_method :
    SessionObject → RequestBroker → Option String → String → SessionObject × RequestBroker × Bool
respond_method s b none answer = respond_to_elicitation s b answer
respond_method s b (some id) answer = respond_to_elicitation_by_id s b id answer

abbrev pub respond_object : Bridge → String → Option String → String → Option SessionObject → Bridge
respond_object br path id answer none = br
respond_object br path id answer (some s) =
    let (s', broker, emitted) = respond_method s br.broker id answer in
    record br { store = Dict.insert br.store path s'; broker = broker }

-- An answer to the object at a path; there is none to call when the session has gone.
unfoldable pub client_answer : Bridge → String → Option String → String → Bridge
client_answer br path id answer = respond_object br path id answer (Dict.get br.store path)

abbrev pub ended_sessions_max : ℕ
ended_sessions_max = 1024

-- The service at its start, with the time to live of tombstones in ticks of the clock.
unfoldable pub start : ℕ → Bridge
start ttl = record {
  store = [];
  broker = record { inner = []; channels = λ n. waiting };
  ended = Ended.new ended_sessions_max ttl;
  parents = [];
  readers = [];
  next_request = 1;
}

pub data Step : System → System → Type 0 where
  arrives :
      {s : System} (w : World) (raw : RawHook) (clock' : ℕ) (out : Run × Option Waiting)
      → IsTimely s.clock w clock'
      → handle w s.bridge raw ≡ some out
      → Step s (record {
        bridge = out.0.0;
        clock = clock';
        held = hold raw (hook_of w s.bridge raw) out.1 s.held;
      })
  answers :
      {s : System} (path : String) (id : Option String) (answer : String)
      → Step s (record s { bridge = client_answer s.bridge path id answer })
  resumes :
      {s : System} (w : World) (earlier later : List Held) (x : Held)
      → s.held ≡ earlier ++ (x ∷ later)
      → Step s
          (record s { bridge = (resume w s.bridge x.raw x.hook x.wait).0; held = earlier ++ later })
  polls :
      {s : System} (w : World) (clock' : ℕ) (run : Run)
      → IsTimely s.clock w clock'
      → tick w s.bridge ≡ some run
      → Step s (record s { bridge = run.0; clock = clock' })
  drains :
      {s : System} (w : World) (id : String)
      → Step s (record s { bridge = (drain w s.bridge id false).0 })
  compacts :
      {s : System} (w : World) (offset : ℕ) (len : Option ℕ) (read : ℕ → Option String)
      → Step s (record s { bridge = (compact_watcher w s.bridge offset len read).1.0 })
  retitles :
      {s : System} (w : World) (last_seen seen : Option Seen) (contents : Option String)
      → Step s (record s {
        bridge = record s.bridge {
          store = (title_watcher w.from_str last_seen s.bridge.store seen contents).1;
        };
      })

pub data Reachable (ttl : ℕ) : System → Type 0 where
  started : (clock : ℕ) → Reachable ttl (record { bridge = start ttl; clock = clock; held = [] })
  stepped : {s s' : System} → Reachable ttl s → Step s s' → Reachable ttl s'
