-- ===== src/Tests/Bridge.antt =====
-- The service with a permission request that waits, and with a session that has ended.
use claude_dbus.Prelude.{
  String, ℕ, ◌≡◌, refl, [], ◌∷◌, Option, none, some, true, false, eqb, unwrap_or, arith, ◌≤◌,
}
use claude_dbus.Dict
use claude_dbus.Text.{hex_digit}
use claude_dbus.Broker
use claude_dbus.Json
use claude_dbus.Agents.{hook_subagent_info, codex_subagent_info, opencode_subagent_info}
use claude_dbus.Json.{Value, object, field, string, end, null}
use claude_dbus.Core.Path.{session_path, session_key}
use claude_dbus.Core.Path.Key.{lacks_colon}
use claude_dbus.Ended
use claude_dbus.Session.Object.{SessionObject}
use claude_dbus.Service.{hook_session_title, json_string_at}
use claude_dbus.Service.Events.{Hook, event_of, transported}
use claude_dbus.Session.Pending.{push_pending_request}
use claude_dbus.Bus.Store
use claude_dbus.Decimal.{print, print_loop}
use claude_dbus.Bridge.Steps.{with_wait, ask-IsSound}
use claude_dbus.Bridge.{Bridge, World, Run, remove_session, update_session, dbus_update}
use claude_dbus.Bridge.Wait.{Waiting, ElicitationRequest, request_id, ask, finish}
use claude_dbus.Bridge.Handler.{RawHook, hook_of, key_of, lineage, handle}
use claude_dbus.Bridge.Watch.{tick}
use claude_dbus.Bridge.Served.{IsTimely}
use claude_dbus.Bridge.Sound.{IsSound}
use claude_dbus.Bridge.System.{
  System, start, numbers, Reachable, started, stepped, arrives, hold, client_answer,
}
use claude_dbus.Bridge.Invariant.{Reachable-IsSound, handlers_return}
use claude_dbus.Bridge.Gone.{IsGone, remove_session_lem}
use claude_dbus.Bridge.Reaped.{tick_lem}
use claude_dbus.Bridge.Answer.{ask_answer}
use claude_dbus.Bridge.Fresh.{IsUntouched, ask_keeps_others}
use claude_dbus.Bridge.Late.{titled_start_revives}

-- Process 7 is there, and no file is.
abbrev pub world : ℕ → World
world t = record {
  from_slice = λ bytes. none;
  from_str = λ text. none;
  to_string = λ v. "{}";
  to_string_pretty = λ v. "{}";
  read_file = λ path. none;
  session_file = λ id. none;
  open_file = λ path. none;
  codex_metrics = λ id. none;
  codex_title = λ id. none;
  codex_config = none;
  process_exists = eqb 7;
  now = t;
  pruned_at = t;
  ended_at = t;
}

abbrev pub raw_hook : String → Value → RawHook
raw_hook event v = record {
  event = event;
  agent = "claude";
  session_id = "s";
  app_instance_id = none;
  window_id = some "4";
  parent_pid = some 8;
  data' = v;
}

abbrev pub tool : Value
tool = object (field "tool_name" (string "Bash") end)

abbrev pub asking : RawHook
asking = raw_hook "PermissionRequest" tool

abbrev pub outcome : Bridge → RawHook → ℕ → Run × Option Waiting
outcome br raw t = unwrap_or (handle (world t) br raw) ((br, []), none)

abbrev pub asked : Run × Option Waiting
asked = outcome (start 600) asking 1

returned : handle (world 1) (start 600) asking ≡ some asked
unfolding handle start event_of
returned = refl

-- The service while that request waits.
abbrev pub one : System
one = record {
  bridge = asked.0.0;
  clock = 1;
  held = hold asking (hook_of (world 1) (start 600) asking) asked.1 [];
}

timely : (t t' : ℕ) → t ≤ t' → IsTimely t (world t') t'
timely t t' h = record { starts = h; ends = omega arith }

pub waits : Reachable 600 one
waits = stepped (started 0) (arrives (world 1) asking 1 asked (timely 0 1 (omega arith)) returned)

Reachable-IsSound_example : IsSound (numbers one.held) 1 one.bridge
Reachable-IsSound_example = Reachable-IsSound one waits

handlers_return_example :
    ((out : Run × Option Waiting) × (handle (world 2) one.bridge asking ≡ some out))
    × ((run : Run) × (tick (world 2) one.bridge ≡ some run))
handlers_return_example = handlers_return one (world 2) asking waits (omega arith)

pub IsSound-one : IsSound (numbers one.held) 1 one.bridge
IsSound-one = Reachable-IsSound one waits

remove_session_lem_example :
    (run : Run) × (remove_session (world 2) one.bridge "claude" "s" ≡ some run)
    × IsGone "claude" "s" one.bridge run.0
remove_session_lem_example =
    remove_session_lem (numbers one.held) 1 (world 2) one.bridge "claude" "s" (omega arith)
      IsSound-one

-- A session whose process, 8, has exited.
abbrev owned : Bridge
owned = record (start 600) { parents = (session_key "claude" "s", 8) ∷ [] }

IsSound-start : IsSound [] 0 (start 600)
IsSound-start = Reachable-IsSound (record { bridge = start 600; clock = 0; held = [] }) (started 0)

IsSound-owned : IsSound [] 0 owned
IsSound-owned =
    let v = IsSound-start in
    record { objects = v.objects; requests = v.requests; tombstones = v.tombstones }

watched : Dict.get owned.parents (session_key "claude" "s") ≡ some 8
unfolding session_key Dict.get
watched = refl

plain_name : lacks_colon "claude" ≡ true
plain_name = refl

tick_lem_example :
    (run : Run) × (tick (world 2) owned ≡ some run)
    × ((world 2).process_exists 8 ≡ false
        → (Dict.get run.0.parents (session_key "claude" "s") ≡ none)
          × (Dict.get run.0.store (session_path "claude" "s") ≡ none))
    × ((world 2).process_exists 8 ≡ true
        → Dict.get run.0.parents (session_key "claude" "s") ≡ some 8)
tick_lem_example =
    tick_lem [] 0 (world 2) owned "claude" "s" 8 (omega arith) IsSound-owned plain_name watched

abbrev question : ElicitationRequest
question = record {
  tool_name = "";
  prompt = "Which one?";
  detail_kind = "";
  detail_text = "";
  options = "Accept" ∷ "Decline" ∷ [];
  option_descriptions = "" ∷ "" ∷ [];
}

abbrev hook : Hook
hook = hook_of (world 1) (start 600) asking

abbrev posed : Run × Option Waiting
posed = ask (world 1) (start 600) hook question

abbrev wait : Waiting
wait = record { path = session_path "claude" "s"; number = 1 }

poses : ask (world 1) (start 600) hook question ≡ (posed.0, some wait)
unfolding ask start hook_of Dict.get Dict.insert update_session dbus_update Store.update_session
    session_path push_pending_request transported
poses = refl

ask_answer_example :
    let br' = client_answer posed.0.0 wait.path (some (request_id 1)) "Accept" in
    ((finish br' wait).1 ≡ "Accept")
    × ((finish posed.0.0 wait).1 ≡ "")
    × (Dict.get (finish br' wait).0.0.broker.inner (request_id 1) ≡ none)
    × (Dict.get (finish posed.0.0 wait).0.0.broker.inner (request_id 1) ≡ none)
ask_answer_example =
    ask_answer [] 0 (world 1) (start 600) hook question "Accept" IsSound-start (λ e. cc e) poses

IsSound-posed : IsSound (with_wait posed.1 []) 0 posed.0.0
IsSound-posed = ask-IsSound [] 0 (world 1) (start 600) hook question IsSound-start

first_registered : Dict.get posed.0.0.broker.inner "req-1" ≡ some 1
unfolding ask start hook_of Dict.get Dict.insert update_session dbus_update Store.update_session
    session_path push_pending_request transported print print_loop Broker.register hex_digit
first_registered = refl

ask_keeps_others_example :
    IsUntouched posed.0.0.broker (ask (world 2) posed.0.0 hook question).0.0.broker "req-1" 1
ask_keeps_others_example =
    ask_keeps_others (with_wait posed.1 []) 0 (world 2) posed.0.0 hook question "req-1" 1
      IsSound-posed first_registered

-- The session has ended.
abbrev ended : Bridge
ended = record (start 600) {
  ended = record {
    entries = ("claude:s", 1) ∷ [];
    order = ("claude:s", 1) ∷ [];
    max_entries = 1024;
    ttl = 600;
  };
}

stands : (Ended.contains ended.ended (key_of asking) 2).1 ≡ true
unfolding Ended.contains Ended.prune Ended.prune_loop session_key Dict.get Dict.contains_key
stands = refl

abbrev late_start : RawHook
late_start = raw_hook "SessionStart" (object (field "title" (string "Fix") end))

top_level : lineage (world 2) late_start ≡ none
unfolding lineage hook_subagent_info codex_subagent_info opencode_subagent_info json_string_at
    Json.get
top_level = refl

fix_title : hook_session_title late_start.data' ≡ some "Fix"
unfolding hook_session_title Json.get Json.as_str
fix_title = refl

titled_start_revives_example :
    (run : Run) × (s : SessionObject) × (handle (world 2) ended late_start ≡ some (run, none))
    × (Dict.get run.0.store (session_path "claude" "s") ≡ some s)
    × (s.session_title ≡ "Fix")
titled_start_revives_example =
    titled_start_revives (world 2) ended late_start "Fix" stands refl (λ e. cc e) top_level
      fix_title (λ e. cc e)
