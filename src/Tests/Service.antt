-- ===== src/Tests/Service.antt =====
-- Events on sessions, and the objects on the bus.
use claude_dbus.Prelude.{
  ◌≡◌, refl, [], ◌∷◌, none, some, true, ◌==◌, eq_iff, if◌then◌else◌, mem, arith,
}
use claude_dbus.Dict
use claude_dbus.Dict.Laws.{get-insert_self}
use claude_dbus.Json.{null}
use claude_dbus.Core.Path.{session_path}
use claude_dbus.Broker.{RequestBroker, waiting, answered}
use claude_dbus.Broker.Answers.{IsUnshared}
use claude_dbus.Session.Object.{SessionObject, PendingRequest, default_session, thinking}
use claude_dbus.Session.Pending.{ids}
use claude_dbus.Session.Pending.Attention.{IsConsistent}
use claude_dbus.Service.Events.{Hook, apply_event, stop, after_tool}
use claude_dbus.Service.Keeps.{apply_event-IsConsistent}
use claude_dbus.Service.Boundary.{IsSettled, boundary_lem, stopped, or_old}
use claude_dbus.Session.Object.{idle}
use claude_dbus.Bus.{snapshot, emit_changed_properties}
use claude_dbus.Bus.Properties.{properties, changed_between, emit_lem}
use claude_dbus.Bus.Store.{
  Store, properties_changed, renamed, update_session, update_existing_session,
  update_session-existing,
}

abbrev pending : PendingRequest
pending = record {
  id = "r1";
  tool_name = "Bash";
  prompt = "Allow Bash?";
  detail_kind = "command";
  detail_text = "ls";
  options = "Allow" ∷ "Deny" ∷ [];
  option_descriptions = [];
}

abbrev busy : SessionObject
busy = record default_session {
  session_id = "s";
  agent_name = "claude";
  state = thinking;
  requires_attention = true;
  pending_requests = pending ∷ [];
}

abbrev broker : RequestBroker
broker = record { inner = ("r1", 0) ∷ []; channels = λ n. waiting }

abbrev hook : Hook
hook = record {
  agent = "claude";
  session_id = "s";
  app_instance_id = none;
  window_id = some "w";
  data' = null;
  metrics = none;
}

registered : Dict.get broker.inner "r1" ≡ some 0
unfolding Dict.get
registered = refl

unshared : IsUnshared broker
unfolding Dict.get
unshared j k tx hj hk = ground (arith, eq_iff "r1" j, eq_iff "r1" k)

apply_event-IsConsistent_example : IsConsistent (apply_event hook after_tool busy broker).0
apply_event-IsConsistent_example =
    apply_event-IsConsistent hook after_tool busy broker
      (record { attention = refl; bounded = omega arith })

boundary_lem_example :
    IsSettled (apply_event hook stop busy broker).0 idle (or_old (some true) busy.task_complete)
    × ((apply_event hook stop busy broker).1.channels 0
        ≡ (if mem "r1" (ids busy.pending_requests) then answered "" else waiting))
boundary_lem_example = boundary_lem hook stop busy broker "r1" 0 stopped unshared registered refl

emit_lem_example :
    emit_changed_properties (snapshot busy) (snapshot default_session)
    ≡ changed_between (properties busy) (properties default_session)
emit_lem_example = emit_lem busy default_session (omega arith) (omega arith)

abbrev titled : SessionObject → SessionObject
titled s = record s { session_title = "Tests" }

nothing_there : Dict.get {V = SessionObject} [] (session_path "claude" "s") ≡ none
unfolding Dict.get
nothing_there = refl

abbrev store : Store
store = (session_path "claude" "s", busy) ∷ []

busy_there : Dict.get store (session_path "claude" "s") ≡ some busy
unfolding Dict.insert
busy_there = get-insert_self [] (session_path "claude" "s") busy

update_session-existing_example :
    let s' = titled (renamed busy "claude" "s") in
    ((update_session store "claude" "s" titled).1
      ≡ properties_changed (changed_between (properties busy) (properties s')))
    × (Dict.get (update_session store "claude" "s" titled).0 "/x"
        ≡ (if session_path "claude" "s" == "/x" then some s' else Dict.get store "/x"))
    × (update_existing_session store "claude" "s" titled ≡ update_session store "claude" "s" titled)
update_session-existing_example =
    update_session-existing store "claude" "s" "/x" busy titled busy_there (omega arith)
      (omega arith)
