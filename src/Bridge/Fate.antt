-- ===== src/Bridge/Fate.antt =====
-- What becomes of a request for the handler that waits for it, and which operations of the service
-- leave it alone.
pub mod Handled
pub mod Spec
pub mod Desk
pub mod Serves
use claude_dbus.Prelude.{
  String, ℕ, ◌+◌, ◌≤◌, ◌<◌, ◌≡◌, ◌⊎◌, refl, List, Option, none, some, Bool, true, false, ◌==◌, eqb,
  arith, Bool-cases, Option-cases, inl, inr, [], ◌∷◌, ltb, not, ◌&&◌, if◌then◌else◌,
}
use claude_dbus.Dict
use claude_dbus.Broker
use claude_dbus.Broker.{RequestBroker, waiting}
use claude_dbus.Broker.Stands.{
  Stands, Stands-trans, cancel_all-Stands, remove-Stands, register-Stands, respond-Stands,
}
use claude_dbus.Session.Object.{SessionObject, thinking}
use claude_dbus.Session.Pending.{
  cancel_pending_requests, push_pending_request, cancel_pending_requests_for_tool,
  clear_attention_reasons,
}
use claude_dbus.Service.{hook_tool_name}
use claude_dbus.Service.Events.{
  Hook, Event, apply_event, cleared, transported, telemetry, update_state, session_start, stop,
  session_end, task_completed, prompt_submit, after_model, gemini_tool, before_tool, after_tool,
  notify, pre_compact, permission, elicitation, attention, resolved, attention_required,
  attention_resolved, unknown,
}
use claude_dbus.Codex.Compact.{
  CodexCompactLogEvent, compacted, apply_event as compact_event, apply_lines, compact_watcher,
  parse_codex_compact_log_line,
}
use claude_dbus.Text.{lines}
use claude_dbus.Core.Path.{session_path}
use claude_dbus.Codex.Reader.{Reader}
use claude_dbus.Session.Respond.{
  respond_to_elicitation, respond_to_elicitation_by_id, respond_taken,
}
use claude_dbus.Bridge.Carried.{IsCarried}
use claude_dbus.Bridge.System.{respond_method, client_answer}
use claude_dbus.Bridge.{
  Bridge, World, Update, dbus_update, update_hook, update_session, drain_reader, drain_if,
  forget_reader, drain, drained, retire, remove_entry,
}
use claude_dbus.Bridge.Wait.{
  ElicitationRequest, Waiting, request_id, pending_request, registered, pushed, ask_object, ask,
  finish,
}

-- The channels given out stand, and numbers stay given out.
pub record Advances (br br' : Bridge) : Type 0 where
  pub stands : (n : ℕ) → n < br.next_request → Stands br.broker br'.broker n
  pub numbers : br.next_request ≤ br'.next_request

pub Advances-trans : (a b c : Bridge) → Advances a b → Advances b c → Advances a c
Advances-trans a b c p q = record {
  stands = λ n h.
      Stands-trans a.broker b.broker c.broker n (p.stands n h)
        (q.stands n (omega (arith, h, p.numbers)));
  numbers = omega (arith, p.numbers, q.numbers);
}

-- The same broker.
pub still :
    (br br' : Bridge)
    → br'.broker ≡ br.broker
    → br'.next_request ≡ br.next_request
    → Advances br br'
still br br' e f = record { stands = λ n h. rw e (inr refl); numbers = omega (arith, f) }

-- An update whose closure lets the channels stand.
abbrev pub IsStanding : Update → Type 0
IsStanding f = (s : SessionObject) (b : RequestBroker) (n : ℕ) → Stands b (f s b).1 n

cancel_for_tool-Stands :
    (s : SessionObject) (tool : String) (b : RequestBroker) (n : ℕ)
    → Stands b (cancel_pending_requests_for_tool s tool b).2 n
unfolding cancel_pending_requests_for_tool
cancel_for_tool-Stands s tool b n = elim (Bool-cases (tool == "")) [
  | inl e ↦ rw e (inr refl)
  | inr e ↦ rw e (cancel_all-Stands b _ n)
]

pub event-IsStanding : (h : Hook) (e : Event) → IsStanding (apply_event h e)
unfolding apply_event cleared cancel_pending_requests
event-IsStanding h e s b n = elim e as (λ k. Stands b (apply_event h k s b).1 n) [
  | session_start ↦ cancel_all-Stands b _ n
  | stop ↦ cancel_all-Stands b _ n
  | task_completed ↦ cancel_all-Stands b _ n
  | prompt_submit ↦ cancel_all-Stands b _ n
  | after_tool ↦
      cancel_for_tool-Stands
        (clear_attention_reasons (record (transported h s) { state = thinking }))
        (hook_tool_name h.data') b n
  | pre_compact ↦ cancel_all-Stands b _ n
  | telemetry ↦ inr refl
  | update_state ↦ inr refl
  | session_end ↦ inr refl
  | after_model ↦ inr refl
  | gemini_tool ↦ inr refl
  | before_tool ↦ inr refl
  | notify ↦ inr refl
  | permission ↦ inr refl
  | elicitation ↦ inr refl
  | attention reason state task ↦ inr refl
  | resolved reason ↦ inr refl
  | attention_required ↦ inr refl
  | attention_resolved ↦ inr refl
  | unknown ↦ inr refl
]

pub plain-IsStanding : (g : SessionObject → SessionObject) → IsStanding (λ s b. (g s, b))
plain-IsStanding g s b n = inr refl

pub update_session-Advances :
    (w : World) (br : Bridge) (agent id : String) (f : Update)
    → IsStanding f
    → Advances br (update_session w br agent id f).0
unfolding update_session update_hook dbus_update
update_session-Advances w br agent id f standing = elim (Bool-cases (agent == "codex")) [
  | inl e ↦ rw e (record { stands = λ n h. standing _ br.broker n; numbers = omega arith })
  | inr e ↦ rw e (record { stands = λ n h. standing _ br.broker n; numbers = omega arith })
]

pub drain-Advances :
    (w : World) (br : Bridge) (id : String) (remove : Bool) → Advances br (drain w br id remove).0
unfolding drain drain_reader
drain-Advances w br id remove = go (Dict.get br.readers id) remove
  where
    go :
        (found : Option Reader) (remove : Bool)
        → Advances br (forget_reader id remove (drain_if w br id found).0)
    go none true = still br _ refl refl
    go none false = still br _ refl refl
    go (some r) true = still br _ refl refl
    go (some r) false = still br _ refl refl

retire-Stands :
    (br : Bridge) (path : String) (found : Option SessionObject) (n : ℕ)
    → Stands br.broker (retire br.store path br.broker found).1 n
unfolding cancel_pending_requests
retire-Stands br path none n = inr refl
retire-Stands br path (some s) n = cancel_all-Stands br.broker _ n

pub remove_entry-Advances :
    (br : Bridge) (agent id : String) → Advances br (remove_entry br agent id).0
unfolding remove_entry
remove_entry-Advances br agent id = record {
  stands = λ n h. retire-Stands br _ (Dict.get br.store _) n;
  numbers = omega arith;
}

-- The operations of handlers and watchers.
pub Advances-IsCarried : (br0 : Bridge) → IsCarried (Advances br0)
Advances-IsCarried br0 = record {
  event = λ w br h e p.
      Advances-trans br0 br _ p (
        update_session-Advances w br h.agent h.session_id (apply_event h e) (event-IsStanding h e));
  plain = λ w br agent id g calm p.
      Advances-trans br0 br _ p (update_session-Advances w br agent id _ (plain-IsStanding g));
  drained' = λ w br id remove p. Advances-trans br0 br _ p (drain-Advances w br id remove);
  entry = λ br agent id p. Advances-trans br0 br _ p (remove_entry-Advances br agent id);
  beside = λ br ended parents p. Advances-trans br0 br _ p (still br _ refl refl);
}

-- A new request has a channel of its own: its number was not given out.
registered-Stands : (b : RequestBroker) (next n : ℕ) → n < next → Stands b (registered b next) n
registered-Stands b next n h =
    let fresh : eqb next n ≡ false = ground arith in
    let b' : RequestBroker = record b { channels = Broker.update b.channels next waiting } in
    Stands-trans b b' (registered b next) n (rw fresh (inr refl))
      (register-Stands b' (request_id next) next n)

pushed-Advances :
    (br : Bridge) (path : String) (request : ElicitationRequest) (p : SessionObject × Bool)
    → Advances br (pushed br path request p).0.0
pushed-Advances br path request (s, true) = record {
  stands = λ n h. registered-Stands br.broker br.next_request n h;
  numbers = omega arith;
}
pushed-Advances br path request (s, false) = record {
  stands = λ n h.
      let b = registered br.broker br.next_request in
      Stands-trans br.broker b (Broker.remove b (request_id br.next_request)) n
        (registered-Stands br.broker br.next_request n h)
        (remove-Stands b (request_id br.next_request) n);
  numbers = omega arith;
}

ask_object-Advances :
    (br : Bridge) (path : String) (request : ElicitationRequest) (found : Option SessionObject)
    → Advances br (ask_object br path request found).0.0
ask_object-Advances br path request none = still br br refl refl
ask_object-Advances br path request (some s) =
    pushed-Advances br path request
      (push_pending_request s (pending_request (request_id br.next_request) request))

pub ask-Advances :
    (w : World) (br : Bridge) (h : Hook) (request : ElicitationRequest)
    → Advances br (ask w br h request).0.0
unfolding ask
ask-Advances w br h request =
    let br1 = (update_session w br h.agent h.session_id (λ s b. (transported h s, b))).0 in
    let path = session_path h.agent h.session_id in
    Advances-trans br br1 _
      (update_session-Advances w br h.agent h.session_id _ (plain-IsStanding (transported h)))
      (ask_object-Advances br1 path request (Dict.get br1.store path))

pub finish-Advances : (br : Bridge) (wait : Waiting) → Advances br (finish br wait).0.0
unfolding finish
finish-Advances br wait = record {
  stands = λ n h. remove-Stands br.broker (request_id wait.number) n;
  numbers = omega arith;
}

taken-Stands :
    (s : SessionObject) (b : RequestBroker) (answer : String) (o : Option (SessionObject × String))
    (n : ℕ)
    → Stands b (respond_taken s b answer o).1 n
unfolding respond_taken
taken-Stands s b answer none n = inr refl
taken-Stands s b answer (some (s', id)) n = respond-Stands b id answer n

method-Stands :
    (s : SessionObject) (b : RequestBroker) (id : Option String) (answer : String) (n : ℕ)
    → Stands b (respond_method s b id answer).1 n
unfolding respond_to_elicitation respond_to_elicitation_by_id
method-Stands s b none answer n = elim (Bool-cases (not (answer == ""))) [
  | inl e ↦ rw e (taken-Stands s b answer _ n)
  | inr e ↦ rw e (inr refl)
]
method-Stands s b (some id) answer n = elim (Bool-cases (not (id == "") && not (answer == ""))) [
  | inl e ↦ rw e (taken-Stands s b answer _ n)
  | inr e ↦ rw e (inr refl)
]

pub answer-Advances :
    (br : Bridge) (path : String) (id : Option String) (answer : String)
    → Advances br (client_answer br path id answer)
unfolding client_answer
answer-Advances br path id answer = elim (Option-cases (Dict.get br.store path)) [
  | inl e ↦ rw e (still br br refl refl)
  | inr (s, e) ↦
      rw e (record { stands = λ n h. method-Stands s br.broker id answer n; numbers = omega arith })
]
