-- ===== src/Service/Boundary.antt =====
-- Events that end or begin a turn release every handler that waits.
use claude_dbus.Prelude.{
  String, ℕ, ◌≡◌, refl, ap, ◌∙◌, List, [], Option, some, Bool, true, false, if◌then◌else◌, mem,
}
use claude_dbus.Dict
use claude_dbus.Broker.{RequestBroker, waiting, answered, cancel_all}
use claude_dbus.Broker.Answers.{IsUnshared, cancel_all_answers}
use claude_dbus.Session.Object.{
  SessionObject, SessionState, PendingRequest, idle, thinking, compacting,
}
use claude_dbus.Session.Pending.{ids, cancel_pending_requests, refresh_requires_attention}
use claude_dbus.Opencode.Unchanged.{SameLife}
use claude_dbus.Service.{mark_turn_complete, apply_transport_metadata}
use claude_dbus.Service.Keeps.{described-SameLife}
use claude_dbus.Service.Events.{
  Hook, Event, apply_event, transported, described, cleared, session_start, stop, task_completed,
  prompt_submit, pre_compact,
}

-- The events that move a session to another turn, with the state and the task flag that they set.
pub data Boundary : Event → SessionState → Option Bool → Type 0 where
  started : Boundary session_start idle (some false)
  stopped : Boundary stop idle (some true)
  completed : Boundary task_completed idle (some true)
  prompted : Boundary prompt_submit thinking (some false)
  compacted : Boundary pre_compact compacting Option.none

abbrev pub or_old : Option Bool → Bool → Bool
or_old Option.none old = old
or_old (some new) old = new

-- Nothing asks for attention, and the session is in the state.
pub record IsSettled (s : SessionObject) (state : SessionState) (task : Bool) : Type 0 where
  pub now : s.state ≡ state
  pub task_now : s.task_complete ≡ task
  pub quiet : s.requires_attention ≡ false
  pub none_pending : s.pending_requests ≡ []
  pub no_reasons : s.attention_reasons ≡ []

cleared-IsSettled :
    (s : SessionObject) (b : RequestBroker) → IsSettled (cleared s b).0 s.state s.task_complete
unfolding cleared cancel_pending_requests refresh_requires_attention
cleared-IsSettled s b = record {
  now = refl;
  task_now = refl;
  quiet = refl;
  none_pending = refl;
  no_reasons = refl;
}

life-IsSettled :
    {s s' : SessionObject} {state : SessionState} {task : Bool}
    → SameLife s s'
    → IsSettled s state task
    → IsSettled s' state task
life-IsSettled e v = record {
  now = e.state ∙ v.now;
  task_now = e.task_complete ∙ v.task_now;
  quiet = e.requires_attention ∙ v.quiet;
  none_pending = e.pending ∙ v.none_pending;
  no_reasons = e.reasons ∙ v.no_reasons;
}

settled :
    (h : Hook) (e : Event) (s : SessionObject) (b : RequestBroker) {state : SessionState}
    {task : Option Bool}
    → Boundary e state task
    → IsSettled (apply_event h e s b).0 state (or_old task s.task_complete)
unfolding apply_event mark_turn_complete transported apply_transport_metadata
settled h _ s b started =
    let s' = described h (record (transported h s) { state = idle }) in
    let c = cleared-IsSettled (record s' { task_complete = false }) b in
    record {
      now = c.now ∙ (described-SameLife h (record (transported h s) { state = idle })).state;
      task_now = c.task_now;
      quiet = c.quiet;
      none_pending = c.none_pending;
      no_reasons = c.no_reasons;
    }
settled h _ s b stopped =
    life-IsSettled (described-SameLife h _)
      (cleared-IsSettled (mark_turn_complete (transported h s)) b)
settled h _ s b completed = cleared-IsSettled (mark_turn_complete (transported h s)) b
settled h _ s b prompted =
    life-IsSettled (described-SameLife h _)
      (cleared-IsSettled (record (transported h s) { state = thinking; task_complete = false }) b)
settled h _ s b compacted = cleared-IsSettled (record (transported h s) { state = compacting }) b

cancels :
    (h : Hook) (e : Event) (s : SessionObject) (b : RequestBroker) {state : SessionState}
    {task : Option Bool}
    → Boundary e state task
    → (apply_event h e s b).1 ≡ cancel_all b (ids s.pending_requests)
unfolding apply_event cleared cancel_pending_requests mark_turn_complete transported
    apply_transport_metadata
cancels h _ s b started =
    ap (λ (rs : List PendingRequest). cancel_all b (ids rs))
      (described-SameLife h (record (transported h s) { state = idle })).pending
cancels h _ s b stopped = refl
cancels h _ s b completed = refl
cancels h _ s b prompted = refl
cancels h _ s b compacted = refl

-- After an event that starts or ends a turn (a session that starts or stops, a completed task, a new
-- prompt, a compaction), the session is in the state of that event, no request is pending and no
-- reason for attention is left; and, in a broker in which no two requests share a channel, a handler
-- that waits was told the empty answer if its request was pending in the session, and else goes on
-- waiting.
pub boundary_lem :
    (h : Hook) (e : Event) (s : SessionObject) (b : RequestBroker) {state : SessionState}
    {task : Option Bool} (id : String) (tx : ℕ)
    → Boundary e state task
    → IsUnshared b
    → Dict.get b.inner id ≡ some tx
    → b.channels tx ≡ waiting
    → IsSettled (apply_event h e s b).0 state (or_old task s.task_complete)
      × ((apply_event h e s b).1.channels tx
          ≡ (if mem id (ids s.pending_requests) then answered "" else waiting))
boundary_lem h e s b id tx k u found wait = (
  settled h e s b k,
  ap (λ (c : RequestBroker). c.channels tx) (cancels h e s b k)
      ∙ cancel_all_answers b (ids s.pending_requests) id tx u found wait,
)
