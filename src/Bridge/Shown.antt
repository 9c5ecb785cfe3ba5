-- ===== src/Bridge/Shown.antt =====
-- What clients see pending can be answered: the part of the sessions. An update of a session leaves
-- the requests that stay pending answerable, and those of other sessions.
pub mod Keeps
pub mod Parts
pub mod Requests
pub mod Waits
pub mod Ends
pub mod Reached
pub mod Heard
use claude_dbus.Prelude.{
  String, ℕ, ◌<◌, List, [], ◌∷◌, ◌++◌, ◌≡◌, refl, Option, none, some, Bool, true, false, not, ◌==◌,
  mem, Distinct, filter, filter_option, ◌∙◌, arith, Bool-cases, Option-cases, inl, inr,
}
use claude_dbus.Dict
use claude_dbus.Broker
use claude_dbus.Broker.{RequestBroker, cancel_all}
use claude_dbus.Broker.Answers.{IsUnshared}
use claude_dbus.Broker.Live.{Live, cancel_all-Live}
use claude_dbus.Session.Object.{
  SessionObject, SessionState, PendingRequest, thinking, idle, tool_use,
}
use claude_dbus.Session.Pending.{
  ids, gates, cancel_pending_requests, cancel_pending_requests_for_tool, clear_attention_reasons,
  clear_attention_reason, set_attention_reason, refresh_requires_attention,
}
use claude_dbus.Session.Pending.Ids.{mem-filter, mem-filter-false, filter-Distinct, filter-apart}
use claude_dbus.Service.{
  hook_tool_name, mark_turn_complete, apply_transport_metadata, apply_hook_task_complete,
  with_task_complete, hook_task_complete, hook_state, attention_reason,
}
use claude_dbus.Service.Events.{
  Hook, Event, apply_event, cleared, transported, described, on_telemetry, on_update_state,
  on_attention_required, with_cwd, with_state, apply_nonblocking_attention, telemetry, update_state,
  session_start, stop, session_end, task_completed, prompt_submit, after_model, gemini_tool,
  before_tool, after_tool, notify, pre_compact, permission, elicitation, attention, resolved,
  attention_required, attention_resolved, unknown,
}
use claude_dbus.Json.{as_str, ◌at◌}
use claude_dbus.Opencode.Unchanged.{telemetry-SameLife}
use claude_dbus.Service.Keeps.{described-SameLife, limited-SameLife, cwd-SameLife}
use claude_dbus.Bridge.Carried.Arms.{transported-IsCalm}
use claude_dbus.Bridge.{Update}
use claude_dbus.Bridge.Wait.{request_id}
use claude_dbus.Bridge.Sound.{Shrinks, cancel_all-Shrinks}
use claude_dbus.Bridge.Carried.{IsCalm}

-- The id of a registered request tells its number.
abbrev pub IsNumbered : RequestBroker → ℕ → Type 0
IsNumbered b next =
    (id : String) (n : ℕ) → Dict.get b.inner id ≡ some n → (n < next) × (id ≡ request_id n)

pub numbered-IsUnshared : (b : RequestBroker) (next : ℕ) → IsNumbered b next → IsUnshared b
numbered-IsUnshared b next num j k tx h g = cc ((num j tx h).1, (num k tx g).1)

-- From the pending requests `xs` to `ys`: none is added, and a waiting request is left alone unless
-- it leaves the list.
pub record Leaves (xs : List PendingRequest) (b : RequestBroker) (ys : List PendingRequest)
    (b' : RequestBroker) : Type 0 where
  pub distinct : Distinct (ids ys)
  pub fewer : (id : String) → mem id (ids ys) ≡ true → mem id (ids xs) ≡ true
  pub keeps :
      (id : String) (n : ℕ)
      → (mem id (ids xs) ≡ true → mem id (ids ys) ≡ true)
      → Live b id n
      → Live b' id n
  pub shrinks : Shrinks b b'

-- An update all of whose effects on requests are like that.
abbrev pub IsHonest : Update → Type 0
IsHonest f =
    (s : SessionObject) (b : RequestBroker) (next : ℕ)
    → IsNumbered b next
    → Distinct (ids s.pending_requests)
    → Leaves s.pending_requests b (f s b).0.pending_requests (f s b).1

pub calm :
    (xs ys : List PendingRequest) (b : RequestBroker)
    → ys ≡ xs
    → Distinct (ids xs)
    → Leaves xs b ys b
calm xs ys b e d =
    rw e (record { distinct = d; fewer = λ id m. m; keeps = λ id n m l. l; shrinks = λ id n h. h })

pub plain-IsHonest : (g : SessionObject → SessionObject) → IsCalm g → IsHonest (λ s b. (g s, b))
plain-IsHonest g c s b next num d = calm s.pending_requests (g s).pending_requests b (c s) d

none_left : (id : String) (xs : List String) → (mem id xs ≡ true → false ≡ true) → mem id xs ≡ false
none_left id xs h = elim (Bool-cases (mem id xs)) [ inl e ↦ absurd (cc (h e)) | inr e ↦ e ]

-- All requests are cancelled.
pub all_cancelled :
    (xs ws ys : List PendingRequest) (b : RequestBroker) (next : ℕ)
    → IsNumbered b next
    → ws ≡ xs
    → ys ≡ []
    → Leaves xs b ys (cancel_all b (ids ws))
all_cancelled xs ws ys b next num f e =
    rw (f, e)
      (record {
        distinct = tt;
        fewer = λ id m. absurd (cc m);
        keeps = λ id n m l.
            cancel_all-Live b (ids xs) id n (numbered-IsUnshared b next num)
              (none_left id (ids xs) m) l;
        shrinks = cancel_all-Shrinks b (ids xs);
      })

-- The requests of a tool are cancelled.
tool_cancelled :
    (s : SessionObject) (tool : String) (b : RequestBroker) (next : ℕ)
    → IsNumbered b next
    → Distinct (ids s.pending_requests)
    → let (s', n, b') = cancel_pending_requests_for_tool s tool b in
      Leaves s.pending_requests b s'.pending_requests b'
unfolding cancel_pending_requests_for_tool refresh_requires_attention
tool_cancelled s tool b next num d = elim (Bool-cases (tool == "")) [
  | inl e ↦ rw e (calm s.pending_requests s.pending_requests b refl d)
  | inr e ↦
      let xs = s.pending_requests in
      let gone = ids (filter (gates tool) xs) in
      rw e (record {
        distinct = filter-Distinct (λ r. not (gates tool r)) xs d;
        fewer = λ id m. mem-filter (λ r. not (gates tool r)) id xs m;
        keeps = λ id n m l.
            cancel_all-Live b gone id n (numbered-IsUnshared b next num)
              (elim (Bool-cases (mem id (ids xs))) [
                | inl there ↦ filter-apart (gates tool) id xs d (m there)
                | inr missing ↦ mem-filter-false (gates tool) id xs missing
              ])
              l;
        shrinks = cancel_all-Shrinks b gone;
      })
]

telemetry-IsCalm : (h : Hook) → IsCalm (on_telemetry h)
unfolding on_telemetry
telemetry-IsCalm h s =
    let cwd = filter_option (λ cwd. not (cwd == "")) (as_str (h.data' at "cwd")) in
    (telemetry-SameLife (with_cwd cwd (transported h s)) h.data').pending
    ∙ (cwd-SameLife (transported h s) cwd).pending
    ∙ transported-IsCalm h s

tasked :
    (s : SessionObject) (task : Option Bool)
    → (with_task_complete task s).pending_requests ≡ s.pending_requests
unfolding mark_turn_complete
tasked s none = refl
tasked s (some true) = refl
tasked s (some false) = refl

stated :
    (s : SessionObject) (state : Option SessionState)
    → (with_state state s).pending_requests ≡ s.pending_requests
stated s none = refl
stated s (some st) = refl

update-IsCalm : (h : Hook) → IsCalm (on_update_state h)
unfolding on_update_state apply_hook_task_complete
update-IsCalm h s =
    tasked _ (hook_task_complete h.data')
    ∙ stated _ (hook_state h.data')
    ∙ (limited-SameLife h _).pending
    ∙ transported-IsCalm h s

attention-IsCalm :
    (h : Hook) (reason : String) (state : SessionState) (task : Bool)
    → IsCalm (apply_nonblocking_attention h reason state task)
unfolding apply_nonblocking_attention set_attention_reason refresh_requires_attention
attention-IsCalm h reason state task s =
    let t = set_attention_reason (record s { state = state; task_complete = task }) reason in
    (described-SameLife h t).pending
    ∙ (elim (Bool-cases (reason == "")) [ inl e ↦ rw e refl | inr e ↦ rw e refl ])

-- What an event does to the requests of its session, up to the last calm steps.
pub ends :
    (xs ys zs : List PendingRequest) (b b' : RequestBroker)
    → zs ≡ ys
    → Leaves xs b ys b'
    → Leaves xs b zs b'
ends xs ys zs b b' e l = rw e l

pub event-IsHonest : (h : Hook) (e : Event) → IsHonest (apply_event h e)
unfolding apply_event cleared cancel_pending_requests transported apply_transport_metadata
    refresh_requires_attention clear_attention_reasons clear_attention_reason mark_turn_complete
event-IsHonest h e s b next num d =
    let xs = s.pending_requests in
    let same : (t : SessionObject) → (described h t).pending_requests ≡ t.pending_requests =
      λ t. (described-SameLife h t).pending in
    let stays : (t : SessionObject) → t.pending_requests ≡ xs → Leaves xs b t.pending_requests b =
      λ t p. calm xs t.pending_requests b p d in
    let gone : (ws ys : List PendingRequest)
        → ws ≡ xs
        → ys ≡ []
        → Leaves xs b ys (cancel_all b (ids ws)) =
      λ ws ys p q. all_cancelled xs ws ys b next num p q in
    let u = transported h s in
    let told : (t : SessionObject)
        → t.pending_requests ≡ xs
        → Leaves xs b (described h t).pending_requests b =
      λ t p. stays (described h t) (same t ∙ p) in
    elim e as (λ k. Leaves xs b (apply_event h k s b).0.pending_requests (apply_event h k s b).1) [
      | session_start ↦
          let t = described h (record u { state = idle }) in
          gone t.pending_requests [] (same (record u { state = idle })) refl
      | stop ↦
          gone xs (described h (cleared (mark_turn_complete u) b).0).pending_requests refl
            (same (cleared (mark_turn_complete u) b).0)
      | task_completed ↦ gone xs [] refl refl
      | prompt_submit ↦
          let t = (cleared (record u { state = thinking; task_complete = false }) b).0 in
          gone xs (described h t).pending_requests refl (same t)
      | after_tool ↦
          let t = clear_attention_reasons (record u { state = thinking }) in
          let tool = hook_tool_name h.data' in
          ends xs _ _ b _ (same (cancel_pending_requests_for_tool t tool b).0)
            (tool_cancelled t tool b next num d)
      | pre_compact ↦ gone xs [] refl refl
      | telemetry ↦ stays (on_telemetry h s) (telemetry-IsCalm h s)
      | update_state ↦ stays (on_update_state h s) (update-IsCalm h s)
      | session_end ↦ stays s refl
      | after_model ↦ told (record u { state = thinking }) refl
      | gemini_tool ↦ told (record u { state = tool_use }) refl
      | before_tool ↦ told (record u { state = tool_use }) refl
      | notify ↦ stays s refl
      | permission ↦ told u refl
      | elicitation ↦ stays u refl
      | attention reason state task ↦
          plain-IsHonest (apply_nonblocking_attention h reason state task)
            (attention-IsCalm h reason state task) s b next num d
      | resolved reason ↦ stays (clear_attention_reason s reason) refl
      | attention_required ↦
          plain-IsHonest (on_attention_required h) (λ t. attention-IsCalm h _ _ _ t) s b next num d
      | attention_resolved ↦ stays (clear_attention_reason s (attention_reason h.data')) refl
      | unknown ↦ stays s refl
    ]
