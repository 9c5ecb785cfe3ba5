-- ===== src/Bridge/Sound.antt =====
-- What the service keeps true of its state, and the updates that keep it.
use claude_dbus.Prelude.{
  String, ℕ, ◌<◌, ◌≡◌, ◌⊎◌, refl, List, [], ◌∷◌, some, not, ◌&&◌, ◌==◌, arith, Bool-cases, inl, inr,
}
use claude_dbus.Dict
use claude_dbus.Dict.{Dict}
use claude_dbus.Broker.{RequestBroker, cancel, cancel_all}
use claude_dbus.Broker.Answers.{inner-cancel}
use claude_dbus.Session.Object.{SessionObject, new, thinking}
use claude_dbus.Session.Pending.{
  cancel_pending_requests, cancel_pending_requests_for_tool, clear_attention_reasons,
}
use claude_dbus.Session.Pending.Attention.{IsConsistent}
use claude_dbus.Service.Events.{
  Hook, Event, apply_event, cleared, transported, telemetry, update_state, session_start, stop,
  session_end, task_completed, prompt_submit, after_model, gemini_tool, before_tool, after_tool,
  notify, pre_compact, permission, elicitation, attention, resolved, attention_required,
  attention_resolved, unknown,
}
use claude_dbus.Service.{hook_tool_name}
use claude_dbus.Service.Keeps.{apply_event-IsConsistent, life-IsConsistent}
use claude_dbus.Opencode.Unchanged.{SameLife}
use claude_dbus.Codex.Telemetry
use claude_dbus.Codex.Telemetry.{Parser}
use claude_dbus.Ended.Total.{IsCurrent}
use claude_dbus.Bus.Store.{Store}
use claude_dbus.Bridge.{Bridge, Update, keep_model, with_telemetry}
use claude_dbus.Bridge.Wait.{request_id}

-- Every object on the server says truly whether it requires attention.
abbrev pub AllConsistent : Store → Type 0
AllConsistent store =
    (path : String) (s : SessionObject) → Dict.get store path ≡ some s → IsConsistent s

abbrev pub Owns : List ℕ → ℕ → Type 0
Owns [] n = ⊥
Owns (m ∷ ms) n = (m ≡ n) ⊎ Owns ms n

-- A registered request has the number of its channel, which was given out, and a handler waits for it.
abbrev pub AllOwned : List ℕ → RequestBroker → ℕ → Type 0
AllOwned owned b next =
    (id : String) (n : ℕ)
    → Dict.get b.inner id ≡ some n
    → (n < next) × (id ≡ request_id n) × Owns owned n

-- `owned` are the numbers that handlers wait for.
pub record IsSound (owned : List ℕ) (clock : ℕ) (br : Bridge) : Type 0 where
  pub objects : AllConsistent br.store
  pub requests : AllOwned owned br.broker br.next_request
  pub tombstones : IsCurrent clock br.ended

-- The broker registers nothing new.
abbrev pub Shrinks : RequestBroker → RequestBroker → Type 0
Shrinks b b' = (id : String) (n : ℕ) → Dict.get b'.inner id ≡ some n → Dict.get b.inner id ≡ some n

cancel-Shrinks : (b : RequestBroker) (id : String) → Shrinks b (cancel b id).0
cancel-Shrinks b id j n h = ground (arith, inner-cancel b id j)

pub cancel_all-Shrinks : (b : RequestBroker) (ids : List String) → Shrinks b (cancel_all b ids)
unfolding cancel_all
cancel_all-Shrinks b [] j n h = h
cancel_all-Shrinks b (i ∷ ids) j n h =
    cancel-Shrinks b i j n (cancel_all-Shrinks (cancel b i).0 ids j n h)

-- An update that keeps a session consistent and registers nothing.
pub record IsSafe (f : Update) : Type 0 where
  pub consistent : (s : SessionObject) (b : RequestBroker) → IsConsistent s → IsConsistent (f s b).0
  pub shrinks : (s : SessionObject) (b : RequestBroker) → Shrinks b (f s b).1

pub new-IsConsistent : (agent id : String) → IsConsistent (new agent id)
new-IsConsistent agent id = record { attention = refl; bounded = omega arith }

pub cancel_pending-Shrinks :
    (s : SessionObject) (b : RequestBroker) → Shrinks b (cancel_pending_requests s b).2
unfolding cancel_pending_requests
cancel_pending-Shrinks s b j n h = cancel_all-Shrinks b _ j n h

cancel_for_tool-Shrinks :
    (s : SessionObject) (tool : String) (b : RequestBroker)
    → Shrinks b (cancel_pending_requests_for_tool s tool b).2
unfolding cancel_pending_requests_for_tool
cancel_for_tool-Shrinks s tool b j n h = elim (Bool-cases (tool == "")) [
  | inl e ↦ rw e at h
  | inr e ↦ cancel_all-Shrinks b _ j n (rw e at h)
]

event-Shrinks :
    (h : Hook) (e : Event) (s : SessionObject) (b : RequestBroker)
    → Shrinks b (apply_event h e s b).1
unfolding apply_event cleared cancel_pending_requests
event-Shrinks h e s b = elim e as (λ k. Shrinks b (apply_event h k s b).1) [
  | session_start ↦ cancel_all-Shrinks b _
  | stop ↦ cancel_all-Shrinks b _
  | task_completed ↦ cancel_all-Shrinks b _
  | prompt_submit ↦ cancel_all-Shrinks b _
  | after_tool ↦
      cancel_for_tool-Shrinks
        (clear_attention_reasons (record (transported h s) { state = thinking }))
        (hook_tool_name h.data') b
  | pre_compact ↦ cancel_all-Shrinks b _
  | telemetry ↦ λ j n x. x
  | update_state ↦ λ j n x. x
  | session_end ↦ λ j n x. x
  | after_model ↦ λ j n x. x
  | gemini_tool ↦ λ j n x. x
  | before_tool ↦ λ j n x. x
  | notify ↦ λ j n x. x
  | permission ↦ λ j n x. x
  | elicitation ↦ λ j n x. x
  | attention reason state task ↦ λ j n x. x
  | resolved reason ↦ λ j n x. x
  | attention_required ↦ λ j n x. x
  | attention_resolved ↦ λ j n x. x
  | unknown ↦ λ j n x. x
]

pub event-IsSafe : (h : Hook) (e : Event) → IsSafe (apply_event h e)
event-IsSafe h e = record {
  consistent = λ s b v. apply_event-IsConsistent h e s b v;
  shrinks = λ s b. event-Shrinks h e s b;
}

-- An update of the session alone.
pub plain-IsSafe :
    (g : SessionObject → SessionObject)
    → ((s : SessionObject) → IsConsistent s → IsConsistent (g s))
    → IsSafe (λ s b. (g s, b))
plain-IsSafe g h = record { consistent = λ s b v. h s v; shrinks = λ s b j n x. x }

pub life-apply : (parser : Parser) (s : SessionObject) → SameLife s (Telemetry.apply parser s)
unfolding Telemetry.apply
life-apply parser s = record {
  state = refl;
  task_complete = refl;
  requires_attention = refl;
  pending = refl;
  reasons = refl;
  window = refl;
  app = refl;
}

pub applied-IsConsistent :
    (parser : Parser) (s : SessionObject) → IsConsistent s → IsConsistent (Telemetry.apply parser s)
applied-IsConsistent parser s v = life-IsConsistent (life-apply parser s) v

pub life-keep_model : (model : String) (s : SessionObject) → SameLife s (keep_model model s)
life-keep_model model s = elim (Bool-cases (s.model_name == "unknown" && not (model == ""))) [
  | inl e ↦ rw e (ground arith)
  | inr e ↦ rw e (ground arith)
]

pub telemetry-IsSafe : (parser : Parser) (f : Update) → IsSafe f → IsSafe (with_telemetry parser f)
telemetry-IsSafe parser f safe = record {
  consistent = λ s b v.
      applied-IsConsistent parser _
        (life-IsConsistent (life-keep_model s.model_name (f s b).0) (safe.consistent s b v));
  shrinks = λ s b. safe.shrinks s b;
}
