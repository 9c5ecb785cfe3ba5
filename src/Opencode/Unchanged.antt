-- ===== src/Opencode/Unchanged.antt =====
-- Telemetry never touches the life cycle of a session.
use claude_dbus.Prelude.{
  String, ◌≡◌, refl, ◌∙◌, Option, Bool, Option-cases, Bool-cases, inl, inr, arith, is_some,
  if◌then◌else◌, filter_option, length, ltb, ◌++◌, ◌∷◌, [],
}
use claude_dbus.Json
use claude_dbus.Json.{Value, as_str, ◌at◌}
use claude_dbus.Core.Telemetry.{TokenUsage}
use claude_dbus.Session.Object.{SessionObject}
use claude_dbus.Opencode.{
  apply_telemetry, apply_metadata, apply_baseline, with_effort, with_model, is_model, token_map,
  new_event, count_event, remember,
}

-- What clients see of the life cycle.
pub record SameLife (s s' : SessionObject) : Type 0 where
  pub state : s'.state ≡ s.state
  pub task_complete : s'.task_complete ≡ s.task_complete
  pub requires_attention : s'.requires_attention ≡ s.requires_attention
  pub pending : s'.pending_requests ≡ s.pending_requests
  pub reasons : s'.attention_reasons ≡ s.attention_reasons
  pub window : s'.window_id ≡ s.window_id
  pub app : s'.app_instance_id ≡ s.app_instance_id

metadata-SameLife : (s : SessionObject) (v : Value) → SameLife s (apply_metadata s v)
unfolding apply_metadata
metadata-SameLife s v =
    go (is_some (Json.get v "token_usage")) (Json.get v "reasoning_effort")
      (filter_option is_model (as_str (v at "model")))
  where
    go :
        (b : Bool) (effort : Option Value) (model : Option String)
        → SameLife s (if b then s else with_model model (with_effort effort s))
    go b effort model = ground arith

pub SameLife-trans : {s t u : SessionObject} → SameLife s t → SameLife t u → SameLife s u
SameLife-trans a b = record {
  state = b.state ∙ a.state;
  task_complete = b.task_complete ∙ a.task_complete;
  requires_attention = b.requires_attention ∙ a.requires_attention;
  pending = b.pending ∙ a.pending;
  reasons = b.reasons ∙ a.reasons;
  window = b.window ∙ a.window;
  app = b.app ∙ a.app;
}

pub SameLife-refl : (s : SessionObject) → SameLife s s
SameLife-refl s = record {
  state = refl;
  task_complete = refl;
  requires_attention = refl;
  pending = refl;
  reasons = refl;
  window = refl;
  app = refl;
}

baseline-SameLife : (s : SessionObject) (v : Value) → SameLife s (apply_baseline s v)
unfolding apply_baseline
baseline-SameLife s v = elim (Option-cases (token_map (v at "usage_baseline"))) [
  | inl e ↦ rw e (ground arith)
  | inr (d, e) ↦ rw e (ground arith)
]

remember-SameLife : (s : SessionObject) (id : String) → SameLife s (remember s id)
unfolding remember
remember-SameLife s id = elim (Bool-cases (ltb 4096 (length (s.opencode_usage_order ++ id ∷ [])))) [
  | inl e ↦ rw e (ground arith)
  | inr e ↦ rw e (ground arith)
]

counted_life :
    (s : SessionObject) (v : Value) (id : String) (delta next : TokenUsage)
    → SameLife s (count_event s v id delta next).0
unfolding count_event
counted_life s v id delta next =
    let r = remember-SameLife s id in
    record {
      state = r.state;
      task_complete = r.task_complete;
      requires_attention = r.requires_attention;
      pending = r.pending;
      reasons = r.reasons;
      window = r.window;
      app = r.app;
    }

-- OpenCode's telemetry, whatever it holds, leaves the state of a session, its task flag, what asks
-- for attention and its window and app instance as they were.
pub telemetry-SameLife : (s : SessionObject) (v : Value) → SameLife s (apply_telemetry s v).0
unfolding apply_telemetry
telemetry-SameLife s v =
    let s' = apply_baseline (apply_metadata s v) v in
    SameLife-trans
      (SameLife-trans (metadata-SameLife s v) (baseline-SameLife (apply_metadata s v) v))
      (elim (Option-cases (new_event s' v)) [
        | inl e ↦ rw e (SameLife-refl s')
        | inr ((id, delta, next), e) ↦ rw e (counted_life s' v id delta next)
      ])
