-- ===== src/Bus/Properties.antt =====
-- agent-dbus-service/src/dbus.rs: the properties that a client reads, and that each change of one is
-- announced.
use claude_dbus.Prelude.{
  String, ℕ, ◌%◌, ◌<◌, ◌≡◌, refl, sym, ap, List, [], ◌∷◌, Bool, false, not, ◌==◌, eqb,
  if◌then◌else◌, length, arith,
}
use claude_dbus.Dict
use claude_dbus.Json.{F64}
use claude_dbus.Core.Telemetry.{TokenUsage}
use claude_dbus.Session.Object.{
  SessionObject, SessionState, as_str, no_session, idle, thinking, tool_use, compacting,
}
use claude_dbus.Session.Pending.{
  attention_reasons_value, pending_prompt_value, pending_detail_kind_value,
  pending_detail_text_value, pending_options_value, pending_request_ids_value,
  pending_prompts_value, pending_detail_kinds_value, pending_detail_texts_value,
  pending_options_list_value, pending_option_descriptions_value,
  pending_option_descriptions_list_value,
}
use claude_dbus.Bus.{
  bool_eq, state_eq, texts_eq, lists_eq, f64_eq, snapshot, emit_changed_properties, emitted,
}

-- A value on the bus.
pub data Reply : Type 0 where
  text : String → Reply
  flag : Bool → Reply
  count : ℕ → Reply
  float : F64 → Reply
  texts : List String → Reply
  lists : List (List String) → Reply
  counts : TokenUsage → Reply

-- Whether a client that reads both sees the same value.
pub same_reply : Reply → Reply → Bool
same_reply (text s) (text t) = s == t
same_reply (flag b) (flag c) = bool_eq b c
same_reply (count n) (count m) = eqb n m
same_reply (float x) (float y) = f64_eq x y
same_reply (texts xs) (texts ys) = texts_eq xs ys
same_reply (lists xs) (lists ys) = lists_eq xs ys
same_reply (counts d) (counts e) = Dict.equal d e
same_reply _ _ = false

-- The properties of the interface, by their names on the bus.
pub properties : SessionObject → List (String × Reply)
properties s =
    ("SessionId", text s.session_id)
    ∷ ("AgentName", text s.agent_name)
    ∷ ("AppInstanceId", text s.app_instance_id)
    ∷ ("WindowId", text s.window_id)
    ∷ ("IsSubagent", flag s.is_subagent)
    ∷ ("ParentSessionId", text s.parent_session_id)
    ∷ ("AgentNickname", text s.agent_nickname)
    ∷ ("AgentRole", text s.agent_role)
    ∷ ("SessionTitle", text s.session_title)
    ∷ ("State", text (as_str s.state))
    ∷ ("TaskComplete", flag s.task_complete)
    ∷ ("RequiresAttention", flag s.requires_attention)
    ∷ ("AttentionReasons", texts (attention_reasons_value s))
    ∷ ("ContextPct", float s.context_pct)
    ∷ ("ModelName", text s.model_name)
    ∷ ("ReasoningEffort", text s.reasoning_effort)
    ∷ ("TokenUsage", counts s.token_usage)
    ∷ ("LastTokenUsage", counts s.last_token_usage)
    ∷ ("UsageEpoch", count s.usage_epoch)
    ∷ ("UsageRevision", count s.usage_revision)
    ∷ ("Cwd", text s.cwd)
    ∷ ("CostUsd", float s.cost_usd)
    ∷ ("FiveHourUsagePct", float s.five_hour_usage_pct)
    ∷ ("FiveHourResetsAt", count s.five_hour_resets_at)
    ∷ ("SevenDayUsagePct", float s.seven_day_usage_pct)
    ∷ ("SevenDayResetsAt", count s.seven_day_resets_at)
    ∷ ("PendingPrompt", text (pending_prompt_value s))
    ∷ ("PendingDetailKind", text (pending_detail_kind_value s))
    ∷ ("PendingDetailText", text (pending_detail_text_value s))
    ∷ ("PendingOptions", texts (pending_options_value s))
    ∷ ("PendingCount", count (length s.pending_requests % 4294967296))
    ∷ ("PendingRequestIds", texts (pending_request_ids_value s))
    ∷ ("PendingPrompts", texts (pending_prompts_value s))
    ∷ ("PendingDetailKinds", texts (pending_detail_kinds_value s))
    ∷ ("PendingDetailTexts", texts (pending_detail_texts_value s))
    ∷ ("PendingOptionsList", lists (pending_options_list_value s))
    ∷ ("PendingOptionDescriptions", texts (pending_option_descriptions_value s))
    ∷ ("PendingOptionDescriptionsList", lists (pending_option_descriptions_list_value s))
    ∷ []

-- The names of the properties that a client reads differently before and after.
pub changed_between : List (String × Reply) → List (String × Reply) → List String
changed_between [] qs = []
changed_between (p ∷ ps) [] = []
changed_between ((name, r) ∷ ps) ((_, r') ∷ qs) =
    let rest = changed_between ps qs in if not (same_reply r r') then name ∷ rest else rest

state_by_name : (a b : SessionState) → (as_str a == as_str b) ≡ state_eq a b
state_by_name no_session no_session = refl
state_by_name no_session idle = refl
state_by_name no_session thinking = refl
state_by_name no_session tool_use = refl
state_by_name no_session compacting = refl
state_by_name idle no_session = refl
state_by_name idle idle = refl
state_by_name idle thinking = refl
state_by_name idle tool_use = refl
state_by_name idle compacting = refl
state_by_name thinking no_session = refl
state_by_name thinking idle = refl
state_by_name thinking thinking = refl
state_by_name thinking tool_use = refl
state_by_name thinking compacting = refl
state_by_name tool_use no_session = refl
state_by_name tool_use idle = refl
state_by_name tool_use thinking = refl
state_by_name tool_use tool_use = refl
state_by_name tool_use compacting = refl
state_by_name compacting no_session = refl
state_by_name compacting idle = refl
state_by_name compacting thinking = refl
state_by_name compacting tool_use = refl
state_by_name compacting compacting = refl

u32_exact :
    (n m : ℕ) → n < 4294967296 → m < 4294967296 → eqb n m ≡ eqb (n % 4294967296) (m % 4294967296)
u32_exact n m hn hm = ground arith

-- Checks and two readings that agree, entry by entry.
infixr 5 ◌and◌
data Agree : List (Bool × String) → List (String × Reply) → List (String × Reply) → Type 0 where
  nothing : Agree [] [] []
  ◌and◌ :
      {b : Bool} {name : String} {r r' : Reply} {checks : List (Bool × String)}
      {ps qs : List (String × Reply)}
      → b ≡ not (same_reply r r')
      → Agree checks ps qs
      → Agree ((b, name) ∷ checks) ((name, r) ∷ ps) ((name, r') ∷ qs)

emitted-Agree :
    {checks : List (Bool × String)} {ps qs : List (String × Reply)}
    → Agree checks ps qs
    → emitted checks ≡ changed_between ps qs
unfolding changed_between
emitted-Agree nothing = refl
emitted-Agree {checks = (b, name) ∷ cs} (e and rest) = rw (e, emitted-Agree rest) refl

-- With fewer than 2 ^ 32 pending requests, the signals of an update name exactly the properties that a
-- client reads differently before and after it, in the order of the interface.
pub emit_lem :
    (s s' : SessionObject)
    → length s.pending_requests < 4294967296
    → length s'.pending_requests < 4294967296
    → emit_changed_properties (snapshot s) (snapshot s')
      ≡ changed_between (properties s) (properties s')
unfolding emit_changed_properties snapshot properties same_reply
emit_lem s s' h h' = emitted-Agree (
    refl
    and refl
    and refl
    and refl
    and refl
    and refl
    and refl
    and refl
    and refl
    and ap not (sym (state_by_name s.state s'.state))
    and refl
    and refl
    and refl
    and refl
    and refl
    and refl
    and refl
    and refl
    and refl
    and refl
    and refl
    and refl
    and refl
    and refl
    and refl
    and refl
    and refl
    and refl
    and refl
    and refl
    and ap not (u32_exact (length s.pending_requests) (length s'.pending_requests) h h')
    and refl
    and refl
    and refl
    and refl
    and refl
    and refl
    and refl
    and nothing)
