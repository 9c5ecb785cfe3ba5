-- ===== src/Client/Sent.antt =====
-- What the service reads of a hook's message is what the hook has found.
use claude_dbus.Prelude.{
  String, ℕ, ◌^◌, ◌<◌, ◌≤◌, ◌≡◌, ◌≢◌, ==_ne, refl, ◌∙◌, List, [], ◌∷◌, map, Option, none, some,
  true, false, ◌==◌, ltb, unwrap_or, ◌>>=◌, length, arith, Option-cases, inl, inr,
}
use claude_dbus.Json
use claude_dbus.Text.{trim}
use claude_dbus.Json.{
  Value, Number, Fields, null, boolean, number, string, array, object, as_str, ◌at◌, fields,
}
use claude_dbus.Client.{
  non_empty_string, first_non_empty, app_instance_variables, window_variables, owning_process_pid,
  parse_args,
}
use claude_dbus.Client.Pids.{owner-lt}
use claude_dbus.Client.Message.{
  Surroundings, Connection, message, app_instance, window, input_data, hook_main,
}
use claude_dbus.Socket
use claude_dbus.Socket.{
  HookMessage, sent, parse_message, hook_of_message, max_hook_message_bytes, read_raw_hook,
}
use claude_dbus.Socket.Limit.{read_raw_hook_lem}
use claude_dbus.Bridge.Handler.{RawHook}

-- A variable's value is not empty.
first-non_empty :
    (values : List (Option String)) {s : String}
    → first_non_empty values ≡ some s
    → (s == "") ≡ false
unfolding first_non_empty non_empty_string
first-non_empty [] e = absurd (cc e)
first-non_empty (none ∷ values) e = first-non_empty values e
first-non_empty (some v ∷ values) {s} e = ground (arith, first-non_empty values {s = s})

-- An id that goes as a text, empty when there is none, comes back.
id_back :
    (o : Option String)
    → ((s : String) → o ≡ some s → (s == "") ≡ false)
    → Socket.non_empty_string (some (unwrap_or o "")) ≡ o
id_back none h = refl
id_back (some s) h = rw (h s refl) refl

-- The derived deserialization: a field that is missing or null has no value, one of another type is an
-- error, and unknown fields are passed over.
abbrev pub text_field : Value → Option (Option String)
text_field null = some none
text_field (string s) = some (some s)
text_field (boolean b) = none
text_field (number n) = none
text_field (array vs) = none
text_field (object fs) = none

abbrev pub count_field : Value → Option (Option ℕ)
count_field null = some none
count_field (number n) = n.u64 >>= λ k. some (some k)
count_field (boolean b) = none
count_field (string s) = none
count_field (array vs) = none
count_field (object fs) = none

unfoldable pub deserialize : Value → Option HookMessage
deserialize v = do
  agent ← text_field (v at "agent")
  agent_name ← text_field (v at "agent_name")
  event ← text_field (v at "event")
  parent_pid ← count_field (v at "parent_pid")
  app_instance_id ← text_field (v at "app_instance_id")
  window_id ← text_field (v at "window_id")
  some (record {
    agent = agent;
    agent_name = agent_name;
    event = event;
    data' = v at "data";
    parent_pid = parent_pid;
    app_instance_id = app_instance_id;
    window_id = window_id;
  })

-- What is assumed of serde for one message: it is printed, the bytes are a text, that text is read as
-- the message it was printed of, and pids are numbers of 64 bits.
pub record ReadsBack (from_u32 : ℕ → Number) (to_vec : Value → Option (List ℕ))
    (from_utf8 : List ℕ → Option String) (from_str : String → Option HookMessage) (v : Value)
    : Type 0 where
  pub bytes : List ℕ
  pub text : String
  pub printed : to_vec v ≡ some bytes
  pub utf8 : from_utf8 bytes ≡ some text
  pub reads : from_str (trim text) ≡ deserialize v
  pub pids : (n : ℕ) → n < 2 ^ 32 → (from_u32 n).u64 ≡ some n

module _ (from_json : String → Option Value) (from_u32 : ℕ → Number)
    (to_vec : Value → Option (List ℕ)) (from_utf8 : List ℕ → Option String)
    (from_str : String → Option HookMessage) where
  -- The hook that the service handles.
  abbrev pub found : Surroundings → String → String → String → RawHook
  found e agent event stdin =
      let v = input_data from_json from_u32 to_vec stdin in
      record {
        event = event;
        agent = agent;
        session_id = unwrap_or (as_str (v at "session_id")) "unknown";
        app_instance_id = app_instance from_json from_u32 to_vec e;
        window_id = window from_json from_u32 to_vec e;
        parent_pid = owning_process_pid e.stat_of e.process_id agent;
        data' = v;
      }

  hook_read :
      (e : Surroundings) (agent event stdin : String)
      → ((n : ℕ) → n < 2 ^ 32 → (from_u32 n).u64 ≡ some n)
      → (deserialize (message from_json from_u32 to_vec e agent event stdin) >>= λ msg.
          some (hook_of_message msg))
        ≡ some (found e agent event stdin)
  unfolding deserialize message ◌at◌ Json.get hook_of_message
  hook_read e agent event stdin pids =
      let app =
        id_back (app_instance from_json from_u32 to_vec e) (λ s h.
          unfold app_instance in first-non_empty (map e.variable app_instance_variables) h) in
      let win =
        id_back (window from_json from_u32 to_vec e)
          (λ s h. unfold window in first-non_empty (map e.variable window_variables) h) in
      elim (Option-cases (owning_process_pid e.stat_of e.process_id agent)) [
        | inl f ↦ rw (f, app, win) refl
        | inr (p, f) ↦
            let small = owner-lt e.stat_of e.process_id agent f in
            let fits : ltb p (2 ^ 32) ≡ true = ground arith in
            rw (f, pids p small, fits, app, win) refl
      ]

  -- When the arguments name an event, the input is there, serde prints the message in at most 1 MiB
  -- and reads the same message back, and pids are numbers of 64 bits, then this message is what the
  -- hook sends once it has a connection; and the service reads of it the agent and the event that
  -- the arguments name, the session id and the data of the input, the owner of the session, and the
  -- ids of the window and the app instance, just as the hook has found them.
  pub sent_is_read :
      (e : Surroundings) (c : Connection) (agent event stdin : String)
      → parse_args (e.variable "AGENT_DBUS_AGENT") e.args ≡ (agent, event)
      → event ≢ ""
      → e.stdin ≡ some stdin
      → (serde : ReadsBack from_u32 to_vec from_utf8 from_str
          (message from_json from_u32 to_vec e agent event stdin))
      → length serde.bytes ≤ max_hook_message_bytes
      → ((hook_main from_json from_u32 to_vec e c).0 ≡ some serde.bytes)
        × (read_raw_hook from_utf8 from_str (sent serde.bytes) ≡ some (found e agent event stdin))
  unfolding hook_main parse_message
  sent_is_read e c agent event stdin named ne given serde fits =
      let (kept, read, small) = read_raw_hook_lem from_utf8 from_str serde.bytes in
      let short : ltb max_hook_message_bytes (length serde.bytes) ≡ false = ground arith in
      (
        rw (named, ==_ne event "" ne, given, serde.printed) refl,
        read ∙ rw (short, serde.utf8, serde.reads) (hook_read e agent event stdin serde.pids),
      )
