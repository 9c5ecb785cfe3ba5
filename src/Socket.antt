-- ===== src/Socket.antt =====
-- agent-dbus-service/src/socket.rs: a hook's message, from the bytes of its connection to the event
-- that the service handles. The derived deserialization of a message is a parameter, as are the
-- readings of bytes as text.
pub mod Limit
use claude_dbus.Prelude.{
  String, ℕ, zero, suc, ◌+◌, ◌^◌, ◌≤◌, ◌≡◌, List, [], ◌∷◌, Option, none, some, not, ◌==◌, ltb,
  if◌then◌else◌, unwrap_or, ◌>>=◌, ◌or_else◌, filter_option, length, arith, Bool-cases,
  Option-cases, inl, inr,
}
use claude_dbus.Text.{trim}
use claude_dbus.Json.{Value, as_str, ◌at◌}
use claude_dbus.Bridge.Handler.{RawHook}

abbrev pub max_hook_message_bytes : ℕ
max_hook_message_bytes = 1048576

pub record HookMessage : Type 0 where
  pub agent : Option String
  pub agent_name : Option String
  pub event : Option String
  pub data' : Value
  pub parent_pid : Option ℕ
  pub app_instance_id : Option String
  pub window_id : Option String

-- What reading the connection comes to, within its time.
pub data Received : Type 0 where
  sent : List ℕ → Received
  failed timed_out : Received

-- `take`: no more bytes than these are read.
unfoldable pub first_bytes : ℕ → List ℕ → List ℕ
first_bytes zero bytes = []
first_bytes (suc n) [] = []
first_bytes (suc n) (b ∷ bytes) = b ∷ first_bytes n bytes

-- `u32::try_from`
abbrev pub to_u32 : ℕ → Option ℕ
to_u32 n = if ltb n (2 ^ 32) then some n else none

abbrev pub non_empty_string : Option String → Option String
non_empty_string = filter_option λ s. not (s == "")

unfoldable pub hook_of_message : HookMessage → RawHook
hook_of_message msg = record {
  event = unwrap_or msg.event "";
  agent =
      unwrap_or (msg.agent or_else msg.agent_name or_else as_str (msg.data' at "agent_name"))
        "agent";
  session_id = unwrap_or (as_str (msg.data' at "session_id")) "unknown";
  app_instance_id = non_empty_string msg.app_instance_id;
  window_id = non_empty_string msg.window_id;
  parent_pid = msg.parent_pid >>= to_u32;
  data' = msg.data';
}

module _ (from_utf8 : List ℕ → Option String) (from_str : String → Option HookMessage) where
  unfoldable pub parse_message : List ℕ → Option RawHook
  parse_message buf = do raw ← from_utf8 buf; msg ← from_str (trim raw); some (hook_of_message msg)

  unfoldable pub read_raw_hook : Received → Option RawHook
  unfolding parse_message first_bytes
  read_raw_hook failed = none
  read_raw_hook timed_out = none
  read_raw_hook (sent bytes) =
      let buf = first_bytes (max_hook_message_bytes + 1) bytes in
      if ltb max_hook_message_bytes (length buf) then none else parse_message buf
