-- ===== src/Tests/Message.antt =====
-- A hook of codex in window 7, whose message the service reads.
use claude_dbus.Prelude.{
  String, ℕ, ◌≡◌, refl, List, [], ◌∷◌, Option, none, some, ◌&&◌, ◌≤◌, length, ◌==◌, ◌>>=◌,
  unwrap_or, ◌^◌, eqb, if◌then◌else◌, arith,
}
use Prim.Native.Char.{code}
use Prim.Native.String.{◌++◌}
use claude_dbus.Decimal
use claude_dbus.Json
use claude_dbus.Json.{
  Value, Number, Fields, null, boolean, number, string, array, object, field, end,
}
use claude_dbus.Text.{
  single, hex_digit, trim, to_ascii_lowercase, contains, split_once, strip_prefix,
}
use claude_dbus.Client.{first_non_empty, parse_args, parse_stat, process_name, owning_process_pid}
use claude_dbus.Client.Message.{Surroundings, message, response, hook_main}
use claude_dbus.Client.Sent.{deserialize, ReadsBack, found, sent_is_read}
use claude_dbus.Socket.{HookMessage, max_hook_message_bytes, sent, read_raw_hook}
use claude_dbus.Tests.Client.{stat_of}

abbrev hook_at_work : Surroundings
hook_at_work = record {
  args = "codex" ∷ "Stop" ∷ [];
  variable = λ name. if name == "NIRI_WINDOW_ID" then some "7" else none;
  stat_of = stat_of;
  process_id = 30;
  stdin = some "";
}

-- A printer for values without escapes, and a reader of such messages.
mutual
  print_value : Value → String
  print_value null = "null"
  print_value (boolean b) = if b then "true" else "false"
  print_value (number n) = Decimal.print (unwrap_or n.u64 0)
  print_value (string s) = "\"" ++ s ++ "\""
  print_value (array vs) = "[]"
  print_value (object fs) = "{" ++ print_fields fs ++ "}"

  print_fields : Fields → String
  print_fields end = ""
  print_fields (field key v end) = "\"" ++ key ++ "\":" ++ print_value v
  print_fields (field key v (field key' v' fs)) =
      "\"" ++ key ++ "\":" ++ print_value v ++ "," ++ print_fields (field key' v' fs)

codes : String → List ℕ
codes String.[] = []
codes (String.◌∷◌ c s) = code c ∷ codes s

to_vec : Value → Option (List ℕ)
to_vec v = some (codes (print_value v))

from_u32 : ℕ → Number
from_u32 n = record { u64 = some n; f64 = none }

-- The character with a code, out of those that the message is written in.
among : String → ℕ → Option String
among String.[] n = none
among (String.◌∷◌ c s) n = let rest = among s n in if eqb (code c) n then some (single c) else rest

from_utf8 : List ℕ → Option String
from_utf8 [] = some ""
from_utf8 (n ∷ bytes) = do
  c ← among "{}\":,_abcdefghijklmnopqrstuvwxyz0123456789S" n
  s ← from_utf8 bytes
  some (c ++ s)

abbrev add_first : String → List String → List String
add_first s [] = s ∷ []
add_first s (part ∷ parts) = (s ++ part) ∷ parts

-- What stands between the quotes.
parts : String → List String
parts String.[] = "" ∷ []
parts (String.◌∷◌ c s) =
    let rest = parts s in if eqb (code c) b'"' then "" ∷ rest else add_first (single c) rest

text_at : String → List String → Option String
text_at key (part ∷ colon ∷ value ∷ rest) =
    let later = text_at key (colon ∷ value ∷ rest) in
    if part == key && colon == ":" then some value else later
text_at key (part ∷ colon ∷ []) = none
text_at key (part ∷ []) = none
text_at key [] = none

count_at : String → List String → Option ℕ
count_at key (part ∷ value ∷ rest) =
    let later = count_at key (value ∷ rest) in
    let here = split_once value b',' >>= λ p. strip_prefix p.0 ":" >>= Decimal.parse (2 ^ 64) in
    if part == key then here else later
count_at key (part ∷ []) = none
count_at key [] = none

from_str : String → Option HookMessage
from_str text = some (record {
  agent = text_at "agent" (parts text);
  agent_name = text_at "agent_name" (parts text);
  event = text_at "event" (parts text);
  data' = null;
  parent_pid = count_at "parent_pid" (parts text);
  app_instance_id = text_at "app_instance_id" (parts text);
  window_id = text_at "window_id" (parts text);
})

abbrev told : Value
told = message (λ text. none) from_u32 to_vec hook_at_work "codex" "Stop" ""

abbrev line : String
line =
    "{\"agent\":\"codex\",\"event\":\"Stop\",\"data\":null,\"hook_pid\":30,\"parent_pid\":10,"
    ++ "\"app_instance_id\":\"\",\"window_id\":\"7\"}"

prints : to_vec told ≡ some (codes line)
unfolding to_vec print_value codes message from_u32 first_non_empty trim owning_process_pid
    to_ascii_lowercase parse_stat split_once strip_prefix Decimal.parse process_name contains
    Decimal.print hex_digit
prints = refl

is_text : from_utf8 (codes line) ≡ some line
unfolding from_utf8 codes among
is_text = refl

reads : from_str (trim line) ≡ deserialize told
unfolding from_str parts text_at count_at trim deserialize message from_u32 Json.get Json.◌at◌
    first_non_empty owning_process_pid to_ascii_lowercase parse_stat split_once strip_prefix
    Decimal.parse process_name contains
reads = refl

serde : ReadsBack from_u32 to_vec from_utf8 from_str told
unfolding from_u32
serde = record {
  bytes = codes line;
  text = line;
  printed = prints;
  utf8 = is_text;
  reads = reads;
  pids = λ n h. refl;
}

names : parse_args (hook_at_work.variable "AGENT_DBUS_AGENT") hook_at_work.args ≡ ("codex", "Stop")
unfolding parse_args
names = refl

short : length (codes line) ≤ max_hook_message_bytes
unfolding codes
short = omega arith

sent_is_read_example :
    ((hook_main (λ text. none) from_u32 to_vec hook_at_work (response "")).0 ≡ some (codes line))
    × (read_raw_hook from_utf8 from_str (sent (codes line))
        ≡ some (
            found (λ text. none) from_u32 to_vec from_utf8 from_str hook_at_work "codex" "Stop" ""))
unfolding serde
sent_is_read_example =
    sent_is_read (λ text. none) from_u32 to_vec from_utf8 from_str hook_at_work (response "")
      "codex" "Stop" "" names (λ e. cc e) refl serde short
