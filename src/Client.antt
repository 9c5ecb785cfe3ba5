-- ===== src/Client.antt =====
-- agent-dbus-service/src/agent_hook.rs and agent-dbus-service/src/agent_respond.rs: what the two
-- client programs find out before they send. A text of /proc is what the kernel writes: a text
-- whose only `) ` stands before its first parenthesis would panic, and is read as no process here.
pub mod Owner
pub mod Pids
pub mod Message
pub mod Sent
use Prim.Native.Char.{code}
use Prim.Native.String.{◌++◌}
use claude_dbus.Prelude.{
  String, ℕ, zero, suc, List, [], ◌∷◌, Option, none, some, Bool, true, false, not, ◌||◌, ◌==◌,
  if◌then◌else◌, is_some, unwrap_or, ◌>>=◌, find_map, ◌or_else◌, filter_option, ◌^◌,
}
use claude_dbus.Text.{
  trim, to_ascii_lowercase, contains, split_once, strip_prefix, before, is_whitespace, join,
}
use claude_dbus.Core.{is_gemini_agent}
use claude_dbus.Core.Path.{session_path}
use claude_dbus.Decimal

unfoldable pub non_empty_string : String → Option String
non_empty_string value = filter_option (λ v. not (v == "")) (some (trim value))

-- A variable that is not set has no value.
unfoldable pub first_non_empty : List (Option String) → Option String
unfolding non_empty_string
first_non_empty values = find_map (λ value. value >>= non_empty_string) values

abbrev pub app_instance_variables : List String
app_instance_variables = "GHOSTTY_UUID" ∷ "LOCUS_APP_INSTANCE" ∷ []

abbrev pub window_variables : List String
window_variables = "NIRI_WINDOW_ID" ∷ "AGENT_DBUS_WINDOW" ∷ "AGENT_DBUS_WINDOW_ID" ∷ []

-- `str::rfind`, with the text before and after the last occurrence
unfoldable pub split_last : String → String → Option (String × String)
split_last String.[] t = none
split_last (String.◌∷◌ c s) t =
    before c (split_last s t) or_else (strip_prefix (String.◌∷◌ c s) t >>= λ rest. some ("", rest))

-- `str::split_whitespace`: the word at the front, which may be empty, and the words after it.
unfoldable pub scan : String → String × List String
scan String.[] = ("", [])
scan (String.◌∷◌ c s) =
    let (word, words) = scan s in
    let next = if word == "" then words else word ∷ words in
    if is_whitespace c then ("", next) else (String.◌∷◌ c word, words)

unfoldable pub split_whitespace : String → List String
unfolding scan
split_whitespace s = let (word, words) = scan s in if word == "" then words else word ∷ words

-- The second field, after the state of the process.
abbrev pub parent_field : List String → Option ℕ
parent_field (state ∷ parent ∷ fields) = Decimal.parse (2 ^ 32) parent
parent_field (state ∷ []) = none
parent_field [] = none

-- The name of a process may itself hold blanks and parentheses.
unfoldable pub parse_stat : String → Option (String × ℕ)
unfolding split_last split_whitespace
parse_stat stat = do
  (pid, rest) ← split_once stat b'('
  (name, fields) ← split_last rest ") "
  parent ← parent_field (split_whitespace fields)
  some (name, parent)

-- What /proc shows of the processes.
module _ (stat_of : ℕ → Option String) where
  unfoldable pub process_parent_pid : ℕ → Option ℕ
  process_parent_pid pid = do stat ← stat_of pid; (name, parent) ← parse_stat stat; some parent

  unfoldable pub process_name : ℕ → Option String
  process_name pid = do stat ← stat_of pid; (name, parent) ← parse_stat stat; some name

  abbrev pub is_named : String → Option String → Bool
  is_named agent none = false
  is_named agent (some name) = contains (to_ascii_lowercase name) agent

  -- The loop of `owning_process_pid`.
  unfoldable pub owning_loop : String → ℕ → ℕ → Option ℕ
  owning_loop agent zero pid = none
  owning_loop agent (suc n) pid =
      let rest = process_parent_pid pid >>= owning_loop agent n in
      if is_named agent (process_name pid) then some pid else rest

  -- `own` is the process of the hook.
  unfoldable pub owning_process_pid : ℕ → String → Option ℕ
  unfolding owning_loop process_parent_pid
  owning_process_pid own agent =
      let name = to_ascii_lowercase (trim agent) in
      if name == "" then none else process_parent_pid own >>= owning_loop name 32

-- The agent and the event that the arguments name.
unfoldable pub parse_args : Option String → List String → String × String
parse_args agent_variable [] = ("", "")
parse_args agent_variable (event ∷ []) = (unwrap_or agent_variable "agent", event)
parse_args agent_variable (agent ∷ event ∷ rest) = (agent, event)

-- What the hook prints when the service has nothing to say.
unfoldable pub empty_response : String → String
empty_response agent = if is_gemini_agent agent then "{}" else ""

-- The loop over the arguments of `agent-respond`: the request id and the parts of the answer.
unfoldable pub respond_args : List String → String → String × List String
respond_args [] request_id = (request_id, [])
respond_args (arg ∷ []) request_id =
    if arg == "--request-id" then ("", []) else (request_id, arg ∷ [])
respond_args (arg ∷ value ∷ args) request_id =
    let after_id = respond_args args value in
    let (id, parts) = respond_args (value ∷ args) request_id in
    if arg == "--request-id" then after_id else (id, arg ∷ parts)

-- The call on the bus: the path, the id if there is one, and the answer.
unfoldable pub respond_call :
    String → String → List String → Option (String × Option String × String)
unfolding respond_args
respond_call agent session_id args =
    let (request_id, parts) = respond_args args "" in
    let answer = join " " parts in
    if agent == "" || session_id == "" || answer == ""
    then none
    else some
        (session_path agent session_id, if request_id == "" then none else some request_id, answer)
