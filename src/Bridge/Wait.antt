-- ===== src/Bridge/Wait.antt =====
-- agent-dbus-service/src/service.rs, `handle_elicitation_event`: a request is published, and the
-- handler waits. What comes before the wait and what comes after it are two steps, with those of
-- other handlers in between.
use Prim.Native.String.{◌++◌}
use text.Mathlib.TextLemmas.{cons-append}
use claude_dbus.Prelude.{
  String, ℕ, ◌+◌, ◌≢◌, List, [], ◌∷◌, Option, none, some, Bool, true, false, unwrap_or,
  filter_option, ltb, ◌>>=◌, ◌^◌,
}
use claude_dbus.Dict
use claude_dbus.Decimal
use claude_dbus.Decimal.{print}
use claude_dbus.Core.Path.{session_path}
use claude_dbus.Broker
use claude_dbus.Broker.{RequestBroker, Channel, waiting, answered, closed, abandoned}
use claude_dbus.Session.Object.{SessionObject, PendingRequest}
use claude_dbus.Session.Pending.{push_pending_request, remove_pending_request}
use claude_dbus.Service.Events.{Hook, transported}
use claude_dbus.Bridge.{Bridge, World, and_effects, pending_changed, elicited, Run, update_session}

pub record ElicitationRequest : Type 0 where
  pub tool_name : String
  pub prompt : String
  pub detail_kind : String
  pub detail_text : String
  pub options : List String
  pub option_descriptions : List String

-- `next_pending_request_id`; a counter of 64 bits does not come round.
abbrev pub request_id : ℕ → String
request_id n = "req-" ++ print n

-- A handler that waits: for the answer to this request of the session at this path.
pub record Waiting : Type 0 where
  pub path : String
  pub number : ℕ

abbrev pub pending_request : String → ElicitationRequest → PendingRequest
pending_request id request = record {
  id = id;
  tool_name = request.tool_name;
  prompt = request.prompt;
  detail_kind = request.detail_kind;
  detail_text = request.detail_text;
  options = request.options;
  option_descriptions = request.option_descriptions;
}

-- A new channel, whose sender the broker keeps.
abbrev pub registered : RequestBroker → ℕ → RequestBroker
registered b n =
    Broker.register (record b { channels = Broker.update b.channels n waiting }) (request_id n) n

-- The request is pushed, or dropped when too many are pending.
abbrev pub pushed :
    Bridge → String → ElicitationRequest → SessionObject × Bool → Run × Option Waiting
pushed br path request (s, true) =
    let id = request_id br.next_request in
    (
      (
        record br {
          store = Dict.insert br.store path s;
          broker = registered br.broker br.next_request;
          next_request = br.next_request + 1;
        },
        pending_changed path
            ∷ elicited path id request.prompt request.options request.option_descriptions
            ∷ [],
      ),
      some (record { path = path; number = br.next_request }),
    )
pushed br path request (s, false) = (
  (
    record br {
      broker = Broker.remove (registered br.broker br.next_request) (request_id br.next_request);
      next_request = br.next_request + 1;
    },
    [],
  ),
  none,
)

-- What is done with the object of the session, if there is one.
abbrev pub ask_object :
    Bridge → String → ElicitationRequest → Option SessionObject → Run × Option Waiting
ask_object br path request none = ((br, []), none)
ask_object br path request (some s) =
    pushed br path request
      (push_pending_request s (pending_request (request_id br.next_request) request))

-- `handle_elicitation_event` up to its wait; `none` where it returns the empty answer at once.
unfoldable pub ask : World → Bridge → Hook → ElicitationRequest → Run × Option Waiting
ask w br h request =
    let (br1, effects) = update_session w br h.agent h.session_id (λ s b. (transported h s, b)) in
    let path = session_path h.agent h.session_id in
    let ((br2, effects'), wait) = ask_object br1 path request (Dict.get br1.store path) in
    ((br2, and_effects effects effects'), wait)

-- The seconds after which a wait ends, by the variable AGENT_DBUS_ELICITATION_TIMEOUT_SECS.
unfoldable pub elicitation_timeout : Option String → ℕ
elicitation_timeout variable =
    unwrap_or
      (filter_option (λ seconds. ltb 0 seconds)
        (variable >>= λ value. Decimal.parse (2 ^ 64) value))
      600

-- What the wait gives: a channel that still waits has timed out, and one that is closed has lost its
-- sender.
abbrev pub answer_of : Channel → String
answer_of waiting = ""
answer_of (answered answer) = answer
answer_of closed = ""
answer_of abandoned = ""

abbrev pub without_request :
    Dict.Dict SessionObject → String → String → Option SessionObject → Dict.Dict SessionObject
without_request store path id none = store
without_request store path id (some s) = Dict.insert store path (remove_pending_request s id).0

-- `handle_elicitation_event` after its wait: the answer, and the request is gone. An object that was
-- removed from the server meanwhile is not brought back.
unfoldable pub finish : Bridge → Waiting → Run × String
finish br wait =
    let id = request_id wait.number in
    (
      (
        record br {
          store = without_request br.store wait.path id (Dict.get br.store wait.path);
          broker = Broker.remove br.broker id;
        },
        pending_changed wait.path ∷ [],
      ),
      answer_of (br.broker.channels wait.number),
    )

abbrev Named : String → Type 0
Named String.[] = ⊥
Named (String.◌∷◌ c s) = Unit

pub request_id-nonempty : (n : ℕ) → request_id n ≢ ""
request_id-nonempty n e =
    let named : Named (request_id n) = rw (cons-append _ "eq-" (print n)) tt in rw e at named
