-- ===== src/Broker.antt =====
-- agent-dbus-service/src/request_broker.rs: the map from request ids to the waiting hook handlers.
-- A `oneshot` channel is a number; the state of every channel is kept beside the map. A sender that
-- is dropped without an answer closes its channel. A lock that no thread has poisoned is assumed.
pub mod Answers
pub mod Stands
pub mod Live
use claude_dbus.Prelude.{
  String, ℕ, List, [], ◌∷◌, Option, none, some, Bool, true, false, eqb, if◌then◌else◌,
}
use claude_dbus.Dict
use claude_dbus.Dict.{Dict}

pub data Channel : Type 0 where
  waiting : Channel
  answered : String → Channel
  closed : Channel
  -- the receiver has gone: `send` fails
  abandoned : Channel

pub record RequestBroker : Type 0 where
  pub inner : Dict ℕ
  pub channels : ℕ → Channel

abbrev pub update : (ℕ → Channel) → ℕ → Channel → ℕ → Channel
update channels tx c n = if eqb tx n then c else channels n

-- `tx.send(answer)`
abbrev pub sent : Channel → String → Channel × Bool
sent waiting answer = (answered answer, true)
sent c answer = (c, false)

abbrev pub dropped : Channel → Channel
dropped waiting = closed
dropped c = c

unfoldable pub drop_sender : Option ℕ → (ℕ → Channel) → ℕ → Channel
drop_sender none channels = channels
drop_sender (some tx) channels = update channels tx (dropped (channels tx))

unfoldable pub register : RequestBroker → String → ℕ → RequestBroker
unfolding drop_sender
register b request_id tx = record b {
  inner = Dict.insert b.inner request_id tx;
  channels = drop_sender (Dict.get b.inner request_id) b.channels;
}

unfoldable pub send_to : Option ℕ → String → RequestBroker → RequestBroker × Bool
send_to none answer b = (b, false)
send_to (some tx) answer b =
    let (c, delivered) = sent (b.channels tx) answer in
    (record b { channels = update b.channels tx c }, delivered)

unfoldable pub respond : RequestBroker → String → String → RequestBroker × Bool
unfolding send_to
respond b request_id answer =
    send_to (Dict.get b.inner request_id) answer
      (record b { inner = Dict.remove b.inner request_id })

unfoldable pub cancel : RequestBroker → String → RequestBroker × Bool
cancel b request_id = respond b request_id ""

unfoldable pub remove : RequestBroker → String → RequestBroker
unfolding drop_sender
remove b request_id = record b {
  inner = Dict.remove b.inner request_id;
  channels = drop_sender (Dict.get b.inner request_id) b.channels;
}

-- `for request in requests { global_request_broker().cancel(&request.id); }`
unfoldable pub cancel_all : RequestBroker → List String → RequestBroker
cancel_all b [] = b
cancel_all b (id ∷ ids) = cancel_all (cancel b id).0 ids
