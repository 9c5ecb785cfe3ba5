-- ===== src/Tests/Requests.antt =====
-- Pending requests and their handlers.
use claude_dbus.Prelude.{
  String, ◌+◌, ◌≡◌, ◌≢◌, ◌⊎◌, refl, List, [], ◌∷◌, none, some, true, false, not, ◌==◌, eq_iff,
  if◌then◌else◌, mem, filter, length, arith,
}
use claude_dbus.Dict
use claude_dbus.Broker.{RequestBroker, waiting, answered, cancel_all}
use claude_dbus.Broker.Answers.{IsUnshared, cancel_all_answers}
use claude_dbus.Session.Object.{SessionObject, PendingRequest, default_session}
use claude_dbus.Session.Pending.{gates, cancel_pending_requests_for_tool}
use claude_dbus.Session.Pending.Attention.{Call, push, take, cancel_tool, set_reason}
use claude_dbus.Session.Pending.Queue.{Lacks, retire_for_tool}
use claude_dbus.Session.Respond.{
  Answered, respond_to_elicitation, respond_to_elicitation_by_id, respond_oldest, respond_by_id,
}

abbrev request : String → String → PendingRequest
request id tool = record {
  id = id;
  tool_name = tool;
  prompt = "Allow it?";
  detail_kind = "command";
  detail_text = "ls";
  options = "Allow" ∷ "Deny" ∷ [];
  option_descriptions = [];
}

-- One handler waits, for the request `r1`.
abbrev one_waiting : RequestBroker
one_waiting = record { inner = ("r1", 0) ∷ []; channels = λ n. waiting }

abbrev two_pending : SessionObject
two_pending = record default_session {
  pending_requests = request "r1" "Bash" ∷ request "r2" "Edit" ∷ [];
}

registered : Dict.get one_waiting.inner "r1" ≡ some 0
unfolding Dict.get
registered = refl

unshared : IsUnshared one_waiting
unfolding Dict.get
unshared j k tx hj hk = ground (arith, eq_iff "r1" j, eq_iff "r1" k)

differ : (s t : String) → (s == t) ≡ false → s ≢ t
differ s t h e = let same : (s == t) ≡ true = (eq_iff s t).1 e in cc (h, same)

cancel_all_answers_example :
    (cancel_all one_waiting ("r2" ∷ "r1" ∷ [])).channels 0
    ≡ (if mem "r1" ("r2" ∷ "r1" ∷ []) then answered "" else waiting)
cancel_all_answers_example =
    cancel_all_answers one_waiting ("r2" ∷ "r1" ∷ []) "r1" 0 unshared registered refl

respond_oldest_example :
    let (s', b', emitted) = respond_to_elicitation two_pending one_waiting "Allow" in
    (b'.channels 0 ≡ answered "Allow")
    × (s'.pending_requests ≡ request "r2" "Edit" ∷ [])
    × (emitted ≡ true)
respond_oldest_example =
    respond_oldest two_pending one_waiting "Allow" (request "r1" "Bash") (request "r2" "Edit" ∷ [])
      0 (differ "Allow" "" refl) refl registered refl

respond_by_id_example :
    ((Lacks "r1" two_pending.pending_requests)
      × (respond_to_elicitation_by_id two_pending one_waiting "r1" "Allow"
          ≡ (two_pending, one_waiting, false)))
    ⊎ Answered two_pending one_waiting "r1" "Allow" 0
        (respond_to_elicitation_by_id two_pending one_waiting "r1" "Allow")
respond_by_id_example =
    respond_by_id two_pending one_waiting "r1" "Allow" 0 (differ "r1" "" refl)
      (differ "Allow" "" refl) registered refl

retire_for_tool_example :
    let (s', n, b') = cancel_pending_requests_for_tool two_pending "Bash" one_waiting in
    (b'.channels 0 ≡ (if gates "Bash" (request "r1" "Bash") then answered "" else waiting))
    × (s'.pending_requests ≡ filter (λ q. not (gates "Bash" q)) two_pending.pending_requests)
    × (n + length s'.pending_requests ≡ length two_pending.pending_requests)
retire_for_tool_example =
    retire_for_tool two_pending "Bash" one_waiting (request "r1" "Bash") []
      (request "r2" "Edit" ∷ []) 0 (differ "Bash" "" refl) refl refl refl unshared registered refl

abbrev calls : List Call
calls =
    push (request "r1" "Bash") ∷ set_reason "turn-complete" ∷ take none ∷ cancel_tool "Bash" ∷ []
