-- ===== src/Bridge/Fate/Desk.antt =====
-- The service as a desk of questions: which step asks a question, and which one tells its answer.
use claude_dbus.Prelude.{
  String, ℕ, ◌≡◌, ◌⊎◌, List, [], ◌∷◌, Option, none, some, true, ◌==◌, eqb, mem, unwrap_or,
  if◌then◌else◌,
}
use claude_dbus.Dict
use claude_dbus.Session.Object.{SessionObject, PendingRequest}
use claude_dbus.Session.Pending.{ids}
use claude_dbus.Bridge.{Bridge}
use claude_dbus.Bridge.Wait.{Waiting}
use claude_dbus.Bridge.System.{
  System, Step, arrives, answers, resumes, polls, drains, compacts, retitles,
}
use claude_dbus.Bridge.Fate.Spec.{Fate, unasked, asking, told, Moves}

-- What a step does at the desk.
pub data Deed : Type 0 where
  opening : ℕ → Deed
  telling : ℕ → String → Deed
  silent : Deed

-- The rules of the desk. A question that is asked was not asked before. Who tells an answer tells it
-- to a question that waits, and to no other. Else each question moves on by itself, if at all.
abbrev pub Allows : Deed → (ℕ → Fate) → (ℕ → Fate) → Type 0
Allows (opening n) f g = (f n ≡ unasked) × (g n ≡ asking) × ((m : ℕ) → Moves (f m) (g m))
Allows (telling n answer) f g =
    (f n ≡ asking) × (g n ≡ told answer) × ((m : ℕ) → (eqb n m ≡ true) ⊎ (g m ≡ f m))
Allows silent f g = (m : ℕ) → Moves (f m) (g m)

-- A handler that comes to its wait asks a question.
abbrev pub opened : Option Waiting → Deed
opened none = silent
opened (some wait) = opening wait.number

-- The request that a client answers: the one with the id, or the oldest one.
abbrev pub answered_id : List PendingRequest → Option String → Option String
answered_id rs (some id) = if mem id (ids rs) then some id else none
answered_id [] none = none
answered_id (r ∷ rs) none = some r.id

abbrev pub told_at : Bridge → String → Option String → Deed
told_at br answer none = silent
told_at br answer (some id) = telling (unwrap_or (Dict.get br.broker.inner id) 0) answer

-- An answer that is not empty is told to the question whose request the object shows.
abbrev pub call_deed : Bridge → Option SessionObject → Option String → String → Deed
call_deed br none id answer = silent
call_deed br (some s) id answer =
    if answer == "" then silent else told_at br answer (answered_id s.pending_requests id)

unfoldable pub deed : {s s' : System} → Step s s' → Deed
deed (arrives w raw clock' out t e) = opened out.1
deed {s} (answers path id answer) = call_deed s.bridge (Dict.get s.bridge.store path) id answer
deed (resumes w earlier later x e) = silent
deed (polls w clock' run t e) = silent
deed (drains w id) = silent
deed (compacts w offset len read) = silent
deed (retitles w last_seen seen contents) = silent
