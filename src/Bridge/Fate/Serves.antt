-- ===== src/Bridge/Fate/Serves.antt =====
-- The service keeps the rules of the desk.
use claude_dbus.Prelude.{
  String, ℕ, ◌<◌, ◌≡◌, ◌≢◌, ◌∙◌, ◌⊎◌, refl, List, [], ◌∷◌, Option, none, some, Bool, true, false,
  ◌==◌, ==_ne, eqb, ltb, mem, arith, Bool-cases, Option-cases, inl, inr, eq_iff,
}
use claude_dbus.Dict
use claude_dbus.Core.Path.{session_path}
use claude_dbus.Broker.{RequestBroker, waiting, answered, respond}
use claude_dbus.Broker.Answers.{respond_once}
use claude_dbus.Session.Object.{SessionObject, PendingRequest}
use claude_dbus.Session.Pending.{
  ids, push_pending_request, take_pending_response, take_request, pop_front,
}
use claude_dbus.Session.Pending.Queue.{take_by_id_lem}
use claude_dbus.Session.Respond.{
  respond_to_elicitation, respond_to_elicitation_by_id, respond_taken,
}
use claude_dbus.Service.Events.{transported}
use claude_dbus.Bridge.{Bridge, Update, update_session}
use claude_dbus.Bridge.Wait.{
  ElicitationRequest, Waiting, request_id, request_id-nonempty, pending_request, pushed, ask_object,
  ask,
}
use claude_dbus.Bridge.Answer.{registered-waiting}
use claude_dbus.Bridge.Carried.Arms.{transported-IsCalm}
use claude_dbus.Bridge.Carried.Handled.{IsAsked, handle-Keeps}
use claude_dbus.Bridge.System.{
  System, Step, arrives, answers, resumes, polls, drains, compacts, retitles, client_answer,
  respond_method, Reachable,
}
use claude_dbus.Bridge.Fate.{Advances, Advances-IsCarried, still}
use claude_dbus.Bridge.Fate.Handled.{IsNew, Advances-IsAsked}
use claude_dbus.Bridge.Fate.Spec.{Moves, fate, advanced, Step-Advances}
use claude_dbus.Bridge.Shown.{IsNumbered, plain-IsHonest}
use claude_dbus.Bridge.Shown.Keeps.{IsShown}
use claude_dbus.Bridge.Shown.Parts.{IsShown-IsCarried, update_session-IsShown}
use claude_dbus.Bridge.Shown.Heard.{not_lacking}
use claude_dbus.Bridge.Shown.Reached.{homes, Reachable-IsShown}
use claude_dbus.Bridge.Fate.Desk.{telling, Allows, answered_id, call_deed, deed}

-- Handlers that come to their wait.
IsWaiting : Bridge → Option Waiting → Type 0
IsWaiting br none = Unit
IsWaiting br (some wait) = br.broker.channels wait.number ≡ waiting

pushed-IsWaiting :
    (br : Bridge) (path : String) (request : ElicitationRequest) (p : SessionObject × Bool)
    → IsNumbered br.broker br.next_request
    → let (run, wait) = pushed br path request p in IsWaiting run.0 wait
unfolding IsWaiting
pushed-IsWaiting br path request (s, false) v = tt
pushed-IsWaiting br path request (s, true) v =
    registered-waiting br.broker br.next_request (λ id n h. (v id n h).0)

ask_object-IsWaiting :
    (br : Bridge) (path : String) (request : ElicitationRequest) (found : Option SessionObject)
    → IsNumbered br.broker br.next_request
    → let (run, wait) = ask_object br path request found in IsWaiting run.0 wait
unfolding IsWaiting
ask_object-IsWaiting br path request none v = tt
ask_object-IsWaiting br path request (some s) v =
    pushed-IsWaiting br path request
      (push_pending_request s (pending_request (request_id br.next_request) request)) v

IsShown-IsWaiting : (waits : List Waiting) → IsAsked (IsShown waits) IsWaiting
unfolding ask IsWaiting
IsShown-IsWaiting waits = record {
  ended = λ br v. tt;
  waits = λ w br h request v.
      let f : Update = λ s b. (transported h s, b) in
      let br1 = (update_session w br h.agent h.session_id f).0 in
      let path = session_path h.agent h.session_id in
      ask_object-IsWaiting br1 path request (Dict.get br1.store path)
        (update_session-IsShown waits w br h.agent h.session_id f
          (plain-IsHonest (transported h) (transported-IsCalm h)) v).numbered;
}

-- A registered request whose handler waits is told the answer, and no other channel changes.
Delivered : RequestBroker → RequestBroker → ℕ → String → Type 0
Delivered b b' n answer =
    (b'.channels n ≡ answered answer)
    × ((m : ℕ) → (eqb n m ≡ true) ⊎ (b'.channels m ≡ b.channels m))

respond-Delivered :
    (b : RequestBroker) (r : PendingRequest) (id answer : String) (n : ℕ)
    → r.id ≡ id
    → Dict.get b.inner id ≡ some n
    → b.channels n ≡ waiting
    → Delivered b (respond b r.id answer).0 n answer
unfolding Delivered
respond-Delivered b r id answer n same found wait =
    let o = respond_once b r.id answer "" n (rw same found) wait in (o.1, o.2)

-- The broker after a call, for a request that is shown.
called :
    (s : SessionObject) (b : RequestBroker) (call : Option String) (id answer : String) (n : ℕ)
    → (answer == "") ≡ false
    → id ≢ ""
    → answered_id s.pending_requests call ≡ some id
    → Dict.get b.inner id ≡ some n
    → b.channels n ≡ waiting
    → Delivered b (respond_method s b call answer).1 n answer
unfolding respond_to_elicitation respond_to_elicitation_by_id take_pending_response take_request
    respond_taken pop_front
called s b none id answer n ne full shown found wait = go s.pending_requests refl shown
  where
    go :
        (rs : List PendingRequest)
        → s.pending_requests ≡ rs
        → answered_id rs none ≡ some id
        → Delivered b (respond_method s b none answer).1 n answer
    go [] e h = absurd (cc h)
    go (r ∷ rs) e h = rw (ne, e) (respond-Delivered b r id answer n (cc h) found wait)
called s b (some j) id answer n ne full shown found wait =
    elim (Bool-cases (mem j (ids s.pending_requests))) [
      | inr m ↦ let bad : none ≡ some id = rw m at shown in absurd (cc bad)
      | inl m ↦
          let same : j ≡ id = let e : some j ≡ some id = rw m at shown in cc e in
          let full' : (j == "") ≡ false = rw same (==_ne id "" full) in
          elim (take_by_id_lem j s.pending_requests) [
            | inl (gone, lacks) ↦ absurd (not_lacking j s.pending_requests m lacks)
            | inr (r, rest, e, t) ↦
                rw (ne, full', e) (respond-Delivered b r id answer n (t.matches ∙ same) found wait)
          ]
    ]

-- The id that a call answers is the one of a request that the object shows.
answered-mem :
    (rs : List PendingRequest) (call : Option String) {id : String}
    → answered_id rs call ≡ some id
    → mem id (ids rs) ≡ true
answered-mem [] none e = absurd (cc e)
answered-mem (r ∷ rs) none {id} e = ground (arith, eq_iff r.id id, eq_iff id r.id)
answered-mem rs (some j) {id} e = elim (Bool-cases (mem j (ids rs))) [
  | inl m ↦ let h : some j ≡ some id = rw m at e in let same : j ≡ id = cc h in rw (← same) m
  | inr m ↦ let bad : none ≡ some id = rw m at e in absurd (cc bad)
]

module _ (s : System) (v : IsShown (homes s.held) s.bridge) where
  -- The channels under the numbers that were given out.
  told_table :
      (br' : Bridge) (n : ℕ) (answer : String)
      → br'.next_request ≡ s.bridge.next_request
      → n < s.bridge.next_request
      → s.bridge.broker.channels n ≡ waiting
      → Delivered s.bridge.broker br'.broker n answer
      → Allows (telling n answer) (fate s) (fate (record s { bridge = br' }))
  unfolding fate Delivered
  told_table br' n answer next small wait d =
      let given : ltb n s.bridge.next_request ≡ true = ground arith in
      (
        rw (given, wait) refl,
        rw (next, given, d.0) refl,
        λ m. elim (d.1 m) [ inl e ↦ inl e | inr e ↦ inr (rw (next, e) refl) ],
      )

  answer-Allows :
      (path : String) (call : Option String) (answer : String)
      → Allows
          (call_deed s.bridge (Dict.get s.bridge.store path) call answer)
          (fate s)
          (fate (record s { bridge = client_answer s.bridge path call answer }))
  unfolding client_answer
  answer-Allows path call answer =
      let quiet : (m : ℕ)
          → Moves (fate s m)
              (fate (record s { bridge = client_answer s.bridge path call answer }) m) =
        λ m. advanced s _ (Step-Advances (answers {s = s} path call answer)) m in
      elim (Option-cases (Dict.get s.bridge.store path)) [
        | inl e ↦ rw e (rw e at quiet)
        | inr (o, e) ↦ elim (Bool-cases (answer == "")) [
          | inl f ↦ rw (e, f) (rw e at quiet)
          | inr f ↦ elim (Option-cases (answered_id o.pending_requests call)) [
            | inl g ↦ rw (e, f, g) (rw e at quiet)
            | inr (id, g) ↦
                let open'' = v.open' path o id e (answered-mem o.pending_requests call g) in
                let n = open''.number in
                let (small, is_id) = v.numbered id n open''.live.0 in
                let full : id ≢ "" = rw is_id (request_id-nonempty n) in
                let d =
                  called o s.bridge.broker call id answer n f full g open''.live.0 open''.live.1 in
                rw (e, f, g, open''.live.0) (told_table _ n answer refl small open''.live.1 d)
          ]
        ]
      ]

moved : {s s' : System} → Step s s' → (m : ℕ) → Moves (fate s m) (fate s' m)
moved {s} {s'} st = advanced s s' (Step-Advances st)

-- Every step of the service, in a state that it can reach, is one that the specification allows. A
-- handler that comes to its wait asks a question under a number that none was asked under before.
-- A client's answer that is not empty, with the id of a request that the object shows, or without an
-- id while it shows one, is told to just one question, which waits, and changes no other. In a step
-- of any other kind each question goes on from unasked to asked, and from there to one answer or to
-- none, if at all, and what was told stays.
pub Step-Allows :
    {ttl : ℕ} (s s' : System) (st : Step s s')
    → Reachable ttl s
    → Allows (deed st) (fate s) (fate s')
unfolding deed fate IsWaiting
Step-Allows s _ (arrives w raw clock' (run, none) t e) r =
    moved (arrives {s = s} w raw clock' (run, none) t e)
Step-Allows s _ (arrives w raw clock' (run, some wait) t e) r =
    let br = s.bridge in
    let hs = homes s.held in
    let n = wait.number in
    let new : Advances br run.0 × IsNew br run.0 (some wait) = rw e at (
      handle-Keeps (Advances br) _ (Advances-IsCarried br) (Advances-IsAsked br) w br raw
        (still br br refl refl)) in
    let open'' : run.0.broker.channels n ≡ waiting = rw e at (
      handle-Keeps _ _ (IsShown-IsCarried hs) (IsShown-IsWaiting hs) w br raw
        (Reachable-IsShown s r)) in
    let before : ltb n br.next_request ≡ false = ground (arith, new.1.0) in
    let after : ltb n run.0.next_request ≡ true = ground (arith, new.1.1) in
    (
      rw before refl,
      rw (after, open'') refl,
      moved (arrives {s = s} w raw clock' (run, some wait) t e),
    )
Step-Allows s _ (answers path id answer) r = answer-Allows s (Reachable-IsShown s r) path id answer
Step-Allows s _ (resumes w earlier later x e) r = moved (resumes {s = s} w earlier later x e)
Step-Allows s _ (polls w clock' run t e) r = moved (polls {s = s} w clock' run t e)
Step-Allows s _ (drains w id) r = moved (drains {s = s} w id)
Step-Allows s _ (compacts w offset len read) r = moved (compacts {s = s} w offset len read)
Step-Allows s _ (retitles w last_seen seen contents) r =
    moved (retitles {s = s} w last_seen seen contents)
