-- ===== src/Bridge/Fate/Spec.antt =====
-- What a client may rely on: a question is asked once, has at most one answer, and its handler hears
-- that answer whatever the service does before it goes on.
use claude_dbus.Prelude.{
  String, ℕ, ◌≡◌, refl, ◌∷◌, ◌++◌, ltb, if◌then◌else◌, arith, Bool-cases, true, false, inl, inr,
}
use claude_dbus.Broker.{Channel, waiting, answered, closed, abandoned}
use claude_dbus.Bridge.{World, pending_changed}
use claude_dbus.Bridge.Wait.{answer_of, finish}
use claude_dbus.Bridge.Handler.{resume, reply, linked}
use claude_dbus.Bridge.System.{
  Held, System, Step, arrives, answers, resumes, polls, drains, compacts, retitles,
}
use claude_dbus.Bridge.Carried.{tick-Keeps, compact-Keeps}
use claude_dbus.Bridge.Carried.Handled.{handle-Keeps}
use claude_dbus.Bridge.Fate.{
  Advances, Advances-IsCarried, still, drain-Advances, finish-Advances, answer-Advances,
}
use claude_dbus.Bridge.Fate.Handled.{Advances-IsAsked}

-- The states of a question, and how they follow each other.
pub data Fate : Type 0 where
  unasked asking dropped : Fate
  told : String → Fate

pub data Moves : Fate → Fate → Type 0 where
  rests : (f : Fate) → Moves f f
  asks : (f : Fate) → Moves asking f → Moves unasked f
  tells : (answer : String) → Moves asking (told answer)
  drops : Moves asking dropped

-- What the handler hears.
abbrev pub heard : Fate → String
heard unasked = ""
heard asking = ""
heard dropped = ""
heard (told answer) = answer

-- The question that the service has given a number.
abbrev pub fate_of : Channel → Fate
fate_of waiting = asking
fate_of (answered answer) = told answer
fate_of closed = dropped
fate_of abandoned = dropped

unfoldable pub fate : System → ℕ → Fate
fate s n = if ltb n s.bridge.next_request then fate_of (s.bridge.broker.channels n) else unasked

-- Any number of steps.
pub data Later (s : System) : System → Type 0 where
  now : Later s s
  later : {s' s'' : System} → Later s s' → Step s' s'' → Later s s''

asking_first : (c : Channel) → Moves asking (fate_of c)
asking_first waiting = rests asking
asking_first (answered answer) = tells answer
asking_first closed = drops
asking_first abandoned = drops

unasked_first : (s : System) (n : ℕ) → Moves unasked (fate s n)
unfolding fate
unasked_first s n = elim (Bool-cases (ltb n s.bridge.next_request)) [
  | inl e ↦ rw e (asks _ (asking_first (s.bridge.broker.channels n)))
  | inr e ↦ rw e (rests unasked)
]

pub advanced :
    (s s' : System) → Advances s.bridge s'.bridge → (n : ℕ) → Moves (fate s n) (fate s' n)
unfolding fate
advanced s s' a n = elim (Bool-cases (ltb n s.bridge.next_request)) [
  | inl e ↦
      let e' : ltb n s'.bridge.next_request ≡ true = ground (arith, a.numbers) in
      elim (a.stands n (ground arith)) [
        | inl w ↦ rw (e, e', w) (asking_first (s'.bridge.broker.channels n))
        | inr same ↦ rw (e, e', same) (rests _)
      ]
  | inr e ↦ rw e (unasked_first s' n)
]

pub Step-Advances : {s s' : System} → Step s s' → Advances s.bridge s'.bridge
unfolding resume
Step-Advances {s} (arrives w raw clock' out t e) =
    let br = s.bridge in
    (rw e at (
      handle-Keeps (Advances br) _ (Advances-IsCarried br) (Advances-IsAsked br) w br raw
        (still br br refl refl))).0
Step-Advances {s} (answers path id answer) = answer-Advances s.bridge path id answer
Step-Advances {s} (resumes w earlier after x e) = finish-Advances s.bridge x.wait
Step-Advances {s} (polls w clock' run t e) =
    let br = s.bridge in
    rw e at (tick-Keeps (Advances br) (Advances-IsCarried br) w br (still br br refl refl))
Step-Advances {s} (drains w id) = drain-Advances w s.bridge id false
Step-Advances {s} (compacts w offset len read) =
    let br = s.bridge in
    compact-Keeps (Advances br) (Advances-IsCarried br) w br offset len read (still br br refl refl)
Step-Advances {s} (retitles w last_seen seen contents) = still s.bridge _ refl refl

Moves-trans : (f g h : Fate) → Moves f g → Moves g h → Moves f h
Moves-trans f _ h (rests _) q = q
Moves-trans _ g h (asks _ p) q = asks h (Moves-trans asking g h p q)
Moves-trans _ _ _ (tells answer) (rests _) = tells answer
Moves-trans _ _ _ drops (rests _) = drops

-- Whatever steps the service takes, each question goes through the states of the specification in
-- their order: it is asked once, and then told one answer, or dropped without one; what it was told
-- never changes.
pub Later-Moves : {s s' : System} → Later s s' → (n : ℕ) → Moves (fate s n) (fate s' n)
Later-Moves {s} now n = rests (fate s n)
Later-Moves {s} {s' = s''} (later {s'} l st) n =
    Moves-trans (fate s n) (fate s' n) (fate s'' n) (Later-Moves l n)
      (advanced s' s'' (Step-Advances st) n)

told_stays : (f : Fate) (answer : String) → Moves (told answer) f → f ≡ told answer
told_stays _ answer (rests _) = refl

fate-channel :
    (s : System) (n : ℕ) (answer : String)
    → fate s n ≡ told answer
    → answer_of (s.bridge.broker.channels n) ≡ answer
unfolding fate
fate-channel s n answer e = elim (Bool-cases (ltb n s.bridge.next_request)) [
  | inl h ↦ go (s.bridge.broker.channels n) (rw h at e)
  | inr h ↦ let e' : unasked ≡ told answer = rw h at e in absurd (cc e')
]
  where
    go : (c : Channel) → fate_of c ≡ told answer → answer_of c ≡ answer
    go waiting f = absurd (cc f)
    go (answered a) f = cc f
    go closed f = absurd (cc f)
    go abandoned f = absurd (cc f)

-- Once the question of a handler has been told an answer, then, whatever steps the service takes
-- before the handler goes on, the hook reads the reply for just this answer.
pub answer_stands :
    (w : World) (s s' : System) (x : Held) (answer : String)
    → fate s x.wait.number ≡ told answer
    → Later s s'
    → (resume w s'.bridge x.raw x.hook x.wait).1
      ≡ pending_changed x.wait.path
        ∷ (reply w x.raw.event x.hook answer ++ linked x.raw.event x.hook)
unfolding resume finish
answer_stands w s s' x answer e l =
    let n = x.wait.number in
    let m : Moves (told answer) (fate s' n) = rw e at (Later-Moves l n) in
    rw (fate-channel s' n answer (told_stays (fate s' n) answer m)) refl
