-- ===== src/Broker/Stands.antt =====
-- A channel that has its answer, or will never have one, keeps its state: the broker writes to
-- channels that wait, and to no others.
use claude_dbus.Prelude.{
  String, ℕ, List, [], ◌∷◌, ◌≡◌, ◌⊎◌, refl, ◌∙◌, Option, none, some, eqb, eqb→eq, Bool-cases,
  Option-cases, inl, inr,
}
use claude_dbus.Dict
use claude_dbus.Broker
use claude_dbus.Broker.{
  RequestBroker, Channel, waiting, answered, closed, abandoned, sent, dropped, update, drop_sender,
  respond, cancel, cancel_all,
}

-- A channel waits, or is what it was.
abbrev pub Stands : RequestBroker → RequestBroker → ℕ → Type 0
Stands b b' n = (b.channels n ≡ waiting) ⊎ (b'.channels n ≡ b.channels n)

pub Stands-trans : (a b c : RequestBroker) (n : ℕ) → Stands a b n → Stands b c n → Stands a c n
Stands-trans a b c n (inl e) h = inl e
Stands-trans a b c n (inr e) (inl f) = inl (cc (e, f))
Stands-trans a b c n (inr e) (inr f) = inr (f ∙ e)

-- What is written to a channel.
written :
    (channels : ℕ → Channel) (tx : ℕ) (c : Channel) (n : ℕ)
    → (channels tx ≡ waiting) ⊎ (c ≡ channels tx)
    → (channels n ≡ waiting) ⊎ (update channels tx c n ≡ channels n)
written channels tx c n h = elim (Bool-cases (eqb tx n)) [
  | inl e ↦ rw (e, ← eqb→eq tx n e) h
  | inr e ↦ rw e (inr refl)
]

sent_same : (c : Channel) (answer : String) → (c ≡ waiting) ⊎ ((sent c answer).0 ≡ c)
sent_same waiting answer = inl refl
sent_same (answered a) answer = inr refl
sent_same closed answer = inr refl
sent_same abandoned answer = inr refl

dropped_same : (c : Channel) → (c ≡ waiting) ⊎ (dropped c ≡ c)
dropped_same waiting = inl refl
dropped_same (answered a) = inr refl
dropped_same closed = inr refl
dropped_same abandoned = inr refl

pub respond-Stands :
    (b : RequestBroker) (id answer : String) (n : ℕ) → Stands b (respond b id answer).0 n
unfolding respond
respond-Stands b id answer n = elim (Option-cases (Dict.get b.inner id)) [
  | inl e ↦ rw e (inr refl)
  | inr (tx, e) ↦ rw e (written b.channels tx _ n (sent_same (b.channels tx) answer))
]

drop_sender-Stands :
    (channels : ℕ → Channel) (found : Option ℕ) (n : ℕ)
    → (channels n ≡ waiting) ⊎ (drop_sender found channels n ≡ channels n)
unfolding drop_sender
drop_sender-Stands channels none n = inr refl
drop_sender-Stands channels (some tx) n = written channels tx _ n (dropped_same (channels tx))

pub remove-Stands : (b : RequestBroker) (id : String) (n : ℕ) → Stands b (Broker.remove b id) n
unfolding Broker.remove
remove-Stands b id n = drop_sender-Stands b.channels (Dict.get b.inner id) n

pub register-Stands :
    (b : RequestBroker) (id : String) (tx n : ℕ) → Stands b (Broker.register b id tx) n
unfolding Broker.register
register-Stands b id tx n = drop_sender-Stands b.channels (Dict.get b.inner id) n

pub cancel_all-Stands :
    (b : RequestBroker) (ids : List String) (n : ℕ) → Stands b (cancel_all b ids) n
unfolding cancel_all cancel
cancel_all-Stands b [] n = inr refl
cancel_all-Stands b (id ∷ ids) n =
    let b' = (cancel b id).0 in
    Stands-trans b b' (cancel_all b' ids) n (respond-Stands b id "" n) (cancel_all-Stands b' ids n)
