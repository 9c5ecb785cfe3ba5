-- ===== src/Broker/Live.antt =====
-- A registered request whose handler waits, and what leaves it so: every operation on other ids.
use claude_dbus.Prelude.{
  String, ℕ, List, [], ◌∷◌, ◌≡◌, refl, ◌∙◌, some, false, ◌==◌, eq_iff, mem, eqb, eqb→eq, arith,
  Bool-cases, Option-cases, inl, inr,
}
use claude_dbus.Dict
use claude_dbus.Dict.Laws.{get-remove}
use claude_dbus.Broker
use claude_dbus.Broker.{
  RequestBroker, Channel, waiting, sent, dropped, update, drop_sender, respond, cancel, cancel_all,
}
use claude_dbus.Broker.Answers.{IsUnshared, inner-cancel, cancel_all_answers}

abbrev pub Live : RequestBroker → String → ℕ → Type 0
Live b id n = (Dict.get b.inner id ≡ some n) × (b.channels n ≡ waiting)

-- The other channel is not written to.
apart :
    (b : RequestBroker) (id j : String) (n tx : ℕ)
    → IsUnshared b
    → (id == j) ≡ false
    → Dict.get b.inner j ≡ some n
    → Dict.get b.inner id ≡ some tx
    → eqb tx n ≡ false
apart b id j n tx u d h g = elim (Bool-cases (eqb tx n)) [
  | inl e ↦
      let same : id ≡ j = u id j n (rw (eqb→eq tx n e) at g) h in
      absurd (ground (arith, (eq_iff id j).1 same))
  | inr e ↦ e
]

pub respond-Live :
    (b : RequestBroker) (id j answer : String) (n : ℕ)
    → IsUnshared b
    → (id == j) ≡ false
    → Live b j n
    → Live (respond b id answer).0 j n
unfolding respond
respond-Live b id j answer n u d l = elim (Option-cases (Dict.get b.inner id)) [
  | inl e ↦ rw e (get-remove b.inner id j ∙ rw d l.0, l.1)
  | inr (tx, e) ↦ rw (e, apart b id j n tx u d l.0 e) (get-remove b.inner id j ∙ rw d l.0, l.1)
]

pub remove-Live :
    (b : RequestBroker) (id j : String) (n : ℕ)
    → IsUnshared b
    → (id == j) ≡ false
    → Live b j n
    → Live (Broker.remove b id) j n
unfolding Broker.remove drop_sender
remove-Live b id j n u d l = elim (Option-cases (Dict.get b.inner id)) [
  | inl e ↦ rw e (get-remove b.inner id j ∙ rw d l.0, l.1)
  | inr (tx, e) ↦ rw (e, apart b id j n tx u d l.0 e) (get-remove b.inner id j ∙ rw d l.0, l.1)
]

inner-cancel_all :
    (b : RequestBroker) (ids : List String) (j : String)
    → mem j ids ≡ false
    → Dict.get (cancel_all b ids).inner j ≡ Dict.get b.inner j
unfolding cancel_all
inner-cancel_all b [] j h = refl
inner-cancel_all b (id ∷ ids) j h =
    ground (arith, inner-cancel_all (cancel b id).0 ids j, inner-cancel b id j)

pub cancel_all-Live :
    (b : RequestBroker) (ids : List String) (j : String) (n : ℕ)
    → IsUnshared b
    → mem j ids ≡ false
    → Live b j n
    → Live (cancel_all b ids) j n
cancel_all-Live b ids j n u d l =
    (inner-cancel_all b ids j d ∙ l.0, cancel_all_answers b ids j n u l.0 l.1 ∙ rw d refl)
