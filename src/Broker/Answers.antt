-- ===== src/Broker/Answers.antt =====
-- Who hears of an answer, and how often.
use claude_dbus.Prelude.{
  String, ℕ, List, [], ◌∷◌, none, some, true, false, eqb, if◌then◌else◌, ◌≡◌, ◌≢◌, ◌⊎◌, refl, arith,
  ◌==◌, eq_iff, eqb_refl, mem, Bool-cases, inl, inr, Option-cases, ◌∙◌,
}
use claude_dbus.Dict
use claude_dbus.Dict.{Dict}
use claude_dbus.Dict.Laws.{get-remove, get-remove_self}
use claude_dbus.Broker.{RequestBroker, waiting, answered, respond, cancel, cancel_all}

-- No two requests share a channel.
abbrev pub IsUnshared : RequestBroker → Type 0
IsUnshared b =
    (j k : String) (tx : ℕ) → Dict.get b.inner j ≡ some tx → Dict.get b.inner k ≡ some tx → j ≡ k

-- A registered request whose handler waits is answered by the first `respond`, which says so; the
-- entry is gone, every other channel and entry is untouched, and a second `respond` delivers nothing.
pub respond_once :
    (b : RequestBroker) (id answer again : String) (tx : ℕ)
    → Dict.get b.inner id ≡ some tx
    → b.channels tx ≡ waiting
    → let b' = (respond b id answer).0 in
      ((respond b id answer).1 ≡ true)
      × (b'.channels tx ≡ answered answer)
      × ((n : ℕ) → (eqb tx n ≡ true) ⊎ (b'.channels n ≡ b.channels n))
      × ((j : String) → Dict.get b'.inner j ≡ (if id == j then none else Dict.get b.inner j))
      × ((respond b' id again).1 ≡ false)
unfolding respond
respond_once b id answer again tx found wait = (
  rw (found, wait) refl,
  rw (found, wait, eqb_refl tx) refl,
  λ n. elim (Bool-cases (eqb tx n)) [ inl e ↦ inl e | inr e ↦ inr (rw (found, e) refl) ],
  λ j. rw found (get-remove b.inner id j),
  rw (found, get-remove_self b.inner id) refl,
)

pub inner-cancel :
    (b : RequestBroker) (id j : String)
    → Dict.get (cancel b id).0.inner j ≡ (if id == j then none else Dict.get b.inner j)
unfolding cancel respond
inner-cancel b id j = elim (Option-cases (Dict.get b.inner id)) [
  | inl e ↦ rw e (get-remove b.inner id j)
  | inr (tx, e) ↦ rw e (get-remove b.inner id j)
]

-- A channel changes only if its request is the one cancelled.
channels-cancel :
    (b : RequestBroker) (id : String) (tx : ℕ)
    → Dict.get b.inner id ≢ some tx
    → (cancel b id).0.channels tx ≡ b.channels tx
unfolding cancel respond
channels-cancel b id tx h = elim (Option-cases (Dict.get b.inner id)) [
  | inl e ↦ rw e refl
  | inr (ty, e) ↦ rw e (elim (Bool-cases (eqb ty tx)) [
    | inl same ↦ absurd (h (ground arith))
    | inr other ↦ rw other refl
  ])
]

cancel-IsUnshared : (b : RequestBroker) (id : String) → IsUnshared b → IsUnshared (cancel b id).0
cancel-IsUnshared b id u j k tx hj hk =
    u j k tx (ground (arith, inner-cancel b id j)) (ground (arith, inner-cancel b id k))

-- A channel that no entry leads to keeps its state.
channels-cancel_all :
    (b : RequestBroker) (ids : List String) (tx : ℕ)
    → ((j : String) → Dict.get b.inner j ≢ some tx)
    → (cancel_all b ids).channels tx ≡ b.channels tx
unfolding cancel_all
channels-cancel_all b [] tx h = refl
channels-cancel_all b (i ∷ ids) tx h =
    channels-cancel_all (cancel b i).0 ids tx (λ j e. h j (ground (arith, inner-cancel b i j)))
    ∙ channels-cancel b i tx (h i)

-- The cancelled request's handler hears the empty text, and nothing leads to its channel any more.
told :
    (b : RequestBroker) (id : String) (tx : ℕ)
    → Dict.get b.inner id ≡ some tx
    → b.channels tx ≡ waiting
    → (cancel b id).0.channels tx ≡ answered ""
unfolding cancel respond
told b id tx h w = rw (h, w, eqb_refl tx) refl

gone :
    (b : RequestBroker) (id : String) (tx : ℕ)
    → IsUnshared b
    → Dict.get b.inner id ≡ some tx
    → (j : String) → Dict.get (cancel b id).0.inner j ≢ some tx
gone b id tx u h j hj =
    ground
      (arith, inner-cancel b id j, eq_iff id j, λ (e : Dict.get b.inner j ≡ some tx). u id j tx h e)

-- In a broker in which no two requests share a channel, cancelling a list of them answers each
-- waiting handler on it with the empty text, and leaves the channel of every registered request
-- that is not on the list as it was.
pub cancel_all_answers :
    (b : RequestBroker) (ids : List String) (id : String) (tx : ℕ)
    → IsUnshared b
    → Dict.get b.inner id ≡ some tx
    → b.channels tx ≡ waiting
    → (cancel_all b ids).channels tx ≡ (if mem id ids then answered "" else waiting)
unfolding cancel_all
cancel_all_answers b [] id tx u h w = w
cancel_all_answers b (i ∷ ids) id tx u h w = elim (Bool-cases (i == id)) [
  | inl e ↦
      let same = (eq_iff i id).0 e in
      let hi : Dict.get b.inner i ≡ some tx = rw same h in
      rw e (channels-cancel_all (cancel b i).0 ids tx (gone b i tx u hi) ∙ told b i tx hi w)
  | inr e ↦
      let other : Dict.get b.inner i ≢ some tx =
        λ hi. ground (arith, eq_iff i id, u i id tx hi h) in
      let kept : Dict.get (cancel b i).0.inner id ≡ some tx = ground (arith, inner-cancel b i id) in
      rw e (
        cancel_all_answers (cancel b i).0 ids id tx (cancel-IsUnshared b i u) kept
          (channels-cancel b i tx other ∙ w))
]
