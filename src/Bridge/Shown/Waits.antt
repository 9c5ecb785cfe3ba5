-- ===== src/Bridge/Shown/Waits.antt =====
-- A new question can be answered, and the end of a wait takes its own request off and no other.
use claude_dbus.Prelude.{
  String, ℕ, ◌+◌, ◌<◌, List, [], ◌∷◌, ◌++◌, ◌≡◌, refl, ◌∙◌, sym, ap, none, some, true, false, ◌==◌,
  ==_ne, eq_iff, mem, mem-append, snoc-Distinct, eqb, eqb_refl, arith, Bool-cases, Option-cases,
  inl, inr,
}
use claude_dbus.Dict
use claude_dbus.Dict.Laws.{get-insert, get-insert_self}
use claude_dbus.Broker
use claude_dbus.Broker.{RequestBroker, waiting, respond}
use claude_dbus.Broker.Live.{Live, remove-Live}
use claude_dbus.Session.Object.{SessionObject, PendingRequest}
use claude_dbus.Session.Pending.{ids}
use claude_dbus.Session.Pending.Ids.{ids-append}
use claude_dbus.Bridge.{Bridge}
use claude_dbus.Bridge.Wait.{Waiting, request_id, registered}
use claude_dbus.Bridge.Fresh.{request_id_injective}
use claude_dbus.Bridge.Steps.{remove-Shrinks}
use claude_dbus.Bridge.Shown.{IsNumbered, numbered-IsUnshared}
use claude_dbus.Bridge.Shown.Keeps.{HasHome, IsOpen, IsShown}

-- The id of a request that is not registered yet.
fresh :
    (b : RequestBroker) (next : ℕ) → IsNumbered b next → Dict.get b.inner (request_id next) ≡ none
fresh b next num = elim (Option-cases (Dict.get b.inner (request_id next))) [
  | inl e ↦ e
  | inr (tx, e) ↦
      let old = num (request_id next) tx e in
      absurd (omega (arith, old.0, request_id_injective next tx old.1))
]

registered-IsNumbered :
    (b : RequestBroker) (next : ℕ) → IsNumbered b next → IsNumbered (registered b next) (next + 1)
unfolding Broker.register
registered-IsNumbered b next num id n h = elim (Bool-cases (request_id next == id)) [
  | inl e ↦
      let same : next ≡ n = ground (arith, get-insert b.inner (request_id next) id next) in
      (omega arith, rw (← same) (sym ((eq_iff (request_id next) id).0 e)))
  | inr e ↦
      let old = num id n (ground (arith, get-insert b.inner (request_id next) id next)) in
      (omega (arith, old.0), old.1)
]

-- Another request is not the next one.
other_id :
    (b : RequestBroker) (next : ℕ) (id : String) (n : ℕ)
    → IsNumbered b next
    → Live b id n
    → (request_id next == id) ≡ false
other_id b next id n num l =
    ==_ne (request_id next) id (λ e. ground (arith, ap (Dict.get b.inner) e, fresh b next num, l.0))

registered-Live :
    (b : RequestBroker) (next : ℕ) (id : String) (n : ℕ)
    → IsNumbered b next
    → Live b id n
    → Live (registered b next) id n
unfolding Broker.register Broker.drop_sender
registered-Live b next id n num l =
    let other : eqb next n ≡ false = ground (arith, (num id n l.0).0) in
    (
      get-insert b.inner (request_id next) id next ∙ rw (other_id b next id n num l) l.0,
      rw (fresh b next num, other) l.1,
    )

new-Live :
    (b : RequestBroker) (next : ℕ)
    → IsNumbered b next
    → Live (registered b next) (request_id next) next
unfolding Broker.register Broker.drop_sender
new-Live b next num =
    (get-insert_self b.inner (request_id next) next, rw (fresh b next num, eqb_refl next) refl)

module _ (waits : List Waiting) (br : Bridge) (path : String) (v : IsShown waits br) where
  abbrev pub mine : Waiting
  mine = record { path = path; number = br.next_request }

  -- No object shows the next id.
  unshown :
      (p : String) (s : SessionObject)
      → Dict.get br.store p ≡ some s
      → mem (request_id br.next_request) (ids s.pending_requests) ≡ false
  unshown p s h = elim (Bool-cases (mem (request_id br.next_request) (ids s.pending_requests))) [
    | inl e ↦
        let o = v.open' p s (request_id br.next_request) h e in
        absurd (ground (arith, o.live.0, fresh br.broker br.next_request v.numbered))
    | inr e ↦ e
  ]

  homes : (p q : String) (n : ℕ) → HasHome (mine ∷ waits) p n → HasHome (mine ∷ waits) q n → p ≡ q
  homes p q n (inl e) (inl f) = cc (e.0, f.0)
  homes p q n (inl e) (inr f) = absurd (omega (arith, v.given q n f, e.1))
  homes p q n (inr e) (inl f) = absurd (omega (arith, v.given p n e, f.1))
  homes p q n (inr e) (inr f) = v.one_home p q n e f

  below : (p : String) (n : ℕ) → HasHome (mine ∷ waits) p n → n < br.next_request + 1
  below p n (inl e) = omega (arith, e.1)
  below p n (inr e) = omega (arith, v.given p n e)

  lifted :
      (p id : String)
      → IsOpen waits br.broker p id
      → IsOpen (mine ∷ waits) (registered br.broker br.next_request) p id
  lifted p id o = record {
    number = o.number;
    live = registered-Live br.broker br.next_request id o.number v.numbered o.live;
    home = inr o.home;
  }

  -- The request is on the list: it is the last one.
  pub pushed-IsShown :
      (s : SessionObject) (r : PendingRequest) (s' : SessionObject)
      → Dict.get br.store path ≡ some s
      → r.id ≡ request_id br.next_request
      → s'.pending_requests ≡ s.pending_requests ++ (r ∷ [])
      → IsShown (mine ∷ waits) (record br {
        store = Dict.insert br.store path s';
        broker = registered br.broker br.next_request;
        next_request = br.next_request + 1;
      })
  pushed-IsShown s r s' there is_next list = record {
    numbered = registered-IsNumbered br.broker br.next_request v.numbered;
    given = below;
    one_home = homes;
    distinct = λ p t h. elim (Bool-cases (path == p)) [
      | inl e ↦
          let same : s' ≡ t = ground (arith, get-insert br.store path p s') in
          rw (← same, list, ids-append, is_next)
            (snoc-Distinct (request_id br.next_request) (ids s.pending_requests)
              (unshown path s there) (v.distinct path s there))
      | inr e ↦ v.distinct p t (ground (arith, get-insert br.store path p s'))
    ];
    open' = λ p t id h m. elim (Bool-cases (path == p)) [
      | inl e ↦
          let same : s' ≡ t = ground (arith, get-insert br.store path p s') in
          let at_home : path ≡ p = (eq_iff path p).0 e in
          elim (Bool-cases (mem id (ids s.pending_requests))) [
            | inl old ↦ rw (← at_home) (lifted path id (v.open' path s id there old))
            | inr new ↦
                let m' : mem id (ids (s.pending_requests ++ (r ∷ []))) ≡ true =
                  rw (← list, same) m in
                let last : r.id ≡ id = ground (
                  arith,
                  ids-append s.pending_requests (r ∷ []),
                  mem-append id (ids s.pending_requests) (r.id ∷ []),
                  eq_iff r.id id,
                ) in
                let it : request_id br.next_request ≡ id = cc (last, is_next) in
                rw (← at_home, ← it)
                  (record {
                    number = br.next_request;
                    live = new-Live br.broker br.next_request v.numbered;
                    home = inl (refl, refl);
                  })
          ]
      | inr e ↦ lifted p id (v.open' p t id (ground (arith, get-insert br.store path p s')) m)
    ];
  }

  -- The request was dropped at the limit.
  pub dropped-IsShown : IsShown waits (record br {
    broker = Broker.remove (registered br.broker br.next_request) (request_id br.next_request);
    next_request = br.next_request + 1;
  })
  dropped-IsShown =
      let b = registered br.broker br.next_request in
      let num = registered-IsNumbered br.broker br.next_request v.numbered in
      record {
        numbered = λ id n h. num id n (remove-Shrinks b (request_id br.next_request) id n h);
        given = λ p n h. omega (arith, v.given p n h);
        one_home = v.one_home;
        distinct = v.distinct;
        open' = λ p t id h m.
            let o = v.open' p t id h m in
            record {
              number = o.number;
              live =
                  remove-Live b (request_id br.next_request) id o.number
                    (numbered-IsUnshared b (br.next_request + 1) num)
                    (other_id br.broker br.next_request id o.number v.numbered o.live)
                    (registered-Live br.broker br.next_request id o.number v.numbered o.live);
              home = o.home;
            };
      }
