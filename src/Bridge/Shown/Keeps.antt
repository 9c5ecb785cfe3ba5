-- ===== src/Bridge/Shown/Keeps.antt =====
-- What clients see pending can be answered: the part of the service's state. Every request that an
-- object shows is registered, its channel waits, and a handler waits for it under the object's path.
use claude_dbus.Prelude.{
  String, ℕ, ◌<◌, List, [], ◌∷◌, ◌≡◌, ◌⊎◌, refl, Option, none, some, true, false, ◌==◌, eq_iff, mem,
  Distinct, arith, Bool-cases, Option-cases, inl, inr,
}
use claude_dbus.Dict
use claude_dbus.Dict.Laws.{get-insert}
use claude_dbus.Core.Path.{session_path}
use claude_dbus.Broker.{RequestBroker}
use claude_dbus.Broker.Live.{Live}
use claude_dbus.Session.Object.{SessionObject, PendingRequest}
use claude_dbus.Session.Pending.{ids}
use claude_dbus.Bus.Store.{Store}
use claude_dbus.Bridge.{Bridge, Update, subject, dbus_update}
use claude_dbus.Bridge.Wait.{Waiting}
use claude_dbus.Bridge.Keeps.{store_lem}
use claude_dbus.Bridge.Shown.{IsNumbered, Leaves, IsHonest}

-- A handler waits for the request with this number, of the object at this path.
abbrev pub HasHome : List Waiting → String → ℕ → Type 0
HasHome [] path n = ⊥
HasHome (w ∷ ws) path n = ((w.path ≡ path) × (w.number ≡ n)) ⊎ HasHome ws path n

-- A pending request that can be answered.
pub record IsOpen (waits : List Waiting) (b : RequestBroker) (path id : String) : Type 0 where
  pub number : ℕ
  pub live : Live b id number
  pub home : HasHome waits path number

pub record IsShown (waits : List Waiting) (br : Bridge) : Type 0 where
  pub numbered : IsNumbered br.broker br.next_request
  pub given : (path : String) (n : ℕ) → HasHome waits path n → n < br.next_request
  pub one_home : (p q : String) (n : ℕ) → HasHome waits p n → HasHome waits q n → p ≡ q
  pub distinct :
      (path : String) (s : SessionObject)
      → Dict.get br.store path ≡ some s
      → Distinct (ids s.pending_requests)
  pub open' :
      (path : String) (s : SessionObject) (id : String)
      → Dict.get br.store path ≡ some s
      → mem id (ids s.pending_requests) ≡ true
      → IsOpen waits br.broker path id

-- The pending requests of an object that may be missing.
abbrev pub pending_of : Option SessionObject → List PendingRequest
pending_of none = []
pending_of (some s) = s.pending_requests

pub pending-Distinct :
    (waits : List Waiting) (br : Bridge) (path : String)
    → IsShown waits br
    → Distinct (ids (pending_of (Dict.get br.store path)))
pending-Distinct waits br path v = elim (Option-cases (Dict.get br.store path)) [
  | inl e ↦ rw e tt
  | inr (s, e) ↦ rw e (v.distinct path s e)
]

pub pending-IsOpen :
    (waits : List Waiting) (br : Bridge) (path id : String)
    → IsShown waits br
    → mem id (ids (pending_of (Dict.get br.store path))) ≡ true
    → IsOpen waits br.broker path id
pending-IsOpen waits br path id v m = elim (Option-cases (Dict.get br.store path)) [
  | inl e ↦ let bad : false ≡ true = rw e at m in absurd (cc bad)
  | inr (s, e) ↦ v.open' path s id e (rw e at m)
]

-- An object changes, and a broker with it: what other objects show stays answerable, since no two
-- of them show the same id.
pub put-IsShown :
    (waits : List Waiting) (br : Bridge) (path : String) (s : SessionObject) (b : RequestBroker)
    → Leaves (pending_of (Dict.get br.store path)) br.broker s.pending_requests b
    → IsShown waits br
    → IsShown waits (record br { store = Dict.insert br.store path s; broker = b })
put-IsShown waits br path s b l v = record {
  numbered = λ id n h. v.numbered id n (l.shrinks id n h);
  given = v.given;
  one_home = v.one_home;
  distinct = λ p t h. elim (Bool-cases (path == p)) [
    | inl e ↦
        let same : s ≡ t = ground (arith, get-insert br.store path p s) in rw (← same) l.distinct
    | inr e ↦ v.distinct p t (ground (arith, get-insert br.store path p s))
  ];
  open' = λ p t id h m. elim (Bool-cases (path == p)) [
    | inl e ↦
        let same : s ≡ t = ground (arith, get-insert br.store path p s) in
        let m' : mem id (ids s.pending_requests) ≡ true = rw same m in
        let o = pending-IsOpen waits br path id v (l.fewer id m') in
        let at_home : path ≡ p = (eq_iff path p).0 e in
        rw (← at_home)
          (record { number = o.number; live = l.keeps id o.number (λ k. m') o.live; home = o.home })
    | inr e ↦
        let o = v.open' p t id (ground (arith, get-insert br.store path p s)) m in
        let elsewhere : mem id (ids (pending_of (Dict.get br.store path))) ≡ true
            → mem id (ids s.pending_requests) ≡ true =
          λ k.
            let o' = pending-IsOpen waits br path id v k in
            let same : o.number ≡ o'.number = cc (o.live.0, o'.live.0) in
            let homes : path ≡ p = v.one_home path p o'.number o'.home (rw same at o.home) in
            absurd (ground (arith, (eq_iff path p).1 homes)) in
        record { number = o.number; live = l.keeps id o.number elsewhere o.live; home = o.home }
  ];
}

-- The same for the fields that hold no requests.
pub beside-IsShown :
    (waits : List Waiting) (br br' : Bridge)
    → br'.store ≡ br.store
    → br'.broker ≡ br.broker
    → br'.next_request ≡ br.next_request
    → IsShown waits br
    → IsShown waits br'
beside-IsShown waits br br' e f g v = record {
  numbered = rw (f, g) v.numbered;
  given = rw g v.given;
  one_home = v.one_home;
  distinct = rw e v.distinct;
  open' = rw (e, f) v.open';
}

subject-pending :
    (store : Store) (agent id : String)
    → (subject store agent id).pending_requests
      ≡ pending_of (Dict.get store (session_path agent id))
subject-pending store agent id = elim (Option-cases (Dict.get store (session_path agent id))) [
  | inl e ↦ rw e refl
  | inr (s, e) ↦ rw e refl
]

pub dbus_update-IsShown :
    (waits : List Waiting) (br : Bridge) (agent id : String) (f : Update)
    → IsHonest f
    → IsShown waits br
    → IsShown waits (dbus_update br agent id f).0
unfolding dbus_update
dbus_update-IsShown waits br agent id f honest v =
    let s = subject br.store agent id in
    let r = f s br.broker in
    let path = session_path agent id in
    let same = subject-pending br.store agent id in
    let d : Distinct (ids s.pending_requests) = rw same (pending-Distinct waits br path v) in
    let l : Leaves (pending_of (Dict.get br.store path)) br.broker r.0.pending_requests r.1 =
      rw same at (honest s br.broker br.next_request v.numbered d) in
    rw (store_lem br.store agent id r.0) (put-IsShown waits br path r.0 r.1 l v)
