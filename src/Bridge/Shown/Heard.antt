-- ===== src/Bridge/Shown/Heard.antt =====
-- A client's answer to a request that it sees reaches the hook that asked.
use claude_dbus.Prelude.{
  String, ℕ, ◌≡◌, ◌≢◌, refl, sym, List, [], ◌∷◌, ◌++◌, mem, some, true, arith, inl, inr, ltb,
}
use claude_dbus.Dict
use claude_dbus.Session.Object.{SessionObject, PendingRequest}
use claude_dbus.Session.Pending.{ids, pending_request_ids_value}
use claude_dbus.Session.Pending.Queue.{Lacks}
use claude_dbus.Session.Respond.{respond_by_id}
use claude_dbus.Bridge.{World, pending_changed}
use claude_dbus.Bridge.Wait.{request_id, request_id-nonempty}
use claude_dbus.Bridge.Handler.{resume, reply, linked}
use claude_dbus.Bridge.System.{Held, System, client_answer, Reachable}
use claude_dbus.Bridge.Fate.Spec.{told, fate, Later, answer_stands}
use claude_dbus.Bridge.Shown.Keeps.{HasHome, IsOpen, IsShown}
use claude_dbus.Bridge.Shown.Reached.{homes, Reachable-IsShown}

-- The handler that waits at a home.
record IsHeld (held : List Held) (path : String) (n : ℕ) : Type 0 where
  handler : Held
  earlier : List Held
  later' : List Held
  whole : held ≡ earlier ++ (handler ∷ later')
  path' : handler.wait.path ≡ path
  number : handler.wait.number ≡ n

home-IsHeld :
    (held : List Held) (path : String) (n : ℕ) → HasHome (homes held) path n → IsHeld held path n
home-IsHeld [] path n h = elim h [ ]
home-IsHeld (x ∷ held) path n (inl e) = record {
  handler = x;
  earlier = [];
  later' = held;
  whole = refl;
  path' = e.0;
  number = e.1;
}
home-IsHeld (x ∷ held) path n (inr h) =
    let o = home-IsHeld held path n h in
    record {
      handler = o.handler;
      earlier = x ∷ o.earlier;
      later' = o.later';
      whole = rw (← o.whole) refl;
      path' = o.path';
      number = o.number;
    }

pub not_lacking :
    (id : String) (rs : List PendingRequest) → mem id (ids rs) ≡ true → Lacks id rs → ⊥
not_lacking id [] m l = cc m
not_lacking id (r ∷ rs) m l = ground (arith, not_lacking id rs)

-- The state after a client's answer.
abbrev pub after_answer : System → String → String → String → System
after_answer s path id answer = record s { bridge = client_answer s.bridge path (some id) answer }

told_fate :
    (s : System) (path id answer : String) (o : SessionObject)
    → IsShown (homes s.held) s.bridge
    → Dict.get s.bridge.store path ≡ some o
    → mem id (ids o.pending_requests) ≡ true
    → answer ≢ ""
    → (open'' : IsOpen (homes s.held) s.bridge.broker path id)
    → fate (after_answer s path id answer) open''.number ≡ told answer
unfolding fate client_answer
told_fate s path id answer o v there m ne open'' =
    let n = open''.number in
    let (small, is_id) = v.numbered id n open''.live.0 in
    let nonempty : id ≢ "" = rw is_id (request_id-nonempty n) in
    let given : ltb n s.bridge.next_request ≡ true = ground arith in
    elim (respond_by_id o s.bridge.broker id answer n nonempty ne open''.live.0 open''.live.1) [
      | inl (lacks, same) ↦ absurd (not_lacking id o.pending_requests m lacks)
      | inr a ↦ rw (there, given, a.heard) refl
    ]

-- When the service, in a state that it can reach, shows a request on the bus, and a client gives an
-- answer to it that is not empty, then a handler waits for this request; and whatever steps the
-- service takes before this handler goes on, its hook then reads the reply for just that answer.
pub shown_answered :
    {ttl : ℕ} (w : World) (s s' : System) (path id answer : String) (o : SessionObject)
    → Reachable ttl s
    → Dict.get s.bridge.store path ≡ some o
    → mem id (pending_request_ids_value o) ≡ true
    → answer ≢ ""
    → Later (after_answer s path id answer) s'
    → (x : Held) × (earlier : List Held) × (later : List Held) × (s.held ≡ earlier ++ (x ∷ later))
      × (x.wait.path ≡ path)
      × (request_id x.wait.number ≡ id)
      × ((resume w s'.bridge x.raw x.hook x.wait).1
          ≡ pending_changed path ∷ (reply w x.raw.event x.hook answer ++ linked x.raw.event x.hook))
unfolding pending_request_ids_value
shown_answered w s s' path id answer o r there m ne l =
    let v = Reachable-IsShown s r in
    let open'' = v.open' path o id there m in
    let h = home-IsHeld s.held path open''.number open''.home in
    let x = h.handler in
    let e : fate (after_answer s path id answer) x.wait.number ≡ told answer =
      rw h.number (told_fate s path id answer o v there m ne open'') in
    let is_id : request_id x.wait.number ≡ id =
      rw h.number (sym (v.numbered id open''.number open''.live.0).1) in
    (
      x,
      h.earlier,
      h.later',
      h.whole,
      h.path',
      is_id,
      rw (← h.path') (answer_stands w (after_answer s path id answer) s' x answer e l),
    )
