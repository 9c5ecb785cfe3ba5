-- ===== src/Bridge/Shown/Ends.antt =====
-- A handler that asks, and one that has heard, leave every pending request answerable.
use claude_dbus.Prelude.{
  String, ℕ, List, [], ◌∷◌, ◌++◌, ◌≡◌, ◌⊎◌, refl, ◌∙◌, sym, Option, none, some, true, false, ◌==◌,
  eq_iff, mem, Distinct, leb, length, arith, Bool-cases, Option-cases, inl, inr,
}
use claude_dbus.Dict
use claude_dbus.Dict.Laws.{get-insert}
use claude_dbus.Core.Path.{session_path}
use claude_dbus.Broker.Live.{remove-Live}
use claude_dbus.Session.Object.{SessionObject, PendingRequest}
use claude_dbus.Session.Pending.{
  ids, max_pending_requests_per_session, push_pending_request, remove_pending_request,
  removed_pending, refresh_requires_attention, take_by_id,
}
use claude_dbus.Session.Pending.Ids.{take-IsTaken, take-none}
use claude_dbus.Service.Events.{transported}
use claude_dbus.Bridge.{Bridge, Update, update_session}
use claude_dbus.Bridge.Wait.{
  ElicitationRequest, Waiting, request_id, pending_request, ask_object, ask, without_request,
  finish,
}
use claude_dbus.Bridge.Fresh.{request_id_injective}
use claude_dbus.Bridge.Steps.{remove-Shrinks}
use claude_dbus.Bridge.Carried.Arms.{transported-IsCalm}
use claude_dbus.Bridge.Carried.Handled.{IsAsked}
use claude_dbus.Bridge.Shown.{plain-IsHonest, numbered-IsUnshared}
use claude_dbus.Bridge.Shown.Keeps.{
  HasHome, IsOpen, IsShown, pending_of, pending-Distinct, pending-IsOpen,
}
use claude_dbus.Bridge.Shown.Parts.{update_session-IsShown}
use claude_dbus.Bridge.Shown.Waits.{pushed-IsShown, dropped-IsShown}
use claude_dbus.Bus.Store.{Store}

abbrev pub with_home : Option Waiting → List Waiting → List Waiting
with_home none waits = waits
with_home (some wait) waits = wait ∷ waits

asked_object-IsShown :
    (waits : List Waiting) (br : Bridge) (path : String) (request : ElicitationRequest)
    (found : Option SessionObject)
    → Dict.get br.store path ≡ found
    → IsShown waits br
    → let (run, wait) = ask_object br path request found in IsShown (with_home wait waits) run.0
unfolding push_pending_request refresh_requires_attention
asked_object-IsShown waits br path request none e v = v
asked_object-IsShown waits br path request (some s) e v =
    let r = pending_request (request_id br.next_request) request in
    elim (Bool-cases (leb max_pending_requests_per_session (length s.pending_requests))) [
      | inl full ↦ rw full (dropped-IsShown waits br path v)
      | inr fits ↦ rw fits (
          let s' =
            refresh_requires_attention
              (record s { pending_requests = s.pending_requests ++ (r ∷ []) }) in
          pushed-IsShown waits br path v s r s' e refl refl)
    ]

pub IsShown-IsAsked :
    (waits : List Waiting) → IsAsked (IsShown waits) (λ br wait. IsShown (with_home wait waits) br)
unfolding ask
IsShown-IsAsked waits = record {
  ended = λ br v. v;
  waits = λ w br h request v.
      let f : Update = λ s b. (transported h s, b) in
      let br1 = (update_session w br h.agent h.session_id f).0 in
      let path = session_path h.agent h.session_id in
      asked_object-IsShown waits br1 path request (Dict.get br1.store path) refl (
        update_session-IsShown waits w br h.agent h.session_id f
          (plain-IsHonest (transported h) (transported-IsCalm h)) v);
}

-- The request of a handler whose wait is over leaves the list of its object.
record Lacking (id : String) (xs ys : List PendingRequest) : Type 0 where
  gone : mem id (ids ys) ≡ false
  fewer : (j : String) → mem j (ids ys) ≡ true → mem j (ids xs) ≡ true
  distinct : Distinct (ids ys)

removed-Lacking :
    (id : String) (s : SessionObject)
    → Distinct (ids s.pending_requests)
    → Lacking id s.pending_requests (remove_pending_request s id).0.pending_requests
unfolding remove_pending_request removed_pending refresh_requires_attention
removed-Lacking id s d = elim (Option-cases (take_by_id id s.pending_requests)) [
  | inl e ↦
      rw e (record { gone = take-none id s.pending_requests e; fewer = λ j m. m; distinct = d })
  | inr ((r, rest), e) ↦
      let t = (take-IsTaken id s.pending_requests d e).1 in
      rw e (record {
        gone = t.gone;
        fewer = λ j m. elim (Bool-cases (id == j)) [
          | inl f ↦ rw ((eq_iff id j).0 f) at t.there
          | inr f ↦ rw (← t.others j f) m
        ];
        distinct = t.distinct;
      })
]

without-Lacking :
    (waits : List Waiting) (br : Bridge) (path id : String)
    → IsShown waits br
    → Lacking id
        (pending_of (Dict.get br.store path))
        (pending_of (Dict.get (without_request br.store path id (Dict.get br.store path)) path))
without-Lacking waits br path id v = elim (Option-cases (Dict.get br.store path)) [
  | inl e ↦ rw (e, e) (record { gone = refl; fewer = λ j m. m; distinct = tt })
  | inr (s, e) ↦
      let s' = (remove_pending_request s id).0 in
      let l = removed-Lacking id s (v.distinct path s e) in
      let same : Dict.get (Dict.insert br.store path s') path ≡ some s' =
        ground (arith, get-insert br.store path path s', eq_iff path path) in
      rw (e, same) l
]

elsewhere :
    (store : Store) (path p id : String)
    → (path == p) ≡ false
    → Dict.get (without_request store path id (Dict.get store path)) p ≡ Dict.get store p
elsewhere store path p id d = elim (Option-cases (Dict.get store path)) [
  | inl e ↦ rw e refl
  | inr (s, e) ↦ rw e (get-insert store path p (remove_pending_request s id).0 ∙ rw d refl)
]

module _ (waits : List Waiting) (br : Bridge) (wait : Waiting) (v : IsShown waits br)
    (mine : HasHome waits wait.path wait.number) where
  abbrev rest : Store
  rest = without_request br.store wait.path (request_id wait.number) (Dict.get br.store wait.path)

  -- What is still shown was shown before, and is another request.
  record StillOpen (path id : String) : Type 0 where
    other : (request_id wait.number == id) ≡ false
    open' : IsOpen waits br.broker path id

  at_path :
      (j : String)
      → mem j (ids (pending_of (Dict.get rest wait.path))) ≡ true
      → StillOpen wait.path j
  at_path j m =
      let id = request_id wait.number in
      let l = without-Lacking waits br wait.path id v in
      record {
        other = elim (Bool-cases (id == j)) [
          | inl e ↦
              let same : id ≡ j = (eq_iff id j).0 e in
              let lacks : mem j (ids (pending_of (Dict.get rest wait.path))) ≡ false =
                rw (← same) l.gone in
              absurd (cc (lacks, m))
          | inr e ↦ e
        ];
        open' = pending-IsOpen waits br wait.path j v (l.fewer j m);
      }

  not_at_path :
      (p j : String)
      → (wait.path == p) ≡ false
      → mem j (ids (pending_of (Dict.get br.store p))) ≡ true
      → StillOpen p j
  not_at_path p j d m =
      let id = request_id wait.number in
      let o = pending-IsOpen waits br p j v m in
      record {
        other = elim (Bool-cases (id == j)) [
          | inl e ↦
              let ids_same : request_id wait.number ≡ request_id o.number =
                (eq_iff id j).0 e ∙ (v.numbered j o.number o.live.0).1 in
              let same = request_id_injective wait.number o.number ids_same in
              let there : HasHome waits wait.path o.number = rw same at mine in
              let paths = v.one_home wait.path p o.number there o.home in
              absurd (ground (arith, (eq_iff wait.path p).1 paths))
          | inr e ↦ e
        ];
        open' = o;
      }

  still : (p j : String) → mem j (ids (pending_of (Dict.get rest p))) ≡ true → StillOpen p j
  still p j m = elim (Bool-cases (wait.path == p)) [
    | inl e ↦
        let same : wait.path ≡ p = (eq_iff wait.path p).0 e in
        rw (← same) (at_path j (rw (← same) at m))
    | inr e ↦
        not_at_path p j e (rw (elsewhere br.store wait.path p (request_id wait.number) e) at m)
  ]

  still-Distinct : (p : String) → Distinct (ids (pending_of (Dict.get rest p)))
  still-Distinct p = elim (Bool-cases (wait.path == p)) [
    | inl e ↦
        let same : wait.path ≡ p = (eq_iff wait.path p).0 e in
        rw (← same) (without-Lacking waits br wait.path (request_id wait.number) v).distinct
    | inr e ↦
        rw (elsewhere br.store wait.path p (request_id wait.number) e)
          (pending-Distinct waits br p v)
  ]

  pub finish-IsShown :
      (waits' : List Waiting)
      → ((p : String) (n : ℕ)
          → HasHome waits p n
          → ((wait.path ≡ p) × (wait.number ≡ n)) ⊎ HasHome waits' p n)
      → ((p : String) (n : ℕ) → HasHome waits' p n → HasHome waits p n)
      → IsShown waits' (finish br wait).0.0
  unfolding finish
  finish-IsShown waits' others sub =
      let id = request_id wait.number in
      record {
        numbered = λ j n h. v.numbered j n (remove-Shrinks br.broker id j n h);
        given = λ p n h. v.given p n (sub p n h);
        one_home = λ p q n a b. v.one_home p q n (sub p n a) (sub q n b);
        distinct = λ p s h. rw h at (still-Distinct p);
        open' = λ p s j h m.
            let m' : mem j (ids (pending_of (Dict.get rest p))) ≡ true = rw h m in
            let s = still p j m' in
            let o = s.open' in
            record {
              number = o.number;
              live =
                  remove-Live br.broker id j o.number
                    (numbered-IsUnshared br.broker br.next_request v.numbered) s.other o.live;
              home = elim (others p o.number o.home) [
                | inl e ↦
                    let same : id ≡ j = rw e.1 (sym (v.numbered j o.number o.live.0).1) in
                    absurd (ground (arith, (eq_iff id j).1 same, s.other))
                | inr h ↦ h
              ];
            };
      }
