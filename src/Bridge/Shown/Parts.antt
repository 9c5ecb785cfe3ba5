-- ===== src/Bridge/Shown/Parts.antt =====
-- The operations on sessions leave every pending request answerable.
use claude_dbus.Prelude.{
  String, ℕ, zero, suc, List, [], ◌≡◌, refl, ◌∙◌, Option, none, some, Bool, true, false, ◌==◌,
  Distinct, arith, Bool-cases, Option-cases, inl, inr,
}
use claude_dbus.Dict
use claude_dbus.Dict.Laws.{get-remove}
use claude_dbus.Core.Path.{session_path}
use claude_dbus.Session.Object.{SessionObject}
use claude_dbus.Session.Pending.{ids, cancel_pending_requests, refresh_requires_attention}
use claude_dbus.Service.Events.{apply_event}
use claude_dbus.Codex.Telemetry
use claude_dbus.Codex.Telemetry.{Parser}
use claude_dbus.Codex.Reader
use claude_dbus.Codex.Reader.{Reader}
use claude_dbus.Bus.Store
use claude_dbus.Bus.Store.{Store, session_exists}
use claude_dbus.Bridge.{
  Bridge, World, Update, update_hook, update_session, keep_model, with_telemetry, rollout,
  reader_of, drain_reader, drain_if, forget_reader, drain, retire, remove_object, remove_entry,
}
use claude_dbus.Bridge.Wait.{Waiting}
use claude_dbus.Bridge.Sound.{life-apply, life-keep_model}
use claude_dbus.Bridge.Carried.{IsCarried, IsCalm}
use claude_dbus.Bridge.Shown.{
  Leaves, IsHonest, calm, ends, plain-IsHonest, event-IsHonest, all_cancelled,
}
use claude_dbus.Bridge.Shown.Keeps.{
  IsShown, pending_of, put-IsShown, beside-IsShown, dbus_update-IsShown,
}

telemetry-IsHonest :
    (parser : Parser) (f : Update) → IsHonest f → IsHonest (with_telemetry parser f)
telemetry-IsHonest parser f honest s b next num d =
    let r = f s b in
    ends s.pending_requests r.0.pending_requests _ b r.1
      ((life-apply parser (keep_model s.model_name r.0)).pending
        ∙ (life-keep_model s.model_name r.0).pending)
      (honest s b next num d)

module _ (waits : List Waiting) where
  pub update_session-IsShown :
      (w : World) (br : Bridge) (agent id : String) (f : Update)
      → IsHonest f
      → IsShown waits br
      → IsShown waits (update_session w br agent id f).0
  unfolding update_session update_hook
  update_session-IsShown w br agent id f honest v = elim (Bool-cases (agent == "codex")) [
    | inl e ↦
        let (reader, reports) = Reader.read w.from_slice (reader_of br id) (rollout w id) in
        let br' : Bridge = record br { readers = Dict.insert br.readers id reader } in
        rw e (
          dbus_update-IsShown waits br' "codex" id (with_telemetry reader.parser f)
            (telemetry-IsHonest reader.parser f honest)
            (beside-IsShown waits br br' refl refl refl v))
    | inr e ↦ rw e (dbus_update-IsShown waits br agent id f honest v)
  ]

  -- The update of an object that may be missing.
  pub existing-IsShown :
      (br : Bridge) (id : String) (g : SessionObject → SessionObject)
      → IsCalm g
      → IsShown waits br
      → IsShown waits
          (record br { store = (Store.update_existing_session br.store "codex" id g).0 })
  unfolding Store.update_existing_session Store.updated
  existing-IsShown br id g c v =
      let path = session_path "codex" id in
      elim (Option-cases (Dict.get br.store path)) [
        | inl e ↦ rw e v
        | inr (s, e) ↦
            let s' = g (Store.renamed s "codex" id) in
            let d : Distinct (ids s.pending_requests) = v.distinct path s e in
            let l : Leaves (pending_of (Dict.get br.store path)) br.broker s'.pending_requests
                br.broker =
              rw e (calm s.pending_requests s'.pending_requests br.broker (c _) d) in
            let put = put-IsShown waits br path s' br.broker l v in rw e put
      ]

  pub drain-IsShown :
      (w : World) (br : Bridge) (id : String) (remove : Bool)
      → IsShown waits br
      → IsShown waits (drain w br id remove).0
  unfolding drain drain_reader
  drain-IsShown w br id remove v = go (Dict.get br.readers id) remove
    where
      known :
          (r : Reader)
          → let g = Telemetry.apply (Reader.read w.from_slice r (rollout w id)).0.parser in
            IsShown waits
              (record br { store = (Store.update_existing_session br.store "codex" id g).0 })
      known r =
          let parser = (Reader.read w.from_slice r (rollout w id)).0.parser in
          existing-IsShown br id (Telemetry.apply parser) (λ s. (life-apply parser s).pending) v

      go :
          (found : Option Reader) (remove : Bool)
          → IsShown waits (forget_reader id remove (drain_if w br id found).0)
      go none true = beside-IsShown waits br _ refl refl refl v
      go none false = v
      go (some r) true = beside-IsShown waits _ _ refl refl refl (known r)
      go (some r) false = beside-IsShown waits _ _ refl refl refl (known r)

  -- Objects that are left out.
  fewer-IsShown :
      (br : Bridge) (store : Store)
      → ((path : String) (s : SessionObject)
          → Dict.get store path ≡ some s
          → Dict.get br.store path ≡ some s)
      → IsShown waits br
      → IsShown waits (record br { store = store })
  fewer-IsShown br store sub v = record {
    numbered = v.numbered;
    given = v.given;
    one_home = v.one_home;
    distinct = λ path s h. v.distinct path s (sub path s h);
    open' = λ path s id h m. v.open' path s id (sub path s h) m;
  }

  removed_fewer :
      (n : ℕ) (store : Store) (path p : String) (s : SessionObject)
      → Dict.get (remove_object n store path) p ≡ some s
      → Dict.get store p ≡ some s
  unfolding remove_object
  removed_fewer zero store path p s h = h
  removed_fewer (suc n) store path p s h =
      let store' = Dict.remove store path in
      elim (Bool-cases (session_exists store' path)) [
        | inl e ↦
            let h' = removed_fewer n store' path p s (rw e at h) in
            ground (arith, get-remove store path p)
        | inr e ↦
            let h' : Dict.get store' p ≡ some s = rw e at h in
            ground (arith, get-remove store path p)
      ]

  retire-IsShown :
      (br : Bridge) (path : String) (found : Option SessionObject)
      → Dict.get br.store path ≡ found
      → IsShown waits br
      → let (store, b) = retire br.store path br.broker found in
        IsShown waits (record br { store = store; broker = b })
  unfolding cancel_pending_requests refresh_requires_attention
  retire-IsShown br path none e v = v
  retire-IsShown br path (some s) e v =
      let s' = (cancel_pending_requests s br.broker).0 in
      put-IsShown waits br path s' (cancel_pending_requests s br.broker).2
        (rw e (
          all_cancelled s.pending_requests s.pending_requests [] br.broker br.next_request
            v.numbered refl refl))
        v

  remove_entry-IsShown :
      (br : Bridge) (agent id : String)
      → IsShown waits br
      → IsShown waits (remove_entry br agent id).0
  unfolding remove_entry
  remove_entry-IsShown br agent id v =
      let path = session_path agent id in
      let (store, b) = retire br.store path br.broker (Dict.get br.store path) in
      let br' : Bridge = record br { store = store; broker = b } in
      beside-IsShown waits (record br' { store = remove_object 3 store path }) _ refl refl refl
        (fewer-IsShown br' (remove_object 3 store path) (removed_fewer 3 store path)
          (retire-IsShown br path (Dict.get br.store path) refl v))

  -- The operations of handlers and watchers.
  pub IsShown-IsCarried : IsCarried (IsShown waits)
  IsShown-IsCarried = record {
    event = λ w br h e v.
        update_session-IsShown w br h.agent h.session_id (apply_event h e) (event-IsHonest h e) v;
    plain = λ w br agent id g c v.
        update_session-IsShown w br agent id (λ s b. (g s, b)) (plain-IsHonest g c) v;
    drained' = λ w br id remove v. drain-IsShown w br id remove v;
    entry = λ br agent id v. remove_entry-IsShown br agent id v;
    beside = λ br ended parents v. beside-IsShown waits br _ refl refl refl v;
  }
