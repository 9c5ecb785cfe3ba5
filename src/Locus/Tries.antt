-- ===== src/Locus/Tries.antt =====
-- agent-dbus-service/src/locus.rs: the connection, the proxy and the calls may fail, and what fails
-- ends the rest. `works` says which calls the Locus service answers.
use claude_dbus.Prelude.{
  String, List, [], ◌∷◌, ◌++◌, ◌≡◌, ◌⊎◌, refl, ap, Option, none, some, Bool, true, false, ◌&&◌, all,
  if◌then◌else◌, Bool-cases, Option-cases, inl, inr,
}
use claude_dbus.Locus.{RelationEndpoint, Call, agent_session_ref, link_session, unlink_session}

-- The connection to the session bus, and the proxy of the Locus service.
pub record Reach : Type 0 where
  pub connects : Bool
  pub has_proxy : Bool
  pub works : Call → Bool

-- The calls made, and whether all went well.
abbrev pub Attempt : Type 0
Attempt = List Call × Bool

unfoldable pub perform : (Call → Bool) → List Call → Attempt
perform works [] = ([], true)
perform works (c ∷ cs) =
    let (made, ok) = perform works cs in if works c then (c ∷ made, ok) else (c ∷ [], false)

abbrev pub reached : Reach → List Call → Attempt
reached r calls =
    let attempt = perform r.works calls in
    if r.connects then (if r.has_proxy then attempt else ([], false)) else ([], false)

-- Nothing is tried for a session without an id.
abbrev pub for_session : Option RelationEndpoint → Attempt → Attempt
for_session (some target) attempt = attempt
for_session none attempt = ([], true)

unfoldable pub try_link_session : Reach → String → String → Option String → Option String → Attempt
unfolding perform
try_link_session r agent_name session_id app_instance_id window_id =
    for_session (agent_session_ref agent_name session_id)
      (reached r (link_session agent_name session_id app_instance_id window_id))

unfoldable pub try_unlink_session :
    Reach → String → String → Option String → Option String → Attempt
unfolding perform
try_unlink_session r agent_name session_id app_instance_id window_id =
    for_session (agent_session_ref agent_name session_id)
      (reached r (unlink_session agent_name session_id app_instance_id window_id))

-- The calls up to the one that failed.
pub record Stops (works : Call → Bool) (calls : List Call) (a : Attempt) : Type 0 where
  pub earlier : List Call
  pub later : List Call
  pub failed : Call
  pub whole : calls ≡ earlier ++ (failed ∷ later)
  pub tried : a ≡ (earlier ++ (failed ∷ []), false)
  pub worked : all works earlier ≡ true
  pub fails : works failed ≡ false

-- How an attempt may end: all calls are made, none is, or those up to the first that fails.
abbrev pub Ends : Reach → List Call → Attempt → Type 0
Ends r calls a =
    ((a ≡ (calls, true)) × (all r.works calls ≡ true))
    ⊎ (((a ≡ ([], false)) × ((r.connects && r.has_proxy) ≡ false)) ⊎ Stops r.works calls a)

perform-Ends :
    (works : Call → Bool) (calls : List Call)
    → ((perform works calls ≡ (calls, true)) × (all works calls ≡ true))
      ⊎ Stops works calls (perform works calls)
unfolding perform
perform-Ends works [] = inl (refl, refl)
perform-Ends works (c ∷ cs) = elim (Bool-cases (works c)) [
  | inr e ↦ rw e (
      inr (record {
        earlier = [];
        later = cs;
        failed = c;
        whole = refl;
        tried = refl;
        worked = refl;
        fails = e;
      }))
  | inl e ↦ elim (perform-Ends works cs) [
    | inl (made, all_work) ↦ rw (e, made) (inl (refl, all_work))
    | inr s ↦
        rw (e, s.tried)
          (inr (record {
            earlier = c ∷ s.earlier;
            later = s.later;
            failed = s.failed;
            whole = ap (λ (l : List Call). c ∷ l) s.whole;
            tried = refl;
            worked = rw e s.worked;
            fails = s.fails;
          }))
  ]
]

reached-Ends : (r : Reach) (calls : List Call) → Ends r calls (reached r calls)
reached-Ends r calls = elim (Bool-cases r.connects) [
  | inr e ↦ rw e (inr (inl (refl, refl)))
  | inl e ↦ elim (Bool-cases r.has_proxy) [
    | inr f ↦ rw (e, f) (inr (inl (refl, refl)))
    | inl f ↦ elim (perform-Ends r.works calls) [
      | inl p ↦ rw (e, f) (inl p)
      | inr s ↦ rw (e, f) (inr (inr s))
    ]
  ]
]

-- Linking a session, and unlinking one, ends in one of three ways: all its calls are made and work;
-- there is no connection or no proxy, and no call is made; or the calls are made up to the first
-- that fails, which the attempt reports, and those after it are left out.
pub tries_lem :
    (r : Reach) (agent_name session_id : String) (app_instance_id window_id : Option String)
    → Ends r
        (link_session agent_name session_id app_instance_id window_id)
        (try_link_session r agent_name session_id app_instance_id window_id)
      × Ends r
          (unlink_session agent_name session_id app_instance_id window_id)
          (try_unlink_session r agent_name session_id app_instance_id window_id)
unfolding try_link_session try_unlink_session link_session unlink_session
tries_lem r agent_name session_id app_instance_id window_id =
    elim (Option-cases (agent_session_ref agent_name session_id)) [
      | inl e ↦ rw e (inl (refl, refl), inl (refl, refl))
      | inr (target, e) ↦ rw e (reached-Ends r _, reached-Ends r _)
    ]
