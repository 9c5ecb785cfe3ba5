-- ===== src/Bridge/Carried/Arms.antt =====
-- The handler of a hook up to the end of its arm keeps what its parts keep.
use claude_dbus.Prelude.{
  String, ℕ, refl, Option, none, some, Bool, true, false, ◌==◌, Bool-cases, inl, inr,
}
use claude_dbus.Dict
use claude_dbus.Core.Path.{session_key}
use claude_dbus.Ended
use claude_dbus.Ended.{ExpiringSessionSet}
use claude_dbus.Agents.{SubagentInfo, apply_subagent_info}
use claude_dbus.Service.{apply_transport_metadata}
use claude_dbus.Service.Events.{
  Hook, Event, transported, telemetry, update_state, session_start, stop, session_end,
  task_completed, prompt_submit, after_model, gemini_tool, before_tool, after_tool, notify,
  pre_compact, permission, elicitation, attention, resolved, attention_required, attention_resolved,
  unknown,
}
use claude_dbus.Bridge.{Bridge, World, Run, is_pid, maybe_watch_parent}
use claude_dbus.Bridge.Handler.{
  RawHook, Next, Arm, returns, links, prepare, unless_ended, telemetry_arm, notify_arm, stop_arm,
  after_removal, parent_of, arm_of, key_of, titled, with_title, session_title,
  ensure_subagent_identity, refresh_session_title, lineage,
}
use claude_dbus.Bridge.Carried.{IsCarried, IsCalm, RunKeeps, remove_session-Keeps}

pub transported-IsCalm : (h : Hook) → IsCalm (transported h)
unfolding transported apply_transport_metadata
transported-IsCalm h s = refl

lineage-IsCalm : (info : SubagentInfo) → IsCalm (λ s. apply_subagent_info s (some info))
unfolding apply_subagent_info
lineage-IsCalm info s = refl

module _ (P : Bridge → Type 0) (k : IsCarried P) where
  abbrev pub ArmKeeps : Arm → Type 0
  ArmKeeps none = Unit
  ArmKeeps (some out) = P out.0.0

  ensure-Keeps :
      (w : World) (br : Bridge) (h : Hook) (info : Option SubagentInfo)
      → P br
      → P (ensure_subagent_identity w br h info).0
  unfolding ensure_subagent_identity
  ensure-Keeps w br h none p = p
  ensure-Keeps w br h (some info) p = k.plain w br h.agent h.session_id _ (lineage-IsCalm info) p

  title-Keeps :
      (w : World) (br : Bridge) (h : Hook) (title : Option String)
      → P br
      → P (with_title w br h title).0
  title-Keeps w br h none p = p
  title-Keeps w br h (some title) p = elim (Bool-cases (title == "")) [
    | inl e ↦ rw e p
    | inr e ↦ rw e (k.plain w br h.agent h.session_id (titled h title) (transported-IsCalm h) p)
  ]

  watch-Keeps :
      (br : Bridge) (agent id : String) (pid : Option ℕ)
      → P br
      → P (maybe_watch_parent br agent id pid)
  unfolding maybe_watch_parent
  watch-Keeps br agent id none p = p
  watch-Keeps br agent id (some pid) p = elim (Bool-cases (id == "unknown")) [
    | inl e ↦ rw e p
    | inr e ↦ elim (Bool-cases (is_pid pid (Dict.get br.parents (session_key agent id)))) [
      | inl f ↦ rw (e, f) p
      | inr f ↦ rw (e, f) (k.beside br br.ended _ p)
    ]
  ]

  pub prepare-Keeps :
      (w : World) (br : Bridge) (raw : RawHook) (h : Hook) → P br → P (prepare w br raw h).0
  unfolding prepare refresh_session_title
  prepare-Keeps w br raw h p =
      watch-Keeps _ h.agent h.session_id raw.parent_pid
        (title-Keeps w _ h (session_title w h) (ensure-Keeps w br h (lineage w raw) p))

  after_removal-Keeps :
      (next : Next) (r : Option Run) → RunKeeps P k r → ArmKeeps (after_removal next r)
  after_removal-Keeps next none p = tt
  after_removal-Keeps next (some run) p = p

  stop-Keeps :
      (w : World) (br : Bridge) (h : Hook) (parent : Option String)
      → P br
      → ArmKeeps (stop_arm w br h parent)
  stop-Keeps w br h (some parent) p =
      after_removal-Keeps returns _ (remove_session-Keeps P k w br h.agent h.session_id p)
  stop-Keeps w br h none p = k.event w br h stop p

  unless_ended-Keeps :
      (br : Bridge) (found : ExpiringSessionSet × Bool) (rest : Bridge → Arm)
      → P br
      → ((br' : Bridge) → P br' → ArmKeeps (rest br'))
      → ArmKeeps (unless_ended br found rest)
  unless_ended-Keeps br (ended, true) rest p go = k.beside br ended br.parents p
  unless_ended-Keeps br (ended, false) rest p go = go _ (k.beside br ended br.parents p)

  pub arm-Keeps :
      (w : World) (br : Bridge) (raw : RawHook) (h : Hook) (e : Event)
      → P br
      → ArmKeeps (arm_of w br raw h e)
  unfolding arm_of telemetry_arm notify_arm
  arm-Keeps w br raw h e p = elim e as (λ j. ArmKeeps (arm_of w br raw h j)) [
    | telemetry ↦ k.event w br h telemetry p
    | update_state ↦
        unless_ended-Keeps br (Ended.remove br.ended (key_of raw) w.now) _ p
          λ br' q. k.event w br' h update_state q
    | session_start ↦
        unless_ended-Keeps br (Ended.contains br.ended (key_of raw) w.now) _ p
          λ br' q. k.event w br' h session_start q
    | stop ↦
        unless_ended-Keeps br (Ended.contains br.ended (key_of raw) w.now) _ p
          λ br' q. stop-Keeps w br' h (parent_of w br' raw) q
    | session_end ↦
        after_removal-Keeps links _ (remove_session-Keeps P k w br h.agent h.session_id p)
    | task_completed ↦ k.event w br h task_completed p
    | prompt_submit ↦ k.event w br h prompt_submit p
    | after_model ↦ k.event w br h after_model p
    | gemini_tool ↦ k.event w br h gemini_tool p
    | before_tool ↦ k.event w br h before_tool p
    | after_tool ↦ k.event w br h after_tool p
    | notify ↦ p
    | pre_compact ↦ k.event w br h pre_compact p
    | permission ↦ k.event w br h permission p
    | elicitation ↦ p
    | attention reason state task ↦ k.event w br h (attention reason state task) p
    | resolved reason ↦ k.event w br h (resolved reason) p
    | attention_required ↦ k.event w br h attention_required p
    | attention_resolved ↦ k.event w br h attention_resolved p
    | unknown ↦ p
  ]
