-- ===== src/Bridge/Carried.antt =====
-- A predicate on the state of the service that the operations of its parts keep is kept by the
-- handlers of hooks and by the watchers.
pub mod Arms
pub mod Handled
use claude_dbus.Prelude.{
  String, ℕ, List, [], ◌∷◌, ◌≡◌, Option, none, some, Bool, true, false, ◌==◌, eqb, ltb,
  if◌then◌else◌, Bool-cases, Option-cases, inl, inr, refl, arith,
}
use claude_dbus.Dict
use claude_dbus.Dict.{Dict}
use claude_dbus.Text.{lines, split_once}
use claude_dbus.Core.Path.{session_key}
use claude_dbus.Ended
use claude_dbus.Ended.{ExpiringSessionSet}
use claude_dbus.Session.Object.{SessionObject}
use claude_dbus.Session.Pending.{clear_attention_reasons, refresh_requires_attention}
use claude_dbus.Service.Events.{Hook, Event, apply_event}
use claude_dbus.Codex.Compact.{
  CodexCompactLogEvent, compacted, apply_event as compact_event, apply_lines, compact_watcher,
  parse_codex_compact_log_line,
}
use claude_dbus.Bridge.{
  Bridge, World, Run, update_session, drain, drained, is_pid, remove_entry, remove_session,
}
use claude_dbus.Bridge.Watch.{reap, watch_one, watch_all, tick}

-- The pending requests stay.
abbrev pub IsCalm : (SessionObject → SessionObject) → Type 0
IsCalm g = (s : SessionObject) → (g s).pending_requests ≡ s.pending_requests

pub record IsCarried (P : Bridge → Type 0) : Type 0 where
  pub event :
      (w : World) (br : Bridge) (h : Hook) (e : Event)
      → P br
      → P (update_session w br h.agent h.session_id (apply_event h e)).0
  pub plain :
      (w : World) (br : Bridge) (agent id : String) (g : SessionObject → SessionObject)
      → IsCalm g
      → P br
      → P (update_session w br agent id (λ s b. (g s, b))).0
  pub drained' :
      (w : World) (br : Bridge) (id : String) (remove : Bool) → P br → P (drain w br id remove).0
  pub entry : (br : Bridge) (agent id : String) → P br → P (remove_entry br agent id).0
  pub beside :
      (br : Bridge) (ended : ExpiringSessionSet) (parents : Dict ℕ)
      → P br
      → P (record br { ended = ended; parents = parents })

compacted-IsCalm : (active : Bool) → IsCalm (compacted active)
unfolding compacted clear_attention_reasons refresh_requires_attention
compacted-IsCalm true s = refl
compacted-IsCalm false s = ground arith

module _ (P : Bridge → Type 0) (k : IsCarried P) where
  -- What holds of a result, if there is one.
  abbrev pub RunKeeps : Option Run → Type 0
  RunKeeps none = Unit
  RunKeeps (some run) = P run.0

  pub remove_session-Keeps :
      (w : World) (br : Bridge) (agent id : String) → P br → RunKeeps (remove_session w br agent id)
  unfolding remove_session drained
  remove_session-Keeps w br agent id p =
      let (br1, effects) = drained w br agent id in
      let p1 : P br1 = elim (Bool-cases (agent == "codex")) [
        | inl e ↦ rw e (k.drained' w br id true p)
        | inr e ↦ rw e p
      ] in
      elim (Option-cases (Ended.insert br1.ended (session_key agent id) w.pruned_at w.ended_at)) [
        | inl e ↦ rw e tt
        | inr (ended, e) ↦ rw e (k.entry _ agent id (k.beside br1 ended br1.parents p1))
      ]

  -- The watcher of parents.
  watch_one-Keeps :
      (w : World) (br : Bridge) (key : String) (pid : ℕ) → P br → RunKeeps (watch_one w br key pid)
  unfolding watch_one
  watch_one-Keeps w br key pid p = elim (Bool-cases (w.process_exists pid)) [
    | inl e ↦ rw e p
    | inr e ↦ rw e (go (split_once key b':'))
  ]
    where
      go : (names : Option (String × String)) → RunKeeps (reap w br key pid names)
      go none = k.beside br br.ended (Dict.remove br.parents key) p
      go (some (agent, id)) = elim (Bool-cases (is_pid pid (Dict.get br.parents key))) [
        | inl e ↦ rw e (remove_session-Keeps w br agent id p)
        | inr e ↦ rw e p
      ]

  watch_all-Keeps :
      (w : World) (watched : List (String × ℕ)) (br : Bridge)
      → P br
      → RunKeeps (watch_all w watched br)
  unfolding watch_all
  watch_all-Keeps w [] br p = p
  watch_all-Keeps w ((key, pid) ∷ watched) br p = elim (Option-cases (watch_one w br key pid)) [
    | inl e ↦ rw e tt
    | inr ((br1, effects), e) ↦
        let one : P br1 = rw e at (watch_one-Keeps w br key pid p) in
        elim (Option-cases (watch_all w watched br1)) [
          | inl f ↦ rw (e, f) tt
          | inr ((br2, effects'), f) ↦
              let rest : P br2 = rw f at (watch_all-Keeps w watched br1 one) in rw (e, f) rest
        ]
  ]

  pub tick-Keeps : (w : World) (br : Bridge) → P br → RunKeeps (tick w br)
  unfolding tick
  tick-Keeps w br p = watch_all-Keeps w br.parents br p

  -- The watcher of compactions.
  compact_event-Keeps :
      (w : World) (br : Bridge) (e : Option CodexCompactLogEvent)
      → P br
      → P (compact_event w br e).0
  compact_event-Keeps w br none p = p
  compact_event-Keeps w br (some e) p =
      k.plain w br "codex" e.session_id (compacted e.active) (compacted-IsCalm e.active) p

  lines-Keeps : (w : World) (br : Bridge) (ls : List String) → P br → P (apply_lines w br ls).0
  unfolding apply_lines
  lines-Keeps w br [] p = p
  lines-Keeps w br (line ∷ ls) p =
      let e = parse_codex_compact_log_line line in
      lines-Keeps w (compact_event w br e).0 ls (compact_event-Keeps w br e p)

  pub compact-Keeps :
      (w : World) (br : Bridge) (offset : ℕ) (len : Option ℕ) (read : ℕ → Option String)
      → P br
      → P (compact_watcher w br offset len read).1.0
  unfolding compact_watcher
  compact-Keeps w br offset none read p = p
  compact-Keeps w br offset (some len) read p =
      let from = if ltb len offset then 0 else offset in
      elim (Bool-cases (eqb len from)) [
        | inl e ↦ rw e p
        | inr e ↦ elim (Option-cases (read from)) [
          | inl f ↦ rw (e, f) p
          | inr (chunk, f) ↦ rw (e, f) (lines-Keeps w br (lines chunk) p)
        ]
      ]
