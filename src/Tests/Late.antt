-- ===== src/Tests/Late.antt =====
-- A session that is removed while a request of it waits, and two hooks that come after that.
use claude_dbus.Prelude.{◌≡◌, refl, List, [], ◌∷◌, none, some, All, arith, inl, inr}
use claude_dbus.Dict
use claude_dbus.Core.Path.{session_path}
use claude_dbus.Json
use claude_dbus.Json.{null}
use claude_dbus.Ended
use claude_dbus.Agents.{hook_subagent_info, codex_subagent_info, opencode_subagent_info}
use claude_dbus.Bus.Store
use claude_dbus.Permission.Review.{should_defer_permission_to_auto_review}
use claude_dbus.Service.{hook_session_title, json_string_at}
use claude_dbus.Service.Events.{event_of, transported, apply_event, described}
use claude_dbus.Session.Pending.{push_pending_request}
use claude_dbus.Bridge.{World, Run, remove_session, maybe_watch_parent, update_session, dbus_update}
use claude_dbus.Bridge.Wait.{ask}
use claude_dbus.Bridge.Handler.{RawHook, lineage, handle, hook_of}
use claude_dbus.Bridge.System.{start, numbers}
use claude_dbus.Bridge.Gone.{IsGone, remove_session_lem}
use claude_dbus.Bridge.Buried.{IsLate, IsUnmoved, serve, late_hooks_lem}
use claude_dbus.Tests.Bridge.{world, raw_hook, one, IsSound-one}

removed :
    (run : Run) × (remove_session (world 2) one.bridge "claude" "s" ≡ some run)
    × IsGone "claude" "s" one.bridge run.0
removed =
    remove_session_lem (numbers one.held) 1 (world 2) one.bridge "claude" "s" (omega arith)
      IsSound-one

limits : (one.bridge.ended.ttl ≡ 600) × (one.bridge.ended.max_entries ≡ 1024)
unfolding handle start event_of hook_of Dict.get Dict.insert update_session dbus_update
    Store.update_session session_path push_pending_request transported ask
    should_defer_permission_to_auto_review maybe_watch_parent hook_session_title Json.get
    hook_subagent_info codex_subagent_info opencode_subagent_info Store.updated apply_event
    described Json.is_object Json.◌at◌ Json.as_f64 Ended.new
limits = (refl, refl)

abbrev telemetry : RawHook
telemetry = raw_hook "Telemetry" null

abbrev turn_end : RawHook
turn_end = raw_hook "AfterAgent" null

abbrev hooks : List (World × RawHook)
hooks = (world 3, telemetry) ∷ (world 601, turn_end) ∷ []

no_lineage : lineage (world 601) turn_end ≡ none
unfolding lineage hook_subagent_info codex_subagent_info opencode_subagent_info json_string_at
    Json.get
no_lineage = refl

no_title : hook_session_title turn_end.data' ≡ none
unfolding hook_session_title Json.get Json.as_str
no_title = refl

late : All (λ (x : World × RawHook). IsLate "claude" "s" 2 one.bridge.ended.ttl x.0 x.1) hooks
late = (
  record { agent' = refl; session = refl; in_time = rw limits.0 refl; kind = inl refl },
  (
    record {
      agent' = refl;
      session = refl;
      in_time = rw limits.0 refl;
      kind = inr (inr (inr refl), no_lineage, rw no_title refl);
    },
    tt,
  ),
)

late_hooks_lem_example :
    (Dict.get removed.0.0.store (session_path "claude" "s") ≡ none)
    × IsUnmoved removed.0.0 (serve hooks removed.0.0)
late_hooks_lem_example =
    late_hooks_lem (numbers one.held) 1 (world 2) one.bridge "claude" "s" {run = removed.0} hooks
      (omega arith) IsSound-one (rw limits.1 (omega arith)) removed.1 late
