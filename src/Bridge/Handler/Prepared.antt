-- ===== src/Bridge/Handler/Prepared.antt =====
-- agent-dbus-service/src/service.rs, `handle_hook_connection`: a hook, its session and its lineage, and
-- what comes before the `match` on the event.
use claude_dbus.Prelude.{
  String, ℕ, [], Option, none, some, ◌||◌, ◌==◌, if◌then◌else◌, ◌or_else◌, is_some,
}
use claude_dbus.Dict
use claude_dbus.Json.{Value}
use claude_dbus.Core.Path.{session_path, session_key}
use claude_dbus.Session.Object.{SessionObject}
use claude_dbus.Agents.{
  SubagentInfo, hook_subagent_info, apply_subagent_info, subagent_parent_session_id,
}
use claude_dbus.Service.{hook_session_title, transport_metadata_for_hook}
use claude_dbus.Service.Events.{Hook, transported}
use claude_dbus.Bridge.{Bridge, World, Run, ◌and_then◌, update_session, maybe_watch_parent}

-- `RawHook`
pub record RawHook : Type 0 where
  pub event : String
  pub agent : String
  pub session_id : String
  pub app_instance_id : Option String
  pub window_id : Option String
  pub parent_pid : Option ℕ
  pub data' : Value

abbrev pub object_of : Bridge → RawHook → Option SessionObject
object_of br raw = Dict.get br.store (session_path raw.agent raw.session_id)

abbrev pub key_of : RawHook → String
key_of raw = session_key raw.agent raw.session_id

unfoldable pub lineage : World → RawHook → Option SubagentInfo
lineage w raw =
    hook_subagent_info w.from_str w.read_file w.session_file raw.agent raw.session_id raw.data'

-- A subagent by its payload or by its stored object; it claims no window and no app instance.
unfoldable pub hook_of : World → Bridge → RawHook → Hook
unfolding lineage
hook_of w br raw =
    let stored = subagent_parent_session_id (object_of br raw) in
    let (app_instance_id, window_id) =
      transport_metadata_for_hook (is_some (lineage w raw) || is_some stored) raw.app_instance_id
        raw.window_id in
    record {
      agent = raw.agent;
      session_id = raw.session_id;
      app_instance_id = app_instance_id;
      window_id = window_id;
      data' = raw.data';
      metrics = w.codex_metrics raw.session_id;
    }

unfoldable pub ensure_subagent_identity : World → Bridge → Hook → Option SubagentInfo → Run
ensure_subagent_identity w br h none = (br, [])
ensure_subagent_identity w br h (some info) =
    update_session w br h.agent h.session_id (λ s b. (apply_subagent_info s (some info), b))

unfoldable pub session_title : World → Hook → Option String
session_title w h =
    hook_session_title h.data'
    or_else (if h.agent == "codex" then w.codex_title h.session_id else none)

abbrev pub titled : Hook → String → SessionObject → SessionObject
titled h title s = record (transported h s) { session_title = title }

abbrev pub with_title : World → Bridge → Hook → Option String → Run
with_title w br h none = (br, [])
with_title w br h (some title) =
    if title == ""
    then (br, [])
    else update_session w br h.agent h.session_id (λ s b. (titled h title s, b))

unfoldable pub refresh_session_title : World → Bridge → Hook → Run
unfolding session_title
refresh_session_title w br h = with_title w br h (session_title w h)

-- What comes before the `match` on the event.
unfoldable pub prepare : World → Bridge → RawHook → Hook → Run
unfolding ensure_subagent_identity refresh_session_title
prepare w br raw h =
    ensure_subagent_identity w br h (lineage w raw)
    and_then (λ br1. refresh_session_title w br1 h)
    and_then (λ br2. (maybe_watch_parent br2 h.agent h.session_id raw.parent_pid, []))
