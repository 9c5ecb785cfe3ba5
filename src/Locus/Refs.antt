-- ===== src/Locus/Refs.antt =====
-- The relations that a session sets and takes back.
use claude_dbus.Prelude.{String, ◌≡◌, refl, List, map, Option, none, some}
use claude_dbus.Locus.{
  RelationEndpoint, Call, set_one, unset, window_ref, app_instance_ref, agent_session_ref,
  session_metadata, set_relations, unset_relations, link_session, unlink_session,
}

-- The call that takes back what a call has set.
abbrev pub undo : Call → Call
undo (set_one subject relation target metadata) = unset subject relation target
undo (unset subject relation target) = unset subject relation target

undo_relations :
    (metadata : List (String × String)) (window app target : Option RelationEndpoint)
    → unset_relations window app target ≡ map undo (set_relations metadata window app target)
undo_relations metadata window app none = refl
undo_relations metadata none none (some t) = refl
undo_relations metadata none (some a) (some t) = refl
undo_relations metadata (some b) none (some t) = refl
undo_relations metadata (some b) (some a) (some t) = refl

-- With the same ids, the removal of a session takes back each relation that its link has set, in
-- the same order, and no other.
pub unlink-link :
    (agent_name session_id : String) (app_instance_id window_id : Option String)
    → unlink_session agent_name session_id app_instance_id window_id
      ≡ map undo (link_session agent_name session_id app_instance_id window_id)
unfolding link_session unlink_session
unlink-link agent id app window =
    undo_relations (session_metadata agent id) (window_ref window) (app_instance_ref app)
      (agent_session_ref agent id)
