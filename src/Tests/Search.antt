-- ===== src/Tests/Search.antt =====
-- A directory with two rollout files of a session, a session id with a quote, and a Locus service that
-- refuses a call.
use Prim.Native.String.{◌++◌}
use claude_dbus.Prelude.{String, ℕ, Option, some, true, false, not, ◌≡◌, ◌==◌, if◌then◌else◌}
use claude_dbus.Codex.Search.{Folder, directory, file, empty, unknown, holds, searched}
use claude_dbus.Codex.Search.Newest.{Answer, searched_lem}
use claude_dbus.Codex.Query.{sqlite_string_literal}
use claude_dbus.Codex.Query.Quoted.{codes, read_literal, read-sqlite_string_literal}
use claude_dbus.Locus.{set_one, unset, window_agent_relation, link_session, unlink_session}
use claude_dbus.Locus.Tries.{Reach, Ends, try_link_session, try_unlink_session, tries_lem}

abbrev today : Folder
today =
    holds (file "rollout-1-abc.jsonl")
      (unknown (holds (file "notes-abc.txt") (holds (file "rollout-2-abc.jsonl") empty)))

abbrev sessions : Folder
sessions = holds (directory "2026" today) (holds (file "index.jsonl") empty)

abbrev modified : String → Option ℕ
modified path = if path == "/s/2026/rollout-1-abc.jsonl" then some 5 else some 4

searched_lem_example : Answer modified "abc" "/s" sessions (searched modified "/s" sessions "abc")
searched_lem_example = searched_lem modified "/s" sessions "abc"

-- Relations of windows are refused.
abbrev reach : Reach
reach = record {
  connects = true;
  has_proxy = true;
  works = λ c. elim c [
    | set_one subject relation target metadata ↦ not (relation == window_agent_relation)
    | unset subject relation target ↦ true
  ];
}

tries_lem_example :
    Ends reach
      (link_session "codex" "s" (some "a") (some "7"))
      (try_link_session reach "codex" "s" (some "a") (some "7"))
    × Ends reach
        (unlink_session "codex" "s" (some "a") (some "7"))
        (try_unlink_session reach "codex" "s" (some "a") (some "7"))
tries_lem_example = tries_lem reach "codex" "s" (some "a") (some "7")

read-sqlite_string_literal_example :
    read_literal false (codes (sqlite_string_literal "x' or '1" ++ "';"))
    ≡ some (codes "x' or '1", codes ";")
read-sqlite_string_literal_example = read-sqlite_string_literal "x' or '1"
