-- ===== src/Bridge/Watch.antt =====
-- agent-dbus-service/src/session_parents.rs, `start_parent_watcher`: one round of its loop. The
-- pairs are copied before the round; the map may have changed when a pair's turn comes.
use claude_dbus.Prelude.{String, ℕ, List, [], ◌∷◌, Option, none, some, if◌then◌else◌, ◌>>=◌}
use claude_dbus.Dict
use claude_dbus.Text.{split_once}
use claude_dbus.Bridge.{Bridge, World, and_effects, Run, is_pid, remove_session}

abbrev pub reap : World → Bridge → String → ℕ → Option (String × String) → Option Run
reap w br key pid none = some (record br { parents = Dict.remove br.parents key }, [])
reap w br key pid (some (agent, id)) =
    if is_pid pid (Dict.get br.parents key) then remove_session w br agent id else some (br, [])

unfoldable pub watch_one : World → Bridge → String → ℕ → Option Run
watch_one w br key pid =
    if w.process_exists pid then some (br, []) else reap w br key pid (split_once key b':')

-- The effects of a round, each removal in turn.
unfoldable pub watch_all : World → List (String × ℕ) → Bridge → Option Run
unfolding watch_one
watch_all w [] br = some (br, [])
watch_all w ((key, pid) ∷ watched) br = do
  (br1, effects) ← watch_one w br key pid
  (br2, effects') ← watch_all w watched br1
  some (br2, and_effects effects effects')

unfoldable pub tick : World → Bridge → Option Run
unfolding watch_all
tick w br = watch_all w br.parents br
