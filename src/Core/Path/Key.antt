-- ===== src/Core/Path/Key.antt =====
-- The key of a session, and the split by which the parent watcher reads it back.
use Prim.Native.Char.{code}
use Prim.Native.String.{◌++◌}
use text.Mathlib.TextLemmas.{cons-append, nil-append}
use claude_dbus.Prelude.{String, some, ◌≡◌, refl, Bool, true, not, eqb, arith}
use claude_dbus.Text.{split_once}
use claude_dbus.Text.Laws.{all_chars}
use claude_dbus.Core.Path.{session_key}

abbrev pub lacks_colon : String → Bool
lacks_colon = all_chars λ c. not (eqb (code c) b':')

split-append : (s t : String) → lacks_colon s ≡ true → split_once (s ++ ":" ++ t) b':' ≡ some (s, t)
unfolding split_once
split-append String.[] t h = rw (nil-append (":" ++ t), cons-append ":" "" t, nil-append t) refl
split-append (String.◌∷◌ c s) t h =
    rw (cons-append c s (":" ++ t)) (ground (arith, split-append s t))

-- If the agent's name has no colon, the key of a session splits back into the agent and the session,
-- whatever the session is called.
pub split-session_key :
    (agent_name session_id : String)
    → lacks_colon agent_name ≡ true
    → split_once (session_key agent_name session_id) b':' ≡ some (agent_name, session_id)
unfolding session_key
split-session_key a s h = split-append a s h
