-- ===== src/Text/Laws.antt =====
-- Texts by characters: induction over the native concatenation.
use Prim.Native.Char.{Char}
use Prim.Native.String.{◌++◌}
use text.Mathlib.TextLemmas.{cons-append, nil-append}
use claude_dbus.Prelude.{String, ◌≡◌, refl, Bool, true, ◌&&◌, arith}

abbrev pub all_chars : (Char → Bool) → String → Bool
all_chars p String.[] = true
all_chars p (String.◌∷◌ c s) = p c && all_chars p s

pub all_chars-append :
    (p : Char → Bool) (s t : String) → all_chars p (s ++ t) ≡ (all_chars p s && all_chars p t)
all_chars-append p String.[] t = rw (nil-append t) refl
all_chars-append p (String.◌∷◌ c s) t =
    rw (cons-append c s t) (ground (arith, all_chars-append p s t))
