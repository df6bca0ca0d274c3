-- ===== src/Prelude/Prefixes.antt =====
-- The text after a prefix.

use Prim.Native.String.append
use Prim.Native.String.{String, ◌++◌}
use mathlib.Core.Path.{◌≡◌, ap, ◌∙◌}
use publish.Prelude.Tests.{if◌then◌else◌}
use mathlib.Core.Option.{Option, none, some}
use text.Mathlib.Text.{◌==◌}
use text.Mathlib.TextPositions.{eq_refl}

-- `text.slice(prefix.length)` of a text that starts with `prefix`.
unfoldable pub after_prefix : String → String → Option String
after_prefix String.[] text = some text
after_prefix (String.◌∷◌ c prefix) String.[] = none
after_prefix (String.◌∷◌ c prefix) (String.◌∷◌ d text) =
    let rest = after_prefix prefix text in
    if String.◌∷◌ c String.[] == String.◌∷◌ d String.[] then rest else none

pub after_prefix-append : (prefix text : String) → after_prefix prefix (prefix ++ text) ≡ some text
unfolding after_prefix
after_prefix-append String.[] text = ap some (append.nil text)
after_prefix-append (String.◌∷◌ c prefix) text =
    ap (after_prefix (String.◌∷◌ c prefix)) (append.cons c prefix text)
    ∙ rw (eq_refl (String.◌∷◌ c String.[])) (after_prefix-append prefix text)
