-- ===== src/Protocol/StableId.antt =====
-- The pattern of a stable identity, a lowercase UUIDv7 (`GENERATION_ID_PATTERN` and
-- `STABLE_ID_PATTERN`), as a list of character classes that the whole text must fit.
use Prim.Native.Char.{code}
use Prim.Native.String.{String, [], ◌∷◌}
use mathlib.Core.List.{List}
use publish.Prelude.{ℕ, zero, suc, Bool, true, false, ◌&&◌, ◌||◌, eqb, leb}

-- `[0-9a-f]`, `-`, `7` and `[89ab]`
pub data Class : Type 0 where
  hex dash seven variant : Class

unfoldable pub fits : Class → ℕ → Bool
fits hex n = (leb 48 n && leb n 57) || (leb 97 n && leb n 102)
fits dash n = eqb n 45
fits seven n = eqb n 55
fits variant n = eqb n 56 || eqb n 57 || eqb n 97 || eqb n 98

-- `class{n}`
abbrev pub times : ℕ → Class → List Class → List Class
times zero c rest = rest
times (suc n) c rest = List.◌∷◌ c (times n c rest)

-- `^…$`: the text has a character of each class and no more.
unfoldable pub matches : List Class → String → Bool
matches List.[] [] = true
matches List.[] (c ∷ s) = false
matches (List.◌∷◌ k ks) [] = false
matches (List.◌∷◌ k ks) (c ∷ s) = fits k (code c) && matches ks s

-- `/^[0-9a-f]{8}-[0-9a-f]{4}-7[0-9a-f]{3}-[89ab][0-9a-f]{3}-[0-9a-f]{12}$/u`
abbrev pub generation_id_pattern : List Class
generation_id_pattern = times 8 hex (
    times 1 dash (
      times 4 hex (
        times 1 dash (
          times 1 seven (
            times 3 hex (
              times 1 dash
                (times 1 variant (times 3 hex (times 1 dash (times 12 hex List.[]))))))))))

unfoldable pub is_stable_id : String → Bool
unfolding matches fits
is_stable_id s = matches generation_id_pattern s
