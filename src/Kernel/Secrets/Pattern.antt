-- ===== src/Kernel/Secrets/Pattern.antt =====
-- Regular expressions as the language matches them: a matcher gives the ends of its matches in the
-- order of preference. A text is its code points, as under the `u` flag.
pub mod Language
pub mod Matches
use Prim.Native.Char.{code}
use Prim.Native.String
use publish.Prelude.{
  ℕ, zero, suc, ◌+◌, ◌-◌, String, Bool, true, false, not, ◌&&◌, ◌||◌, Option, none, some, List, [],
  ◌∷◌, ◌++◌, eqb, ltb, leb, if◌then◌else◌,
}

pub data Regex : Type 0 where
  empty : Regex
  one : (ℕ → Bool) → Regex
  seq : Regex → Regex → Regex
  either : Regex → Regex → Regex
  many : Regex → Regex
  fewest : Regex → Regex
  word_edge word_edge_any_case : Regex

-- A place in the text: the code point before it, and the rest.
pub record Place : Type 0 where
  pub before : Option ℕ
  pub rest : String

-- `\w`; none beside the ends.
abbrev is_word : ℕ → Bool
is_word n = (leb 65 n && leb n 90) || (leb 97 n && leb n 122) || (leb 48 n && leb n 57) || eqb n 95

-- `\w` under the flags `iu` has two more members, which fold to letters.
abbrev is_word_any_case : ℕ → Bool
is_word_any_case n = is_word n || eqb n 0x17f || eqb n 0x212a

abbrev word_before : (ℕ → Bool) → Option ℕ → Bool
word_before word none = false
word_before word (some n) = word n

abbrev word_after : (ℕ → Bool) → String → Bool
word_after word String.[] = false
word_after word (String.◌∷◌ c s) = word (code c)

-- `\b`
abbrev is_edge : (ℕ → Bool) → Place → Bool
is_edge word p =
    if word_before word p.before then not (word_after word p.rest) else word_after word p.rest

abbrev pub size : String → ℕ
size String.[] = 0
size (String.◌∷◌ c s) = suc (size s)

abbrev flat_map : (Place → List Place) → List Place → List Place
flat_map f [] = []
flat_map f (p ∷ ps) = f p ++ flat_map f ps

-- A repetition ends where a round takes nothing.
abbrev advancing : Place → List Place → List Place
advancing p [] = []
advancing p (q ∷ qs) =
    let later = advancing p qs in if ltb (size q.rest) (size p.rest) then q ∷ later else later

-- As many rounds as there are code points are enough.
unfoldable pub repeat : (Place → List Place) → ℕ → Place → List Place
repeat round zero p = p ∷ []
repeat round (suc fuel) p = flat_map (repeat round fuel) (advancing p (round p)) ++ p ∷ []

unfoldable pub repeat_fewest : (Place → List Place) → ℕ → Place → List Place
repeat_fewest round zero p = p ∷ []
repeat_fewest round (suc fuel) p = p ∷ flat_map (repeat_fewest round fuel) (advancing p (round p))

abbrev take_one : (ℕ → Bool) → String → List Place
take_one test String.[] = []
take_one test (String.◌∷◌ c s) =
    if test (code c) then record { before = some (code c); rest = s } ∷ [] else []

unfoldable pub ends : Regex → Place → List Place
unfolding repeat repeat_fewest
ends empty p = p ∷ []
ends (one test) p = take_one test p.rest
ends (seq r s) p = flat_map (ends s) (ends r p)
ends (either r s) p = ends r p ++ ends s p
ends (many r) p = repeat (ends r) (size p.rest) p
ends (fewest r) p = repeat_fewest (ends r) (size p.rest) p
ends word_edge p = if is_edge is_word p then p ∷ [] else []
ends word_edge_any_case p = if is_edge is_word_any_case p then p ∷ [] else []

abbrev pub is_some : List Place → Bool
is_some [] = false
is_some (p ∷ ps) = true

-- Every place of the text is tried.
unfoldable pub match_from : Regex → Option ℕ → String → Bool
match_from r before String.[] = is_some (ends r (record { before = before; rest = String.[] }))
match_from r before (String.◌∷◌ c s) =
    is_some (ends r (record { before = before; rest = String.◌∷◌ c s }))
    || match_from r (some (code c)) s

-- `regex.test(text)` at `lastIndex` 0.
unfoldable pub is_match : Regex → String → Bool
unfolding ends match_from
is_match r text = match_from r none text

-- How many code points the preferred match takes; 0 where there is none.
abbrev pub taken : String → List Place → ℕ
taken text [] = 0
taken text (q ∷ qs) = size text - size q.rest

-- `skip` code points are what is left of a match.
unfoldable pub replace_from : Regex → String → Option ℕ → String → ℕ → String
replace_from r by before String.[] skip = String.[]
replace_from r by before (String.◌∷◌ c s) (suc skip) = replace_from r by (some (code c)) s skip
replace_from r by before (String.◌∷◌ c s) zero =
    elim (taken (String.◌∷◌ c s) (ends r (record { before = before; rest = String.◌∷◌ c s }))) [
      | zero ↦ String.◌∷◌ c (replace_from r by (some (code c)) s 0)
      | suc skip ↦ String.◌++◌ by (replace_from r by (some (code c)) s skip)
    ]

-- `text.replaceAll(regex, by)` of a regex that does not match the empty text, and a `by` with no
-- `$`.
unfoldable pub replace_all : Regex → String → String → String
unfolding ends replace_from
replace_all r text by = replace_from r by none text 0

abbrev pub literal : String → Regex
literal String.[] = empty
literal (String.◌∷◌ c s) = seq (one (λ n. eqb n (code c))) (literal s)

-- Under the `i` flag a code point fits the ASCII letter that its simple case folding gives: the
-- letter in either case, and U+017F and U+212A for s and k. The letters are given in lower case.
abbrev folds_to : ℕ → ℕ → Bool
folds_to c n =
    eqb n c
    || (leb 97 c && leb c 122 && eqb (n + 32) c)
    || (eqb c 115 && eqb n 0x17f)
    || (eqb c 107 && eqb n 0x212a)

abbrev pub literal_any_case : String → Regex
literal_any_case String.[] = empty
literal_any_case (String.◌∷◌ c s) = seq (one (folds_to (code c))) (literal_any_case s)

abbrev pub exactly : ℕ → Regex → Regex
exactly zero r = empty
exactly (suc n) r = seq r (exactly n r)

abbrev pub at_least : ℕ → Regex → Regex
at_least zero r = many r
at_least (suc n) r = seq r (at_least n r)

abbrev pub optional : Regex → Regex
optional r = either r empty
