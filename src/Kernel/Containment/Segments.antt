-- ===== src/Kernel/Containment/Segments.antt =====
-- A path is its segments, joined by slashes.
use Prim.Native.Char.{code}
use Prim.Native.String.{◌++◌}
use mathlib.Core.Path.{ap₂}
use text.Mathlib.TextEquality.{Char-path}
use text.Mathlib.TextLemmas.{nil-append, cons-append}
use publish.Prelude.{
  any, eqb_iff, sym, ◌∙◌, String, true, false, ◌≡◌, refl, arith, List, [], ◌∷◌, All, eqb,
  Bool-cases, inl, inr, ap,
}
use publish.Kernel.Containment.{split_slash, segments_of, includes, begins_with, is_dot_or_empty}

abbrev pub join_rest : List String → String
join_rest [] = ""
join_rest (s ∷ ss) = String.◌∷◌ "/" (s ++ join_rest ss)

abbrev pub join_slash : List String → String
join_slash [] = ""
join_slash (s ∷ ss) = s ++ join_rest ss

-- No segment holds a slash.
pub split-free : (s : String) → All (λ t. includes b'/' t ≡ false) (segments_of s)
unfolding segments_of includes split_slash
split-free String.[] = (refl, tt)
split-free (String.◌∷◌ c s) = elim (Bool-cases (eqb (code c) b'/')) [
  | inl slash ↦ rw slash (refl, split-free s)
  | inr other ↦ let (head, rest) = split-free s in rw (other) (ground arith, rest)
]

-- Joined by slashes, the segments are the path again.
pub join-split : (s : String) → join_slash (segments_of s) ≡ s
unfolding segments_of split_slash
join-split String.[] = nil-append _
join-split (String.◌∷◌ c s) = elim (Bool-cases (eqb (code c) b'/')) [
  | inl slash ↦
      let same : c ≡ "/" = Char-path c "/" ((eqb_iff _ _).0 slash) in
      rw (slash, nil-append) (ap₂ String.◌∷◌ (sym same) (join-split s))
  | inr other ↦ rw other (cons-append _ _ _ ∙ ap (String.◌∷◌ c) (join-split s))
]

-- A path that begins with a slash has an empty first segment.
pub absolute-empty :
    (s : String) → begins_with b'/' s ≡ true → any is_dot_or_empty (segments_of s) ≡ true
unfolding begins_with segments_of split_slash is_dot_or_empty
absolute-empty String.[] h = cc
absolute-empty (String.◌∷◌ c s) h = rw h
