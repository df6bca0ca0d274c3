-- ===== src/Kernel/Secrets/Pattern/Matches.antt =====
-- The matcher finds a match exactly where there is one.
use Prim.Native.Char.{code}
use publish.Prelude.{
  ℕ, String, Bool, true, false, Option, none, some, List, [], ◌∷◌, In, any, ◌≡◌, ◌⊎◌, ◌↔◌, inl, inr,
  refl, subst, arith, Bool-cases, if◌then◌else◌,
}
use publish.Kernel.Secrets.Pattern.{
  Regex, empty, one, seq, either, many, fewest, word_edge, word_edge_any_case, Place, is_word,
  is_word_any_case, is_edge, size, take_one, ends, is_some, match_from, is_match,
}
use publish.Kernel.Secrets.Pattern.Language.{
  Takes, TakesOne, In-append, In-flat_map, Takes-Forward, repeat_sound, fewest_sound,
  repeat_complete, fewest_complete,
}

one_iff : (q p : Place) → In q (p ∷ []) ↔ (q ≡ p)
one_iff q p = (elim [ inl e ↦ e | inr i ↦ absurd i ], λ e. inl e)

take_one_iff :
    (test : ℕ → Bool) (s : String) (q : Place) → In q (take_one test s) ↔ TakesOne test s q
take_one_iff test String.[] q = (λ i. i, λ i. i)
take_one_iff test (String.◌∷◌ c s) q = elim (Bool-cases (test (code c))) [
  | inl yes' ↦ rw yes' (λ i. (refl, (one_iff q _).0 i), λ t. inl t.1)
  | inr no' ↦ rw no' (λ i. absurd i, λ t. let e = t.0 in absurd (ground (arith, e)))
]

edge_iff : (b : Bool) (p q : Place) → In q (if b then p ∷ [] else []) ↔ ((b ≡ true) × (q ≡ p))
edge_iff true p q = (λ i. (refl, (one_iff q p).0 i), λ t. inl t.1)
edge_iff false p q = (λ i. absurd i, λ t. let e = t.0 in absurd (ground (arith, e)))

-- The ends that the matcher gives are those of the matches.
pub ends-Takes : (r : Regex) (p q : Place) → In q (ends r p) ↔ Takes r p q
unfolding ends
ends-Takes empty p q = one_iff q p
ends-Takes (one test) p q = take_one_iff test p.rest q
ends-Takes (seq r s) p q =
    let flat = In-flat_map q (ends s) (ends r p) in
    (
      λ i. let (m, (j, l)) = flat.0 i in (m, ((ends-Takes r p m).0 j, (ends-Takes s m q).0 l)),
      λ (m, (t, u)). flat.1 (m, ((ends-Takes r p m).1 t, (ends-Takes s m q).1 u)),
    )
ends-Takes (either r s) p q =
    let split = In-append q (ends r p) (ends s p) in
    (
      λ i. elim (split.0 i) [
        | inl j ↦ inl ((ends-Takes r p q).0 j)
        | inr j ↦ inr ((ends-Takes s p q).0 j)
      ],
      elim [
        | inl t ↦ split.1 (inl ((ends-Takes r p q).1 t))
        | inr t ↦ split.1 (inr ((ends-Takes s p q).1 t))
      ],
    )
ends-Takes (many r) p q = (
  λ i. repeat_sound (Takes r) (ends r) (ends-Takes r) (Takes-Forward r) (size p.rest) p q i,
  λ (count, t).
      repeat_complete (Takes r) (ends r) (ends-Takes r) (Takes-Forward r) count (size p.rest) p q
        (ground arith) t,
)
ends-Takes (fewest r) p q = (
  λ i. fewest_sound (Takes r) (ends r) (ends-Takes r) (Takes-Forward r) (size p.rest) p q i,
  λ (count, t).
      fewest_complete (Takes r) (ends r) (ends-Takes r) (Takes-Forward r) count (size p.rest) p q
        (ground arith) t,
)
ends-Takes word_edge p q = edge_iff (is_edge is_word p) p q
ends-Takes word_edge_any_case p q = edge_iff (is_edge is_word_any_case p) p q

-- A place of the text that follows `before`.
abbrev pub IsPlaceOf : Option ℕ → String → Place → Type 0
IsPlaceOf before String.[] p = p ≡ record { before = before; rest = String.[] }
IsPlaceOf before (String.◌∷◌ c s) p =
    (p ≡ record { before = before; rest = String.◌∷◌ c s }) ⊎ IsPlaceOf (some (code c)) s p

-- Somewhere in the text the pattern leads from one place to another.
abbrev pub Occurs : Regex → Option ℕ → String → Type 0
Occurs r before s = (p : Place) × (IsPlaceOf before s p × ((q : Place) × Takes r p q))

is_some_iff : (ps : List Place) → (is_some ps ≡ true) ↔ ((q : Place) × In q ps)
is_some_iff [] = (λ h. absurd (ground (arith, h)), λ i. absurd i.1)
is_some_iff (p ∷ ps) = (λ h. (p, inl refl), λ i. refl)

from_iff : (r : Regex) (p : Place) → (is_some (ends r p) ≡ true) ↔ ((q : Place) × Takes r p q)
from_iff r p =
    let found = is_some_iff (ends r p) in
    (
      λ h. let (q, i) = found.0 h in (q, (ends-Takes r p q).0 i),
      λ (q, t). found.1 (q, (ends-Takes r p q).1 t),
    )

match_from_iff :
    (r : Regex) (before : Option ℕ) (s : String)
    → (match_from r before s ≡ true) ↔ Occurs r before s
unfolding match_from
match_from_iff r before String.[] =
    let here : Place = record { before = before; rest = String.[] } in
    let found = from_iff r here in
    (
      λ h. (here, (refl, found.0 h)),
      λ (p, (e, t)). found.1 (subst (λ x. (q : Place) × Takes r x q) e t),
    )
match_from_iff r before (String.◌∷◌ c s) =
    let here : Place = record { before = before; rest = String.◌∷◌ c s } in
    let found = from_iff r here in
    let ih = match_from_iff r (some (code c)) s in
    (
      λ h. elim (Bool-cases (is_some (ends r here))) [
        | inl first ↦ (here, (inl refl, found.0 first))
        | inr later ↦ let (p, (i, t)) = ih.0 (ground (arith, h, later)) in (p, (inr i, t))
      ],
      λ (p, (i, t)). elim i [
        | inl e ↦
            let first = found.1 (subst (λ x. (q : Place) × Takes r x q) e t) in
            ground (arith, first)
        | inr j ↦ let later = ih.1 (p, (j, t)) in ground (arith, later)
      ],
    )

-- A pattern is found in a text exactly when it occurs there.
pub match_iff : (r : Regex) (s : String) → (is_match r s ≡ true) ↔ Occurs r none s
unfolding is_match
match_iff r s = match_from_iff r none s

-- One of the patterns occurs in the text.
abbrev pub OccursAny : List Regex → String → Type 0
OccursAny [] s = ⊥
OccursAny (r ∷ rs) s = Occurs r none s ⊎ OccursAny rs s

pub any_iff : (rs : List Regex) (s : String) → (any (λ r. is_match r s) rs ≡ true) ↔ OccursAny rs s
any_iff [] s = (λ h. absurd (ground (arith, h)), λ i. absurd i)
any_iff (r ∷ rs) s =
    let one' = match_iff r s in
    let ih = any_iff rs s in
    (
      λ h. elim (Bool-cases (is_match r s)) [
        | inl first ↦ inl (one'.0 first)
        | inr later ↦ inr (ih.0 (ground (arith, h, later)))
      ],
      elim [
        | inl i ↦ let first = one'.1 i in ground (arith, first)
        | inr i ↦ let later = ih.1 i in ground (arith, later)
      ],
    )
