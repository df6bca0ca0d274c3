-- ===== src/Kernel/Secrets/Pattern/Language.antt =====
-- What a pattern matches, without a matcher: the places that a match may lead to from a place.
use Prim.Native.Char.{code}
use publish.Prelude.{
  ℕ, zero, suc, ◌≤◌, String, Bool, true, Option, some, List, [], ◌∷◌, ◌++◌, In, ltb, ◌≡◌, ◌⊎◌, ◌↔◌,
  inl, inr, refl, sym, subst, ◌∙◌, arith, Bool-cases,
}
use publish.Kernel.Secrets.Pattern.{
  Regex, empty, one, seq, either, many, fewest, word_edge, word_edge_any_case, Place, is_word,
  is_word_any_case, is_edge, size, flat_map, advancing, repeat, repeat_fewest,
}

-- `count` rounds, one after the other.
abbrev pub Times : (Place → Place → Type 0) → ℕ → Place → Place → Type 0
Times R zero p q = q ≡ p
Times R (suc count) p q = (m : Place) × (R p m × Times R count m q)

-- One character that passes the test is taken.
abbrev pub TakesOne : (ℕ → Bool) → String → Place → Type 0
TakesOne test String.[] q = ⊥
TakesOne test (String.◌∷◌ c s) q =
    (test (code c) ≡ true) × (q ≡ record { before = some (code c); rest = s })

abbrev pub Takes : Regex → Place → Place → Type 0
Takes empty p q = q ≡ p
Takes (one test) p q = TakesOne test p.rest q
Takes (seq r s) p q = (m : Place) × (Takes r p m × Takes s m q)
Takes (either r s) p q = Takes r p q ⊎ Takes s p q
Takes (many r) p q = (count : ℕ) × Times (Takes r) count p q
Takes (fewest r) p q = (count : ℕ) × Times (Takes r) count p q
Takes word_edge p q = (is_edge is_word p ≡ true) × (q ≡ p)
Takes word_edge_any_case p q = (is_edge is_word_any_case p ≡ true) × (q ≡ p)

-- The members of the lists that the matcher builds.
pub In-append : (a : Place) (xs ys : List Place) → In a (xs ++ ys) ↔ (In a xs ⊎ In a ys)
In-append a [] ys = (λ i. inr i, elim [ inl i ↦ absurd i | inr i ↦ i ])
In-append a (x ∷ xs) ys =
    let ih = In-append a xs ys in
    (
      elim [ inl e ↦ inl (inl e) | inr i ↦ elim (ih.0 i) [ inl j ↦ inl (inr j) | inr j ↦ inr j ] ],
      elim [
        | inl i ↦ elim i [ inl e ↦ inl e | inr j ↦ inr (ih.1 (inl j)) ]
        | inr j ↦ inr (ih.1 (inr j))
      ],
    )

abbrev InFlat : Place → (Place → List Place) → List Place → Type 0
InFlat a f ps = (m : Place) × (In m ps × In a (f m))

pub In-flat_map :
    (a : Place) (f : Place → List Place) (ps : List Place) → In a (flat_map f ps) ↔ InFlat a f ps
In-flat_map a f [] = (λ i. absurd i, λ i. absurd i.1.0)
In-flat_map a f (p ∷ ps) =
    let ih = In-flat_map a f ps in
    let split = In-append a (f p) (flat_map f ps) in
    (
      λ i. elim (split.0 i) [
        | inl j ↦ (p, (inl refl, j))
        | inr j ↦ let (m, (k, l)) = ih.0 j in (m, (inr k, l))
      ],
      λ (m, (k, l)). elim k [
        | inl e ↦ split.1 (inl (subst (λ x. In a (f x)) e l))
        | inr j ↦ split.1 (inr (ih.1 (m, (j, l))))
      ],
    )

abbrev IsShorter : Place → Place → Type 0
IsShorter q p = ltb (size q.rest) (size p.rest) ≡ true

In-advancing : (p q : Place) (qs : List Place) → In q (advancing p qs) ↔ (In q qs × IsShorter q p)
In-advancing p q [] = (λ i. absurd i, λ i. absurd i.0)
In-advancing p q (x ∷ xs) =
    let ih = In-advancing p q xs in
    elim (Bool-cases (ltb (size x.rest) (size p.rest))) [
      | inl shorter ↦ rw shorter (
        elim [
          | inl e ↦ (inl e, subst (λ y. IsShorter y p) (sym e) shorter)
          | inr i ↦ let (j, h) = ih.0 i in (inr j, h)
        ],
        λ i. elim i.0 [ inl e ↦ inl e | inr j ↦ inr (ih.1 (j, i.1)) ],
      )
      | inr longer ↦ rw longer (
        λ i. let (j, h) = ih.0 i in (inr j, h),
        λ i. elim i.0 [
          | inl e ↦ let h = subst (λ y. IsShorter y p) e i.1 in absurd (ground (arith, h, longer))
          | inr j ↦ ih.1 (j, i.1)
        ],
      )
    ]

-- A match goes forward or stays.
abbrev Forward : Place → Place → Type 0
Forward p q = (q ≡ p) ⊎ IsShorter q p

Forward-trans : (p m q : Place) → Forward p m → Forward m q → Forward p q
Forward-trans p m q (inl e) (inl f) = inl (f ∙ e)
Forward-trans p m q (inl e) (inr h) = inr (subst (λ x. IsShorter q x) e h)
Forward-trans p m q (inr h) (inl f) = inr (subst (λ x. IsShorter x p) (sym f) h)
Forward-trans p m q (inr h) (inr k) = inr (ground (arith, h, k))

Times-Forward :
    (R : Place → Place → Type 0) (count : ℕ) (p q : Place)
    → ((a b : Place) → R a b → Forward a b)
    → Times R count p q
    → Forward p q
Times-Forward R zero p q h t = inl t
Times-Forward R (suc count) p q h (m, (r, t)) =
    Forward-trans p m q (h p m r) (Times-Forward R count m q h t)

TakesOne-Forward :
    (test : ℕ → Bool) (before : Option ℕ) (s : String) (q : Place)
    → TakesOne test s q
    → Forward (record { before = before; rest = s }) q
TakesOne-Forward test before String.[] q t = absurd t
TakesOne-Forward test before (String.◌∷◌ c s) q t = inr (rw (t.1) (ground arith))

pub Takes-Forward : (r : Regex) (p q : Place) → Takes r p q → Forward p q
Takes-Forward empty p q t = inl t
Takes-Forward (one test) p q t = TakesOne-Forward test p.before p.rest q t
Takes-Forward (seq r s) p q (m, (t, u)) =
    Forward-trans p m q (Takes-Forward r p m t) (Takes-Forward s m q u)
Takes-Forward (either r s) p q (inl t) = Takes-Forward r p q t
Takes-Forward (either r s) p q (inr t) = Takes-Forward s p q t
Takes-Forward (many r) p q (count, t) = Times-Forward (Takes r) count p q (Takes-Forward r) t
Takes-Forward (fewest r) p q (count, t) = Times-Forward (Takes r) count p q (Takes-Forward r) t
Takes-Forward word_edge p q t = inl t.1
Takes-Forward word_edge_any_case p q t = inl t.1

-- The repetitions, for a round that finds exactly what `R` relates.
module _ (R : Place → Place → Type 0) (f : Place → List Place)
    (exact : (p q : Place) → In q (f p) ↔ R p q)
    (forward : (p q : Place) → R p q → Forward p q) where
  rounds_sound :
      (k : ℕ) (g : Place → List Place) (p q : Place)
      → ((m : Place) → In q (g m) → (count : ℕ) × Times R count m q)
      → In q (flat_map g (advancing p (f p)))
      → (count : ℕ) × Times R count p q
  rounds_sound k g p q ih i =
      let (m, (j, l)) = (In-flat_map q g (advancing p (f p))).0 i in
      let (count, t) = ih m l in
      (suc count, (m, ((exact p m).0 ((In-advancing p m (f p)).0 j).0, t)))

  pub repeat_sound : (k : ℕ) (p q : Place) → In q (repeat f k p) → (count : ℕ) × Times R count p q
  unfolding repeat
  repeat_sound zero p q i = elim i [ inl e ↦ (0, e) | inr j ↦ absurd j ]
  repeat_sound (suc k) p q i =
      elim ((In-append q (flat_map (repeat f k) (advancing p (f p))) (p ∷ [])).0 i) [
        | inl j ↦ rounds_sound k (repeat f k) p q (λ m. repeat_sound k m q) j
        | inr j ↦ elim j [ inl e ↦ (0, e) | inr n ↦ absurd n ]
      ]

  pub fewest_sound :
      (k : ℕ) (p q : Place) → In q (repeat_fewest f k p) → (count : ℕ) × Times R count p q
  unfolding repeat_fewest
  fewest_sound zero p q i = elim i [ inl e ↦ (0, e) | inr j ↦ absurd j ]
  fewest_sound (suc k) p q i = elim i [
    | inl e ↦ (0, e)
    | inr j ↦ rounds_sound k (repeat_fewest f k) p q (λ m. fewest_sound k m q) j
  ]

  advance :
      (g : Place → List Place) (p m q : Place)
      → R p m
      → IsShorter m p
      → In q (g m)
      → In q (flat_map g (advancing p (f p)))
  advance g p m q r shorter i =
      (In-flat_map q g (advancing p (f p))).1
        (m, ((In-advancing p m (f p)).1 ((exact p m).1 r, shorter), i))

  pub repeat_complete :
      (count k : ℕ) (p q : Place) → size p.rest ≤ k → Times R count p q → In q (repeat f k p)
  unfolding repeat
  repeat_complete zero zero p q h t = inl t
  repeat_complete zero (suc k) p q h t = (In-append q _ (p ∷ [])).1 (inr (inl t))
  repeat_complete (suc count) zero p q h (m, (r, t)) = elim (forward p m r) [
    | inl e ↦ repeat_complete count zero p q h (subst (λ x. Times R count x q) e t)
    | inr shorter ↦ absurd (ground (arith, shorter, h))
  ]
  repeat_complete (suc count) (suc k) p q h (m, (r, t)) = elim (forward p m r) [
    | inl e ↦ repeat_complete count (suc k) p q h (subst (λ x. Times R count x q) e t)
    | inr shorter ↦ (In-append q _ (p ∷ [])).1 (
        inl (
          advance (repeat f k) p m q r shorter
            (repeat_complete count k m q (ground (arith, shorter, h)) t)))
  ]

  pub fewest_complete :
      (count k : ℕ) (p q : Place) → size p.rest ≤ k → Times R count p q → In q (repeat_fewest f k p)
  unfolding repeat_fewest
  fewest_complete zero zero p q h t = inl t
  fewest_complete zero (suc k) p q h t = inl t
  fewest_complete (suc count) zero p q h (m, (r, t)) = elim (forward p m r) [
    | inl e ↦ fewest_complete count zero p q h (subst (λ x. Times R count x q) e t)
    | inr shorter ↦ absurd (ground (arith, shorter, h))
  ]
  fewest_complete (suc count) (suc k) p q h (m, (r, t)) = elim (forward p m r) [
    | inl e ↦ fewest_complete count (suc k) p q h (subst (λ x. Times R count x q) e t)
    | inr shorter ↦ inr (
        advance (repeat_fewest f k) p m q r shorter
          (fewest_complete count k m q (ground (arith, shorter, h)) t))
  ]
