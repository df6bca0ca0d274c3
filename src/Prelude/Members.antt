-- ===== src/Prelude/Members.antt =====
-- `find` and `filter` by membership.
use mathlib.Core.Path.{◌≡◌, refl, sym, subst, ap}
use mathlib.Core.Logic.{◌⊎◌, ◌↔◌, inl, inr, ◌≢◌}
use mathlib.Core.Bool.{Bool, true, false}
use mathlib.Core.Option.{none, some}
use mathlib.Core.List.{List, [], ◌∷◌, ◌++◌}
use native.Mathlib.Omega.{arith}
use publish.Prelude.Tests.{Bool-cases}
use publish.Prelude.Lists.{In, find, filter}

module _ {A : Type 0} (p : A → Bool) where
  pub find-some : (xs : List A) (x : A) → find p xs ≡ some x → In x xs × (p x ≡ true)
  find-some [] x h = cc
  find-some (y ∷ ys) x h = elim (Bool-cases (p y)) [
    | inl yes' ↦ let e : y ≡ x = ground arith in (inl (sym e), subst (λ z. p z ≡ true) e yes')
    | inr no' ↦ let (inside, holds) = find-some ys x (rw no' at h) in (inr inside, holds)
  ]

  pub find-none : (xs : List A) → find p xs ≡ none → (x : A) → In x xs → p x ≡ false
  find-none [] h x inside = elim inside [ ]
  find-none (y ∷ ys) h x inside = elim (Bool-cases (p y)) [
    | inl yes' ↦ absurd (ground arith)
    | inr no' ↦ elim inside [
      | inl e ↦ subst (λ z. p z ≡ false) (sym e) no'
      | inr later ↦ find-none ys (rw no' at h) x later
    ]
  ]

  pub find-none_of : (xs : List A) → ((x : A) → In x xs → p x ≡ false) → find p xs ≡ none
  find-none_of [] h = refl
  find-none_of (y ∷ ys) h = rw (h y (inl refl)) (find-none_of ys (λ x i. h x (inr i)))

  pub find-not_none : (xs : List A) (x : A) → In x xs → p x ≡ true → find p xs ≢ none
  find-not_none xs x inside holds e = cc (find-none xs e x inside)

  pub In-filter : (xs : List A) (x : A) → In x (filter p xs) ↔ (In x xs × (p x ≡ true))
  In-filter [] x = ((λ i. elim i [ ]), (λ i. elim i.0 [ ]))
  In-filter (y ∷ ys) x = elim (Bool-cases (p y)) [
    | inl yes' ↦ rw yes' (
      elim [
        | inl e ↦ (inl e, subst (λ z. p z ≡ true) (sym e) yes')
        | inr later ↦ let (i, h) = (In-filter ys x).0 later in (inr i, h)
      ],
      (λ i. elim i.0 [ inl e ↦ inl e | inr later ↦ inr ((In-filter ys x).1 (later, i.1)) ]),
    )
    | inr no' ↦ rw no' (
      (λ later. let (i, h) = (In-filter ys x).0 later in (inr i, h)),
      (λ i. elim i.0 [
        | inl e ↦ absurd (ground (arith, ap p e))
        | inr later ↦ (In-filter ys x).1 (later, i.1)
      ]),
    )
  ]

pub In-concat : {A : Type 0} {x y : A} (xs : List A) → In x (xs ++ y ∷ []) → In x xs ⊎ (x ≡ y)
In-concat [] (inl e) = inr e
In-concat [] (inr i) = elim i [ ]
In-concat (z ∷ xs) (inl e) = inl (inl e)
In-concat (z ∷ xs) (inr i) = elim (In-concat xs i) [ inl old ↦ inl (inr old) | inr new ↦ inr new ]
