-- ===== src/Prelude/Segments.antt =====
-- Lists at their far end.
use mathlib.Core.Path.{◌≡◌, refl, ap}
use mathlib.Core.List.{List, [], ◌∷◌}

module _ {ℓ} {A : Type ℓ} where
  abbrev pub drop_last : List A → List A
  drop_last [] = []
  drop_last (x ∷ []) = []
  drop_last (x ∷ y ∷ ys) = x ∷ drop_last (y ∷ ys)

  abbrev pub snoc : List A → A → List A
  snoc [] a = a ∷ []
  snoc (x ∷ xs) a = x ∷ snoc xs a

  pub drop_last-snoc : (xs : List A) (a : A) → drop_last (snoc xs a) ≡ xs
  drop_last-snoc [] a = refl
  drop_last-snoc (x ∷ []) a = refl
  drop_last-snoc (x ∷ y ∷ ys) a = ap (λ t. x ∷ t) (drop_last-snoc (y ∷ ys) a)
