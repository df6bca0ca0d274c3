-- ===== src/Prelude/Iff.antt =====
-- Equivalences in chains and in pairs.
use mathlib.Core.Logic.{◌↔◌}

module _ {ℓ κ μ} {A : Type ℓ} {B : Type κ} {C : Type μ} where
  pub iff_trans : A ↔ B → B ↔ C → A ↔ C
  iff_trans e f = ((λ a. f.0 (e.0 a)), (λ c. e.1 (f.1 c)))

module _ {ℓ κ μ ν} {A : Type ℓ} {B : Type κ} {C : Type μ} {D : Type ν} where
  pub iff_pair : A ↔ C → B ↔ D → (A × B) ↔ (C × D)
  iff_pair e f = ((λ p. (e.0 p.0, f.0 p.1)), (λ q. (e.1 q.0, f.1 q.1)))

-- A pair that is split once more on the right.
module _ {ℓ κ μ ν ξ ο} {A : Type ℓ} {B : Type κ} {C : Type μ} {D : Type ν} {E : Type ξ}
    {F : Type ο} where
  pub iff_pair3 : A ↔ (D × B) → B ↔ E → C ↔ F → (A × C) ↔ (D × E × F)
  iff_pair3 a b c =
      ((λ p. let (d, q) = a.0 p.0 in (d, b.0 q, c.0 p.1)), (λ q. (a.1 (q.0, b.1 q.1), c.1 q.2)))
