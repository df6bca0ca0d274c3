-- ===== src/Kernel/Retention/History.antt =====
-- The history keeps the newest generations, each once.
use publish.Prelude.{
  ℕ, zero, suc, ◌+◌, ◌≤◌, Bool, not, Option, List, [], ◌∷◌, ◌≡◌, ◌≢◌, inl, inr, arith, eq_iff, In,
  filter, take, length, Bool-cases, In-filter,
}
use native.Mathlib.Numerals.{towards_suc}
use publish.Kernel.Retention.{CertifiedDigestRecord, is_generation, cap_of, retain_certified_digest}

-- Each generation stands at most once.
abbrev pub HasDistinctGenerations : List CertifiedDigestRecord → Type 0
HasDistinctGenerations [] = Unit
HasDistinctGenerations (r ∷ rs) =
    ((e : CertifiedDigestRecord) → In e rs → e.generation_id ≢ r.generation_id)
    × HasDistinctGenerations rs

pub In-take :
    (e : CertifiedDigestRecord) (n : ℕ) (xs : List CertifiedDigestRecord)
    → In e (take n xs)
    → In e xs
In-take e zero xs i = elim i [ ]
In-take e (suc n) [] i = elim i [ ]
In-take e (suc n) (x ∷ xs) (inl same) = inl same
In-take e (suc n) (x ∷ xs) (inr i) = inr (In-take e n xs i)

take-distinct :
    (n : ℕ) (xs : List CertifiedDigestRecord)
    → HasDistinctGenerations xs
    → HasDistinctGenerations (take n xs)
take-distinct zero xs h = tt
take-distinct (suc n) [] h = tt
take-distinct (suc n) (x ∷ xs) (new, h) = ((λ e i. new e (In-take e n xs i)), take-distinct n xs h)

pub filter-distinct :
    (p : CertifiedDigestRecord → Bool) (xs : List CertifiedDigestRecord)
    → HasDistinctGenerations xs
    → HasDistinctGenerations (filter p xs)
filter-distinct p [] h = tt
filter-distinct p (x ∷ xs) (new, h) = elim (Bool-cases (p x)) [
  | inl kept ↦ rw kept ((λ e i. new e ((In-filter p xs e).0 i).0), filter-distinct p xs h)
  | inr left ↦ rw left (filter-distinct p xs h)
]

module _ (history : List CertifiedDigestRecord) (r : CertifiedDigestRecord) (cap : Option ℕ) where
  abbrev pub others : List CertifiedDigestRecord
  others = filter (λ e. not (is_generation r.generation_id e)) history

  pub others-ne : (e : CertifiedDigestRecord) → In e others → e.generation_id ≢ r.generation_id
  others-ne e i q =
      let (_, p) = (In-filter (λ e. not (is_generation r.generation_id e)) history e).0 i in
      ground (arith, (eq_iff e.generation_id r.generation_id).1 q)

  -- Retaining a record keeps the history one without repeated generations.
  pub retain-distinct :
      HasDistinctGenerations history
      → HasDistinctGenerations (retain_certified_digest history r cap)
  unfolding retain_certified_digest
  retain-distinct h =
      take-distinct (cap_of cap + 1) (r ∷ others) (others-ne, filter-distinct _ history h)

  take-length : (n : ℕ) (xs : List CertifiedDigestRecord) → length (take n xs) ≤ n
  take-length zero xs = omega arith
  take-length (suc n) [] = omega arith
  take-length (suc n) (x ∷ xs) = omega (arith, take-length n xs)

  -- The newest record is at the head, and at most the cap of priors follows it.
  pub retain_shape :
      (priors : List CertifiedDigestRecord) × (retain_certified_digest history r cap ≡ r ∷ priors)
      × (length priors ≤ cap_of cap)
  unfolding retain_certified_digest
  retain_shape = (take (cap_of cap) others, simp towards_suc, take-length (cap_of cap) others)
