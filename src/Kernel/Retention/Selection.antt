-- ===== src/Kernel/Retention/Selection.antt =====
-- What can be selected from the history.
use publish.Prelude.{
  ℕ, zero, suc, ◌+◌, String, false, not, Option, none, some, List, [], ◌∷◌, ◌≡◌, ◌≢◌, ◌↔◌, inl, inr,
  refl, sym, ◌∙◌, ap, eq_iff, In, filter, find, take, Bool-cases, Option-cases, find-some,
  find-not_none,
}
use native.Mathlib.Numerals.{add-one}
use publish.Finding.{has_blocking_finding, blocks}
use publish.Kernel.Retention.{
  CertifiedDigestRecord, is_generation, cap_of, retain_certified_digest, not_retained, selection,
  select_retained_generation,
}
use publish.Kernel.Retention.History.{HasDistinctGenerations, others-ne, filter-distinct, In-take}

-- The unbounded history: every generation once, by its latest certification.
unfoldable pub certify :
    List CertifiedDigestRecord → CertifiedDigestRecord → List CertifiedDigestRecord
certify history r = r ∷ filter (λ e. not (is_generation r.generation_id e)) history

-- The records are certified in order, the last of the list first.
unfoldable pub certify_all : List CertifiedDigestRecord → List CertifiedDigestRecord
certify_all [] = []
certify_all (r ∷ rs) = certify (certify_all rs) r

unfoldable pub retain_all : Option ℕ → List CertifiedDigestRecord → List CertifiedDigestRecord
retain_all cap [] = []
retain_all cap (r ∷ rs) = retain_certified_digest (retain_all cap rs) r cap

certify-distinct :
    (history : List CertifiedDigestRecord) (r : CertifiedDigestRecord)
    → HasDistinctGenerations history
    → HasDistinctGenerations (certify history r)
unfolding certify
certify-distinct history r h = (others-ne history r none, filter-distinct _ history h)

certify_all-distinct : (rs : List CertifiedDigestRecord) → HasDistinctGenerations (certify_all rs)
unfolding certify_all
certify_all-distinct [] = tt
certify_all-distinct (r ∷ rs) = certify-distinct (certify_all rs) r (certify_all-distinct rs)

take-take : (n : ℕ) (xs : List CertifiedDigestRecord) → take n (take n xs) ≡ take n xs
take-take zero xs = refl
take-take (suc n) [] = refl
take-take (suc n) (x ∷ xs) = rw (take-take n xs)

-- Nothing of another generation is filtered out.
filter-others :
    (g : String) (xs : List CertifiedDigestRecord)
    → ((e : CertifiedDigestRecord) → In e xs → e.generation_id ≢ g)
    → filter (λ e. not (is_generation g e)) xs ≡ xs
filter-others g [] h = refl
filter-others g (x ∷ xs) h =
    let other : is_generation g x ≡ false = elim (Bool-cases (is_generation g x)) [
      | inl same ↦ absurd (h x (inl refl) ((eq_iff _ _).0 same))
      | inr other ↦ other
    ] in
    rw (other, filter-others g xs (λ e i. h e (inr i)))

-- Pruning one place behind the cap loses nothing that the cap keeps.
take-filter-take :
    (g : String) (n : ℕ) (xs : List CertifiedDigestRecord)
    → HasDistinctGenerations xs
    → take n (filter (λ e. not (is_generation g e)) (take (suc n) xs))
      ≡ take n (filter (λ e. not (is_generation g e)) xs)
take-filter-take g zero xs h = refl
take-filter-take g (suc n) [] h = refl
take-filter-take g (suc n) (x ∷ xs) (new, h) = elim (Bool-cases (is_generation g x)) [
  | inr other ↦ rw other (ap (λ l. x ∷ l) (take-filter-take g n xs h))
  | inl same ↦
      let e : x.generation_id ≡ g = (eq_iff _ _).0 same in
      let others = λ (k : CertifiedDigestRecord) (i : In k xs) (q : k.generation_id ≡ g).
        new k i (q ∙ sym e) in
      rw
        (
          same,
          filter-others g xs others,
          filter-others g (take (suc n) xs) (λ k i. others k (In-take k (suc n) xs i)),
        )
        (take-take (suc n) xs)
]

-- Pruning at every certification keeps what pruning once at the end would keep: the newest
-- generations by their latest certification, up to the cap and the active one.
pub retain_all-eq-take :
    (cap : Option ℕ) (rs : List CertifiedDigestRecord)
    → retain_all cap rs ≡ take (cap_of cap + 1) (certify_all rs)
unfolding retain_all certify_all
retain_all-eq-take cap [] = rw add-one
retain_all-eq-take cap (r ∷ rs) = rw (retain_all-eq-take cap rs) (
    unfold retain_certified_digest certify in
    rw add-one (
      ap (λ l. r ∷ l)
        (take-filter-take r.generation_id (cap_of cap) (certify_all rs) (certify_all-distinct rs))))

unblocked-selection :
    (g : String) (o : Option CertifiedDigestRecord)
    → (has_blocking_finding (selection g o).findings ≡ false)
      ↔ ((e : CertifiedDigestRecord) × ((selection g o).found ≡ some e))
unfolding selection has_blocking_finding not_retained blocks
unblocked-selection g none = ((λ h. cc), (λ h. cc (h.1)))
unblocked-selection g (some e) = ((λ _. (e, refl)), (λ _. refl))

found-selection : (g : String) (o : Option CertifiedDigestRecord) → (selection g o).found ≡ o
unfolding selection
found-selection g none = refl
found-selection g (some e) = refl

-- A selection has no blocking finding exactly when a record of the generation is in the history,
-- and what it selects is such a record.
pub select-exact :
    (history : List CertifiedDigestRecord) (g : String)
    → ((has_blocking_finding (select_retained_generation history g).findings ≡ false)
        ↔ ((e : CertifiedDigestRecord) × In e history × (e.generation_id ≡ g)))
      × ((e : CertifiedDigestRecord)
          → (select_retained_generation history g).found ≡ some e
          → In e history × (e.generation_id ≡ g))
unfolding select_retained_generation
select-exact history g =
    let o = find (is_generation g) history in
    let clear = unblocked-selection g o in
    let named = λ (e : CertifiedDigestRecord) (q : (selection g o).found ≡ some e).
      let (i, same) = find-some (is_generation g) history e (sym (found-selection g o) ∙ q) in
      let r : In e history × (e.generation_id ≡ g) = (i, (eq_iff _ _).0 same) in r in
    (
      (
        (λ h. let (e, q) = clear.0 h in let (i, same) = named e q in (e, i, same)),
        (λ h.
            let (e, i, same) = h in
            elim (Option-cases o) [
              | inl missed ↦
                  absurd (find-not_none (is_generation g) history e i ((eq_iff _ _).1 same) missed)
              | inr (k, found) ↦ clear.1 (k, found-selection g o ∙ found)
            ]),
      ),
      named,
    )
