-- ===== src/Kernel/ArtifactIdentity/Agreement.antt =====
-- Which candidates agree with the frozen record.
use publish.Prelude.{
  false, Option, none, some, List, [], ◌∷◌, ◌≡◌, ◌↔◌, ◌⊎◌, inl, inr, refl, ap, arith, eq_iff, ok,
  any,
}
use mathlib.Core.Option.{some-injective}
use publish.Finding.{Finding, has_blocking_finding, blocks}
use publish.Kernel.ArtifactIdentity.{
  ArtifactIdentityRecord, ComparedField, compared_fields, differs, disagreements, throw_any,
  mutated_after_freeze, check_artifact_identity_agreement, assert_artifact_identity_agreement,
}

-- No compared field differs exactly when the records are equal.
differs-none_iff :
    (a b : ArtifactIdentityRecord) → (any (differs a b) compared_fields ≡ false) ↔ (a ≡ b)
unfolding differs
differs-none_iff a b = (
  (λ h. ground (
    arith,
    eq_iff a.artifact_id b.artifact_id,
    eq_iff a.artifact_digest b.artifact_digest,
    eq_iff a.manifest_digest b.manifest_digest,
  )),
  (λ e. ground (
    arith,
    eq_iff a.artifact_id b.artifact_id,
    eq_iff a.artifact_digest b.artifact_digest,
    eq_iff a.manifest_digest b.manifest_digest,
  )),
)

module _ (frozen candidate : ArtifactIdentityRecord) where
  -- Every finding of the loop blocks, so the list blocks unless it is empty.
  blocking-disagreements :
      (fields : List ComparedField)
      → has_blocking_finding (disagreements frozen candidate fields)
        ≡ any (differs frozen candidate) fields
  unfolding disagreements has_blocking_finding mutated_after_freeze blocks
  blocking-disagreements [] = refl
  blocking-disagreements (f ∷ fs) = ground (arith, blocking-disagreements fs)

-- A frozen artifact raises a blocking finding exactly when a candidate is another record; with
-- nothing frozen there is no finding.
pub agreement_iff :
    (frozen candidate : ArtifactIdentityRecord)
    → (has_blocking_finding (check_artifact_identity_agreement (some frozen) candidate) ≡ false)
      ↔ (frozen ≡ candidate)
unfolding check_artifact_identity_agreement
agreement_iff frozen candidate =
    rw (blocking-disagreements frozen candidate compared_fields) (differs-none_iff frozen candidate)

disagreements-nil :
    (frozen candidate : ArtifactIdentityRecord) (fields : List ComparedField)
    → (disagreements frozen candidate fields ≡ []) ↔ (any (differs frozen candidate) fields ≡ false)
unfolding disagreements
disagreements-nil a b [] = (λ _. refl, λ _. refl)
disagreements-nil a b (f ∷ fs) =
    let ih = disagreements-nil a b fs in (λ h. ground (arith, ih), λ h. ground (arith, ih))

throw_any-ok : (message : _) (fs : List Finding) → (throw_any message fs ≡ ok tt) ↔ (fs ≡ [])
unfolding throw_any
throw_any-ok message [] = (λ _. refl, λ _. refl)
throw_any-ok message (f ∷ fs) = (λ h. cc, λ h. cc)

-- `assertArtifactIdentityAgreement` returns exactly when nothing is frozen or the candidate is the
-- frozen record, field by field; otherwise it throws the findings of the check.
pub assert-ok_iff :
    (frozen : Option ArtifactIdentityRecord) (candidate : ArtifactIdentityRecord)
    → (assert_artifact_identity_agreement frozen candidate ≡ ok tt)
      ↔ ((frozen ≡ none) ⊎ (frozen ≡ some candidate))
unfolding assert_artifact_identity_agreement check_artifact_identity_agreement
assert-ok_iff none candidate = (λ _. inl refl, λ _. unfold throw_any in refl)
assert-ok_iff (some frozen) candidate =
    let thrown = throw_any-ok _ (disagreements frozen candidate compared_fields) in
    let silent = disagreements-nil frozen candidate compared_fields in
    let same = differs-none_iff frozen candidate in
    (
      (λ h. inr (ap some (same.0 (silent.0 (thrown.0 h))))),
      elim [ inl missing ↦ cc | inr e ↦ thrown.1 (silent.1 (same.1 (some-injective _ _ e))) ],
    )

-- The check with or without a frozen record.
pub agreement-any_iff :
    (frozen : Option ArtifactIdentityRecord) (candidate : ArtifactIdentityRecord)
    → (has_blocking_finding (check_artifact_identity_agreement frozen candidate) ≡ false)
      ↔ ((frozen ≡ none) ⊎ (frozen ≡ some candidate))
agreement-any_iff none candidate =
    ((λ _. inl refl), (λ _. unfold check_artifact_identity_agreement has_blocking_finding in refl))
agreement-any_iff (some frozen) candidate =
    let agree = agreement_iff frozen candidate in
    (
      (λ h. inr (ap some (agree.0 h))),
      elim [ inl missing ↦ cc | inr e ↦ agree.1 (some-injective _ _ e) ],
    )
