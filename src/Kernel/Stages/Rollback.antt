-- ===== src/Kernel/Stages/Rollback.antt =====
-- When a rollback proceeds.
use publish.Prelude.{
  false, Option, none, some, ◌≡◌, ◌↔◌, refl, iff_trans, ◌==◌, eq_iff, Bool-cases, inl, inr, ap,
}
use publish.Finding.{has_blocking_finding}
use publish.Kernel.ArtifactIdentity.{ArtifactIdentityRecord}
use publish.Kernel.ArtifactIdentity.Agreement.{agreement_iff}
use publish.Kernel.DestinationAuthority.Agreement.{ownership_iff}
use publish.Kernel.Retention.{CertifiedDigestRecord}
use publish.Kernel.Stages.{proceed, RollbackInput, rebuilt_findings, evaluate_rollback}
use publish.Kernel.Stages.Verdicts.{proceed_iff, proceed-append}

-- Where both are given, the rebuilt artifact has the digest of the retained record.
abbrev pub RebuiltAgrees : Option CertifiedDigestRecord → Option ArtifactIdentityRecord → Type 0
RebuiltAgrees none rebuilt = Unit
RebuiltAgrees (some retained) none = Unit
RebuiltAgrees (some retained) (some rebuilt) = retained.artifact_digest ≡ rebuilt.artifact_digest

unblocked-rebuilt :
    (retained : Option CertifiedDigestRecord) (rebuilt : Option ArtifactIdentityRecord)
    → (has_blocking_finding (rebuilt_findings retained rebuilt) ≡ false)
      ↔ RebuiltAgrees retained rebuilt
unfolding rebuilt_findings
unblocked-rebuilt none rebuilt = ((λ _. tt), (λ _. unfold has_blocking_finding in refl))
unblocked-rebuilt (some retained) none = ((λ _. tt), (λ _. unfold has_blocking_finding in refl))
unblocked-rebuilt (some retained) (some rebuilt) =
    elim (Bool-cases (retained.artifact_digest == rebuilt.artifact_digest)) [
      | inl same ↦ rw same ((λ _. (eq_iff _ _).0 same), (λ _. unfold has_blocking_finding in refl))
      | inr other ↦
          let agree =
            agreement_iff (record rebuilt { artifact_digest = retained.artifact_digest }) rebuilt in
          rw other (
            (λ h. ap (λ (a : ArtifactIdentityRecord). a.artifact_digest) (agree.0 h)),
            (λ e. let same = (eq_iff _ _).1 e in cc),
          )
    ]

-- A rollback proceeds exactly at the authorized destination, with no blocking finding about the
-- retained generation, and with a rebuilt artifact that has the retained digest where a retained
-- record and a rebuilt artifact are both given.
pub rollback_iff :
    (input : RollbackInput)
    → ((evaluate_rollback input).verdict ≡ proceed) ↔ (
        ((input.authorized_destination ≡ input.candidate_destination)
          × (has_blocking_finding input.retained_findings ≡ false))
        × RebuiltAgrees input.retained_record input.rebuilt_artifact)
unfolding evaluate_rollback
rollback_iff input = iff_trans (proceed_iff _) (
    proceed-append _ _
      (proceed-append _ _ (ownership_iff input.authorized_destination input.candidate_destination)
        ((λ h. h), (λ h. h)))
      (unblocked-rebuilt input.retained_record input.rebuilt_artifact))
