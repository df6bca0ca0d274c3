-- ===== src/Kernel/Stages.antt =====
-- packages/publish-kernel/src/kernel.js: the duties of each lifecycle stage.
pub mod Verdicts
pub mod Rollback
use publish.Prelude.{
  String, Bool, true, false, not, Option, none, some, List, [], ◌∷◌, ◌++◌, Result, ok, err, ◌>>=◌,
  ◌==◌, if◌then◌else◌,
}
use publish.Json.{Value}
use publish.Finding.{Finding, has_blocking_finding}
use publish.Kernel.ArtifactIdentity.{ArtifactIdentityRecord, check_artifact_identity_agreement}
use publish.Kernel.BoundedResources.{
  ArtifactResourceTotals, ProviderResourceLimits, check_bounded_resources,
}
use publish.Kernel.BoundedResources.BigInt.{BigIntError}
use publish.Kernel.DestinationAuthority.{
  DestinationIdentity, check_destination_authority, check_destination_ownership,
}
use publish.Kernel.Containment.{ArtifactPathEntry, check_path_containment}
use publish.Kernel.Marker.{Validator, check_generation_marker}
use publish.Kernel.Fencing.{
  JournaledOperation, IdempotencyDecision, decide_idempotency, ConcurrencyFenceInput,
}
use publish.Kernel.Activation.{
  ActivationDecision, Decision, activate, reconcile, decide_staged_activation,
}
use publish.Kernel.Outcome.{
  MutationAttemptOutcome, MutationDisposition, classify_mutation_outcome, check_no_blind_retry,
}
use publish.Kernel.Retention.{CertifiedDigestRecord}
use publish.Kernel.Secrets.{find_secret_exposure}

pub data Verdict : Type 0 where
  proceed refuse : Verdict

pub record StageEvaluation : Type 0 where
  pub verdict : Verdict
  pub findings : List Finding

unfoldable pub evaluation : List Finding → StageEvaluation
evaluation findings = record {
  verdict = if has_blocking_finding findings then refuse else proceed;
  findings = findings;
}

pub record PreflightInput : Type 0 where
  pub entries : List ArtifactPathEntry
  pub totals : ArtifactResourceTotals
  pub limits : ProviderResourceLimits
  pub authorized_destination : DestinationIdentity
  pub candidate_destination : DestinationIdentity
  pub intent : Value

-- The two string functions are those of the path check.
unfoldable pub evaluate_preflight :
    (to_lower_case normalize_nfc : String → String)
    → PreflightInput
    → Result BigIntError StageEvaluation
evaluate_preflight to_lower_case normalize_nfc input = do
  resources ← check_bounded_resources input.totals input.limits
  ok (
      evaluation (
        check_path_containment to_lower_case normalize_nfc input.entries
        ++ (resources
            ++ (check_destination_ownership input.authorized_destination input.candidate_destination
                ++ find_secret_exposure input.intent))))

pub record StageInput : Type 0 where
  pub frozen_artifact : Option ArtifactIdentityRecord
  pub candidate_artifact : ArtifactIdentityRecord
  pub preflight_destination : DestinationIdentity
  pub current_destination : DestinationIdentity
  pub journal : List JournaledOperation
  pub candidate_operation : JournaledOperation

unfoldable pub evaluate_stage : StageInput → StageEvaluation × IdempotencyDecision
evaluate_stage input =
    let idempotency = decide_idempotency input.journal input.candidate_operation in
    (
      evaluation (
          check_artifact_identity_agreement input.frozen_artifact input.candidate_artifact
          ++ (check_destination_authority input.preflight_destination input.current_destination
              ++ idempotency.findings)),
      idempotency,
    )

pub record ActivateInput : Type 0 where
  pub preflight_destination : DestinationIdentity
  pub current_destination : DestinationIdentity
  pub fence : ConcurrencyFenceInput
  pub marker : Value

-- The marker is checked only where the candidate may activate.
unfoldable pub marker_findings : Decision → List Finding → List Finding
marker_findings activate checked = checked
marker_findings reconcile checked = []

unfoldable pub evaluate_activate : Validator → ActivateInput → StageEvaluation × ActivationDecision
unfolding marker_findings
evaluate_activate validate input =
    let activation = decide_staged_activation input.fence in
    (
      evaluation (
          check_destination_authority input.preflight_destination input.current_destination
          ++ (marker_findings activation.decision (check_generation_marker validate input.marker)
              ++ activation.findings)),
      activation,
    )

pub record ObserveInput : Type 0 where
  pub outcome : MutationAttemptOutcome
  pub observation : Value

unfoldable pub evaluate_observe : ObserveInput → StageEvaluation × MutationDisposition
evaluate_observe input =
    let classified = classify_mutation_outcome input.outcome in
    (
      evaluation (classified.findings ++ find_secret_exposure input.observation),
      classified.disposition,
    )

pub record CleanupInput : Type 0 where
  pub authorized_destination : DestinationIdentity
  pub candidate_destination : DestinationIdentity
  pub prior_disposition : Option MutationDisposition

unfoldable pub evaluate_cleanup_staged : CleanupInput → StageEvaluation
evaluate_cleanup_staged input = evaluation (
    check_destination_ownership input.authorized_destination input.candidate_destination
    ++ check_no_blind_retry input.prior_disposition)

pub record RollbackInput : Type 0 where
  pub authorized_destination : DestinationIdentity
  pub candidate_destination : DestinationIdentity
  pub retained_findings : List Finding
  pub retained_record : Option CertifiedDigestRecord
  pub rebuilt_artifact : Option ArtifactIdentityRecord

-- The findings that are pushed where both are present and their digests differ.
unfoldable pub rebuilt_findings :
    Option CertifiedDigestRecord → Option ArtifactIdentityRecord → List Finding
rebuilt_findings none rebuilt = []
rebuilt_findings (some retained) none = []
rebuilt_findings (some retained) (some rebuilt) =
    if not (retained.artifact_digest == rebuilt.artifact_digest)
    then check_artifact_identity_agreement
        (some (record rebuilt { artifact_digest = retained.artifact_digest })) rebuilt
    else []

unfoldable pub evaluate_rollback : RollbackInput → StageEvaluation
unfolding rebuilt_findings
evaluate_rollback input = evaluation (
    (check_destination_ownership input.authorized_destination input.candidate_destination
      ++ input.retained_findings)
    ++ rebuilt_findings input.retained_record input.rebuilt_artifact)
