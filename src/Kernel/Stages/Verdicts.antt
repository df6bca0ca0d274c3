-- ===== src/Kernel/Stages/Verdicts.antt =====
-- When each lifecycle stage proceeds.
use publish.Prelude.{
  String, true, false, Option, none, some, List, ◌++◌, ◌≡◌, ◌≢◌, ◌↔◌, ◌⊎◌, arith, ok, iff_trans,
  iff_pair, All, ap, sym, ◌∙◌,
}
use publish.Json.{Value}
use publish.Finding.{Finding, has_blocking_finding, unblocked-append, blocks}
use publish.Kernel.ArtifactIdentity.Agreement.{agreement-any_iff}
use publish.Kernel.BoundedResources.Bounds.{Reads, AllWithin, bounded_iff}
use publish.Kernel.DestinationAuthority.{check_destination_ownership}
use publish.Kernel.DestinationAuthority.Agreement.{authority_iff, ownership_iff}
use publish.Kernel.Containment.{check_path_containment}
use publish.Kernel.Containment.Collisions.{IsSafeEntry, Distinguished, containment_iff}
use publish.Kernel.Marker.{
  Validator, Explains, public_generation_marker_schema_id, check_generation_marker, marker_iff,
}
use publish.Kernel.Fencing.{conflict, is_fenced}
use publish.Kernel.Fencing.Fenced.{Agrees}
use publish.Kernel.Fencing.Idempotency
use publish.Kernel.Activation.{Decision, activate, decide_staged_activation}
use publish.Kernel.Activation.Safety.{activate_iff, unblocked-decision}
use publish.Kernel.Outcome.{
  MutationAttemptOutcome, MutationDisposition, unknown_reconciling, classify_mutation_outcome,
  unknown_outcome, check_no_blind_retry, retry_blocked,
}
use publish.Kernel.Secrets.{find_secret_exposure}
use publish.Kernel.Secrets.Exposure.{IsClean, exposure_iff}
use publish.Kernel.Stages.{
  proceed, StageEvaluation, evaluation, PreflightInput, evaluate_preflight, StageInput,
  evaluate_stage, ActivateInput, marker_findings, evaluate_activate, ObserveInput, evaluate_observe,
  CleanupInput, evaluate_cleanup_staged,
}

pub proceed_iff :
    (fs : List Finding) → ((evaluation fs).verdict ≡ proceed) ↔ (has_blocking_finding fs ≡ false)
unfolding evaluation
proceed_iff fs = ((λ h. ground arith), (λ h. rw h))

-- A verdict on two lists, or on three.
pub proceed-append :
    {P Q : Type 0} (fs gs : List Finding)
    → (has_blocking_finding fs ≡ false) ↔ P
    → (has_blocking_finding gs ≡ false) ↔ Q
    → (has_blocking_finding (fs ++ gs) ≡ false) ↔ (P × Q)
proceed-append fs gs p q = iff_trans (unblocked-append fs gs) (iff_pair p q)

abbrev preflight_findings :
    (lower nfc : String → String) → PreflightInput → List Finding → List Finding
preflight_findings lower nfc input resources =
    check_path_containment lower nfc input.entries
    ++ (resources
        ++ (check_destination_ownership input.authorized_destination input.candidate_destination
            ++ find_secret_exposure input.intent))

-- Where the totals and the limits can be read, preflight returns a verdict, and it is to proceed
-- exactly when the paths are contained, the totals are within the limits, the destination is the
-- authorized one, and the intent exposes no credential.
pub preflight_iff :
    (lower nfc : String → String) (input : PreflightInput) (r : Reads input.totals input.limits)
    → (e : StageEvaluation) × (evaluate_preflight lower nfc input ≡ ok e)
      × ((e.verdict ≡ proceed) ↔ (
          (All (IsSafeEntry lower nfc) input.entries × Distinguished lower nfc input.entries)
          × (AllWithin r
              × ((input.authorized_destination ≡ input.candidate_destination)
                  × IsClean input.intent))))
unfolding evaluate_preflight
preflight_iff lower nfc input r =
    let (fs, read, bounded) = bounded_iff input.totals input.limits r in
    (
      evaluation (preflight_findings lower nfc input fs),
      rw read,
      iff_trans (proceed_iff _) (
          proceed-append _ _ (containment_iff lower nfc input.entries) (
            proceed-append _ _ bounded (
              proceed-append _ _
                (ownership_iff input.authorized_destination input.candidate_destination)
                (exposure_iff input.intent)))),
    )

-- Staging proceeds exactly when nothing is frozen or the candidate is the frozen artifact, the
-- destination is the one of preflight, and the idempotency decision is no conflict.
pub stage_iff :
    (input : StageInput)
    → ((evaluate_stage input).0.verdict ≡ proceed) ↔ (
        ((input.frozen_artifact ≡ none) ⊎ (input.frozen_artifact ≡ some input.candidate_artifact))
        × ((input.preflight_destination ≡ input.current_destination)
            × ((evaluate_stage input).1.status ≢ conflict)))
unfolding evaluate_stage
stage_iff input = iff_trans (proceed_iff _) (
    proceed-append _ _ (agreement-any_iff input.frozen_artifact input.candidate_artifact) (
      proceed-append _ _ (authority_iff input.preflight_destination input.current_destination)
        (Idempotency.unblocked-decision input.journal input.candidate_operation)))

activate-marker :
    (validate : Validator) (marker : Value) (d : Decision)
    → d ≡ activate
    → marker_findings d (check_generation_marker validate marker)
      ≡ check_generation_marker validate marker
unfolding marker_findings
activate-marker validate marker d h = rw h

marked-activation :
    (validate : Validator) (input : ActivateInput)
    → Explains validate
    → ((has_blocking_finding (
            marker_findings
              (decide_staged_activation input.fence).decision
              (check_generation_marker validate input.marker))
          ≡ false)
        × (has_blocking_finding (decide_staged_activation input.fence).findings ≡ false))
      ↔ (((validate public_generation_marker_schema_id input.marker).valid ≡ true)
          × ((is_fenced input.fence.concurrency ≡ false) ⊎ Agrees input.fence))
marked-activation validate input explains =
    let marker = marker_iff validate input.marker explains in
    let same =
      activate-marker validate input.marker (decide_staged_activation input.fence).decision in
    (
      (λ h.
          let going = (unblocked-decision input.fence).0 h.1 in
          (
            marker.0 (sym (ap has_blocking_finding (same going)) ∙ h.0),
            (activate_iff input.fence).0 going,
          )),
      (λ h.
          let going = (activate_iff input.fence).1 h.1 in
          (
            ap has_blocking_finding (same going) ∙ marker.1 h.0,
            (unblocked-decision input.fence).1 going,
          )),
    )

-- Where the schema validator explains its refusals, activation proceeds exactly when the
-- destination is the one of preflight, the fence admits the candidate (its class imposes none, or
-- the expectation, the observation and their agreement are all there), and the marker is valid.
pub activate-proceeds_iff :
    (validate : Validator) (input : ActivateInput)
    → Explains validate
    → ((evaluate_activate validate input).0.verdict ≡ proceed) ↔ (
        (input.preflight_destination ≡ input.current_destination)
        × (((validate public_generation_marker_schema_id input.marker).valid ≡ true)
            × ((is_fenced input.fence.concurrency ≡ false) ⊎ Agrees input.fence)))
unfolding evaluate_activate
activate-proceeds_iff validate input explains = iff_trans (proceed_iff _) (
    proceed-append _ _ (authority_iff input.preflight_destination input.current_destination)
      (iff_trans (unblocked-append _ _) (marked-activation validate input explains)))

-- The findings of an outcome are warnings.
unblocked-outcome :
    (o : MutationAttemptOutcome)
    → (has_blocking_finding (classify_mutation_outcome o).findings ≡ false) ↔ Unit {0}
unfolding classify_mutation_outcome has_blocking_finding unknown_outcome blocks
unblocked-outcome o = ((λ _. tt), (λ _. ground arith))

-- Observation proceeds exactly when the record exposes no credential, and the disposition is
-- unknown exactly for a call that was attempted and got no response, whether or not it timed out.
pub observe_iff :
    (input : ObserveInput)
    → (((evaluate_observe input).0.verdict ≡ proceed) ↔ IsClean input.observation)
      × (((evaluate_observe input).1 ≡ unknown_reconciling)
          ↔ ((input.outcome.attempted ≡ true) × (input.outcome.provider_responded ≡ false)))
unfolding evaluate_observe
observe_iff input = (
  iff_trans (proceed_iff _) (
      iff_trans
        (proceed-append _ _ (unblocked-outcome input.outcome) (exposure_iff input.observation))
        ((λ p. p.1), (λ c. (tt, c)))),
  unfold classify_mutation_outcome in ((λ h. ground arith), (λ h. ground arith)),
)

unblocked-retry :
    (d : Option MutationDisposition)
    → (has_blocking_finding (check_no_blind_retry d) ≡ false) ↔ (d ≢ some unknown_reconciling)
unfolding check_no_blind_retry has_blocking_finding retry_blocked blocks
unblocked-retry d = ((λ h q. ground arith), (λ h. ground arith))

-- Cleanup proceeds exactly at the authorized destination and with no prior mutation whose outcome
-- is still unknown.
pub cleanup_iff :
    (input : CleanupInput)
    → ((evaluate_cleanup_staged input).verdict ≡ proceed) ↔ (
        (input.authorized_destination ≡ input.candidate_destination)
        × (input.prior_disposition ≢ some unknown_reconciling))
unfolding evaluate_cleanup_staged
cleanup_iff input = iff_trans (proceed_iff _) (
    proceed-append _ _ (ownership_iff input.authorized_destination input.candidate_destination)
      (unblocked-retry input.prior_disposition))
