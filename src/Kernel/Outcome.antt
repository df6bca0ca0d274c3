-- ===== src/Kernel/Outcome.antt =====
-- packages/publish-kernel/src/ambiguous-outcome.js: duty 8.
use publish.Prelude.{Bool, not, Option, some, List, [], ◌∷◌, if◌then◌else◌}
use publish.Finding.{Finding, kernel_finding, warning, artifact_safety_error, no_extra}

pub record MutationAttemptOutcome : Type 0 where
  pub attempted : Bool
  pub provider_responded : Bool
  pub timed_out : Bool

pub data MutationDisposition : Type 0 where
  succeeded not_attempted_retryable unknown_reconciling : MutationDisposition

pub record Classified : Type 0 where
  pub disposition : MutationDisposition
  pub findings : List Finding

unfoldable pub unknown_outcome : Bool → Finding
unfolding kernel_finding
unknown_outcome timed_out =
    kernel_finding "UNKNOWN_RECONCILING" warning
      (if timed_out
        then "The mutating call timed out without a definitive provider response after possibly mutating the destination."
        else "The mutating call ended without a definitive provider response after possibly mutating the destination.")
      "Observe the destination out of band before any further mutation; never retry blindly and never report this as a failure."
      no_extra

unfoldable pub classify_mutation_outcome : MutationAttemptOutcome → Classified
unfolding unknown_outcome
classify_mutation_outcome outcome =
    if not outcome.attempted
    then record { disposition = not_attempted_retryable; findings = [] }
    else if outcome.provider_responded
    then record { disposition = succeeded; findings = [] }
    else record {
      disposition = unknown_reconciling;
      findings = unknown_outcome outcome.timed_out ∷ [];
    }

unfoldable pub retry_blocked : Finding
unfolding kernel_finding
retry_blocked =
    kernel_finding "UNKNOWN_RECONCILING_RETRY_BLOCKED" artifact_safety_error
      "A prior mutation against this destination is still unknown-reconciling; a second mutation cannot be attempted blindly."
      "Observe the destination out of band to resolve the prior attempt before issuing a new mutating call."
      no_extra

unfoldable pub check_no_blind_retry : Option MutationDisposition → List Finding
unfolding retry_blocked
check_no_blind_retry (some unknown_reconciling) = retry_blocked ∷ []
check_no_blind_retry _ = []
