-- ===== src/Kernel/Activation.antt =====
-- packages/publish-kernel/src/staged-activation.js: duty 7.
pub mod Safety
use publish.Prelude.{Bool, true, false, not, List, [], ◌∷◌, ◌++◌, any, if◌then◌else◌}
use publish.Finding.{
  Finding, Severity, source_error, artifact_safety_error, target_constraint_error, warning,
  advisory, kernel_finding, no_extra,
}
use publish.Kernel.Fencing.{ConcurrencyFenceInput, check_concurrency_fence}

pub data Decision : Type 0 where
  activate reconcile : Decision

pub record ActivationDecision : Type 0 where
  pub decision : Decision
  pub findings : List Finding

-- `severity === 'TARGET_CONSTRAINT_ERROR'`
unfoldable pub is_target_constraint : Severity → Bool
is_target_constraint target_constraint_error = true
is_target_constraint _ = false

unfoldable pub superseded : Finding
unfolding kernel_finding
superseded =
    kernel_finding "STAGED_ACTIVATION_SUPERSEDED" advisory
      "Another operation changed the destination since this candidate expected its generation; this candidate reconciles instead of overwriting."
      "Re-observe the destination and either re-stage against the new current generation or abandon this candidate."
      no_extra

-- The decision on the findings of the fence.
unfoldable pub decide_on : List Finding → ActivationDecision
unfolding is_target_constraint
decide_on [] = record { decision = activate; findings = [] }
decide_on (f ∷ fs) =
    if any (λ g. not (is_target_constraint g.severity)) (f ∷ fs)
    then record { decision = reconcile; findings = f ∷ fs }
    else record { decision = reconcile; findings = (f ∷ fs) ++ superseded ∷ [] }

unfoldable pub decide_staged_activation : ConcurrencyFenceInput → ActivationDecision
decide_staged_activation fence = decide_on (check_concurrency_fence fence)
