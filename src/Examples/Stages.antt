-- ===== src/Examples/Stages.antt =====
-- The stages at concrete inputs.
use publish.Prelude.{
  none, some, List, [], ◌∷◌, true, false, pos, ◌≡◌, ◌≢◌, ◌↔◌, ◌⊎◌, refl, All, ok, arith,
}
use publish.Json.{null, str, obj, field, end}
use publish.Finding.{has_blocking_finding}
use publish.Protocol.Fence.{expect_nothing_served}
use publish.Kernel.BoundedResources.{
  check_bounded_resources, ArtifactResourceTotals, ProviderResourceLimits,
}
use publish.Kernel.BoundedResources.BigInt.{
  whole, text, big_int, text_integer, trim_end, trim_start, is_space, digits, digits_from,
}
use publish.Kernel.BoundedResources.Bounds.{Reads, AllWithin, bounded_iff}
use publish.Kernel.Fencing.{conflict, is_fenced, check_concurrency_fence}
use publish.Kernel.Fencing.Fenced.{Agrees, fence-nil_iff}
use publish.Kernel.Activation.{activate, decide_staged_activation}
use publish.Kernel.Activation.Safety.{activate_iff}
use publish.Kernel.Marker.{Explains, public_generation_marker_schema_id}
use publish.Kernel.Outcome.{unknown_reconciling}
use publish.Kernel.Secrets.Exposure.{IsClean}
use publish.Kernel.Containment.Collisions.{IsSafeEntry, Distinguished}
use publish.Kernel.Stages.{
  proceed, StageEvaluation, PreflightInput, evaluate_preflight, StageInput, evaluate_stage,
  ActivateInput, evaluate_activate, ObserveInput, evaluate_observe, CleanupInput,
  evaluate_cleanup_staged, RollbackInput, evaluate_rollback,
}
use publish.Kernel.Stages.Verdicts.{
  preflight_iff, stage_iff, activate-proceeds_iff, observe_iff, cleanup_iff,
}
use publish.Kernel.Stages.Rollback.{RebuiltAgrees, rollback_iff}
use publish.Examples.Data.{
  first_generation, artifact, destination, operation, expecting, certified, marker, admits_objects,
  entry, unchanged,
}

abbrev totals : ArtifactResourceTotals
totals = record {
  artifact_file_count = whole (pos 2);
  artifact_byte_count = text "300";
  longest_path_bytes = whole (pos 12);
}

abbrev limits : ProviderResourceLimits
limits = record {
  maximum_files = text " 0x10 ";
  maximum_artifact_bytes = text "9007199254740993";
  maximum_path_bytes = whole (pos 255);
}

abbrev read : Reads totals limits
unfolding big_int text_integer trim_end trim_start is_space digits digits_from
read = record {
  files = pos 2;
  bytes = pos 300;
  path = pos 12;
  max_files = pos 16;
  max_bytes = pos 9007199254740993;
  max_path = pos 255;
  files_read = refl;
  bytes_read = refl;
  path_read = refl;
  max_files_read = refl;
  max_bytes_read = refl;
  max_path_read = refl;
}

bounded_iff_example :
    (fs : List _) × (check_bounded_resources totals limits ≡ ok fs)
    × ((has_blocking_finding fs ≡ false) ↔ AllWithin read)
bounded_iff_example = bounded_iff totals limits read

abbrev preflight : PreflightInput
preflight = record {
  entries = entry "index.html" ∷ entry "css/site.css" ∷ [];
  totals = totals;
  limits = limits;
  authorized_destination = destination;
  candidate_destination = destination;
  intent = obj (field "title" (str "notes") end);
}

preflight_iff_example :
    (e : StageEvaluation) × (evaluate_preflight unchanged unchanged preflight ≡ ok e)
    × ((e.verdict ≡ proceed) ↔ (
        (All (IsSafeEntry unchanged unchanged) preflight.entries
          × Distinguished unchanged unchanged preflight.entries)
        × (AllWithin read × ((destination ≡ destination) × IsClean preflight.intent))))
preflight_iff_example = preflight_iff unchanged unchanged preflight read

abbrev stage : StageInput
stage = record {
  frozen_artifact = some artifact;
  candidate_artifact = artifact;
  preflight_destination = destination;
  current_destination = destination;
  journal = operation "sha256:aa" ∷ [];
  candidate_operation = operation "sha256:dd";
}

stage_iff_example : ((evaluate_stage stage).0.verdict ≡ proceed) ↔ (
    ((some artifact ≡ none) ⊎ (some artifact ≡ some artifact))
    × ((destination ≡ destination) × ((evaluate_stage stage).1.status ≢ conflict)))
stage_iff_example = stage_iff stage

abbrev activation : ActivateInput
activation = record {
  preflight_destination = destination;
  current_destination = destination;
  fence = expecting (str expect_nothing_served) (some none);
  marker = marker;
}

admits_objects-Explains : Explains admits_objects
admits_objects-Explains schema v h = ground arith

activate-proceeds_iff_example :
    ((evaluate_activate admits_objects activation).0.verdict ≡ proceed) ↔ (
      (destination ≡ destination)
      × (((admits_objects public_generation_marker_schema_id marker).valid ≡ true)
          × ((is_fenced activation.fence.concurrency ≡ false) ⊎ Agrees activation.fence)))
activate-proceeds_iff_example =
    activate-proceeds_iff admits_objects activation admits_objects-Explains

fence-nil_iff_example : (check_concurrency_fence (expecting null (some none)) ≡ []) ↔ (
    (is_fenced (expecting null (some none)).concurrency ≡ false)
    ⊎ Agrees (expecting null (some none)))
fence-nil_iff_example = fence-nil_iff (expecting null (some none))

activate_iff_example :
    ((decide_staged_activation (expecting (str first_generation) none)).decision ≡ activate) ↔ (
      (is_fenced (expecting (str first_generation) none).concurrency ≡ false)
      ⊎ Agrees (expecting (str first_generation) none))
activate_iff_example = activate_iff (expecting (str first_generation) none)

abbrev observation : ObserveInput
observation = record {
  outcome = record { attempted = true; provider_responded = false; timed_out = false };
  observation = obj (field "status" (str "served") end);
}

observe_iff_example :
    (((evaluate_observe observation).0.verdict ≡ proceed) ↔ IsClean observation.observation)
    × (((evaluate_observe observation).1 ≡ unknown_reconciling) ↔ ((true ≡ true) × (false ≡ false)))
observe_iff_example = observe_iff observation

abbrev cleanup : CleanupInput
cleanup = record {
  authorized_destination = destination;
  candidate_destination = destination;
  prior_disposition = some unknown_reconciling;
}

cleanup_iff_example :
    ((evaluate_cleanup_staged cleanup).verdict ≡ proceed)
    ↔ ((destination ≡ destination) × (some unknown_reconciling ≢ some unknown_reconciling))
cleanup_iff_example = cleanup_iff cleanup

abbrev rollback : RollbackInput
rollback = record {
  authorized_destination = destination;
  candidate_destination = destination;
  retained_findings = [];
  retained_record = some (certified first_generation "sha256:aa");
  rebuilt_artifact = some artifact;
}

rollback_iff_example : ((evaluate_rollback rollback).verdict ≡ proceed) ↔ (
    ((destination ≡ destination) × (has_blocking_finding [] ≡ false))
    × RebuiltAgrees rollback.retained_record rollback.rebuilt_artifact)
rollback_iff_example = rollback_iff rollback
