-- ===== src/Action/DeployLocalDirectory.antt =====
-- packages/publish-action/src/deploy-local-directory.js: the kernel's evaluations and the adapter's
-- operations, one after the other. The files are those that readManifestFileBytes reads, and the
-- identities those that generateUuidV7 gives.
pub mod Inside
pub mod Settled
pub mod Refused
pub mod Complete
use Prim.Native.String.{◌++◌}
use publish.Prelude.{
  ℕ, String, Bool, true, false, not, ltb, Option, none, some, List, [], ◌∷◌, map, length,
  if◌then◌else◌, pos,
}
use publish.Json.{Value, undefined, str, obj, field, end}
use publish.Finding.{Finding, target_constraint_error, has_blocking_finding}
use publish.Protocol.Fence.{fence_for}
use publish.Protocol.ArtifactDigest.{StagedFile, compute_artifact_digest, sha256_hex}
use publish.Kernel.BoundedResources.BigInt.{Count, whole, fraction, text}
use publish.Kernel.DestinationAuthority.{DestinationIdentity}
use publish.Kernel.Containment.{ArtifactPathEntry, file}
use publish.Kernel.Fencing.{expected_generation}
use publish.Kernel.Marker.{Diagnostic, build_generation_marker}
use publish.Kernel.Outcome.{MutationDisposition}
use publish.Kernel.Stages.{
  Verdict, proceed, refuse, StageEvaluation, evaluate_preflight, evaluate_stage, evaluate_activate,
  evaluate_observe, evaluate_cleanup_staged,
}
use publish.LocalDirectory.FsSafety.{byte_length}
use publish.LocalDirectory.Disk.{Disk}
use publish.LocalDirectory.Monad.{M, pure, when_ok, type_error, big_int_error, ◌>>=◌, ◌>>◌}
use publish.LocalDirectory.Environment.{Environment}
use publish.LocalDirectory.Stage.{StageInput, stage, total_bytes, sum_bytes, cleanup_staged}
use publish.LocalDirectory.Activate.{Decision, activate_it, reconcile_it, ActivateInput, activate}
use publish.LocalDirectory.Observe.{
  Inspection, inspect_destination, PreflightResult, preflight, Observation, observe,
}

pub record DeployInput : Type 0 where
  pub files : List StagedFile
  pub manifest_digest : String
  pub route_count : ℕ
  pub artifact_id : String
  pub generation_id : String
  pub operation_id : String
  pub attempt_id : String
  pub idempotency_key : String

pub record DeployResult : Type 0 where
  pub decision : Decision
  pub generation_id : String
  pub artifact_id : String
  pub artifact_digest : String
  pub byte_count : String
  pub route_count : ℕ
  pub findings : List Finding

unfoldable pub failed : List Finding → DeployResult
failed findings = record {
  decision = reconcile_it;
  generation_id = "";
  artifact_id = "";
  artifact_digest = "";
  byte_count = "0";
  route_count = 0;
  findings = findings;
}

unfoldable pub source_constraint_finding : String → String → Finding
source_constraint_finding code detail = record {
  code = code;
  severity = target_constraint_error;
  detail = detail;
  location = none;
  evidence = none;
  recovery = "Inspect the local-directory destination and retry.";
  overridable = false;
}

-- `Math.max` of the lengths, which is minus infinity of none.
unfoldable pub longest_of : ℕ → List StagedFile → ℕ
longest_of longest [] = longest
longest_of longest (f ∷ fs) =
    longest_of (if ltb longest (byte_length f.path) then byte_length f.path else longest) fs

unfoldable pub longest_path_bytes : List StagedFile → Count
longest_path_bytes [] = fraction
longest_path_bytes (f ∷ fs) = whole (pos (longest_of (byte_length f.path) fs))

unfoldable pub path_entries : List StagedFile → List ArtifactPathEntry
path_entries files = map (λ f. record { path = f.path; kind = file }) files

module _ (env : Environment) (print_diagnostics : List Diagnostic → String)
    (adapter_version : String) (to_lower_case : String → String) (input : DeployInput) where
  unfoldable pub destination_identity : DestinationIdentity
  destination_identity = record {
    environment = "local";
    adapter_id = "local-directory";
    adapter_version = adapter_version;
    target_digest = "sha256:" ++ env.sha256 env.root;
    base_url = "file://" ++ env.root;
  }

  unfoldable pub kernel_preflight : M StageEvaluation
  kernel_preflight = when_ok big_int_error (
      evaluate_preflight to_lower_case env.normalize_nfc (record {
        entries = path_entries input.files;
        totals = record {
          artifact_file_count = whole (pos (length input.files));
          artifact_byte_count = text (total_bytes input.files);
          longest_path_bytes = longest_path_bytes input.files;
        };
        limits = record {
          maximum_files = whole (pos 1000000);
          maximum_artifact_bytes = text "10737418240";
          maximum_path_bytes = whole (pos 4096);
        };
        authorized_destination = destination_identity;
        candidate_destination = destination_identity;
        intent = obj (field "manifestDigest" (str input.manifest_digest) end);
      }))

  unfoldable pub kernel_stage : String → StageEvaluation
  kernel_stage digest =
      (evaluate_stage (record {
        frozen_artifact = none;
        candidate_artifact = record {
          artifact_id = input.artifact_id;
          artifact_digest = digest;
          manifest_digest = input.manifest_digest;
          artifact_file_count = length input.files;
          artifact_byte_count = sum_bytes input.files;
        };
        preflight_destination = destination_identity;
        current_destination = destination_identity;
        journal = [];
        candidate_operation = record {
          operation_id = input.operation_id;
          attempt_id = input.attempt_id;
          idempotency_key = input.idempotency_key;
          artifact_digest = digest;
        };
      })).0

  unfoldable pub kernel_activate : Option String → String → StageEvaluation
  kernel_activate observed digest =
      (evaluate_activate env.validate (record {
        preflight_destination = destination_identity;
        current_destination = destination_identity;
        fence = record {
          concurrency = expected_generation;
          expected_generation_id = str (fence_for observed);
          observed_generation_id = some observed;
        };
        marker = build_generation_marker (record {
          artifact_id = input.artifact_id;
          artifact_digest = digest;
          generation_id = input.generation_id;
        });
      })).0

  -- The disposition of the outcome of a call that the destination answered.
  unfoldable pub kernel_observe : String → MutationDisposition
  kernel_observe digest =
      (evaluate_observe (record {
        outcome = record { attempted = true; provider_responded = true; timed_out = false };
        observation = obj (
            field "generationId" (str input.generation_id)
              (field "artifactDigest" (str digest) end));
      })).1

  unfoldable pub kernel_cleanup : String → StageEvaluation
  kernel_cleanup digest = evaluate_cleanup_staged (record {
    authorized_destination = destination_identity;
    candidate_destination = destination_identity;
    prior_disposition = some (kernel_observe digest);
  })

  unfoldable pub unverified_findings : Observation → List Finding
  unverified_findings observed =
      if not observed.verified
      then map (source_constraint_finding "LOCAL_DIRECTORY_OBSERVE_UNVERIFIED") observed.findings
      else []

  unfoldable pub clean_up : String → String → M (Unit {0})
  clean_up digest stage_token =
      if not (has_blocking_finding (kernel_cleanup digest).findings)
      then (cleanup_staged env stage_token none >>= λ removed. pure tt)
      else pure tt

  unfoldable pub activation_input : Option String → String → String → ActivateInput
  activation_input observed digest stage_token = record {
    stage_token = stage_token;
    generation_id = input.generation_id;
    expected_current_generation_id = str (fence_for observed);
    expected_artifact_digest = some digest;
    crash_injection = none;
  }

  -- From the activation on.
  unfoldable pub activate_staged : Option String → String → String → M DeployResult
  activate_staged before digest stage_token = do
    activation ← activate env (activation_input before digest stage_token)
    observed ←
        observe env
          (record { generation_id = activation.generation_id; expected_artifact_digest = digest })
    clean_up digest stage_token
    pure (record {
      decision = activation.decision;
      generation_id = activation.generation_id;
      artifact_id = input.artifact_id;
      artifact_digest = digest;
      byte_count = total_bytes input.files;
      route_count = input.route_count;
      findings = unverified_findings observed;
    })

  unfoldable pub stage_input : String → StageInput
  stage_input digest = record {
    operation_id = input.operation_id;
    attempt_id = input.attempt_id;
    idempotency_key = input.idempotency_key;
    generation_id = input.generation_id;
    artifact_id = input.artifact_id;
    artifact_digest = digest;
    files = input.files;
  }

  -- The staging, and the kernel's test before the activation.
  unfoldable pub stage_admitted : Option String → String → M DeployResult
  stage_admitted before digest = do
    staged ← stage env print_diagnostics (stage_input digest)
    if has_blocking_finding (kernel_activate before digest).findings
        then pure (failed (kernel_activate before digest).findings)
        else activate_staged before digest staged.stage_token

  unfoldable pub stage_candidate : Option String → M DeployResult
  stage_candidate before = do
    digest ←
        when_ok (λ _. type_error) (compute_artifact_digest env.sha256 env.sha256_bytes input.files)
    if has_blocking_finding (kernel_stage digest).findings
        then pure (failed (kernel_stage digest).findings)
        else stage_admitted before digest

  -- What the adapter's own preflight decides.
  unfoldable pub after_preflight : Option String → PreflightResult → M DeployResult
  after_preflight before checked = elim checked.verdict [
    | proceed ↦ stage_candidate before
    | refuse ↦ pure (
        failed
          (map (source_constraint_finding "LOCAL_DIRECTORY_PREFLIGHT_REFUSED") checked.findings))
  ]

  unfoldable pub preflight_admitted : Option String → M DeployResult
  preflight_admitted before = do
    checked ← preflight env (path_entries input.files) undefined
    after_preflight before checked

  unfoldable pub deploy_to_local_directory : M DeployResult
  deploy_to_local_directory = do
    before ← inspect_destination env
    evaluated ← kernel_preflight
    if has_blocking_finding evaluated.findings
        then pure (failed evaluated.findings)
        else preflight_admitted before.current_generation_id
