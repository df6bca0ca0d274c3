-- ===== src/LocalDirectory/Activate.antt =====
-- packages/adapter-local-directory/src/index.js: `activate`, the sweep after it, and `rollback`.
pub mod Kept
pub mod Complete
pub mod Unchanged
pub mod Guarded
pub mod Promoted
pub mod Sweep
use Prim.Native.String.{◌++◌}
use publish.Prelude.{
  ℕ, String, Bool, true, false, not, Option, none, some, List, [], ◌∷◌, any, find, map, ◌==◌,
  if◌then◌else◌, Result, ok, err,
}
use publish.Json.{Value, undefined, null, str, obj, instance_of, get}
use publish.Json.Print.{quoted, shown}
use publish.Protocol.Fence.{GenerationFence, require_generation_fence, fence_disagrees, fence_for}
use publish.Protocol.ArtifactDigest.{StagedFile, ArtifactEntry}
use publish.Kernel.Marker.{Diagnostic}
use publish.Kernel.DecisionFields.{property}
use publish.Kernel.Retention.{CertifiedDigestRecord}
use publish.LocalDirectory.Disk.{
  Directory, Disk, MarkerFile, document, raw, directory_named, with_directory, without_directory,
  Target, entry, target_of, target_exists, stage_name, releases_dir, release_path,
  read_current_generation_id, list_release_generations, maximum_prior_generations_on_disk,
  is_some_directory, entry_name,
}
use publish.LocalDirectory.Monad.{
  AdapterError, protocol_error, thrown, system_error, type_error, syntax_error, M, pure, throw,
  gets, change, when_ok, required, ◌>>=◌, ◌>>◌,
}
use publish.LocalDirectory.History.{retain_and_persist}
use publish.LocalDirectory.Environment.{
  Environment, prepare_root, refuse_symlinks, remove_contained_tree, walk_generation_entries,
  digest_of_entries,
}
use publish.LocalDirectory.Stage.{StageInput, StageResult, stage, is_generation_active}

pub data Decision : Type 0 where
  activate_it reconcile_it : Decision

pub record ActivationResult : Type 0 where
  pub decision : Decision
  pub generation_id : String
  pub previous_generation_id : Option String
  pub idempotent : Bool

-- `crash_injection` is what the hook throws; `none` where there is no hook or it returns.
pub record ActivateInput : Type 0 where
  pub stage_token : String
  pub generation_id : String
  pub expected_current_generation_id : Value
  pub expected_artifact_digest : Option String
  pub crash_injection : Option AdapterError

abbrev no_entry : AdapterError
no_entry = system_error "ENOENT"

unfoldable pub integrity_message : String → String → String
integrity_message staged expected =
    "STAGE_INTEGRITY_MISMATCH: staged bytes digest "
    ++ (staged
        ++ (" disagree with expected artifact digest "
            ++ (expected ++ "; refusing to activate a partial or tampered stage")))

unfoldable pub outcome_of : ActivateInput → Decision → Option String → Bool → ActivationResult
outcome_of input decision observed idempotent = record {
  decision = decision;
  generation_id = input.generation_id;
  previous_generation_id = observed;
  idempotent = idempotent;
}

unfoldable pub inject : Option AdapterError → M (Unit {0})
inject none = pure tt
inject (some e) = throw e

-- `fs.rename(stageDir, releaseDir)`, the release not being there.
unfoldable pub rename_directory : String → String → Directory → Disk → Disk
rename_directory from to d disk = record disk {
  releases = with_directory to d (without_directory from disk.releases);
}

unfoldable pub point_current : String → Disk → Disk
point_current generation_id disk = record disk { current = some (release_path generation_id) }

-- `marker.artifactDigest`, for a record of the history. A value that is no text is held as its JSON
-- text.
unfoldable pub digest_text : Value → String
digest_text (str s) = s
digest_text v = shown v

unfoldable pub marker_digest : Value → M String
marker_digest null = throw type_error
marker_digest undefined = throw type_error
marker_digest v = pure (digest_text (property v "artifactDigest"))

module _ (env : Environment) where
  unfoldable pub parse_marker : MarkerFile → M Value
  parse_marker (document v) = pure v
  parse_marker (raw bytes) = required syntax_error (env.parse_json bytes)

  unfoldable pub compare_stage : String → String → M (Unit {0})
  compare_stage staged expected =
      if staged == expected then pure tt else throw (thrown (integrity_message staged expected))

  -- The staged bytes are digested where a digest is expected.
  unfoldable pub check_stage_integrity : String → Option String → M (Unit {0})
  check_stage_integrity stage_directory none = pure tt
  check_stage_integrity stage_directory (some expected) = do
    found ← gets (λ disk. directory_named stage_directory disk.releases)
    d ← required no_entry found
    staged ← digest_of_entries env (walk_generation_entries env d)
    compare_stage staged expected

  unfoldable pub commit_missing : String → String → M (Unit {0})
  commit_missing stage_directory generation_id = do
    refuse_symlinks env (releases_dir ∷ generation_id ∷ [])
    found ← gets (λ disk. directory_named stage_directory disk.releases)
    d ← required no_entry found
    change (rename_directory stage_directory generation_id d)

  -- The stage becomes the release, unless the release is there.
  unfoldable pub commit_release : String → String → M (Unit {0})
  commit_release stage_directory generation_id = do
    found ← gets (λ disk. directory_named generation_id disk.releases)
    if is_some_directory found then pure tt else commit_missing stage_directory generation_id

  unfoldable pub read_marker_digest : String → M String
  read_marker_digest generation_id = do
    found ← gets (λ disk. directory_named generation_id disk.releases)
    d ← required no_entry found
    file ← required no_entry d.marker
    v ← parse_marker file
    marker_digest v

  -- The loop of `sweepRetiredGenerations`.
  unfoldable pub sweep_from : List CertifiedDigestRecord → List String → M (Unit {0})
  sweep_from retained [] = pure tt
  sweep_from retained (g ∷ gs) =
      if any (λ r. r.generation_id == g) retained
      then sweep_from retained gs
      else (remove_contained_tree env g >> sweep_from retained gs)

  unfoldable pub sweep_retired_generations : List CertifiedDigestRecord → M (Unit {0})
  sweep_retired_generations retained = do
    on_disk ← gets list_release_generations
    sweep_from retained on_disk

  unfoldable pub certified : ActivateInput → String → CertifiedDigestRecord
  certified input digest = record {
    generation_id = input.generation_id;
    artifact_digest = digest;
    certified_at = env.now;
  }

  -- What follows the swap of the pointer.
  unfoldable pub certify_current : ActivateInput → M (Unit {0})
  certify_current input = do
    digest ← read_marker_digest input.generation_id
    retained ← retain_and_persist (certified input digest) maximum_prior_generations_on_disk
    sweep_retired_generations retained

  unfoldable pub promote : ActivateInput → Option String → M ActivationResult
  promote input observed = do
    check_stage_integrity (entry_name (stage_name input.stage_token)) input.expected_artifact_digest
    commit_release (entry_name (stage_name input.stage_token)) input.generation_id
    inject input.crash_injection
    change (point_current input.generation_id)
    certify_current input
    pure (outcome_of input activate_it observed false)

  unfoldable pub decide : ActivateInput → GenerationFence → Option String → M ActivationResult
  decide input fence observed =
      if is_generation_active input.generation_id observed
      then pure (outcome_of input activate_it observed true)
      else if fence_disagrees fence observed
      then pure (outcome_of input reconcile_it observed false)
      else promote input observed

  unfoldable pub activate : ActivateInput → M ActivationResult
  activate input = do
    fence ←
        when_ok protocol_error
          (require_generation_fence input.expected_current_generation_id "local-directory")
    prepare_root env
    observed ← gets read_current_generation_id
    decide input fence observed

pub record RollbackInput : Type 0 where
  pub target_generation_id : String
  pub new_generation_id : String
  pub new_artifact_id : String
  pub operation_id : String
  pub attempt_id : String
  pub idempotency_key : String

unfoldable pub not_retained_message : String → String
not_retained_message g =
    "ROLLBACK_GENERATION_NOT_RETAINED: generation " ++ (quoted g ++ " is not retained on disk")

-- The directory that a name stands for; only an entry's files are held.
unfoldable pub target_directory : Target → Disk → Option Directory
target_directory (entry name) disk = directory_named name disk.releases
target_directory _ disk = none

-- `fs.readFile` of every entry, in the entries' order.
unfoldable pub file_at : String → List StagedFile → Option StagedFile
file_at path files = find (λ f. f.path == path) files

unfoldable pub read_files : List ArtifactEntry → List StagedFile → M (List StagedFile)
read_files [] files = pure []
read_files (e ∷ es) files = do
  file ← required no_entry (file_at e.path files)
  rest ← read_files es files
  pure (file ∷ rest)

unfoldable pub staged_copy : RollbackInput → String → List StagedFile → StageInput
staged_copy input digest files = record {
  operation_id = input.operation_id;
  attempt_id = input.attempt_id;
  idempotency_key = input.idempotency_key;
  generation_id = input.new_generation_id;
  artifact_id = input.new_artifact_id;
  artifact_digest = digest;
  files = files;
}

unfoldable pub activate_copy : RollbackInput → String → Option String → ActivateInput
activate_copy input token current = record {
  stage_token = token;
  generation_id = input.new_generation_id;
  expected_current_generation_id = str (fence_for current);
  expected_artifact_digest = none;
  crash_injection = none;
}

module _ (env : Environment) (print_diagnostics : List Diagnostic → String) where
  unfoldable pub require_target : Bool → String → M (Unit {0})
  require_target true g = pure tt
  require_target false g = throw (thrown (not_retained_message g))

  unfoldable pub rollback : RollbackInput → M ActivationResult
  rollback input = do
    prepare_root env
    disk ← gets (λ d. d)
    require_target (target_exists (target_of input.target_generation_id) disk)
        input.target_generation_id
    d ← required no_entry (target_directory (target_of input.target_generation_id) disk)
    digest ← digest_of_entries env (walk_generation_entries env d)
    files ← read_files (walk_generation_entries env d) d.files
    staged ← stage env print_diagnostics (staged_copy input digest files)
    current ← gets read_current_generation_id
    activate env (activate_copy input staged.stage_token current)
