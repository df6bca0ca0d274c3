-- ===== src/LocalDirectory/Stage.antt =====
-- packages/adapter-local-directory/src/index.js: `stage` and `cleanupStaged`.
pub mod Kept
pub mod Served
pub mod Complete
use Prim.Native.String
use Prim.Native.String.{◌++◌}
use publish.Prelude.{
  ℕ, zero, suc, ◌+◌, String, Bool, true, false, not, ◌||◌, Option, none, some, List, [], ◌∷◌, any,
  find, length, ◌==◌, if◌then◌else◌,
}
use publish.Json.{Value, obj, field, str, end}
use publish.Json.Print.{decimal, quoted, shown}
use publish.Protocol.ArtifactDigest.{StagedFile}
use publish.Protocol.Digest.{canonicalize_json}
use publish.Kernel.Containment.{segments_of}
use publish.Kernel.Marker.{
  MarkerFields, build_generation_marker, public_generation_marker_schema_id, Validation, Diagnostic,
}
use publish.Kernel.Retention.{CertifiedDigestRecord}
use publish.LocalDirectory.FsSafety.{absolute}
use publish.LocalDirectory.Disk.{
  Directory, Disk, JournalEntry, document, directory_named, with_directory, or_empty, write_file,
  stage_name, releases_dir, generation_marker_filename, read_current_generation_id, target_of,
  target_exists, Place, inside, outside, place_of,
}
use publish.Protocol.Frame.{Bytes}
use publish.LocalDirectory.Monad.{not_held, M, pure, throw, thrown, gets, change, ◌>>=◌, ◌>>◌}
use publish.LocalDirectory.History.{read_journal, append_journal, read_history}
use publish.LocalDirectory.Environment.{
  Environment, prepare_root, refuse_symlinks, remove_contained_tree,
}

pub record StageInput : Type 0 where
  pub operation_id : String
  pub attempt_id : String
  pub idempotency_key : String
  pub generation_id : String
  pub artifact_id : String
  pub artifact_digest : String
  pub files : List StagedFile

pub record StageResult : Type 0 where
  pub stage_token : String
  pub staged_path : String
  pub file_count : ℕ
  pub byte_count : String
  pub idempotent : Bool

-- `text.slice(0, n)` of a text of code units, which hexadecimal digits are.
unfoldable pub slice_text : ℕ → String → String
slice_text zero text = String.[]
slice_text (suc n) String.[] = String.[]
slice_text (suc n) (String.◌∷◌ c text) = String.◌∷◌ c (slice_text n text)

unfoldable pub identity_text : String → String → String → String
identity_text operation_id attempt_id generation_id = shown (
    obj (
      field "operationId" (str operation_id)
        (field "attemptId" (str attempt_id) (field "generationId" (str generation_id) end))))

unfoldable pub sum_bytes : List StagedFile → ℕ
sum_bytes [] = 0
sum_bytes (f ∷ fs) = length f.bytes + sum_bytes fs

unfoldable pub total_bytes : List StagedFile → String
total_bytes files = decimal (sum_bytes files)

unfoldable pub reuse_conflict_message : String → String
reuse_conflict_message key =
    "IDEMPOTENCY_KEY_REUSE_CONFLICT: idempotency key "
    ++ (quoted key ++ " was already used for a different artifact digest")

unfoldable pub marker_invalid_message : String → String
marker_invalid_message diagnostics = "Generation marker failed schema validation: " ++ diagnostics

-- A file, or a marker, is written into the directory `name`.
unfoldable pub write_into : String → (Directory → Directory) → Disk → Disk
write_into name f disk = record disk {
  releases = with_directory name (f (or_empty (directory_named name disk.releases))) disk.releases;
}

unfoldable pub write_marker : Value → Directory → Directory
write_marker marker d = record d { marker = some (document marker) }

unfoldable pub write_at : Place → Bytes → M (Unit {0})
write_at (inside name path) bytes =
    change (write_into name (write_file (record { path = path; bytes = bytes })))
write_at outside bytes = throw not_held

-- `print_diagnostics` is `JSON.stringify` of the validator's diagnostics.
module _ (env : Environment) (print_diagnostics : List Diagnostic → String) where
  -- `stageTokenFor`: the hexadecimal digits that follow `sha256:`, of which 32 are kept. So the name
  -- of the stage is one segment, and its marker is written into it.
  unfoldable pub stage_token_for : StageInput → String
  stage_token_for input =
      slice_text 32
        (env.sha256 (identity_text input.operation_id input.attempt_id input.generation_id))

  unfoldable pub stage_result : StageInput → Bool → StageResult
  stage_result input idempotent = record {
    stage_token = stage_token_for input;
    staged_path = absolute env.root (releases_dir ∷ stage_name (stage_token_for input) ∷ []);
    file_count = length input.files;
    byte_count = total_bytes input.files;
    idempotent = idempotent;
  }

  -- The loop over the files.
  unfoldable pub write_files : String → List StagedFile → M (Unit {0})
  write_files name [] = pure tt
  write_files name (file ∷ files) = do
    refuse_symlinks env (releases_dir ∷ name ∷ segments_of file.path)
    write_at (place_of name file.path) file.bytes
    write_files name files

  unfoldable pub marker_of : StageInput → Value
  marker_of input = build_generation_marker (record {
    artifact_id = input.artifact_id;
    artifact_digest = input.artifact_digest;
    generation_id = input.generation_id;
  })

  unfoldable pub require_valid_marker : Validation → M (Unit {0})
  require_valid_marker validation =
      if validation.valid
      then pure tt
      else throw (thrown (marker_invalid_message (print_diagnostics validation.diagnostics)))

  unfoldable pub journal_entry : StageInput → JournalEntry
  journal_entry input = record {
    operation_id = input.operation_id;
    attempt_id = input.attempt_id;
    idempotency_key = input.idempotency_key;
    artifact_digest = input.artifact_digest;
    generation_id = input.generation_id;
  }

  unfoldable pub stage_new : StageInput → M StageResult
  stage_new input = do
    refuse_symlinks env (releases_dir ∷ stage_name (stage_token_for input) ∷ [])
    write_files (stage_name (stage_token_for input)) input.files
    require_valid_marker (env.validate public_generation_marker_schema_id (marker_of input))
    change (write_into (stage_name (stage_token_for input)) (write_marker (marker_of input)))
    append_journal (journal_entry input)
    pure (stage_result input false)

  -- What the journal's first entry under the key decides.
  unfoldable pub stage_after : StageInput → Option JournalEntry → M StageResult
  stage_after input none = stage_new input
  stage_after input (some prior) =
      if prior.artifact_digest == input.artifact_digest
      then pure (stage_result input true)
      else throw (thrown (reuse_conflict_message input.idempotency_key))

  unfoldable pub stage : StageInput → M StageResult
  stage input = do
    prepare_root env
    journal ← read_journal
    stage_after input (find (λ e. e.idempotency_key == input.idempotency_key) journal)

unfoldable pub is_generation_active : String → Option String → Bool
is_generation_active generation_id none = false
is_generation_active generation_id (some g) = generation_id == g

module _ (env : Environment) where
  unfoldable pub remove_if_there : Bool → String → M Bool
  remove_if_there true name = do remove_contained_tree env name; pure true
  remove_if_there false name = pure false

  -- The abandoned release, if it is neither active nor retained.
  unfoldable pub remove_abandoned :
      String → Option String → List CertifiedDigestRecord → Disk → M Bool
  remove_abandoned generation_id current history disk =
      if is_generation_active generation_id current
        || any (λ r. r.generation_id == generation_id) history
      then pure false
      else remove_if_there (target_exists (target_of generation_id) disk) generation_id

  unfoldable pub cleanup_release : Option String → M Bool
  cleanup_release none = pure false
  cleanup_release (some generation_id) = do
    disk ← gets (λ d. d)
    remove_abandoned generation_id (read_current_generation_id disk) disk.history disk

  unfoldable pub cleanup_staged : String → Option String → M Bool
  cleanup_staged stage_token generation_id = do
    prepare_root env
    disk ← gets (λ d. d)
    stage_existed ←
        remove_if_there (target_exists (target_of (stage_name stage_token)) disk)
          (stage_name stage_token)
    release_existed ← cleanup_release generation_id
    pure (stage_existed || release_existed)
