-- ===== src/LocalDirectory/Observe.antt =====
-- packages/adapter-local-directory/src/index.js: `inspectDestination`, `preflight` and `observe`,
-- which change nothing.
pub mod Verified
use Prim.Native.String.{◌++◌}
use publish.Prelude.{
  String, Bool, true, false, not, ◌&&◌, Option, none, some, List, [], ◌∷◌, ◌++◌ as append, map,
  ◌==◌, if◌then◌else◌, Result, ok, err,
}
use publish.Json.{Value, undefined, null, str, obj, instance_of, get}
use publish.Json.Print.{quoted, shown}
use publish.Protocol.Fence.{require_generation_fence, fence_disagrees}
use publish.Kernel.Marker.{public_generation_marker_schema_id}
use publish.Kernel.DecisionFields.{property}
use publish.Kernel.Retention.{CertifiedDigestRecord}
use publish.Kernel.Stages.{Verdict, proceed, refuse}
use publish.Kernel.Containment.{ArtifactPathEntry, segments_of}
use publish.LocalDirectory.FsSafety.{FsError, assert_no_escaping_symlink}
use publish.LocalDirectory.Disk.{
  Directory, Disk, MarkerFile, document, raw, directory_named, releases_dir,
  read_current_generation_id, list_release_generations,
}
use publish.LocalDirectory.Monad.{
  AdapterError, protocol_error, system_error, M, pure, throw, gets, when_ok, required, ◌>>=◌, ◌>>◌,
}
use publish.LocalDirectory.Environment.{
  Environment, prepare_root, walk_generation_entries, digest_of_entries,
}

pub record Inspection : Type 0 where
  pub current_generation_id : Option String
  pub retained_history : List CertifiedDigestRecord
  pub release_generations_on_disk : List String

unfoldable pub inspection : Disk → Inspection
inspection disk = record {
  current_generation_id = read_current_generation_id disk;
  retained_history = disk.history;
  release_generations_on_disk = list_release_generations disk;
}

pub record PreflightResult : Type 0 where
  pub verdict : Verdict
  pub observed_generation_id : Option String
  pub findings : List String

-- `JSON.stringify` of a generation or `null`.
unfoldable pub shown_generation : Option String → String
shown_generation none = "null"
shown_generation (some g) = quoted g

unfoldable pub fence_message : Value → Option String → String
fence_message expected observed =
    "expected generation "
    ++ (shown expected ++ (" disagrees with observed generation " ++ shown_generation observed))

unfoldable pub pointer_message : Option String → String → String
pointer_message current generation_id =
    "current points at "
    ++ (shown_generation current ++ (", not the observed generation " ++ quoted generation_id))

unfoldable pub digest_message : String → String → String
digest_message observed expected =
    "observed artifact digest " ++ (observed ++ (" disagrees with expected " ++ expected))

-- `value === text` for a property of the marker.
unfoldable pub is_text : Value → String → Bool
is_text (str s) t = s == t
is_text _ t = false

unfoldable pub is_current : Option String → String → Bool
is_current none g = false
is_current (some c) g = c == g

unfoldable pub report_unless : Bool → String → List String → List String
report_unless true message rest = rest
report_unless false message rest = message ∷ rest

pub record ObserveInput : Type 0 where
  pub generation_id : String
  pub expected_artifact_digest : String

pub record Observation : Type 0 where
  pub verified : Bool
  pub observed_artifact_digest : String
  pub current_generation_id : Option String
  pub marker_valid : Bool
  pub findings : List String

unfoldable pub is_empty : List String → Bool
is_empty [] = true
is_empty (m ∷ ms) = false

module _ (env : Environment) where
  unfoldable pub inspect_destination : M Inspection
  inspect_destination = do prepare_root env; gets inspection

  unfoldable pub symlink_finding : ArtifactPathEntry → Result FsError (Unit {0}) → List String
  symlink_finding e (ok u) = []
  symlink_finding e (err x) = (e.path ++ (": " ++ x.message)) ∷ []

  unfoldable pub symlink_findings : List ArtifactPathEntry → List String
  symlink_findings [] = []
  symlink_findings (e ∷ es) =
      append
        (symlink_finding e
          (assert_no_escaping_symlink env.lstat env.root (releases_dir ∷ segments_of e.path)))
        (symlink_findings es)

  -- `undefined` is no expectation.
  unfoldable pub fence_findings : Value → Option String → M (List String)
  fence_findings undefined observed = pure []
  fence_findings expected observed = do
    fence ← when_ok protocol_error (require_generation_fence expected "local-directory")
    pure (report_unless (not (fence_disagrees fence observed)) (fence_message expected observed) [])

  unfoldable pub preflight_result : Option String → List String → PreflightResult
  preflight_result observed findings = record {
    verdict = if is_empty findings then proceed else refuse;
    observed_generation_id = observed;
    findings = findings;
  }

  unfoldable pub preflight : List ArtifactPathEntry → Value → M PreflightResult
  preflight entries expected = do
    prepare_root env
    observed ← gets read_current_generation_id
    fenced ← fence_findings expected observed
    pure (preflight_result observed (append (symlink_findings entries) fenced))

  -- The marker's text as a value; `none` where it cannot be read.
  unfoldable pub marker_value : Option MarkerFile → Option Value
  marker_value none = none
  marker_value (some (document v)) = some v
  marker_value (some (raw bytes)) = env.parse_json bytes

  -- A marker of `null` that the schema refuses is not looked into.
  unfoldable pub is_marker_valid : ObserveInput → Value → Bool
  is_marker_valid input v =
      (env.validate public_generation_marker_schema_id v).valid
      && is_text (property v "generationId") input.generation_id
      && is_text (property v "artifactDigest") input.expected_artifact_digest

  unfoldable pub marker_report : ObserveInput → Option Value → Bool × List String
  marker_report input none = (false, "generation marker could not be read" ∷ [])
  marker_report input (some v) = (
    is_marker_valid input v,
    report_unless (is_marker_valid input v)
        "generation marker is missing, invalid or disagrees with the expected identity" [],
  )

  unfoldable pub observation_of : ObserveInput → Option String → String → Option Value → Observation
  observation_of input current digest marker =
      let (valid, marker_findings) = marker_report input marker in
      let findings =
        report_unless (is_current current input.generation_id)
          (pointer_message current input.generation_id)
          (report_unless (digest == input.expected_artifact_digest)
            (digest_message digest input.expected_artifact_digest) marker_findings) in
      record {
        verified = is_empty findings;
        observed_artifact_digest = digest;
        current_generation_id = current;
        marker_valid = valid;
        findings = findings;
      }

  unfoldable pub observe : ObserveInput → M Observation
  observe input = do
    prepare_root env
    disk ← gets (λ d. d)
    d ← required (system_error "ENOENT") (directory_named input.generation_id disk.releases)
    digest ← digest_of_entries env (walk_generation_entries env d)
    pure (observation_of input (read_current_generation_id disk) digest (marker_value d.marker))
