-- ===== src/Kernel/ArtifactIdentity.antt =====
-- packages/publish-kernel/src/artifact-identity.js: duty 1, the frozen artifact against the
-- candidate.
pub mod Agreement
use Prim.Native.String.{◌++◌}
use publish.Prelude.{
  ℕ, String, Bool, true, false, not, Option, none, some, List, [], ◌∷◌, Result, ok, err, eqb, ◌==◌,
  if◌then◌else◌,
}
use publish.Json.{str, singleton}
use publish.Json.Print.{decimal, quoted}
use publish.Finding.{Finding, KernelError, kernel_finding, artifact_safety_error, at_location_with}

pub record ArtifactIdentityRecord : Type 0 where
  pub artifact_id : String
  pub artifact_digest : String
  pub manifest_digest : String
  pub artifact_file_count : ℕ
  pub artifact_byte_count : ℕ

pub data ComparedField : Type 0 where
  artifact_id artifact_digest manifest_digest artifact_file_count artifact_byte_count :
      ComparedField

-- `COMPARED_FIELDS`, in its order.
abbrev pub compared_fields : List ComparedField
compared_fields =
    artifact_id ∷ artifact_digest ∷ manifest_digest ∷ artifact_file_count ∷ artifact_byte_count ∷ []

-- The property's name.
unfoldable pub field_name : ComparedField → String
field_name artifact_id = "artifactId"
field_name artifact_digest = "artifactDigest"
field_name manifest_digest = "manifestDigest"
field_name artifact_file_count = "artifactFileCount"
field_name artifact_byte_count = "artifactByteCount"

-- `frozen[field] !== candidate[field]`
unfoldable pub differs : ArtifactIdentityRecord → ArtifactIdentityRecord → ComparedField → Bool
differs a b artifact_id = not (a.artifact_id == b.artifact_id)
differs a b artifact_digest = not (a.artifact_digest == b.artifact_digest)
differs a b manifest_digest = not (a.manifest_digest == b.manifest_digest)
differs a b artifact_file_count = not (eqb a.artifact_file_count b.artifact_file_count)
differs a b artifact_byte_count = not (eqb a.artifact_byte_count b.artifact_byte_count)

-- `JSON.stringify(record[field])`
unfoldable pub field_text : ArtifactIdentityRecord → ComparedField → String
field_text a artifact_id = quoted a.artifact_id
field_text a artifact_digest = quoted a.artifact_digest
field_text a manifest_digest = quoted a.manifest_digest
field_text a artifact_file_count = decimal a.artifact_file_count
field_text a artifact_byte_count = decimal a.artifact_byte_count

unfoldable pub mutated_detail :
    ArtifactIdentityRecord → ArtifactIdentityRecord → ComparedField → String
mutated_detail frozen candidate field =
    "Field \""
    ++ (field_name field
        ++ ("\" disagrees between the frozen artifact ("
            ++ (field_text frozen field
                ++ (") and the candidate (" ++ (field_text candidate field ++ ").")))))

unfoldable pub mutated_after_freeze :
    ArtifactIdentityRecord → ArtifactIdentityRecord → ComparedField → Finding
unfolding kernel_finding
mutated_after_freeze frozen candidate field =
    kernel_finding "ARTIFACT_MUTATED_AFTER_FREEZE" artifact_safety_error
      (mutated_detail frozen candidate field)
      "Freeze a new artifact and issue a new operation; the kernel never republishes bytes that changed after freeze."
      (at_location_with ("/" ++ field_name field) (singleton "field" (str (field_name field))))

-- The loop over the compared fields.
unfoldable pub disagreements :
    ArtifactIdentityRecord → ArtifactIdentityRecord → List ComparedField → List Finding
disagreements frozen candidate [] = []
disagreements frozen candidate (field ∷ fields) =
    let rest = disagreements frozen candidate fields in
    if differs frozen candidate field
    then mutated_after_freeze frozen candidate field ∷ rest
    else rest

unfoldable pub check_artifact_identity_agreement :
    Option ArtifactIdentityRecord → ArtifactIdentityRecord → List Finding
check_artifact_identity_agreement none candidate = []
check_artifact_identity_agreement (some frozen) candidate =
    disagreements frozen candidate compared_fields

-- `findings.length > 0`
unfoldable pub throw_any : String → List Finding → Result KernelError (Unit {0})
throw_any message [] = ok tt
throw_any message (f ∷ fs) = err (record { message = message; findings = f ∷ fs })

unfoldable pub assert_artifact_identity_agreement :
    Option ArtifactIdentityRecord → ArtifactIdentityRecord → Result KernelError (Unit {0})
unfolding throw_any
assert_artifact_identity_agreement frozen candidate =
    throw_any "Artifact identity disagrees with its frozen record"
      (check_artifact_identity_agreement frozen candidate)
