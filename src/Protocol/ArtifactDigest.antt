-- ===== src/Protocol/ArtifactDigest.antt =====
-- packages/adapter-protocol/src/digest.js: the artifact digest. `sha256_bytes` is SHA-256 of bytes,
-- in lowercase hexadecimal: `node:crypto`, a parameter.
use Prim.Native.String.{◌++◌}
use publish.Prelude.{String, Bool, List, [], ◌∷◌, length, map, if◌then◌else◌, Result}
use publish.Json.{Value, Items, str, arr, obj, nil, cons, end, field}
use publish.Json.Print.{decimal}
use publish.Protocol.Frame.{Bytes}
use publish.Protocol.Digest.{NotCanonical, text_units, before, domain_digest}

abbrev pub artifact_digest_domain : String
artifact_digest_domain = "GALA-ARTIFACT-V2 "

pub record StagedFile : Type 0 where
  pub path : String
  pub bytes : Bytes

pub record ArtifactEntry : Type 0 where
  pub path : String
  pub byte_length : String
  pub sha256 : String

unfoldable pub entry_value : ArtifactEntry → Value
entry_value e = obj (
    field "path" (str e.path)
      (field "byteLength" (str e.byte_length) (field "sha256" (str e.sha256) end)))

unfoldable pub entry_items : List ArtifactEntry → Items
entry_items [] = nil
entry_items (e ∷ es) = cons (entry_value e) (entry_items es)

-- `left.path < right.path`
unfoldable pub path_before : ArtifactEntry → ArtifactEntry → Bool
path_before a b = before (text_units a.path) (text_units b.path)

unfoldable pub place : ArtifactEntry → List ArtifactEntry → List ArtifactEntry
place e [] = e ∷ []
place e (x ∷ xs) = let rest = place e xs in if path_before x e then x ∷ rest else e ∷ x ∷ xs

-- `entries.sort(…)`, which is stable.
unfoldable pub sort_entries : List ArtifactEntry → List ArtifactEntry
sort_entries [] = []
sort_entries (e ∷ es) = place e (sort_entries es)

module _ (sha256 : String → String) (sha256_bytes : Bytes → String) where
  unfoldable pub sha256_hex : Bytes → String
  sha256_hex bytes = "sha256:" ++ sha256_bytes bytes

  unfoldable pub project_artifact_entry : StagedFile → ArtifactEntry
  unfolding sha256_hex
  project_artifact_entry file = record {
    path = file.path;
    byte_length = decimal (length file.bytes);
    sha256 = sha256_hex file.bytes;
  }

  unfoldable pub compute_artifact_digest : List StagedFile → Result NotCanonical String
  compute_artifact_digest files =
      domain_digest sha256 artifact_digest_domain
        (arr (entry_items (sort_entries (map project_artifact_entry files))))
