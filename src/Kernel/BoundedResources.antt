-- ===== src/Kernel/BoundedResources.antt =====
-- packages/publish-kernel/src/bounded-resources.js: duty 3, an artifact's totals against the
-- limits that its adapter declares.
pub mod BigInt
pub mod Bounds
use Prim.Native.String.{◌++◌}
use publish.Prelude.{
  ℕ, suc, ◌+◌, String, Bool, Option, none, some, List, [], ◌∷◌, ◌++◌ as append, Result, ok, err,
  ◌>>=◌, if◌then◌else◌, ℤ, pos, negsuc, ltb_ℤ,
}
use publish.Json.{Value, str, field, end}
use publish.Json.Print.{decimal}
use publish.Finding.{
  Finding, kernel_finding, artifact_safety_error, target_constraint_error, at_location,
  at_location_with,
}
use BigInt.{Count, BigIntError, big_int}

pub record ArtifactResourceTotals : Type 0 where
  pub artifact_file_count : Count
  pub artifact_byte_count : Count
  pub longest_path_bytes : Count

pub record ProviderResourceLimits : Type 0 where
  pub maximum_files : Count
  pub maximum_artifact_bytes : Count
  pub maximum_path_bytes : Count

-- `String(n)` of a bigint.
unfoldable pub integer_text : ℤ → String
integer_text (pos n) = decimal n
integer_text (negsuc n) = "-" ++ decimal (suc n)

unfoldable pub negative_total : String → ℤ → Finding
unfolding kernel_finding
negative_total name actual =
    kernel_finding "ARTIFACT_RESOURCE_TOTAL_NEGATIVE" artifact_safety_error
      ("Field \""
        ++ (name
            ++ ("\" is negative ("
                ++ (integer_text actual ++ "); a counted total can never be negative."))))
      "Recompute the artifact totals; a negative count indicates a corrupted manifest."
      (at_location ("/" ++ name))

unfoldable pub exceeded : String → String → ℤ → ℤ → String → Finding
unfolding kernel_finding
exceeded code name actual maximum limit_name =
    kernel_finding code target_constraint_error
      ("Field \""
        ++ (name
            ++ ("\" ("
                ++ (integer_text actual
                    ++ (") exceeds the negotiated adapter's \""
                        ++ (limit_name ++ ("\" bound (" ++ (integer_text maximum ++ ")."))))))))
      "Reduce the artifact below the negotiated provider limit, or select a destination with a higher bound."
      (at_location_with ("/" ++ name) (
        field "actual" (str (integer_text actual))
          (field "maximum" (str (integer_text maximum)) end)))

-- What `pushIfExceeded` pushes once both values are read.
unfoldable pub excess : String → String → ℤ → ℤ → String → List Finding
excess code name actual maximum limit_name =
    if ltb_ℤ actual (pos 0)
    then negative_total name actual ∷ []
    else if ltb_ℤ maximum actual
    then exceeded code name actual maximum limit_name ∷ []
    else []

-- `pushIfExceeded`: the accumulator with what the comparison adds, or the error of `BigInt`.
unfoldable pub push_if_exceeded :
    List Finding → String → String → Count → Count → String → Result BigIntError (List Finding)
unfolding excess
push_if_exceeded findings code name actual maximum limit_name = do
  actual_big ← big_int actual
  maximum_big ← big_int maximum
  ok (append findings (excess code name actual_big maximum_big limit_name))

unfoldable pub check_bounded_resources :
    ArtifactResourceTotals → ProviderResourceLimits → Result BigIntError (List Finding)
check_bounded_resources totals limits = do
  files ←
      push_if_exceeded [] "ARTIFACT_FILE_COUNT_EXCEEDED" "artifactFileCount"
        totals.artifact_file_count limits.maximum_files "maximumFiles"
  bytes ←
      push_if_exceeded files "ARTIFACT_BYTE_COUNT_EXCEEDED" "artifactByteCount"
        totals.artifact_byte_count limits.maximum_artifact_bytes "maximumArtifactBytes"
  push_if_exceeded bytes "ARTIFACT_PATH_LENGTH_EXCEEDED" "longestPathBytes"
      totals.longest_path_bytes limits.maximum_path_bytes "maximumPathBytes"
