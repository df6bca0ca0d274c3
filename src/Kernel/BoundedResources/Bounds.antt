-- ===== src/Kernel/BoundedResources/Bounds.antt =====
-- When an artifact is within its adapter's limits.
use publish.Prelude.{String, false, ◌++◌, List, [], ◌≡◌, ◌↔◌, arith, ok, ℤ, pos, ◌≤ℤ◌}
use publish.Finding.{Finding, has_blocking_finding, unblocked-append, blocks}
use publish.Kernel.BoundedResources.{
  ArtifactResourceTotals, ProviderResourceLimits, negative_total, exceeded, excess,
  push_if_exceeded, check_bounded_resources,
}
use publish.Kernel.BoundedResources.BigInt.{Count, big_int}

abbrev pub Within : ℤ → ℤ → Type 0
Within actual maximum = (pos 0 ≤ℤ actual) × (actual ≤ℤ maximum)

blocking-excess :
    (code name limit_name : String) (a m : ℤ)
    → (has_blocking_finding (excess code name a m limit_name) ≡ false) ↔ Within a m
unfolding excess has_blocking_finding negative_total exceeded blocks
blocking-excess code name limit_name a m = ground arith

-- What each value of the totals and limits reads as.
pub record Reads (t : ArtifactResourceTotals) (l : ProviderResourceLimits) : Type 0 where
  pub files : ℤ
  pub bytes : ℤ
  pub path : ℤ
  pub max_files : ℤ
  pub max_bytes : ℤ
  pub max_path : ℤ
  pub files_read : big_int t.artifact_file_count ≡ ok files
  pub bytes_read : big_int t.artifact_byte_count ≡ ok bytes
  pub path_read : big_int t.longest_path_bytes ≡ ok path
  pub max_files_read : big_int l.maximum_files ≡ ok max_files
  pub max_bytes_read : big_int l.maximum_artifact_bytes ≡ ok max_bytes
  pub max_path_read : big_int l.maximum_path_bytes ≡ ok max_path

abbrev pub AllWithin :
    {t : ArtifactResourceTotals} {l : ProviderResourceLimits} → Reads t l → Type 0
AllWithin r = Within r.files r.max_files × Within r.bytes r.max_bytes × Within r.path r.max_path

push_if_exceeded-read :
    (fs : List Finding) (code name limit_name : String) (actual maximum : Count) {a m : ℤ}
    → big_int actual ≡ ok a
    → big_int maximum ≡ ok m
    → push_if_exceeded fs code name actual maximum limit_name
      ≡ ok (fs ++ excess code name a m limit_name)
unfolding push_if_exceeded
push_if_exceeded-read fs code name limit_name actual maximum p q = rw (p, q)

-- The three lists that the calls push.
abbrev pub pushed : ℤ → ℤ → ℤ → ℤ → ℤ → ℤ → List Finding
pushed files max_files bytes max_bytes path max_path =
    (([]
        ++ excess "ARTIFACT_FILE_COUNT_EXCEEDED" "artifactFileCount" files max_files "maximumFiles")
      ++ excess "ARTIFACT_BYTE_COUNT_EXCEEDED" "artifactByteCount" bytes max_bytes
          "maximumArtifactBytes")
    ++ excess "ARTIFACT_PATH_LENGTH_EXCEEDED" "longestPathBytes" path max_path "maximumPathBytes"

module _ (t : ArtifactResourceTotals) (l : ProviderResourceLimits) (r : Reads t l) where
  abbrev pub findings : List Finding
  findings = pushed r.files r.max_files r.bytes r.max_bytes r.path r.max_path

  check-read : check_bounded_resources t l ≡ ok findings
  unfolding check_bounded_resources
  check-read = rw (
    push_if_exceeded-read [] _ _ _ _ _ r.files_read r.max_files_read,
    push_if_exceeded-read _ _ _ _ _ _ r.bytes_read r.max_bytes_read,
    push_if_exceeded-read _ _ _ _ _ _ r.path_read r.max_path_read,
  )

  blocking-findings : (has_blocking_finding findings ≡ false) ↔ AllWithin r
  blocking-findings =
      let files = blocking-excess _ _ _ r.files r.max_files in
      let bytes = blocking-excess _ _ _ r.bytes r.max_bytes in
      let path = blocking-excess _ _ _ r.path r.max_path in
      (
        (λ h.
            let (front, third) = (unblocked-append _ _).0 h in
            let (first, second) = (unblocked-append _ _).0 front in
            (files.0 first, bytes.0 second, path.0 third)),
        (λ (w : AllWithin r).
            (unblocked-append _ _).1
              ((unblocked-append _ _).1 (files.1 w.0, bytes.1 w.1), path.1 w.2)),
      )

  -- Where the six values can be read, the check returns, and it has no blocking finding exactly
  -- when each total lies between 0 and its limit, as integers of any size.
  pub bounded_iff :
      (fs : List Finding) × (check_bounded_resources t l ≡ ok fs)
      × ((has_blocking_finding fs ≡ false) ↔ AllWithin r)
  bounded_iff = (findings, check-read, blocking-findings)
