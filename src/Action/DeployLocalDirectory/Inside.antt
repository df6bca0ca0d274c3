-- ===== src/Action/DeployLocalDirectory/Inside.antt =====
-- What the kernel's preflight and the syntax of a digest make sure of: the files of a deployment
-- are written below their stage.
use Prim.Native.String.append
use Prim.Native.String.{◌++◌}
use publish.Prelude.{
  ℕ, zero, suc, String, true, false, not, ◌||◌, List, [], ◌∷◌, ◌++◌ as append, all, ◌≡◌, refl, sym,
  ap, ◌∙◌, subst, arith, ◌==◌, eq_iff, All, Result, ok, err, ◌>>=◌,
}
use publish.Finding.{Finding, has_blocking_finding, unblocked-append}
use publish.Protocol.ArtifactDigest.{StagedFile}
use publish.Kernel.BoundedResources.{check_bounded_resources}
use publish.Kernel.BoundedResources.BigInt.{BigIntError}
use publish.Kernel.Containment.{includes, segments_of}
use publish.Kernel.Containment.Safe.{IsSafeSegment}
use publish.Kernel.Containment.Collisions.{IsSafeEntry, containment_iff}
use publish.Kernel.Stages.{PreflightInput, StageEvaluation, evaluation, evaluate_preflight}
use publish.LocalDirectory.Disk.{
  stage_name, stage_prefix, is_stage_name, target_of, place_of, is_normal,
}
use publish.LocalDirectory.Disk.Entries.{stage_name-is_stage_name}
use publish.Protocol.Loader.{starts_with}
use publish.LocalDirectory.Stage.{slice_text}
use publish.LocalDirectory.Stage.Kept.{AreInside}
use publish.LocalDirectory.Safety.{IsSegment}
use publish.LocalDirectory.Safety.Changes.{apart-stage}
use publish.Action.DeployLocalDirectory.{path_entries}

includes-append :
    (n : ℕ) (s t : String)
    → includes n s ≡ false
    → includes n t ≡ false
    → includes n (s ++ t) ≡ false
unfolding includes
includes-append n String.[] t h k = ap (includes n) (append.nil t) ∙ k
includes-append n (String.◌∷◌ c s) t h k =
    let rest = includes-append n s t (ground (arith, h)) k in
    ap (includes n) (append.cons c s t) ∙ ground (arith, h, rest)

includes-slice_text :
    (n k : ℕ) (s : String) → includes n s ≡ false → includes n (slice_text k s) ≡ false
unfolding includes slice_text
includes-slice_text n zero s h = refl
includes-slice_text n (suc k) String.[] h = refl
includes-slice_text n (suc k) (String.◌∷◌ c s) h =
    let rest = includes-slice_text n k s (ground (arith, h)) in ground (arith, h, rest)

prefix_flat : includes 47 stage_prefix ≡ false
unfolding includes
prefix_flat = refl

pub stage-flat :
    (k : ℕ) (digest : String)
    → includes 47 digest ≡ false
    → includes 47 (stage_name (slice_text k digest)) ≡ false
unfolding stage_name
stage-flat k digest flat =
    includes-append 47 stage_prefix _ prefix_flat (includes-slice_text 47 k digest flat)

empty_unstaged : is_stage_name "" ≡ false
unfolding is_stage_name starts_with
empty_unstaged = refl

dot_unstaged : is_stage_name "." ≡ false
unfolding is_stage_name starts_with
dot_unstaged = refl

dots_unstaged : is_stage_name ".." ≡ false
unfolding is_stage_name starts_with
dots_unstaged = refl

-- The name of a stage without a slash is one segment.
pub stage-IsSegment :
    (token : String) → includes 47 (stage_name token) ≡ false → IsSegment (stage_name token)
unfolding target_of
stage-IsSegment token flat =
    let staged = stage_name-is_stage_name token in
    (
      rw (apart-stage (stage_name token) "" staged empty_unstaged) (
          rw (apart-stage (stage_name token) "." staged dot_unstaged)
            (rw (apart-stage (stage_name token) ".." staged dots_unstaged) (rw flat refl))),
      flat,
    )

module _ (to_lower_case normalize_nfc : String → String) where
  normal_segments :
      (segments : List String)
      → All (IsSafeSegment to_lower_case normalize_nfc) segments
      → all (λ s. not (s == "" || s == "." || s == "..")) segments ≡ true
  normal_segments [] h = refl
  normal_segments (s ∷ ss) h =
      let rest = normal_segments ss h.1 in
      let a = h.0.not_empty in
      let b = h.0.not_dot in
      let c = h.0.not_dots in
      ground (arith, rest, eq_iff s "", eq_iff s ".", eq_iff s "..", a, b, c)

  pub safe-AreInside :
      (name : String) (files : List StagedFile)
      → includes 47 name ≡ false
      → All (IsSafeEntry to_lower_case normalize_nfc) (path_entries files)
      → AreInside name files
  unfolding path_entries place_of is_normal
  safe-AreInside name [] flat h = tt
  safe-AreInside name (f ∷ fs) flat h =
      let normal = normal_segments (segments_of f.path) h.0.path.segments in
      (rw flat (rw normal refl), safe-AreInside name fs flat h.1)

  after_resources :
      (first rest : List Finding) (resources : Result BigIntError (List Finding))
      (e : StageEvaluation)
      → (resources >>= λ r. ok (evaluation (append first (append r rest)))) ≡ ok e
      → has_blocking_finding e.findings ≡ false
      → has_blocking_finding first ≡ false
  unfolding evaluation
  after_resources first rest (ok r) e h free =
      let same : evaluation (append first (append r rest)) ≡ e = ground (arith, h) in
      ((unblocked-append first (append r rest)).0
        (subst (λ x. has_blocking_finding x.findings ≡ false) (sym same) free)).0
  after_resources first rest (err x) e h free = absurd (ground (arith, h))

  -- A preflight without a blocking finding has only regular files under safe paths.
  pub preflight-safe :
      (input : PreflightInput) (e : StageEvaluation)
      → evaluate_preflight to_lower_case normalize_nfc input ≡ ok e
      → has_blocking_finding e.findings ≡ false
      → All (IsSafeEntry to_lower_case normalize_nfc) input.entries
  unfolding evaluate_preflight
  preflight-safe input e h free =
      ((containment_iff to_lower_case normalize_nfc input.entries).0
        (after_resources _ _ (check_bounded_resources input.totals input.limits) e h free)).0
