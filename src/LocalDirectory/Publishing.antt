-- ===== src/LocalDirectory/Publishing.antt =====
-- `stage` and `activate` one after the other, as a deployment runs them.
pub mod Observed
use publish.Prelude.{
  String, Bool, true, false, ◌&&◌, Option, none, some, List, [], ◌∷◌, ◌≡◌, refl, sym, ap, subst,
  ◌∙◌, All, ◌==◌, eq_refl, Result, ok, err, if◌then◌else◌, arith,
}
use publish.Json.{Value, obj, str, Fields, field, end, get}
use publish.Protocol.ArtifactDigest.{compute_artifact_digest}
use publish.Kernel.Marker.{
  Diagnostic, Validation, build_generation_marker, public_generation_marker_schema_id,
}
use publish.Kernel.DecisionFields.{property}
use publish.Kernel.Retention.{CertifiedDigestRecord}
use publish.LocalDirectory.Disk.{
  Disk, Directory, document, directory_named, read_current_generation_id, list_release_generations,
  maximum_prior_generations_on_disk, releases_dir, stage_name,
}
use publish.LocalDirectory.Monad.{M, Run, pure, gets, when_ok, required, ◌>>=◌, ◌>>◌, type_error}
use publish.LocalDirectory.Monad.Holds.{Holds}
use publish.LocalDirectory.Monad.Total.{
  Returns, Total, Total-fact, Total-bind, Total-pure, Total-read, Total-need, Total-known,
  Total-when_ok,
}
use publish.LocalDirectory.Environment.{
  Environment, entries_digest, walk_generation_entries, digest_of_entries,
}
use publish.LocalDirectory.Environment.Prepared.{IsPrepared, IsUnlinked, Total-prepare_root}
use publish.LocalDirectory.History.{pruned_history}
use publish.LocalDirectory.Stage.{
  StageInput, StageResult, stage, stage_result, stage_token_for, marker_of,
}
use publish.LocalDirectory.Stage.Complete.{
  IsStageable, IsUnstaged, IsStaged, finished, stage_complete,
}
use publish.LocalDirectory.Stage.Served.{IsServedAs, stage-served}
use publish.LocalDirectory.Activate.{
  ActivateInput, ActivationResult, activate, activate_it, outcome_of, digest_text, certified,
}
use publish.LocalDirectory.Activate.Complete.{IsPromotable}
use publish.LocalDirectory.Activate.Promoted.{
  IsFenced, IsPublished, IsActivated, IsSwept, activate-published,
}
use publish.LocalDirectory.Safety.{IsPlain, IsSound, IsSegment}
use publish.LocalDirectory.Safety.Staging.{stage-IsSound}

module _ (env : Environment) (print_diagnostics : List Diagnostic → String) where
  -- The activation of what was staged, which is held to the digest of the staging.
  abbrev pub activation_of : StageInput → Value → ActivateInput
  activation_of input expected = record {
    stage_token = stage_token_for env print_diagnostics input;
    generation_id = input.generation_id;
    expected_current_generation_id = expected;
    expected_artifact_digest = some input.artifact_digest;
    crash_injection = none;
  }

  -- What a deployment of a new generation asks for.
  pub record IsDeployable (input : StageInput) (expected : Value) (before : Disk) : Type 0 where
    pub stageable : IsStageable env print_diagnostics input
    pub unstaged : IsUnstaged env print_diagnostics input before
    pub sound : IsSound before
    pub plain : IsPlain input.generation_id
    pub segment : IsSegment (stage_name (stage_token_for env print_diagnostics input))
    pub missing : directory_named input.generation_id before.releases ≡ none
    pub unlinked : IsUnlinked env (releases_dir ∷ input.generation_id ∷ [])
    pub digest :
        compute_artifact_digest env.sha256 env.sha256_bytes input.files ≡ ok input.artifact_digest
    pub fenced : IsFenced env (activation_of input expected) (read_current_generation_id before)

  abbrev marker_fields : StageInput → Fields
  marker_fields input = field "schemaId" (str public_generation_marker_schema_id) (
      field "schemaVersion" (str "2.0.0") (
        field "artifactId" (str input.artifact_id) (
          field "artifactDigest" (str input.artifact_digest)
            (field "generationId" (str input.generation_id) end))))

  staged-marker :
      (input : StageInput)
      → (finished env print_diagnostics input).marker ≡ some (document (obj (marker_fields input)))
  unfolding marker_of build_generation_marker
  staged-marker input = refl

  certified-digest :
      (input : StageInput)
      → digest_text (property (obj (marker_fields input)) "artifactDigest") ≡ input.artifact_digest
  unfolding property get digest_text
  certified-digest input = refl

  pub files-digest :
      (input : StageInput)
      → compute_artifact_digest env.sha256 env.sha256_bytes input.files ≡ ok input.artifact_digest
      → entries_digest env (walk_generation_entries env (finished env print_diagnostics input))
        ≡ ok input.artifact_digest
  unfolding entries_digest walk_generation_entries compute_artifact_digest
  files-digest input e = e

  staged-IsPromotable :
      (input : StageInput) (expected : Value) (before after : Disk)
      → IsDeployable input expected before
      → IsServedAs before after
      → IsSound after
      → IsStaged env print_diagnostics input after
      → IsPromotable env
          (activation_of input expected)
          (finished env print_diagnostics input)
          (marker_fields input)
          after
  staged-IsPromotable input expected before after able same sound staged = record {
    staged = staged;
    missing = same.directories input.generation_id able.plain.1 ∙ able.missing;
    names = sound.names;
    plain = able.plain;
    segment = able.segment;
    unlinked = able.unlinked;
    marker = staged-marker input;
    digest = files-digest input able.digest;
    crash = refl;
  }

  -- What the deployment leaves.
  pub record IsDeployed (input : StageInput) (before disk : Disk) : Type 0 where
    pub there :
        directory_named input.generation_id disk.releases
        ≡ some (finished env print_diagnostics input)
    pub current : read_current_generation_id disk ≡ some input.generation_id
    pub history :
        disk.history
        ≡ pruned_history before.history
            (record {
              generation_id = input.generation_id;
              artifact_digest = input.artifact_digest;
              certified_at = env.now;
            })
            maximum_prior_generations_on_disk
    pub swept : IsSwept env disk

  -- A staging and the activation of the stage, in the same environment.
  unfoldable pub deploy : StageInput → Value → M ActivationResult
  deploy input expected = do
    staged ← stage env print_diagnostics input
    activate env (record (activation_of input expected) { stage_token = staged.stage_token })

  abbrev pub AfterStage : StageInput → Disk → StageResult → Disk → Type 0
  AfterStage input before r disk =
      (IsServedAs before disk × (IsSound disk × IsStaged env print_diagnostics input disk))
      × (r ≡ stage_result env print_diagnostics input false)

  pub Total-stage :
      (input : StageInput) (expected : Value) (before : Disk)
      → IsDeployable input expected before
      → Total (λ disk. disk ≡ before) (stage env print_diagnostics input) (AfterStage input before)
  unfolding Total Holds
  Total-stage input expected before able disk e =
      let run = stage_complete env print_diagnostics input able.stageable before able.unstaged in
      let served = stage-served env print_diagnostics input before able.stageable.within in
      let sound =
        stage-IsSound env print_diagnostics input able.stageable.within before able.sound tt in
      rw e (record {
        value = run.value;
        returned = run.returned;
        holds = ((served.1, (sound.1.0, run.holds.1)), run.holds.0);
      })

  abbrev pub Deployment : StageInput → Value → Disk → ActivationResult → Disk → Type 0
  Deployment input expected before r disk =
      (r
        ≡ outcome_of (activation_of input expected) activate_it (read_current_generation_id before)
            false)
      × IsDeployed input before disk

  served-observed :
      (before after : Disk)
      → IsServedAs before after
      → read_current_generation_id after ≡ read_current_generation_id before
  unfolding read_current_generation_id
  served-observed before after same = rw same.pointer refl

  published-IsDeployed :
      (input : StageInput) (expected : Value) (before after disk : Disk) (r : ActivationResult)
      → IsServedAs before after
      → IsActivated env
          (activation_of input expected)
          (finished env print_diagnostics input)
          (marker_fields input)
          after
          r
          disk
      → Deployment input expected before r disk
  unfolding certified digest_text property get
  published-IsDeployed input expected before after disk r same (e, p) = (
    e
        ∙ ap (λ o. outcome_of (activation_of input expected) activate_it o false)
            (served-observed before after same),
    record {
      there = p.there;
      current = p.current;
      history =
          p.history
          ∙ ap
              (λ h.
                pruned_history h
                  (record {
                    generation_id = input.generation_id;
                    artifact_digest = input.artifact_digest;
                    certified_at = env.now;
                  })
                  maximum_prior_generations_on_disk)
              same.history;
      swept = p.swept;
    },
  )

  pub Total-activate :
      (input : StageInput) (expected : Value) (before : Disk)
      → IsDeployable input expected before
      → Total
          (λ disk.
            IsServedAs before disk × (IsSound disk × IsStaged env print_diagnostics input disk))
          (activate env (activation_of input expected))
          (Deployment input expected before)
  unfolding Total
  Total-activate input expected before able after (same, (sound, staged)) =
      let fenced =
        subst (IsFenced env (activation_of input expected))
          (sym (served-observed before after same)) able.fenced in
      let run =
        activate-published env (activation_of input expected) (finished env print_diagnostics input)
          (marker_fields input) after able.stageable.prepared fenced
          (staged-IsPromotable input expected before after able same sound staged) in
      record {
        value = run.value;
        returned = run.returned;
        holds = published-IsDeployed input expected before after _ run.value same run.holds;
      }

  -- A deployment that nothing stands against returns an activation. The generation is then served
  -- with the files that were staged and the marker that names them, the history is the one that
  -- the retention gives for it, and no other release is left than those retained.
  pub deploy-deployed :
      (input : StageInput) (expected : Value) (before : Disk)
      → IsDeployable input expected before
      → Returns (Deployment input expected before) (deploy input expected before)
  unfolding deploy Total stage_result stage_token_for
  deploy-deployed input expected before able =
      let run : Total (λ disk. disk ≡ before) (deploy input expected)
          (Deployment input expected before) =
        Total-bind _ (AfterStage input before) _ _ _ (Total-stage input expected before able)
          (λ r. Total-fact _ _ _ _ (λ e. rw e (Total-activate input expected before able))) in
      run before refl
