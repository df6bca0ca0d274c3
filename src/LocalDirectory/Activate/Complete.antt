-- ===== src/LocalDirectory/Activate/Complete.antt =====
-- The parts of a promotion that nothing stands against.
use publish.Prelude.{
  String, Option, none, some, List, [], ◌∷◌, ◌≡◌, refl, ap, ◌∙◌, eq_refl, All, Result, ok,
}
use publish.Json.{obj, Fields}
use publish.Protocol.Digest.{NotCanonical}
use publish.Kernel.DecisionFields.{property}
use publish.Kernel.Retention.{CertifiedDigestRecord}
use publish.LocalDirectory.Disk.{
  Disk, Directory, document, stage_name, read_current_generation_id, list_release_generations,
  directory_named, maximum_prior_generations_on_disk, is_some_directory, releases_dir,
}
use publish.LocalDirectory.Disk.Entries.{named-with_directory, generation-release_path}
use publish.LocalDirectory.Monad.Total.{
  Total, Total-bind, Total-pure, Total-gets, Total-change, Total-when_ok, Total-required,
  Total-fact, Total-known, Total-after, Total-read, Total-need,
}
use publish.LocalDirectory.Environment.{
  Environment, entries_digest, walk_generation_entries, digest_of_entries,
}
use publish.LocalDirectory.Environment.Prepared.{IsUnlinked, Total-refuse_symlinks}
use publish.LocalDirectory.Activate.{
  ActivateInput, commit_release, commit_missing, rename_directory, check_stage_integrity,
  compare_stage, point_current, read_marker_digest, parse_marker, marker_digest, digest_text,
  certified,
}
use publish.LocalDirectory.History.{pruned_history, retain_and_persist, read_history}
use publish.LocalDirectory.Safety.{IsSegment, IsPlain}
use publish.LocalDirectory.Safety.Changes.{release_names-without, release_names-with}
use publish.LocalDirectory.Safety.Activation.{IsCurrent}

-- The digest is the one that is expected, where one is.
abbrev pub Agrees : Option String → Result NotCanonical String → Type 0
Agrees none digest = Unit
Agrees (some x) digest = digest ≡ ok x

module _ (env : Environment) where
  -- What a promotion asks for: a stage with a marker of the adapter's, the digest that is expected
  -- of it, if one is, and no release of that name.
  pub record IsPromotable (input : ActivateInput) (d : Directory) (f : Fields) (before : Disk)
      : Type 0 where
    pub segment : IsSegment (stage_name input.stage_token)
    pub staged : directory_named (stage_name input.stage_token) before.releases ≡ some d
    pub missing : directory_named input.generation_id before.releases ≡ none
    pub names : All IsSegment (list_release_generations before)
    pub plain : IsPlain input.generation_id
    pub unlinked : IsUnlinked env (releases_dir ∷ input.generation_id ∷ [])
    pub marker : d.marker ≡ some (document (obj f))
    pub digest :
        Agrees input.expected_artifact_digest (entries_digest env (walk_generation_entries env d))
    pub crash : input.crash_injection ≡ none

  -- The release is there and the pointer is not yet moved.
  pub record IsCommitted (g : String) (d : Directory) (history : List CertifiedDigestRecord)
      (disk : Disk) : Type 0 where
    pub there : directory_named g disk.releases ≡ some d
    pub recorded : disk.history ≡ history
    pub names : All IsSegment (list_release_generations disk)

  pub Total-check_stage_integrity :
      (P : Disk → Type 0) (name : String) (d : Directory) (expected : Option String)
      → ((disk : Disk) → P disk → directory_named name disk.releases ≡ some d)
      → Agrees expected (entries_digest env (walk_generation_entries env d))
      → Total P (check_stage_integrity env name expected) (λ _. P)
  unfolding check_stage_integrity digest_of_entries compare_stage
  Total-check_stage_integrity P name d none found agrees = Total-pure P _ tt (λ disk p. p)
  Total-check_stage_integrity P name d (some x) found agrees =
      Total-bind P (λ o disk. P disk × (o ≡ some d)) (λ _. P) _ _
        (Total-after _ _ _ _ (λ o disk q. (q.0, q.1 ∙ found disk q.0)) (Total-gets P _))
        (λ o. Total-fact P _ _ _ (λ e.
          Total-known P (λ _. P) _ _ d (Total-required P _ o d e)
            (Total-known P (λ _. P) _ _ x (Total-when_ok P _ _ x agrees)
              (rw (eq_refl x) (Total-pure P _ tt (λ disk p. p))))))

  commit-IsCommitted :
      (input : ActivateInput) (d : Directory) (f : Fields) (before : Disk)
      → IsPromotable input d f before
      → IsCommitted input.generation_id d before.history
          (rename_directory (stage_name input.stage_token) input.generation_id d before)
  unfolding rename_directory list_release_generations
  commit-IsCommitted input d f before able = record {
    there = named-with_directory input.generation_id d _;
    recorded = refl;
    names =
        release_names-with IsSegment input.generation_id d _ (λ u. able.plain.0)
          (release_names-without IsSegment _ before.releases able.names);
  }

  pub Total-commit_release :
      (input : ActivateInput) (d : Directory) (f : Fields) (before : Disk)
      → IsPromotable input d f before
      → Total
          (λ disk. disk ≡ before)
          (commit_release env (stage_name input.stage_token) input.generation_id)
          (λ _. IsCommitted input.generation_id d before.history)
  unfolding commit_release commit_missing is_some_directory
  Total-commit_release input d f before able =
      Total-read _ _ _ _ none
        (λ disk e. ap (λ x. directory_named input.generation_id x.releases) e ∙ able.missing)
        (Total-bind _ (λ _ disk. disk ≡ before) _ _ _ (Total-refuse_symlinks _ env _ able.unlinked)
          (λ u.
            Total-read _ _ _ _ (some d)
              (λ disk e.
                ap (λ x. directory_named (stage_name input.stage_token) x.releases) e ∙ able.staged)
              (Total-need _ _ _ _ _ d refl
                (Total-change _ _ _ (λ disk e. rw e (commit-IsCommitted input d f before able))))))

  -- The record that is retained.
  abbrev pub newest_of : ActivateInput → Fields → CertifiedDigestRecord
  newest_of input f = certified env input (digest_text (property (obj f) "artifactDigest"))

  abbrev pub history_after : ActivateInput → Fields → Disk → List CertifiedDigestRecord
  history_after input f before =
      pruned_history before.history (newest_of input f) maximum_prior_generations_on_disk

  -- The pointer is moved.
  pub record IsPointed (g : String) (d : Directory) (history : List CertifiedDigestRecord)
      (disk : Disk) : Type 0 where
    pub committed : IsCommitted g d history disk
    pub current : IsCurrent g disk

  pub point-IsPointed :
      (g : String) (d : Directory) (history : List CertifiedDigestRecord) (disk : Disk)
      → IsCommitted g d history disk
      → IsPointed g d history (point_current g disk)
  unfolding point_current read_current_generation_id list_release_generations
  point-IsPointed g d history disk c = record {
    committed = record { there = c.there; recorded = c.recorded; names = c.names };
    current = generation-release_path g;
  }

  pub Total-read_marker_digest :
      (P : Disk → Type 0) (g : String) (d : Directory) (f : Fields)
      → ((disk : Disk) → P disk → directory_named g disk.releases ≡ some d)
      → d.marker ≡ some (document (obj f))
      → Total P
          (read_marker_digest env g)
          (λ x disk. P disk × (x ≡ digest_text (property (obj f) "artifactDigest")))
  unfolding read_marker_digest parse_marker marker_digest
  Total-read_marker_digest P g d f found marked = Total-read P _ _ _ (some d) found (
      Total-need P _ _ _ _ d refl (
        Total-need P _ _ _ _ (document (obj f)) marked (
          Total-bind P (λ v disk. P disk × (v ≡ obj f)) _ _ _
            (Total-pure P _ (obj f) (λ disk p. (p, refl)))
            (λ v. Total-fact P _ _ _ (λ e. rw e (Total-pure P _ _ (λ disk p. (p, refl))))))))

  pub Total-retain_and_persist :
      (g : String) (d : Directory) (history : List CertifiedDigestRecord)
      (newest : CertifiedDigestRecord)
      → Total
          (IsPointed g d history)
          (retain_and_persist newest maximum_prior_generations_on_disk)
          (λ r disk.
            IsPointed g d (pruned_history history newest maximum_prior_generations_on_disk) disk
            × (r ≡ pruned_history history newest maximum_prior_generations_on_disk))
  unfolding retain_and_persist read_history read_current_generation_id list_release_generations
  Total-retain_and_persist g d history newest =
      let P = IsPointed g d history in
      Total-read P _ _ _ history (λ disk p. p.committed.recorded)
        (Total-bind P
          (λ _. IsPointed g d (pruned_history history newest maximum_prior_generations_on_disk)) _ _
          _
          (Total-change P _ _ (λ disk p. record {
            committed = record {
              there = p.committed.there;
              recorded = refl;
              names = p.committed.names;
            };
            current = p.current;
          }))
          (λ u. Total-pure _ _ _ (λ disk p. (p, refl))))
