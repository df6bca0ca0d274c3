-- ===== src/LocalDirectory/Activate/Promoted.antt =====
-- An activation that nothing stands against: the stage is served afterwards.
use publish.Prelude.{
  String, true, false, Option, none, some, List, [], ◌∷◌, ◌≡◌, refl, sym, ap, subst, ◌∙◌, All, any,
  ◌||◌, ◌==◌, eq_refl, arith, ok, Bool,
}
use publish.Json.{Fields}
use publish.Protocol.Fence.{GenerationFence, require_generation_fence, fence_disagrees}
use publish.Kernel.Retention.{CertifiedDigestRecord}
use publish.LocalDirectory.Disk.{
  Disk, Directory, stage_name, read_current_generation_id, list_release_generations,
  directory_named, maximum_prior_generations_on_disk,
}
use publish.LocalDirectory.Disk.Entries.{entry_name-entry}
use publish.LocalDirectory.Monad.{AdapterError, protocol_error}
use publish.LocalDirectory.Monad.Total.{
  Returns, Total, Total-bind, Total-pure, Total-gets, Total-change, Total-when_ok, Total-fact,
  Total-known, Total-after, Total-read,
}
use publish.LocalDirectory.Environment.{Environment}
use publish.LocalDirectory.Environment.Prepared.{IsPrepared, Total-prepare_root}
use publish.LocalDirectory.Stage.{is_generation_active}
use publish.LocalDirectory.Activate.{
  ActivateInput, ActivationResult, activate_it, outcome_of, inject, sweep_retired_generations,
  certified, certify_current, promote, decide, activate,
}
use publish.LocalDirectory.Activate.Sweep.{is_kept, IsPromoted, All-map, Total-sweep_from}
use publish.LocalDirectory.Activate.Complete.{
  IsPromotable, IsCommitted, IsPointed, history_after, newest_of, Total-check_stage_integrity,
  Total-commit_release, point-IsPointed, Total-read_marker_digest, Total-retain_and_persist,
}
use publish.LocalDirectory.Safety.{IsSegment}
use publish.LocalDirectory.Safety.Activation.{newest_retained}

or_true : (b : Bool) → (b || true) ≡ true
or_true b = ground arith

self_listed :
    (retained : List CertifiedDigestRecord) (names : List String)
    → All (λ n. (is_kept retained n || any (λ m. m == n) names) ≡ true) names
self_listed retained [] = tt
self_listed retained (x ∷ xs) = (
  rw (eq_refl x) (or_true (is_kept retained x)),
  All-map _ _ xs (λ n h. ground (arith, h)) (self_listed retained xs),
)

module _ (env : Environment) where
  -- Every release that is on the disk is retained.
  abbrev pub IsSwept : Disk → Type 0
  IsSwept disk = All (λ n. is_kept disk.history n ≡ true) (list_release_generations disk)

  pointed-IsPromoted :
      (g : String) (d : Directory) (retained : List CertifiedDigestRecord) (disk : Disk)
      → IsPointed env g d retained disk
      → IsPromoted g d retained (list_release_generations disk) disk
  pointed-IsPromoted g d retained disk p = record {
    there = p.committed.there;
    current = p.current;
    history = p.committed.recorded;
    names = self_listed retained (list_release_generations disk);
  }

  Total-sweep :
      (g : String) (d : Directory) (retained : List CertifiedDigestRecord)
      → is_kept retained g ≡ true
      → Total
          (IsPointed env g d retained)
          (sweep_retired_generations env retained)
          (λ _. IsPromoted g d retained [])
  unfolding sweep_retired_generations
  Total-sweep g d retained head =
      Total-bind _ (λ names disk. IsPromoted g d retained names disk × All IsSegment names) _ _ _
        (Total-after _ _ _ _
          (λ names disk q. (
            subst (λ ns. IsPromoted g d retained ns disk) (sym q.1)
                (pointed-IsPromoted g d retained disk q.0),
            subst (All IsSegment) (sym q.1) q.0.committed.names,
          ))
          (Total-gets _ list_release_generations))
        (λ names. Total-fact _ _ _ _ (Total-sweep_from env g d retained names head))

  Total-certify_current :
      (input : ActivateInput) (d : Directory) (f : Fields) (before : Disk)
      → IsPromotable env input d f before
      → Total
          (IsPointed env input.generation_id d before.history)
          (certify_current env input)
          (λ _. IsPromoted input.generation_id d (history_after env input f before) [])
  unfolding certify_current certified
  Total-certify_current input d f before able =
      let P = IsPointed env input.generation_id d before.history in
      let kept = history_after env input f before in
      Total-known P _ _ _ _
        (Total-read_marker_digest env P input.generation_id d f (λ disk p. p.committed.there)
          able.marker)
        (Total-bind P (λ r disk. IsPointed env input.generation_id d kept disk × (r ≡ kept)) _ _ _
          (Total-retain_and_persist env input.generation_id d before.history
            (newest_of env input f))
          (λ r. Total-fact _ _ _ _ (λ e. rw e (
            Total-sweep input.generation_id d kept (
              newest_retained before.history (newest_of env input f)
                maximum_prior_generations_on_disk)))))

  -- What a promotion leaves: its release is served, its record heads the history, and the other
  -- releases are retained ones.
  pub record IsPublished (input : ActivateInput) (d : Directory) (f : Fields) (before disk : Disk)
      : Type 0 where
    pub there : directory_named input.generation_id disk.releases ≡ some d
    pub current : read_current_generation_id disk ≡ some input.generation_id
    pub history : disk.history ≡ history_after env input f before
    pub swept : IsSwept disk

  promoted-IsPublished :
      (input : ActivateInput) (d : Directory) (f : Fields) (before disk : Disk)
      → IsPromoted input.generation_id d (history_after env input f before) [] disk
      → IsPublished input d f before disk
  promoted-IsPublished input d f before disk p = record {
    there = p.there;
    current = p.current;
    history = p.history;
    swept = All-map _ _ _ (λ n h. rw p.history (ground (arith, h))) p.names;
  }

  Total-inject :
      (P : Disk → Type 0) (e : Option AdapterError) → e ≡ none → Total P (inject e) (λ _. P)
  unfolding inject
  Total-inject P e absent = rw absent (Total-pure P _ tt (λ disk p. p))

  Total-promote :
      (input : ActivateInput) (d : Directory) (f : Fields) (before : Disk)
      (observed : Option String)
      → IsPromotable env input d f before
      → Total
          (λ disk. disk ≡ before)
          (promote env input observed)
          (λ r disk.
            (r ≡ outcome_of input activate_it observed false) × IsPublished input d f before disk)
  unfolding promote
  Total-promote input d f before observed able =
      let g = input.generation_id in
      let committed = IsCommitted env g d before.history in
      let pointed = IsPointed env g d before.history in
      let promoted = IsPromoted g d (history_after env input f before) [] in
      Total-bind _ (λ _ disk. disk ≡ before) _ _ _
        (rw (entry_name-entry (stage_name input.stage_token) able.segment.0) (
          Total-check_stage_integrity env _ _ d input.expected_artifact_digest
            (λ disk e.
              ap (λ x. directory_named (stage_name input.stage_token) x.releases) e ∙ able.staged)
            able.digest))
        (λ u.
          Total-bind _ (λ _. committed) _ _ _
            (rw (entry_name-entry (stage_name input.stage_token) able.segment.0)
              (Total-commit_release env input d f before able))
            (λ v.
              Total-bind _ (λ _. committed) _ _ _
                (Total-inject committed input.crash_injection able.crash)
                (λ w.
                  Total-bind committed (λ _. pointed) _ _ _
                    (Total-change _ _ _ (λ disk. point-IsPointed env g d before.history disk))
                    (λ x.
                      Total-bind _ (λ _. promoted) _ _ _
                        (Total-certify_current input d f before able)
                        (λ y.
                          Total-pure promoted _ _
                            (λ disk p. (refl, promoted-IsPublished input d f before disk p)))))))

  -- The fence that the caller holds agrees with what is served, which is another generation.
  pub record IsFenced (input : ActivateInput) (observed : Option String) : Type 0 where
    pub fence : GenerationFence
    pub required :
        require_generation_fence input.expected_current_generation_id "local-directory" ≡ ok fence
    pub agrees : fence_disagrees fence observed ≡ false
    pub inactive : is_generation_active input.generation_id observed ≡ false

  abbrev pub IsActivated :
      ActivateInput → Directory → Fields → Disk → ActivationResult → Disk → Type 0
  IsActivated input d f before r disk =
      (r ≡ outcome_of input activate_it (read_current_generation_id before) false)
      × IsPublished input d f before disk

  Total-decide :
      (input : ActivateInput) (d : Directory) (f : Fields) (before : Disk)
      (fenced : IsFenced input (read_current_generation_id before))
      → IsPromotable env input d f before
      → Total
          (λ disk. disk ≡ before)
          (decide env input fenced.fence (read_current_generation_id before))
          (IsActivated input d f before)
  unfolding decide
  Total-decide input d f before fenced able =
      rw fenced.inactive
        (rw fenced.agrees (Total-promote input d f before (read_current_generation_id before) able))

  -- An activation that nothing stands against returns. Its generation is then served from the staged
  -- directory, its record heads the history, and no release is left that is not retained.
  pub activate-published :
      (input : ActivateInput) (d : Directory) (f : Fields) (before : Disk)
      → IsPrepared env
      → IsFenced input (read_current_generation_id before)
      → IsPromotable env input d f before
      → Returns (IsActivated input d f before) (activate env input before)
  unfolding activate Total
  activate-published input d f before prepared fenced able =
      let P : Disk → Type 0 = λ disk. disk ≡ before in
      let run : Total P (activate env input) (IsActivated input d f before) =
        Total-known P _ _ _ fenced.fence
          (Total-when_ok P protocol_error _ fenced.fence fenced.required)
          (Total-bind P (λ _. P) _ _ _ (Total-prepare_root P env prepared)
            (λ u.
              Total-read P _ _ _ (read_current_generation_id before)
                (λ disk e. ap read_current_generation_id e)
                (Total-decide input d f before fenced able))) in
      run before refl
