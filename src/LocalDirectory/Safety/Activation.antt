-- ===== src/LocalDirectory/Safety/Activation.antt =====
-- `activate` keeps the disk sound at every durable change.
use publish.Prelude.{
  ℕ, suc, ◌+◌, String, true, false, Option, none, some, List, [], ◌∷◌, any, ◌≡◌, sym, ap, subst,
  ◌∙◌, arith, ◌==◌, eq_iff, eq_refl, All,
}
use publish.Protocol.Fence.{GenerationFence, fence_disagrees}
use publish.LocalDirectory.Stage.{is_generation_active}
use publish.Kernel.Retention.{CertifiedDigestRecord}
use publish.LocalDirectory.Disk.{
  Disk, Directory, stage_name, read_current_generation_id, target_of, entry, all_releases,
  remove_target, Target, elsewhere, list_release_generations, directory_named, is_some_directory,
}
use publish.LocalDirectory.Disk.Entries.{
  stage_name-is_stage_name, generation-release_path, entry_name-entry,
}
use publish.LocalDirectory.Monad.{change, fs_error, protocol_error}
use publish.LocalDirectory.Monad.Holds.{
  Holds, Holds-bind, Holds-change, Holds-pure, Holds-gets, Holds-required, Holds-when_ok,
  Holds-weaken, Holds-after, Holds-if, Holds-fact,
}
use publish.LocalDirectory.Monad.Keeps.{Anything}
use publish.LocalDirectory.Environment.{Environment, remove_contained_tree}
use publish.LocalDirectory.Environment.Quiet.{Holds-prepare_root, Holds-refuse_symlinks}
use publish.LocalDirectory.History.{read_history, retain_and_persist, pruned_history}
use publish.LocalDirectory.Activate.{
  ActivateInput, commit_missing, commit_release, point_current, sweep_from,
  sweep_retired_generations, certified, certify_current, promote, outcome_of, ActivationResult,
  activate_it, decide, activate,
}
use publish.LocalDirectory.Activate.Kept.{
  Leaves-bind, Leaves-pure, Leaves-gets, Leaves-inject, Leaves-read_marker_digest,
  Leaves-check_stage_integrity,
}
use publish.LocalDirectory.Safety.{IsSegment, IsPlain, IsThere, IsSound}
use publish.LocalDirectory.Safety.Changes.{
  IsIdle, IsSound-remove_target, IsSound-rename_directory, IsSound-point_current,
}
use publish.LocalDirectory.Safety.Staging.{segment-apart, segment-entry}

abbrev pub IsCurrent : String → Disk → Type 0
IsCurrent g disk = read_current_generation_id disk ≡ some g

IsThere-some :
    (g : String) (disk : Disk) (found : Option Directory)
    → found ≡ directory_named g disk.releases
    → is_some_directory found ≡ true
    → IsThere g disk
IsThere-some g disk found e there = subst (λ o. is_some_directory o ≡ true) e there

Holds-commit_missing :
    (env : Environment) (token g : String)
    → IsPlain g
    → Holds IsSound Anything (commit_missing env (stage_name token) g) (λ _. IsThere g)
unfolding commit_missing
Holds-commit_missing env token g plain =
    Holds-bind IsSound Anything (λ _. Anything) (λ _. IsThere g) _ _
      (Holds-refuse_symlinks IsSound Anything env _)
      (λ u.
        Holds-bind IsSound Anything (λ _. Anything) (λ _. IsThere g) _ _
          (Holds-after IsSound _ _ _ _ (λ a disk i q. tt) (Holds-gets IsSound Anything _))
          (λ found.
            Holds-bind IsSound Anything (λ _. Anything) (λ _. IsThere g) _ _
              (Holds-after IsSound _ _ _ _ (λ a disk i q. tt)
                (Holds-required IsSound Anything _ found))
              (λ d. Holds-change IsSound Anything (IsThere g) _ (λ disk s p.
                IsSound-rename_directory (stage_name token) g d disk
                  (stage_name-is_stage_name token) plain s))))

pub Holds-commit_release :
    (env : Environment) (token g : String)
    → IsPlain g
    → Holds IsSound Anything (commit_release env (stage_name token) g) (λ _. IsThere g)
unfolding commit_release
Holds-commit_release env token g plain =
    Holds-bind IsSound Anything (λ found disk. found ≡ directory_named g disk.releases)
      (λ _. IsThere g) _ _
      (Holds-after IsSound _ _ _ _ (λ a disk i q. q.1) (Holds-gets IsSound Anything _))
      (λ found.
        Holds-if IsSound _ (λ _. IsThere g) (is_some_directory found) _ _
          (λ there. Holds-pure IsSound _ _ tt (λ disk i e. IsThere-some g disk found e there))
          (λ missing.
            Holds-weaken IsSound Anything _ _ _ (λ disk i p. tt)
              (Holds-commit_missing env token g plain)))

-- Removing another release leaves the pointer as it is.
pub IsCurrent-remove_target :
    (g : String) (t : Target) (disk : Disk) → IsCurrent g disk → IsCurrent g (remove_target t disk)
unfolding read_current_generation_id remove_target
IsCurrent-remove_target g all_releases disk at = at
IsCurrent-remove_target g (entry n) disk at = at
IsCurrent-remove_target g elsewhere disk at = at

other-IsIdle : (g h : String) (disk : Disk) → IsCurrent g disk → (h == g) ≡ false → IsIdle h disk
other-IsIdle g h disk at apart k at' = ground (arith, at, at', apart)

Holds-remove_other :
    (env : Environment) (g h : String)
    → (h == g) ≡ false
    → IsSegment h
    → Holds IsSound (IsCurrent g) (remove_contained_tree env h) (λ _. IsCurrent g)
unfolding remove_contained_tree
Holds-remove_other env g h apart segment =
    Holds-bind IsSound (IsCurrent g) (λ _. IsCurrent g) (λ _. IsCurrent g) _ _
      (Holds-when_ok IsSound (IsCurrent g) fs_error _)
      (λ u. Holds-change IsSound (IsCurrent g) (IsCurrent g) _ (λ disk s at. (
        IsSound-remove_target (target_of h) disk (segment-apart h segment)
            (λ n e.
              let same = segment-entry h n segment e in
              subst (λ x. IsIdle x disk) same (other-IsIdle g h disk at apart))
            s,
        IsCurrent-remove_target g (target_of h) disk at,
      )))

pub active_some :
    (g : String) (observed : Option String)
    → is_generation_active g observed ≡ true
    → observed ≡ some g
unfolding is_generation_active
active_some g none active = ground arith
active_some g (some h) active = ap some (sym ((eq_iff g h).0 active))

pub not_retained :
    (retained : List CertifiedDigestRecord) (g h : String)
    → any (λ r. r.generation_id == g) retained ≡ true
    → any (λ r. r.generation_id == h) retained ≡ false
    → (h == g) ≡ false
not_retained retained g h in_it out = ground (arith, in_it, out, eq_iff h g)

Holds-sweep_from :
    (env : Environment) (retained : List CertifiedDigestRecord) (g : String) (names : List String)
    → any (λ r. r.generation_id == g) retained ≡ true
    → All IsSegment names
    → Holds IsSound (IsCurrent g) (sweep_from env retained names) (λ _. IsCurrent g)
unfolding sweep_from
Holds-sweep_from env retained g [] head segments = Leaves-pure IsSound (IsCurrent g) tt
Holds-sweep_from env retained g (h ∷ hs) head segments =
    let rest = Holds-sweep_from env retained g hs head segments.1 in
    Holds-if IsSound (IsCurrent g) (λ _. IsCurrent g) (any (λ r. r.generation_id == h) retained) _ _
      (λ kept. rest)
      (λ dropped.
        Leaves-bind IsSound (IsCurrent g) _ _
          (Holds-remove_other env g h (not_retained retained g h head dropped) segments.0)
          (λ u. rest))

-- The newest record is retained.
pub newest_retained :
    (existing : List CertifiedDigestRecord) (newest : CertifiedDigestRecord) (maximum : ℕ)
    → any (λ r. r.generation_id == newest.generation_id) (pruned_history existing newest maximum)
      ≡ true
unfolding pruned_history
newest_retained existing newest maximum =
    let one : maximum + 1 ≡ suc maximum = omega arith in rw one (rw (eq_refl newest.generation_id))

Holds-retain_and_persist :
    (newest : CertifiedDigestRecord) (maximum : ℕ)
    → Holds IsSound
        (IsCurrent newest.generation_id)
        (retain_and_persist newest maximum)
        (λ retained disk.
          IsCurrent newest.generation_id disk
          × (any (λ r. r.generation_id == newest.generation_id) retained ≡ true))
unfolding retain_and_persist read_history read_current_generation_id list_release_generations
Holds-retain_and_persist newest maximum =
    let at = IsCurrent newest.generation_id in
    Holds-bind IsSound at (λ _. at) _ _ _ (Leaves-gets IsSound at _)
      (λ existing.
        Holds-bind IsSound at (λ _. at) _ _ _
          (Holds-change IsSound at at _
            (λ disk s c. (record { serving = s.serving; names = s.names }, c)))
          (λ u.
            Holds-pure IsSound at _ _ (λ disk s c. (c, newest_retained existing newest maximum))))

Holds-sweep :
    (env : Environment) (retained : List CertifiedDigestRecord) (g : String)
    → any (λ r. r.generation_id == g) retained ≡ true
    → Holds IsSound (IsCurrent g) (sweep_retired_generations env retained) (λ _. IsCurrent g)
unfolding sweep_retired_generations
Holds-sweep env retained g head =
    Holds-bind IsSound (IsCurrent g) (λ names disk. IsCurrent g disk × All IsSegment names) _ _ _
      (Holds-after IsSound _ _ _ _
        (λ names disk s q. (q.0, subst (All IsSegment) (sym q.1) s.names))
        (Holds-gets IsSound (IsCurrent g) list_release_generations))
      (λ names. Holds-fact IsSound (IsCurrent g) _ _ _ (Holds-sweep_from env retained g names head))

Holds-certify_current :
    (env : Environment) (input : ActivateInput)
    → Holds IsSound
        (IsCurrent input.generation_id)
        (certify_current env input)
        (λ _. IsCurrent input.generation_id)
unfolding certify_current certified
Holds-certify_current env input =
    let at = IsCurrent input.generation_id in
    Leaves-bind IsSound at _ _ (Leaves-read_marker_digest IsSound at env _) (λ digest.
      Holds-bind IsSound at _ (λ _. at) _ _
        (Holds-retain_and_persist (certified env input digest) _)
        (λ retained. Holds-fact IsSound at _ _ _ (Holds-sweep env retained input.generation_id)))

-- An operation that reports an activation ends with the pointer on the generation it reports.
abbrev pub Settles : ActivationResult → Disk → Type 0
Settles r disk = r.decision ≡ activate_it → IsCurrent r.generation_id disk

Holds-point_current :
    (g : String)
    → IsPlain g
    → Holds IsSound (IsThere g) (change (point_current g)) (λ _. IsCurrent g)
unfolding point_current read_current_generation_id
Holds-point_current g plain =
    Holds-change IsSound (IsThere g) (IsCurrent g) _
      (λ disk s there. (IsSound-point_current g disk plain there s, generation-release_path g))

Holds-promote :
    (env : Environment) (input : ActivateInput) (observed : Option String)
    → IsSegment (stage_name input.stage_token)
    → IsPlain input.generation_id
    → Holds IsSound Anything (promote env input observed) Settles
unfolding promote outcome_of
Holds-promote env input observed segment plain =
    let g = input.generation_id in
    let at = IsCurrent g in
    let there = IsThere g in
    Holds-bind IsSound Anything (λ _. Anything) Settles _ _
      (Leaves-check_stage_integrity IsSound Anything env _ input.expected_artifact_digest)
      (λ u.
        Holds-bind IsSound Anything (λ _. there) Settles _ _
          (rw (entry_name-entry (stage_name input.stage_token) segment.0)
            (Holds-commit_release env input.stage_token g plain))
          (λ v.
            Holds-bind IsSound there (λ _. there) Settles _ _
              (Leaves-inject IsSound there input.crash_injection)
              (λ w.
                Holds-bind IsSound there (λ _. at) Settles _ _ (Holds-point_current g plain)
                  (λ x.
                    Holds-bind IsSound at (λ _. at) Settles _ _ (Holds-certify_current env input)
                      (λ y. Holds-pure IsSound at Settles _ (λ disk s c e. c))))))

Holds-decide :
    (env : Environment) (input : ActivateInput) (fence : GenerationFence) (observed : Option String)
    → IsSegment (stage_name input.stage_token)
    → IsPlain input.generation_id
    → Holds IsSound
        (λ disk. observed ≡ read_current_generation_id disk)
        (decide env input fence observed)
        Settles
unfolding decide outcome_of
Holds-decide env input fence observed segment plain =
    Holds-if IsSound _ Settles (is_generation_active input.generation_id observed) _ _
      (λ active.
        Holds-pure IsSound _ Settles _
          (λ disk s e r. sym e ∙ active_some input.generation_id observed active))
      (λ inactive.
        Holds-weaken IsSound Anything _ Settles _ (λ disk s p. tt)
          (Holds-if IsSound Anything Settles (fence_disagrees fence observed) _ _
            (λ apart. Holds-pure IsSound Anything Settles _ (λ disk s p e. ground arith))
            (λ agrees. Holds-promote env input observed segment plain)))

pub activate-IsSound :
    (env : Environment) (input : ActivateInput)
    → IsSegment (stage_name input.stage_token)
    → IsPlain input.generation_id
    → Holds IsSound Anything (activate env input) Settles
unfolding activate
activate-IsSound env input segment plain =
    Holds-bind IsSound Anything (λ _. Anything) Settles _ _
      (Holds-when_ok IsSound Anything protocol_error _)
      (λ fence.
        Holds-bind IsSound Anything (λ _. Anything) Settles _ _
          (Holds-prepare_root IsSound Anything env)
          (λ u.
            Holds-bind IsSound Anything
              (λ observed disk. observed ≡ read_current_generation_id disk) Settles _ _
              (Holds-after IsSound _ _ _ _ (λ a disk s q. q.1) (Holds-gets IsSound Anything _))
              (λ observed. Holds-decide env input fence observed segment plain)))
