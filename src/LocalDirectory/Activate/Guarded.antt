-- ===== src/LocalDirectory/Activate/Guarded.antt =====
-- What every change of an activation rests on.
use publish.Prelude.{
  String, false, Option, none, some, List, [], ◌∷◌, ◌≡◌, ◌⊎◌, inl, inr, refl, sym, subst, ap, ◌∙◌,
  All, ◌==◌, eq_iff, Result, ok, err,
}
use publish.Protocol.Fence.{GenerationFence, require_generation_fence, fence_disagrees}
use publish.LocalDirectory.Disk.{
  Disk, Directory, read_current_generation_id, directory_named, stage_name, entry_name,
}
use publish.LocalDirectory.Monad.{M, thrown, protocol_error, ◌>>=◌}
use publish.LocalDirectory.Monad.Holds.{
  Post, Holds, Holds-bind, Holds-pure, Holds-throw, Holds-gets, Holds-required, Holds-known,
  Holds-after, Holds-if, Holds-fact,
}
use publish.LocalDirectory.Monad.Keeps.{Ends}
use publish.LocalDirectory.Environment.{
  Environment, entries_digest, walk_generation_entries, digest_of_entries,
}
use publish.LocalDirectory.Environment.Quiet.{Holds-prepare_root}
use publish.LocalDirectory.Stage.{is_generation_active}
use publish.LocalDirectory.Activate.{
  ActivateInput, check_stage_integrity, compare_stage, promote, decide, activate,
}

All-sure : (I : Disk → Type 0) (disks : List Disk) → ((d : Disk) → I d) → All I disks
All-sure I [] sure = tt
All-sure I (d ∷ ds) sure = (sure d, All-sure I ds sure)

Post-Ends : {A : Type 0} (r : Result _ A) (disk : Disk) → Post Ends r disk
Post-Ends (ok a) disk = tt
Post-Ends (err e) disk = tt

-- What holds of every disk holds on the way of every run.
Holds-sure : {A : Type 0} (I P : Disk → Type 0) (m : M A) → ((d : Disk) → I d) → Holds I P m Ends
unfolding Holds
Holds-sure I P m sure disk i p =
    (All-sure I (m disk).seen sure, (sure (m disk).last, Post-Ends (m disk).result (m disk).last))

-- The stage has the bytes whose digest is expected, if one is.
abbrev pub HasDigest : Environment → String → Option String → Disk → Type 0
HasDigest env name none before = Unit
HasDigest env name (some expected) before =
    (d : Directory) × ((directory_named name before.releases ≡ some d)
      × (entries_digest env (walk_generation_entries env d) ≡ ok expected))

-- The fence is one and agrees with what is served, and the staged bytes are those expected.
abbrev pub IsGuarded : Environment → ActivateInput → Disk → Type 0
IsGuarded env input before =
    ((fence : GenerationFence) × ((require_generation_fence input.expected_current_generation_id
            "local-directory"
          ≡ ok fence)
        × (fence_disagrees fence (read_current_generation_id before) ≡ false)))
    × HasDigest env (entry_name (stage_name input.stage_token)) input.expected_artifact_digest
        before

module _ (env : Environment) (before : Disk) (I : Disk → Type 0) where
  -- As long as nothing has changed.
  abbrev Same : Disk → Type 0
  Same disk = disk ≡ before

  Holds-compare_stage :
      (staged expected : String)
      → Holds I Same (compare_stage env staged expected) (λ u disk. Same disk × (staged ≡ expected))
  unfolding compare_stage
  Holds-compare_stage staged expected =
      Holds-if I Same _ (staged == expected) _ _
        (λ equal. Holds-pure I Same _ tt (λ disk i p. (p, (eq_iff staged expected).0 equal)))
        (λ apart. Holds-throw I Same _ (thrown _))

  Holds-check_digest :
      (name expected : String) (d : Directory)
      → directory_named name before.releases ≡ some d
      → Holds I Same
          (digest_of_entries env (walk_generation_entries env d) >>= λ staged.
            compare_stage env staged expected)
          (λ u disk. Same disk × HasDigest env name (some expected) before)
  unfolding digest_of_entries
  Holds-check_digest name expected d found =
      Holds-bind I Same _ _ _ _ (Holds-known I Same _ _) (λ staged.
        Holds-fact I Same _ _ _ (λ digest.
          Holds-after I Same _ _ _ (λ u disk i q. (q.0, (d, (found, digest ∙ ap ok q.1))))
            (Holds-compare_stage staged expected)))

  Holds-check :
      (name : String) (expected : Option String)
      → Holds I Same
          (check_stage_integrity env name expected)
          (λ u disk. Same disk × HasDigest env name expected before)
  unfolding check_stage_integrity
  Holds-check name none = Holds-pure I Same _ tt (λ disk i p. (p, tt))
  Holds-check name (some expected) =
      Holds-bind I Same (λ found disk. Same disk × (found ≡ directory_named name before.releases)) _
        _ _
        (Holds-after I Same _ _ _
          (λ found disk i q. (q.0, q.1 ∙ ap (λ x. directory_named name x.releases) q.0))
          (Holds-gets I Same _))
        (λ found. Holds-fact I Same _ _ _ (λ same.
          Holds-bind I Same _ _ _ _ (Holds-required I Same _ found) (λ d.
            Holds-fact I Same _ _ _
              (λ some_d. Holds-check_digest name expected d (sym same ∙ some_d)))))

module _ (env : Environment) (input : ActivateInput) (before : Disk) where
  abbrev Guarded : Disk → Type 0
  Guarded disk = (disk ≡ before) ⊎ IsGuarded env input before

  Holds-promote-Guarded :
      (fence : GenerationFence)
      → require_generation_fence input.expected_current_generation_id "local-directory" ≡ ok fence
      → fence_disagrees fence (read_current_generation_id before) ≡ false
      → Holds Guarded
          (λ disk. disk ≡ before)
          (promote env input (read_current_generation_id before))
          Ends
  unfolding promote
  Holds-promote-Guarded fence accepted agrees =
      Holds-bind Guarded _ _ Ends _ _ (Holds-check env before Guarded _ _) (λ u.
        Holds-fact Guarded _ _ Ends _
          (λ digest. Holds-sure Guarded _ _ (λ d. inr ((fence, (accepted, agrees)), digest))))

  Holds-decide-Guarded :
      (fence : GenerationFence)
      → require_generation_fence input.expected_current_generation_id "local-directory" ≡ ok fence
      → Holds Guarded
          (λ disk. disk ≡ before)
          (decide env input fence (read_current_generation_id before))
          Ends
  unfolding decide
  Holds-decide-Guarded fence accepted =
      Holds-if Guarded _ Ends
        (is_generation_active input.generation_id (read_current_generation_id before)) _ _
        (λ active. Holds-pure Guarded _ Ends _ (λ disk i p. tt))
        (λ inactive.
          Holds-if Guarded _ Ends (fence_disagrees fence (read_current_generation_id before)) _ _
            (λ apart. Holds-pure Guarded _ Ends _ (λ disk i p. tt))
            (λ agrees. Holds-promote-Guarded fence accepted agrees))

  activate-Guarded : Holds Guarded (λ disk. disk ≡ before) (activate env input) Ends
  unfolding activate
  activate-Guarded =
      let P : Disk → Type 0 = λ disk. disk ≡ before in
      Holds-bind Guarded P _ Ends _ _ (Holds-known Guarded P protocol_error _) (λ fence.
        Holds-fact Guarded P _ Ends _ (λ accepted.
          Holds-bind Guarded P (λ _. P) Ends _ _ (Holds-prepare_root Guarded P env)
            (λ u.
              Holds-bind Guarded P
                (λ observed disk. P disk × (read_current_generation_id before ≡ observed)) Ends _ _
                (Holds-after Guarded P _ _ _
                  (λ observed disk i q. (q.0, ap read_current_generation_id (sym q.0) ∙ sym q.1))
                  (Holds-gets Guarded P _))
                (λ observed. Holds-fact Guarded P _ Ends _ (λ same.
                  subst (λ o. Holds Guarded P (decide env input fence o) Ends) same
                    (Holds-decide-Guarded fence accepted))))))

  -- An activation leaves the destination as it was, at every durable change and at its end, unless
  -- its expectation is a fence that agrees with what is served and, where a digest is expected,
  -- the staged files are there and have it.
  pub activate-IsGuarded :
      let run = activate env input before in
      All (λ disk. (disk ≡ before) ⊎ IsGuarded env input before) run.seen
      × ((run.last ≡ before) ⊎ IsGuarded env input before)
  unfolding Holds
  activate-IsGuarded =
      let (seen, (last, post)) = activate-Guarded before (inl refl) refl in (seen, last)
