-- ===== src/Action/DeployLocalDirectory/Settled.antt =====
-- A deployment keeps the destination sound, and what it reports as activated is served.
use publish.Prelude.{
  String, Bool, true, false, not, Option, none, some, List, ◌≡◌, refl, subst, All, Result, ok, err,
  arith,
}
use publish.Json.{undefined}
use publish.Finding.{Finding, has_blocking_finding}
use publish.Kernel.Containment.{ArtifactPathEntry, includes}
use publish.Kernel.Containment.Collisions.{IsSafeEntry}
use publish.Kernel.Marker.{Diagnostic}
use publish.Kernel.Stages.{proceed, refuse, Verdict}
use publish.LocalDirectory.Disk.{
  Disk, Target, stage_name, target_of, remove_target, read_current_generation_id,
}
use publish.LocalDirectory.Disk.Entries.{stage_name-is_stage_name}
use publish.LocalDirectory.Monad.{AdapterError, M, pure, fs_error}
use publish.LocalDirectory.Monad.Holds.{
  Post, Holds, Holds-bind, Holds-change, Holds-pure, Holds-when_ok, Holds-if, Holds-known,
  Holds-fact, Holds-after,
}
use publish.LocalDirectory.Monad.Keeps.{
  Keeps, Ends, Anything, Keeps-bind, Keeps-pure, Keeps-gets, Keeps-when_ok,
}
use publish.LocalDirectory.Environment.{Environment, remove_contained_tree}
use publish.LocalDirectory.Environment.Quiet.{Holds-prepare_root, Holds-digest_of_entries}
use publish.LocalDirectory.Stage.{
  StageInput, stage_token_for, remove_if_there, cleanup_release, cleanup_staged,
}
use publish.LocalDirectory.Stage.Kept.{AreInside}
use publish.LocalDirectory.Activate.{Decision, reconcile_it, ActivationResult, activate_it}
use publish.LocalDirectory.Activate.Kept.{Leaves-bind, Leaves-pure, Leaves-gets, Leaves-required}
use publish.LocalDirectory.Observe.{
  inspect_destination, preflight, fence_findings, ObserveInput, observe,
}
use publish.LocalDirectory.Safety.{IsPlain, IsSound, IsSegment}
use publish.LocalDirectory.Safety.Changes.{IsIdle, IsSound-remove_target}
use publish.LocalDirectory.Safety.Staging.{
  stage-Tokened, stage-IsIdle, segment-apart, segment-entry,
}
use publish.LocalDirectory.Safety.Activation.{
  IsCurrent, Settles, activate-IsSound, IsCurrent-remove_target,
}
use publish.Action.DeployLocalDirectory.{
  DeployInput, DeployResult, failed, kernel_preflight, kernel_stage, kernel_activate,
  kernel_cleanup, clean_up, activate_staged, stage_admitted, stage_candidate, after_preflight,
  preflight_admitted, deploy_to_local_directory, activation_input, stage_input, path_entries,
}
use publish.Action.DeployLocalDirectory.Inside.{
  stage-flat, stage-IsSegment, safe-AreInside, preflight-safe,
}

-- Removing a stage leaves what does not speak of the releases.
module _ (P : Disk → Type 0) (kept : (t : Target) (disk : Disk) → P disk → P (remove_target t disk))
    (env : Environment) where
  Leaves-remove_stage :
      (there : Bool) (token : String)
      → IsSegment (stage_name token)
      → Holds IsSound P (remove_if_there env there (stage_name token)) (λ _. P)
  unfolding remove_if_there remove_contained_tree
  Leaves-remove_stage false token segment = Leaves-pure IsSound P false
  Leaves-remove_stage true token segment =
      let name = stage_name token in
      let staged = stage_name-is_stage_name token in
      Leaves-bind IsSound P _ _
        (Leaves-bind IsSound P _ _ (Holds-when_ok IsSound P fs_error _) (λ u.
          Holds-change IsSound P P _ (λ disk s p. (
            IsSound-remove_target (target_of name) disk (segment-apart name segment)
                (λ n e.
                  subst (λ x. IsIdle x disk) (segment-entry name n segment e)
                    (stage-IsIdle name disk staged s))
                s,
            kept (target_of name) disk p,
          ))))
        (λ u. Leaves-pure IsSound P true)

  pub Leaves-cleanup_staged :
      (token : String)
      → IsSegment (stage_name token)
      → Holds IsSound P (cleanup_staged env token none) (λ _. P)
  unfolding cleanup_staged cleanup_release
  Leaves-cleanup_staged token segment =
      Leaves-bind IsSound P _ _ (Holds-prepare_root IsSound P env) (λ u.
        Leaves-bind IsSound P _ _ (Leaves-gets IsSound P _) (λ disk.
          Leaves-bind IsSound P _ _ (Leaves-remove_stage _ token segment) (λ existed.
            Leaves-bind IsSound P _ _ (Leaves-pure IsSound P false)
              (λ other. Leaves-pure IsSound P _))))

  pub Leaves-observe : (input : ObserveInput) → Holds IsSound P (observe env input) (λ _. P)
  unfolding observe
  Leaves-observe input = Leaves-bind IsSound P _ _ (Holds-prepare_root IsSound P env) (λ u.
      Leaves-bind IsSound P _ _ (Leaves-gets IsSound P _) (λ disk.
        Leaves-bind IsSound P _ _ (Leaves-required IsSound P _ _) (λ d.
          Leaves-bind IsSound P _ _ (Holds-digest_of_entries IsSound P env _)
            (λ digest. Leaves-pure IsSound P _))))

-- A deployment that reports an activation ends with the pointer on the generation it reports.
abbrev pub Reports : DeployResult → Disk → Type 0
Reports r disk = r.decision ≡ activate_it → IsCurrent r.generation_id disk

module _ (env : Environment) (print_diagnostics : List Diagnostic → String)
    (adapter_version : String) (to_lower_case : String → String) (input : DeployInput)
    (plain : IsPlain input.generation_id)
    (digits : (s : String) → includes 47 (env.sha256 s) ≡ false) where
  token-flat :
      (site : StageInput)
      → includes 47 (stage_name (stage_token_for env print_diagnostics site)) ≡ false
  unfolding stage_token_for
  token-flat site = stage-flat 32 _ (digits _)

  site-AreInside :
      (digest : String)
      → let site = stage_input env print_diagnostics adapter_version to_lower_case input digest in
        includes 47 (stage_name (stage_token_for env print_diagnostics site)) ≡ false
        → All (IsSafeEntry to_lower_case env.normalize_nfc) (path_entries input.files)
        → AreInside (stage_name (stage_token_for env print_diagnostics site)) site.files
  unfolding stage_input
  site-AreInside digest flat safe =
      safe-AreInside to_lower_case env.normalize_nfc _ input.files flat safe

  failed-Reports :
      (P : Disk → Type 0) (fs : List Finding) → Holds IsSound P (pure (failed fs)) Reports
  unfolding failed
  failed-Reports P fs = Holds-pure IsSound P Reports _ (λ disk s p e. ground arith)

  Holds-clean_up :
      (activation : ActivationResult) (digest token : String)
      → IsSegment (stage_name token)
      → Holds IsSound
          (Settles activation)
          (clean_up env print_diagnostics adapter_version to_lower_case input digest token)
          (λ _. Settles activation)
  unfolding clean_up
  Holds-clean_up activation digest token segment =
      let P = Settles activation in
      Holds-if IsSound P (λ _. P)
        (not (
          has_blocking_finding
            (kernel_cleanup env print_diagnostics adapter_version to_lower_case input
              digest).findings))
        _ _
        (λ open_.
          Leaves-bind IsSound P _ _
            (Leaves-cleanup_staged P
              (λ t disk h e. IsCurrent-remove_target activation.generation_id t disk (h e)) env
              token segment)
            (λ removed. Leaves-pure IsSound P tt))
        (λ shut. Leaves-pure IsSound P tt)

  Holds-activate_staged :
      (before : Option String) (digest token : String)
      → IsSegment (stage_name token)
      → Holds IsSound Anything
          (activate_staged env print_diagnostics adapter_version to_lower_case input before digest
            token)
          Reports
  unfolding activate_staged activation_input
  Holds-activate_staged before digest token segment =
      Holds-bind IsSound Anything Settles Reports _ _ (activate-IsSound env _ segment plain)
        (λ activation.
          let P = Settles activation in
          Holds-bind IsSound P (λ _. P) Reports _ _
            (Leaves-observe P
              (λ t disk h e. IsCurrent-remove_target activation.generation_id t disk (h e)) env _)
            (λ observed.
              Holds-bind IsSound P (λ _. P) Reports _ _
                (Holds-clean_up activation digest token segment)
                (λ u. Holds-pure IsSound P Reports _ (λ disk s p. p))))

  Holds-stage_admitted :
      (before : Option String) (digest : String)
      → All (IsSafeEntry to_lower_case env.normalize_nfc) (path_entries input.files)
      → Holds IsSound Anything
          (stage_admitted env print_diagnostics adapter_version to_lower_case input before digest)
          Reports
  unfolding stage_admitted
  Holds-stage_admitted before digest safe =
      let site = stage_input env print_diagnostics adapter_version to_lower_case input digest in
      let flat = token-flat site in
      Holds-bind IsSound Anything
        (λ r disk. Anything disk × (r.stage_token ≡ stage_token_for env print_diagnostics site))
        Reports _ _
        (Holds-after IsSound _ _ _ _ (λ r disk i q. (tt, q))
          (stage-Tokened env print_diagnostics site (site-AreInside digest flat safe)))
        (λ staged. Holds-fact IsSound Anything _ _ _ (λ same.
          Holds-if IsSound Anything Reports
            (has_blocking_finding
              (kernel_activate env print_diagnostics adapter_version to_lower_case input before
                digest).findings)
            _ _ (λ blocked. failed-Reports Anything _)
            (λ open_.
              Holds-activate_staged before digest staged.stage_token
                (rw same (stage-IsSegment (stage_token_for env print_diagnostics site) flat)))))

  Holds-stage_candidate :
      (before : Option String)
      → All (IsSafeEntry to_lower_case env.normalize_nfc) (path_entries input.files)
      → Holds IsSound Anything
          (stage_candidate env print_diagnostics adapter_version to_lower_case input before)
          Reports
  unfolding stage_candidate
  Holds-stage_candidate before safe =
      Holds-bind IsSound Anything Ends Reports _ _ (Keeps-when_ok IsSound _ _) (λ digest.
        Holds-if IsSound Anything Reports
          (has_blocking_finding
            (kernel_stage env print_diagnostics adapter_version to_lower_case input
              digest).findings)
          _ _ (λ blocked. failed-Reports Anything _)
          (λ open_. Holds-stage_admitted before digest safe))

  Holds-verdict :
      (verdict : Verdict) (m n : M DeployResult)
      → Holds IsSound Anything m Reports
      → Holds IsSound Anything n Reports
      → Holds IsSound Anything (elim verdict [ proceed ↦ m | refuse ↦ n ]) Reports
  Holds-verdict proceed m n h k = h
  Holds-verdict refuse m n h k = k

  Keeps-preflight :
      (entries : List ArtifactPathEntry) → Keeps IsSound (preflight env entries undefined)
  unfolding preflight fence_findings
  Keeps-preflight entries = Keeps-bind IsSound _ _ (Holds-prepare_root IsSound Anything env) (λ u.
      Keeps-bind IsSound _ _ (Keeps-gets IsSound _) (λ observed.
        Keeps-bind IsSound _ _ (Keeps-pure IsSound _) (λ fenced. Keeps-pure IsSound _)))

  Holds-preflight_admitted :
      (before : Option String)
      → All (IsSafeEntry to_lower_case env.normalize_nfc) (path_entries input.files)
      → Holds IsSound Anything
          (preflight_admitted env print_diagnostics adapter_version to_lower_case input before)
          Reports
  unfolding preflight_admitted after_preflight
  Holds-preflight_admitted before safe =
      Holds-bind IsSound Anything Ends Reports _ _ (Keeps-preflight _) (λ checked.
        Holds-verdict checked.verdict _ _ (Holds-stage_candidate before safe)
          (failed-Reports Anything _))

  deploy-Reports :
      Holds IsSound Anything
        (deploy_to_local_directory env print_diagnostics adapter_version to_lower_case input)
        Reports
  unfolding deploy_to_local_directory inspect_destination kernel_preflight
  deploy-Reports =
      Holds-bind IsSound Anything Ends Reports _ _
        (Keeps-bind IsSound _ _ (Holds-prepare_root IsSound Anything env)
          (λ u. Keeps-gets IsSound _))
        (λ before.
          Holds-bind IsSound Anything _ Reports _ _ (Holds-known IsSound Anything _ _) (λ evaluated.
            Holds-fact IsSound Anything _ _ _ (λ same.
              Holds-if IsSound Anything Reports (has_blocking_finding evaluated.findings) _ _
                (λ blocked. failed-Reports Anything _)
                (λ open_.
                  Holds-preflight_admitted before.current_generation_id
                    (preflight-safe to_lower_case env.normalize_nfc _ evaluated same open_)))))

  -- What a run ends with: where it reports an activation, that generation is served.
  abbrev pub EndsServed : Result AdapterError DeployResult → Disk → Type 0
  EndsServed (err e) disk = Unit
  EndsServed (ok r) disk = elim r.decision as (λ d. Type 0) [
    | activate_it ↦ read_current_generation_id disk ≡ some r.generation_id
    | reconcile_it ↦ Unit
  ]

  ends-EndsServed :
      (d : Decision) (g : String) (disk : Disk)
      → (d ≡ activate_it → IsCurrent g disk)
      → elim d as (λ d. Type 0) [
        | activate_it ↦ read_current_generation_id disk ≡ some g
        | reconcile_it ↦ Unit
      ]
  ends-EndsServed activate_it g disk h = h refl
  ends-EndsServed reconcile_it g disk h = tt

  Post-EndsServed :
      (r : Result AdapterError DeployResult) (disk : Disk) → Post Reports r disk → EndsServed r disk
  Post-EndsServed (ok r) disk h = ends-EndsServed r.decision r.generation_id disk h
  Post-EndsServed (err e) disk h = tt

  -- Where no digest holds a slash, from a sound destination every durable change of a deployment leaves a sound one, and so does its
  -- end; where it reports an activation, the pointer is then on the generation that it reports.
  pub deploy-EndsServed :
      (before : Disk)
      → IsSound before
      → let run =
          deploy_to_local_directory env print_diagnostics adapter_version to_lower_case input
            before in
        All IsSound run.seen × (IsSound run.last × EndsServed run.result run.last)
  unfolding Holds
  deploy-EndsServed before s =
      let (seen, (last, post)) = deploy-Reports before s tt in
      (seen, (last, Post-EndsServed _ _ post))
