-- ===== src/Action/DeployLocalDirectory/Complete/Deployed.antt =====
-- The whole of a deployment that nothing stands against.
use publish.Prelude.{String, List, [], ◌≡◌, refl, ap, ◌∙◌}
use publish.Json.{undefined}
use publish.Kernel.Marker.{Diagnostic}
use publish.Kernel.Stages.{proceed, refuse, Verdict}
use publish.LocalDirectory.Disk.{Disk, read_current_generation_id}
use publish.LocalDirectory.Monad.{M}
use publish.LocalDirectory.Monad.Total.{
  Returns, Total, Total-bind, Total-pure, Total-gets, Total-when_ok, Total-fact, Total-known,
  Total-after, Total-weaken,
}
use publish.LocalDirectory.Environment.{Environment}
use publish.LocalDirectory.Environment.Prepared.{IsPrepared, Total-prepare_root}
use publish.LocalDirectory.Stage.{stage_result}
use publish.LocalDirectory.Observe.{
  inspect_destination, inspection, preflight, preflight_result, symlink_findings, fence_findings,
  is_empty,
}
use publish.LocalDirectory.Publishing.{AfterStage, Total-stage}
use publish.Action.DeployLocalDirectory.{
  DeployInput, DeployResult, stage_input, stage_admitted, stage_candidate, after_preflight,
  preflight_admitted, deploy_to_local_directory, path_entries,
}
use publish.Action.DeployLocalDirectory.Complete.{
  fence_of, IsAdmitted, IsComplete, known-Total, Total-activate_staged,
}

module _ (env : Environment) (print_diagnostics : List Diagnostic → String)
    (adapter_version : String) (to_lower_case : String → String) (input : DeployInput) where
  abbrev pub IsFinished : String → Disk → DeployResult → Disk → Type 0
  IsFinished = IsComplete env print_diagnostics adapter_version to_lower_case input

  Total-stage_admitted :
      (digest : String) (before : Disk)
      → IsAdmitted env print_diagnostics adapter_version to_lower_case input digest before
      → Total
          (λ disk. disk ≡ before)
          (stage_admitted env print_diagnostics adapter_version to_lower_case input
            (read_current_generation_id before)
            digest)
          (IsFinished digest before)
  unfolding stage_admitted stage_result
  Total-stage_admitted digest before able =
      let site = stage_input env print_diagnostics adapter_version to_lower_case input digest in
      Total-bind _ (AfterStage env print_diagnostics site before) _ _ _
        (Total-stage env print_diagnostics site
          (fence_of env print_diagnostics adapter_version to_lower_case input before) before
          able.deployable)
        (λ staged. Total-fact _ _ _ _ (λ e. rw e (
          rw able.admitted_activate (
            Total-weaken _ _ _ _ (λ disk q. (q, refl))
              (Total-activate_staged env print_diagnostics adapter_version to_lower_case input
                digest before able)))))

  Total-stage_candidate :
      (digest : String) (before : Disk)
      → IsAdmitted env print_diagnostics adapter_version to_lower_case input digest before
      → Total
          (λ disk. disk ≡ before)
          (stage_candidate env print_diagnostics adapter_version to_lower_case input
            (read_current_generation_id before))
          (IsFinished digest before)
  unfolding stage_candidate stage_input
  Total-stage_candidate digest before able =
      Total-known _ _ _ _ digest (Total-when_ok _ _ _ digest able.deployable.digest)
        (rw able.admitted_stage (Total-stage_admitted digest before able))

  Total-preflight :
      (before : Disk)
      → IsPrepared env
      → symlink_findings env (path_entries input.files) ≡ []
      → Total
          (λ disk. disk ≡ before)
          (preflight env (path_entries input.files) undefined)
          (λ c disk. (disk ≡ before) × (c.verdict ≡ proceed))
  unfolding preflight fence_findings preflight_result is_empty
  Total-preflight before prepared free =
      let P : Disk → Type 0 = λ disk. disk ≡ before in
      Total-bind P (λ _. P) _ _ _ (Total-prepare_root P env prepared)
        (λ u.
          Total-bind P (λ _. P) _ _ _ (Total-after _ _ _ _ (λ a disk q. q.0) (Total-gets P _))
            (λ observed.
              Total-known P _ _ _ [] (Total-pure P _ [] (λ disk e. (e, refl)))
                (rw free (Total-pure P _ _ (λ disk e. (e, refl))))))

  Total-verdict :
      (v : Verdict) (m n : M DeployResult) (P : Disk → Type 0) (Q : DeployResult → Disk → Type 0)
      → v ≡ proceed
      → Total P m Q
      → Total P (elim v [ proceed ↦ m | refuse ↦ n ]) Q
  Total-verdict v m n P Q e h = rw e h

  Total-preflight_admitted :
      (digest : String) (before : Disk)
      → IsAdmitted env print_diagnostics adapter_version to_lower_case input digest before
      → Total
          (λ disk. disk ≡ before)
          (preflight_admitted env print_diagnostics adapter_version to_lower_case input
            (read_current_generation_id before))
          (IsFinished digest before)
  unfolding preflight_admitted after_preflight
  Total-preflight_admitted digest before able =
      Total-bind _ (λ c disk. (disk ≡ before) × (c.verdict ≡ proceed)) _ _ _
        (Total-preflight before able.deployable.stageable.prepared able.unlinked)
        (λ checked.
          Total-fact _ _ _ _ (λ e.
            Total-verdict checked.verdict _ _ _ _ e (Total-stage_candidate digest before able)))

  -- A deployment that nothing stands against returns an activation of its generation without a
  -- finding. The destination then serves the files that were read, under a marker that names them,
  -- the retained history is the one of the new certification, and every release on it is retained.
  pub deploy_complete :
      (digest : String) (before : Disk)
      → IsAdmitted env print_diagnostics adapter_version to_lower_case input digest before
      → Returns (IsFinished digest before) (
          deploy_to_local_directory env print_diagnostics adapter_version to_lower_case input
            before)
  unfolding deploy_to_local_directory inspect_destination inspection Total
  deploy_complete digest before able =
      let P : Disk → Type 0 = λ disk. disk ≡ before in
      let run : Total P
          (deploy_to_local_directory env print_diagnostics adapter_version to_lower_case input)
          (IsFinished digest before) =
        Total-known P _ _ _ (inspection before)
          (Total-bind P (λ _. P) _ _ _ (Total-prepare_root P env able.deployable.stageable.prepared)
            (λ u.
              Total-after _ _ _ _ (λ a disk q. (q.0, q.1 ∙ ap inspection q.0))
                (Total-gets P inspection)))
          (Total-known P _ _ _ able.evaluated
            (known-Total env print_diagnostics adapter_version to_lower_case input _ before
              able.evaluated able.admitted_preflight)
            (rw able.unblocked (Total-preflight_admitted digest before able))) in
      run before refl
