-- ===== src/Action/DeployLocalDirectory/Complete.antt =====
-- A deployment that nothing stands against, from the activation on.
pub mod Deployed
use publish.Prelude.{
  String, Bool, true, false, not, Option, none, some, List, [], ◌≡◌, refl, sym, ap, subst, ◌∙◌,
  Result, ok, err, if◌then◌else◌,
}
use publish.Json.{Value, str, undefined}
use publish.Finding.{Finding, has_blocking_finding}
use publish.Protocol.Fence.{fence_for}
use publish.Kernel.Marker.{Diagnostic}
use publish.Kernel.Stages.{proceed, refuse, Verdict, StageEvaluation}
use publish.LocalDirectory.Disk.{
  Disk, Target, entry, stage_name, is_stage_name, target_of, target_exists, remove_target,
  directory_named, read_current_generation_id, list_release_generations,
}
use publish.LocalDirectory.Disk.Entries.{named-without_other, stage_name-is_stage_name}
use publish.LocalDirectory.Monad.{
  M, pure, gets, change, when_ok, fs_error, type_error, big_int_error, ◌>>=◌, ◌>>◌,
}
use publish.LocalDirectory.Monad.Total.{
  Returns, Total, Total-bind, Total-pure, Total-gets, Total-change, Total-when_ok, Total-fact,
  Total-known, Total-after, Total-read, Total-if, Total-weaken,
}
use publish.LocalDirectory.FsSafety.Removable.{entry-IsOneSegment, segment-assert_removable}
use publish.LocalDirectory.Environment.{Environment, remove_contained_tree}
use publish.LocalDirectory.Environment.Prepared.{IsPrepared, Total-prepare_root}
use publish.LocalDirectory.Stage.{
  StageInput, stage_result, stage_token_for, remove_if_there, cleanup_release, cleanup_staged,
}
use publish.LocalDirectory.Activate.{activate_it, outcome_of}
use publish.LocalDirectory.Activate.Unchanged.{unchanged}
use publish.LocalDirectory.Observe.{
  Observation, PreflightResult, inspect_destination, inspection, preflight, preflight_result,
  symlink_findings, fence_findings, is_empty, observe,
}
use publish.LocalDirectory.Safety.{IsPlain, IsSegment}
use publish.LocalDirectory.Safety.Changes.{apart-stage, release_names-without}
use publish.LocalDirectory.Publishing.{
  activation_of, IsDeployable, IsDeployed, Deployment, AfterStage, Total-stage, Total-activate,
}
use publish.LocalDirectory.Publishing.Observed.{observation_for, deployed-verified}
use publish.Action.DeployLocalDirectory.{
  DeployInput, DeployResult, stage_input, activation_input, kernel_preflight, kernel_stage,
  kernel_activate, kernel_cleanup, unverified_findings, clean_up, activate_staged, stage_admitted,
  stage_candidate, after_preflight, preflight_admitted, deploy_to_local_directory, path_entries,
}

module _ (env : Environment) (print_diagnostics : List Diagnostic → String) where
  -- The stage is removed where it is still there; what is served stays.
  IsDeployed-remove :
      (input : StageInput) (before : Disk) (name : String) (disk : Disk)
      → is_stage_name name ≡ true
      → IsSegment name
      → IsPlain input.generation_id
      → IsDeployed env print_diagnostics input before disk
      → IsDeployed env print_diagnostics input before (remove_target (target_of name) disk)
  unfolding remove_target read_current_generation_id list_release_generations
  IsDeployed-remove input before name disk staged segment plain d = rw (segment.0) (record {
    there =
        named-without_other name input.generation_id disk.releases
          (apart-stage name input.generation_id staged plain.1)
        ∙ d.there;
    current = d.current;
    history = d.history;
    swept = release_names-without _ name disk.releases d.swept;
  })

  Total-remove_if_there :
      (input : StageInput) (before : Disk) (there : Bool) (token : String)
      → IsSegment (stage_name token)
      → IsPlain input.generation_id
      → Total
          (IsDeployed env print_diagnostics input before)
          (remove_if_there env there (stage_name token))
          (λ _. IsDeployed env print_diagnostics input before)
  unfolding remove_if_there remove_contained_tree
  Total-remove_if_there input before false token segment plain = Total-pure _ _ false (λ disk d. d)
  Total-remove_if_there input before true token segment plain =
      let P = IsDeployed env print_diagnostics input before in
      let name = stage_name token in
      let one = entry-IsOneSegment name segment.0 segment.1 in
      Total-bind P (λ _. P) _ _ _
        (Total-known P _ _ _ tt
          (Total-when_ok P fs_error _ tt (
            segment-assert_removable env.root name one.some_name one.one_dot one.two_dots
              one.whole))
          (Total-change P P _ (λ disk d.
            IsDeployed-remove input before name disk (stage_name-is_stage_name token) segment plain
              d)))
        (λ u. Total-pure P _ true (λ disk d. d))

  Total-cleanup_staged :
      (input : StageInput) (before : Disk) (token : String)
      → IsPrepared env
      → IsSegment (stage_name token)
      → IsPlain input.generation_id
      → Total
          (IsDeployed env print_diagnostics input before)
          (cleanup_staged env token none)
          (λ _. IsDeployed env print_diagnostics input before)
  unfolding cleanup_staged cleanup_release
  Total-cleanup_staged input before token prepared segment plain =
      let P = IsDeployed env print_diagnostics input before in
      Total-bind P (λ _. P) _ _ _ (Total-prepare_root P env prepared)
        (λ u.
          Total-bind P (λ _. P) _ _ _ (Total-after _ _ _ _ (λ a disk q. q.0) (Total-gets P _))
            (λ disk.
              Total-bind P (λ _. P) _ _ _ (Total-remove_if_there input before _ token segment plain)
                (λ existed.
                  Total-bind P (λ _. P) _ _ _ (Total-pure P _ false (λ disk d. d))
                    (λ other. Total-pure P _ _ (λ disk d. d)))))

  Total-observe :
      (input : StageInput) (expected : Value) (before : Disk)
      → IsDeployable env print_diagnostics input expected before
      → Total
          (IsDeployed env print_diagnostics input before)
          (observe env (observation_for input))
          (λ o disk. IsDeployed env print_diagnostics input before disk × (o.verified ≡ true))
  unfolding Total
  Total-observe input expected before able disk d =
      let run = deployed-verified env print_diagnostics input expected before disk able d in
      record {
        value = run.value;
        returned = run.returned;
        holds = (
          subst (IsDeployed env print_diagnostics input before) (sym run.holds.1) d,
          run.holds.0,
        );
      }

module _ (env : Environment) (print_diagnostics : List Diagnostic → String)
    (adapter_version : String) (to_lower_case : String → String) (input : DeployInput) where
  abbrev pub fence_of : Disk → Value
  fence_of before = str (fence_for (read_current_generation_id before))

  -- What a deployment asks for: the kernel's evaluations have no blocking finding, no path of the
  -- candidate meets a link, and the stage can be written and activated.
  pub record IsAdmitted (digest : String) (before : Disk) : Type 0 where
    pub evaluated : StageEvaluation
    pub admitted_preflight :
        kernel_preflight env print_diagnostics adapter_version to_lower_case input before
        ≡ unchanged before (ok evaluated)
    pub unblocked : has_blocking_finding evaluated.findings ≡ false
    pub unlinked : symlink_findings env (path_entries input.files) ≡ []
    pub admitted_stage :
        has_blocking_finding
          (kernel_stage env print_diagnostics adapter_version to_lower_case input digest).findings
        ≡ false
    pub admitted_activate :
        has_blocking_finding
          (kernel_activate env print_diagnostics adapter_version to_lower_case input
            (read_current_generation_id before)
            digest).findings
        ≡ false
    pub deployable :
        IsDeployable env print_diagnostics
          (stage_input env print_diagnostics adapter_version to_lower_case input digest)
          (fence_of before)
          before

  -- What it ends with.
  abbrev pub IsComplete : String → Disk → DeployResult → Disk → Type 0
  IsComplete digest before r disk =
      ((r.decision ≡ activate_it) × ((r.generation_id ≡ input.generation_id) × (r.findings ≡ [])))
      × IsDeployed env print_diagnostics
          (stage_input env print_diagnostics adapter_version to_lower_case input digest) before disk

  pub known-Total :
      {A : Type 0} (m : M A) (before : Disk) (a : A)
      → m before ≡ unchanged before (ok a)
      → Total (λ disk. disk ≡ before) m (λ b disk. (disk ≡ before) × (b ≡ a))
  unfolding Total
  known-Total m before a e disk same =
      rw same
        (record { value = a; returned = ap (λ r. r.result) e; holds = (ap (λ r. r.last) e, refl) })

  Total-clean_up :
      (digest : String) (before : Disk) (token : String)
      → IsAdmitted digest before
      → IsSegment (stage_name token)
      → Total
          (IsDeployed env print_diagnostics
            (stage_input env print_diagnostics adapter_version to_lower_case input digest)
            before)
          (clean_up env print_diagnostics adapter_version to_lower_case input digest token)
          (λ _.
            IsDeployed env print_diagnostics
              (stage_input env print_diagnostics adapter_version to_lower_case input digest)
              before)
  unfolding clean_up
  Total-clean_up digest before token able segment =
      let site = stage_input env print_diagnostics adapter_version to_lower_case input digest in
      let P = IsDeployed env print_diagnostics site before in
      Total-if P (λ _. P)
        (not (
          has_blocking_finding
            (kernel_cleanup env print_diagnostics adapter_version to_lower_case input
              digest).findings))
        _ _
        (λ going.
          Total-bind P (λ _. P) _ _ _
            (Total-cleanup_staged env print_diagnostics site before token
              able.deployable.stageable.prepared segment able.deployable.plain)
            (λ removed. Total-pure P _ tt (λ disk d. d)))
        (λ held. Total-pure P _ tt (λ disk d. d))

  no_findings :
      (o : Observation)
      → o.verified ≡ true
      → unverified_findings env print_diagnostics adapter_version to_lower_case input o ≡ []
  unfolding unverified_findings
  no_findings o e = rw e refl

  pub Total-activate_staged :
      (digest : String) (before : Disk)
      → IsAdmitted digest before
      → let site = stage_input env print_diagnostics adapter_version to_lower_case input digest in
        Total
          (λ disk.
            AfterStage env print_diagnostics site before
              (stage_result env print_diagnostics site false)
              disk)
          (activate_staged env print_diagnostics adapter_version to_lower_case input
            (read_current_generation_id before)
            digest
            (stage_token_for env print_diagnostics site))
          (IsComplete digest before)
  unfolding activate_staged activation_input stage_input outcome_of
  Total-activate_staged digest before able =
      let site = stage_input env print_diagnostics adapter_version to_lower_case input digest in
      let P = IsDeployed env print_diagnostics site before in
      Total-bind _
        (λ a disk.
          P disk
          × (a
              ≡ outcome_of (activation_of env print_diagnostics site (fence_of before)) activate_it
                  (read_current_generation_id before) false))
        (IsComplete digest before) _ _
        (Total-weaken _ _ _ _ (λ disk q. q.0)
          (Total-after _ _ _ _ (λ a disk q. (q.1, q.0))
            (Total-activate env print_diagnostics site (fence_of before) before able.deployable)))
        (λ activation. Total-fact P _ _ _ (λ e. rw e (
          Total-bind P (λ o disk. P disk × (o.verified ≡ true)) _ _ _
            (Total-observe env print_diagnostics site (fence_of before) before able.deployable)
            (λ observed. Total-fact P _ _ _ (λ verified.
              Total-bind P (λ _. P) _ _ _
                (Total-clean_up digest before _ able able.deployable.segment)
                (λ u.
                  Total-pure P _ _
                    (λ disk d. ((refl, (refl, no_findings observed verified)), d))))))))
