-- ===== src/Examples/Deployments.antt =====
-- A deployment of two files into an empty destination, and one that the kernel refuses.
use publish.Prelude.{String, true, false, none, [], ◌∷◌, ◌≡◌, refl, ok, All}
use publish.Finding.{has_blocking_finding}
use publish.Kernel.Stages.{StageEvaluation, proceed}
use publish.LocalDirectory.Disk.{read_current_generation_id}
use publish.LocalDirectory.Monad.Total.{Returns}
use publish.LocalDirectory.Stage.{stage_token_for}
use publish.LocalDirectory.Stage.Complete.{IsStageable, IsUnstaged}
use publish.LocalDirectory.Activate.Unchanged.{unchanged}
use publish.LocalDirectory.Activate.Promoted.{IsFenced}
use publish.LocalDirectory.Observe.{symlink_findings}
use publish.LocalDirectory.Publishing.{activation_of, IsDeployable}
use publish.LocalDirectory.Safety.{IsSound}
use publish.Examples.LocalDirectory.{
  place, no_diagnostics, blank, page, style, place-IsPrepared, blank-IsSound, plain, site-digest,
}
use publish.Action.DeployLocalDirectory.{
  DeployInput, stage_input, kernel_preflight, kernel_stage, kernel_activate, path_entries,
  deploy_to_local_directory,
}
use publish.Action.DeployLocalDirectory.Settled.{EndsServed, deploy-EndsServed}
use publish.Examples.LocalDirectory.{site-AreInside, site-IsSegment}
use publish.Action.DeployLocalDirectory.Complete.{fence_of, IsAdmitted}
use publish.Action.DeployLocalDirectory.Complete.Deployed.{IsFinished, deploy_complete}
use publish.LocalDirectory.Monad.{when_ok}
use publish.Kernel.Stages.{evaluate_preflight}
use publish.Kernel.BoundedResources.{check_bounded_resources}
use publish.Kernel.BoundedResources.{push_if_exceeded}
use publish.Kernel.BoundedResources.BigInt.{big_int}
use publish.Kernel.BoundedResources.BigInt.{text_integer}
use publish.Kernel.BoundedResources.BigInt.{trim_end}
use publish.Kernel.BoundedResources.BigInt.{trim_start}
use publish.LocalDirectory.Stage.{total_bytes}
use publish.Json.Print.{decimal}
use publish.LocalDirectory.Stage.{sum_bytes}
use publish.Kernel.BoundedResources.BigInt.{is_space}
use publish.Kernel.BoundedResources.BigInt.{digits}
use publish.Kernel.BoundedResources.BigInt.{digits_from}
use publish.Action.DeployLocalDirectory.{longest_path_bytes}
use publish.LocalDirectory.Monad.{pure}
use publish.LocalDirectory.Observe.{symlink_finding}
use publish.LocalDirectory.FsSafety.{assert_no_escaping_symlink}
use publish.LocalDirectory.FsSafety.{walk_segments}
use publish.LocalDirectory.FsSafety.{join_segment}
use publish.LocalDirectory.FsSafety.{at_node}
use publish.Kernel.Stages.{evaluate_stage}
use publish.Kernel.Stages.{evaluation}
use publish.Kernel.ArtifactIdentity.{check_artifact_identity_agreement}
use publish.Kernel.DestinationAuthority.{check_destination_authority}
use publish.Kernel.DestinationAuthority.{changes}
use publish.Kernel.DestinationAuthority.{differs}
use publish.Action.DeployLocalDirectory.{destination_identity}
use publish.Kernel.Fencing.{decide_idempotency}
use publish.Kernel.Fencing.{identity_findings}
use publish.Kernel.Fencing.{check_identity_syntax}
use publish.Protocol.StableId.{is_stable_id}
use publish.Finding.{blocks}
use publish.Kernel.Fencing.{identity_invalid}
use publish.Kernel.Stages.{evaluate_activate}
use publish.Kernel.Activation.{decide_staged_activation}
use publish.Kernel.Activation.{decide_on}
use publish.Kernel.Fencing.{check_concurrency_fence}
use publish.Kernel.Fencing.{check_resolved}
use publish.Protocol.Fence.{require_generation_fence}
use publish.Protocol.Fence.{fence_for}
use publish.LocalDirectory.Disk.{generation_of_link}
use publish.Kernel.Fencing.{check_observation}
use publish.Protocol.Fence.{fence_disagrees}
use publish.LocalDirectory.Disk.{directory_named}
use publish.LocalDirectory.Stage.{is_generation_active}
use publish.Kernel.Containment.{includes}
use publish.Kernel.Containment.{check_path_containment}
use publish.Kernel.Containment.{kind_findings}
use publish.Kernel.Containment.{is_admitted}
use publish.Kernel.Containment.{syntax_findings}
use publish.Kernel.Containment.{check_path_syntax}
use publish.Kernel.Containment.{push_if}
use publish.Kernel.Containment.{begins_with}
use publish.Kernel.Containment.{segments_of}
use publish.Kernel.Containment.{is_dots}
use publish.Kernel.Containment.{is_dot_or_empty}
use publish.Kernel.Containment.{reserved_violations}
use publish.Kernel.Containment.{has}
use publish.Kernel.Containment.{stem_of}
use publish.Kernel.Containment.{collision_findings}
use publish.Kernel.Containment.{colliding}
use publish.Kernel.Containment.{lookup}
use publish.Kernel.Containment.{next_seen}
use publish.Kernel.Containment.{insert}
use publish.Action.DeployLocalDirectory.{longest_of}
use publish.LocalDirectory.FsSafety.{byte_length}
use publish.LocalDirectory.FsSafety.{utf8_size}
use publish.Kernel.DestinationAuthority.{check_destination_ownership}
use publish.Kernel.Secrets.{find_secret_exposure}
use publish.Kernel.Secrets.{walk_exposure}
use publish.Kernel.Secrets.{bears_credential}
use publish.Kernel.Secrets.{is_credential_key}
use publish.Kernel.Secrets.Pattern.{is_match}
use publish.Kernel.Secrets.{visit_exposure}
use publish.Kernel.Secrets.{is_credential_value}
use publish.Kernel.Secrets.{walk_keys}
use publish.Kernel.Fencing.{decide_same_key}
use publish.Kernel.Marker.{check_generation_marker}

abbrev same_case : String → String
same_case s = s

abbrev upload : DeployInput
upload = record {
  files = page ∷ style ∷ [];
  manifest_digest = "sha256:mm";
  route_count = 1;
  artifact_id = "art";
  generation_id = "g-1";
  operation_id = "01890000-0000-7000-8000-000000000001";
  attempt_id = "01890000-0000-7000-8000-000000000002";
  idempotency_key = "01890000-0000-7000-8000-000000000003";
}

abbrev clear : StageEvaluation
clear = record { verdict = proceed; findings = [] }

upload-preflight :
    kernel_preflight place no_diagnostics "1.0.0" same_case upload blank
    ≡ unchanged blank (ok clear)
unfolding kernel_preflight when_ok evaluate_preflight check_bounded_resources push_if_exceeded
    big_int text_integer trim_end trim_start total_bytes decimal sum_bytes is_space digits
    digits_from longest_path_bytes pure evaluation has_blocking_finding check_path_containment
    path_entries kind_findings is_admitted syntax_findings check_path_syntax push_if begins_with
    includes segments_of is_dots is_dot_or_empty reserved_violations has stem_of collision_findings
    colliding lookup next_seen insert longest_of byte_length utf8_size check_destination_ownership
    differs destination_identity find_secret_exposure walk_exposure bears_credential
    is_credential_key is_match visit_exposure is_credential_value walk_keys
upload-preflight = refl

clear-unblocked : has_blocking_finding clear.findings ≡ false
unfolding has_blocking_finding
clear-unblocked = refl

upload-unlinked : symlink_findings place (path_entries upload.files) ≡ []
unfolding symlink_findings path_entries symlink_finding assert_no_escaping_symlink walk_segments
    join_segment at_node
upload-unlinked = refl

upload-stage :
    has_blocking_finding
      (kernel_stage place no_diagnostics "1.0.0" same_case upload "sha256:aa").findings
    ≡ false
unfolding kernel_stage has_blocking_finding evaluate_stage evaluation
    check_artifact_identity_agreement check_destination_authority changes differs
    destination_identity decide_idempotency identity_findings check_identity_syntax is_stable_id
    blocks identity_invalid decide_same_key
upload-stage = refl

upload-activate :
    has_blocking_finding
      (kernel_activate place no_diagnostics "1.0.0" same_case upload
        (read_current_generation_id blank)
        "sha256:aa").findings
    ≡ false
unfolding kernel_activate has_blocking_finding evaluate_activate evaluation
    check_destination_authority changes differs destination_identity decide_staged_activation
    decide_on check_concurrency_fence check_resolved require_generation_fence fence_for
    read_current_generation_id generation_of_link check_observation fence_disagrees
    check_generation_marker
upload-activate = refl

upload-IsStageable :
    IsStageable place no_diagnostics
      (stage_input place no_diagnostics "1.0.0" same_case upload "sha256:aa")
unfolding stage_input assert_no_escaping_symlink walk_segments join_segment at_node stage_token_for
upload-IsStageable = record {
  prepared = place-IsPrepared;
  files = (refl, (refl, (refl, (refl, tt))));
  within = site-AreInside;
  unlinked = refl;
  unlinked_files = (refl, (refl, tt));
  marker = refl;
}

upload-IsUnstaged :
    IsUnstaged place no_diagnostics
      (stage_input place no_diagnostics "1.0.0" same_case upload "sha256:aa")
      blank
unfolding stage_input directory_named
upload-IsUnstaged = record { journal = refl; missing = refl }

upload-IsFenced :
    IsFenced place
      (activation_of place no_diagnostics
        (stage_input place no_diagnostics "1.0.0" same_case upload "sha256:aa")
        (fence_of place no_diagnostics "1.0.0" same_case upload blank))
      (read_current_generation_id blank)
unfolding stage_input require_generation_fence fence_for read_current_generation_id
    generation_of_link fence_disagrees is_generation_active
upload-IsFenced = record {
  fence = record { expects_nothing_served = true; generation_id = none };
  required = refl;
  agrees = refl;
  inactive = refl;
}

upload-IsDeployable :
    IsDeployable place no_diagnostics
      (stage_input place no_diagnostics "1.0.0" same_case upload "sha256:aa")
      (fence_of place no_diagnostics "1.0.0" same_case upload blank)
      blank
unfolding stage_input directory_named assert_no_escaping_symlink walk_segments join_segment at_node
    stage_token_for
upload-IsDeployable = record {
  stageable = upload-IsStageable;
  unstaged = upload-IsUnstaged;
  sound = blank-IsSound;
  plain = plain;
  segment = site-IsSegment;
  missing = refl;
  unlinked = refl;
  digest = site-digest;
  fenced = upload-IsFenced;
}

upload-IsAdmitted : IsAdmitted place no_diagnostics "1.0.0" same_case upload "sha256:aa" blank
upload-IsAdmitted = record {
  evaluated = clear;
  admitted_preflight = upload-preflight;
  unblocked = clear-unblocked;
  unlinked = upload-unlinked;
  admitted_stage = upload-stage;
  admitted_activate = upload-activate;
  deployable = upload-IsDeployable;
}

deploy_complete_example :
    Returns
      (IsFinished place no_diagnostics "1.0.0" same_case upload "sha256:aa" blank)
      (deploy_to_local_directory place no_diagnostics "1.0.0" same_case upload blank)
deploy_complete_example =
    deploy_complete place no_diagnostics "1.0.0" same_case upload "sha256:aa" blank
      upload-IsAdmitted

no_slash : (s : String) → includes 47 (place.sha256 s) ≡ false
unfolding includes
no_slash s = refl

deploy-EndsServed_example :
    let run = deploy_to_local_directory place no_diagnostics "1.0.0" same_case upload blank in
    All IsSound run.seen
    × (IsSound run.last
        × EndsServed place no_diagnostics "1.0.0" same_case upload plain no_slash run.result
            run.last)
deploy-EndsServed_example =
    deploy-EndsServed place no_diagnostics "1.0.0" same_case upload plain no_slash blank
      blank-IsSound

-- A path that leads out of the destination.
abbrev outside : DeployInput
outside = record upload { files = record page { path = "../x" } ∷ [] }
