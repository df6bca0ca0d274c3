-- ===== src/Examples/LocalDirectory.antt =====
-- A root with nothing in it, a deployment into it, and what follows.
use publish.Prelude.{arith, String, true, Option, none, some, List, [], ◌∷◌, ◌≡◌, refl, ok}
use publish.Json.{Value, str}
use publish.Protocol.ArtifactDigest.{
  StagedFile, compute_artifact_digest, entry_items, entry_value, sort_entries,
  project_artifact_entry, sha256_hex, path_before, place as place_entry,
}
use publish.Protocol.Digest.{domain_digest, canonicalize_json}
use publish.Kernel.Marker.{Diagnostic}
use publish.LocalDirectory.FsSafety.{directory, Lstat}
use publish.LocalDirectory.Disk.{Disk}
use publish.LocalDirectory.Environment.{Environment}
use publish.LocalDirectory.Stage.{StageInput}
use publish.LocalDirectory.Monad.Total.{Returns}
use publish.Protocol.Fence.{require_generation_fence, fence_disagrees}
use publish.Protocol.Loader.{starts_with}
use publish.Kernel.Containment.{includes}
use publish.LocalDirectory.FsSafety.{assert_valid_root, bootstrap, assert_no_escaping_symlink}
use publish.LocalDirectory.Disk.{
  directory_named, read_current_generation_id, generation_of_link, list_release_generations,
  release_names, target_of, is_stage_name,
}
use publish.LocalDirectory.Environment.Prepared.{IsPrepared}
use publish.LocalDirectory.Stage.{stage_token_for, is_generation_active}
use publish.LocalDirectory.Stage.Complete.{IsStageable, IsUnstaged}
use publish.LocalDirectory.Activate.Promoted.{IsFenced}
use publish.LocalDirectory.Safety.{IsSound, IsPlain}
use publish.LocalDirectory.Publishing.{deploy, activation_of, IsDeployable, deploy-deployed}
use publish.Kernel.Containment.{begins_with}
use publish.LocalDirectory.FsSafety.{ends_with_slash}
use publish.LocalDirectory.FsSafety.{byte_length}
use publish.LocalDirectory.FsSafety.{utf8_size}
use publish.Kernel.Containment.{segments_of}
use publish.LocalDirectory.FsSafety.{dotted}
use publish.LocalDirectory.FsSafety.{check_root_node}
use publish.LocalDirectory.FsSafety.{ensure_safe_directory}
use publish.LocalDirectory.FsSafety.{walk_segments}
use publish.LocalDirectory.FsSafety.{join_segment}
use publish.LocalDirectory.FsSafety.{at_node}
use publish.Protocol.Digest.{digest_of_text}
use publish.Protocol.Digest.{brackets}
use publish.Protocol.Digest.{before}
use publish.Protocol.Digest.{text_units}
use publish.Protocol.Digest.{prepend_units}
use publish.Protocol.Digest.{with_item}
use publish.Protocol.Digest.{braces}
use publish.Protocol.Digest.{put_member}
use publish.Protocol.Digest.{is_undefined}
use publish.Protocol.Digest.{with_member}
use publish.Prelude.{All, inl}
use publish.LocalDirectory.Disk.{Directory, stage_name}
use publish.LocalDirectory.Stage.{stage}
use publish.LocalDirectory.Stage.Served.{IsServedAs, stage-served}
use publish.LocalDirectory.Activate.{ActivateInput, activate}
use publish.LocalDirectory.Activate.Guarded.{IsGuarded, activate-IsGuarded}
use publish.LocalDirectory.Disk.{place_of, is_normal, target_of}
use publish.LocalDirectory.Stage.{slice_text}
use publish.LocalDirectory.Stage.Kept.{AreInside}
use publish.LocalDirectory.Safety.{IsSegment}
use publish.Prelude.{◌⊎◌}
use publish.LocalDirectory.Observe.{observe}
use publish.LocalDirectory.Publishing.Observed.{observation_for, deployed-verified}
use publish.LocalDirectory.Safety.Reachable.{Serves, Reach-Serves, here, next, staging}

abbrev bare : Lstat
bare [] = some directory
bare (s ∷ ss) = none

abbrev pub place : Environment
place = record {
  root = "/srv";
  normalize_nfc = λ s. s;
  lstat = bare;
  mode = λ p. 493;
  sha256 = λ s. "aa";
  sha256_bytes = λ b. "bb";
  validate = λ schema v. record { valid = true; diagnostics = [] };
  parse_json = λ b. none;
  now = "2026-01-01T00:00:00.000Z";
}

abbrev pub no_diagnostics : List Diagnostic → String
no_diagnostics ds = "[]"

abbrev pub blank : Disk
blank = record { releases = []; current = none; history = []; journal = [] }

abbrev pub page : StagedFile
page = record { path = "a/x"; bytes = 1 ∷ 2 ∷ [] }

abbrev pub style : StagedFile
style = record { path = "b"; bytes = [] }

abbrev site : StageInput
site = record {
  operation_id = "o";
  attempt_id = "a";
  idempotency_key = "k";
  generation_id = "g-1";
  artifact_id = "art";
  artifact_digest = "sha256:aa";
  files = page ∷ style ∷ [];
}

abbrev nothing_served : Value
nothing_served = str "gala:expect-nothing-served"

pub place-IsPrepared : IsPrepared place
unfolding assert_valid_root bootstrap begins_with includes ends_with_slash byte_length utf8_size
    segments_of dotted check_root_node ensure_safe_directory
place-IsPrepared = record { ready = refl; made = refl }

pub site-AreInside : AreInside (stage_name (stage_token_for place no_diagnostics site)) site.files
unfolding place_of is_normal includes segments_of stage_name stage_token_for slice_text
site-AreInside = (refl, (refl, tt))

pub site-IsSegment : IsSegment (stage_name (stage_token_for place no_diagnostics site))
unfolding target_of stage_name stage_token_for slice_text includes
site-IsSegment = (refl, refl)

site-IsStageable : IsStageable place no_diagnostics site
unfolding assert_no_escaping_symlink stage_token_for walk_segments join_segment at_node
site-IsStageable = record {
  prepared = place-IsPrepared;
  files = (refl, (refl, (refl, (refl, tt))));
  within = site-AreInside;
  unlinked = refl;
  unlinked_files = (refl, (refl, tt));
  marker = refl;
}

blank-IsUnstaged : IsUnstaged place no_diagnostics site blank
unfolding directory_named
blank-IsUnstaged = record { journal = refl; missing = refl }

pub blank-IsSound : IsSound blank
unfolding read_current_generation_id generation_of_link list_release_generations release_names
blank-IsSound = record { serving = λ g at. absurd (ground arith); names = tt }

pub plain : IsPlain "g-1"
unfolding target_of includes is_stage_name starts_with
plain = ((refl, refl), refl)

first-IsFenced :
    IsFenced place
      (activation_of place no_diagnostics site nothing_served)
      (read_current_generation_id blank)
unfolding require_generation_fence fence_disagrees is_generation_active read_current_generation_id
    generation_of_link
first-IsFenced = record {
  fence = record { expects_nothing_served = true; generation_id = none };
  required = refl;
  agrees = refl;
  inactive = refl;
}

pub site-digest :
    compute_artifact_digest place.sha256 place.sha256_bytes site.files ≡ ok "sha256:aa"
unfolding compute_artifact_digest domain_digest canonicalize_json entry_items entry_value
    sort_entries place_entry project_artifact_entry sha256_hex path_before digest_of_text brackets
    before text_units prepend_units with_item braces put_member is_undefined with_member
site-digest = refl

site-IsDeployable : IsDeployable place no_diagnostics site nothing_served blank
unfolding directory_named assert_no_escaping_symlink walk_segments join_segment at_node
site-IsDeployable = record {
  stageable = site-IsStageable;
  unstaged = blank-IsUnstaged;
  sound = blank-IsSound;
  plain = plain;
  segment = site-IsSegment;
  missing = refl;
  unlinked = refl;
  digest = site-digest;
  fenced = first-IsFenced;
}

-- The disk after the deployment.
abbrev deployed : Disk
deployed = (deploy place no_diagnostics site nothing_served blank).last

deployed-verified_example :
    Returns
      (λ o after. (o.verified ≡ true) × (after ≡ deployed))
      (observe place (observation_for site) deployed)
deployed-verified_example =
    deployed-verified place no_diagnostics site nothing_served blank deployed site-IsDeployable
      (deploy-deployed place no_diagnostics site nothing_served blank site-IsDeployable).holds.1

-- The disk after a staging.
abbrev staged : Disk
staged = (stage place no_diagnostics site blank).last

Reach-Serves_example : Serves no_diagnostics staged (read_current_generation_id staged)
Reach-Serves_example =
    Reach-Serves no_diagnostics blank staged blank-IsSound
      (next here (staging place site site-AreInside (inl refl)))

stage-served_example :
    let run = stage place no_diagnostics site blank in
    All (IsServedAs blank) run.seen × IsServedAs blank run.last
stage-served_example = stage-served place no_diagnostics site blank site-AreInside

-- What is expected of the stage is not what it has.
abbrev tampered : ActivateInput
tampered = record {
  stage_token = "t";
  generation_id = "g-1";
  expected_current_generation_id = nothing_served;
  expected_artifact_digest = some "sha256:cc";
  crash_injection = none;
}

abbrev half : Directory
half = record { files = page ∷ []; marker = none }

abbrev with_half : Disk
with_half = record {
  releases = (".gala-stage-t", half) ∷ [];
  current = none;
  history = [];
  journal = [];
}

activate-IsGuarded_example :
    let run = activate place tampered with_half in
    All (λ disk. (disk ≡ with_half) ⊎ IsGuarded place tampered with_half) run.seen
    × ((run.last ≡ with_half) ⊎ IsGuarded place tampered with_half)
activate-IsGuarded_example = activate-IsGuarded place tampered with_half

abbrev shown_by_link : Option String
shown_by_link = some "g-1"

abbrev seen_digest : String
seen_digest = "sha256:aa"

abbrev seen_marker : Option Value
seen_marker = some nothing_served
