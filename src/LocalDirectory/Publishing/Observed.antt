-- ===== src/LocalDirectory/Publishing/Observed.antt =====
-- What `observe` reports of a deployment.
use publish.Prelude.{String, true, Option, some, List, ◌≡◌, refl, eq_refl}
use publish.Json.{Value, get}
use publish.Kernel.Marker.{Diagnostic, build_generation_marker}
use publish.Kernel.DecisionFields.{property}
use publish.LocalDirectory.Disk.{Disk}
use publish.LocalDirectory.Monad.Total.{
  Returns, Total, Total-bind, Total-pure, Total-read, Total-need, Total-known, Total-when_ok,
}
use publish.LocalDirectory.Environment.{Environment, digest_of_entries}
use publish.LocalDirectory.Environment.Prepared.{Total-prepare_root}
use publish.LocalDirectory.Stage.{StageInput, marker_of}
use publish.LocalDirectory.Stage.Complete.{IsStageable, finished}
use publish.LocalDirectory.Publishing.{IsDeployed, IsDeployable, files-digest}
use publish.LocalDirectory.Observe.{
  ObserveInput, observe, observation_of, marker_report, is_marker_valid, marker_value, is_current,
  is_text, report_unless, is_empty,
}

abbrev pub observation_for : StageInput → ObserveInput
observation_for input = record {
  generation_id = input.generation_id;
  expected_artifact_digest = input.artifact_digest;
}

module _ (env : Environment) (print_diagnostics : List Diagnostic → String) where
  marker-valid :
      (input : StageInput)
      → IsStageable env print_diagnostics input
      → is_marker_valid env (observation_for input) (marker_of env print_diagnostics input) ≡ true
  unfolding is_marker_valid marker_of build_generation_marker property get is_text
  marker-valid input able =
      rw able.marker (rw (eq_refl input.generation_id) (rw (eq_refl input.artifact_digest) refl))

  observed-verified :
      (input : StageInput) (observed : Option String)
      → IsStageable env print_diagnostics input
      → observed ≡ some input.generation_id
      → (observation_of env
          (observation_for input)
          observed
          input.artifact_digest
          (marker_value env (finished env print_diagnostics input).marker)).verified
        ≡ true
  unfolding observation_of marker_value marker_report report_unless is_current is_empty
  observed-verified input observed able e = rw e (
      rw (eq_refl input.generation_id)
        (rw (eq_refl input.artifact_digest) (rw (marker-valid input able) refl)))

  -- `observe` verifies the generation of a deployment, and finds nothing to report.
  pub deployed-verified :
      (input : StageInput) (expected : Value) (before disk : Disk)
      → IsDeployable env print_diagnostics input expected before
      → IsDeployed env print_diagnostics input before disk
      → Returns
          (λ o after. (o.verified ≡ true) × (after ≡ disk))
          (observe env (observation_for input) disk)
  unfolding observe digest_of_entries Total
  deployed-verified input expected before disk able deployed =
      let d = finished env print_diagnostics input in
      let P : Disk → Type 0 = λ x. x ≡ disk in
      let run : Total P (observe env (observation_for input))
          (λ o after. (o.verified ≡ true) × (after ≡ disk)) =
        Total-bind P (λ _. P) _ _ _ (Total-prepare_root P env able.stageable.prepared)
          (λ u.
            Total-read P _ _ _ disk (λ x e. e)
              (Total-need P _ _ _ _ d deployed.there (
                Total-known P _ _ _ input.artifact_digest
                  (Total-when_ok P _ _ input.artifact_digest
                    (files-digest env print_diagnostics input able.digest))
                  (Total-pure P _ _
                    (λ x e. (observed-verified input _ able.stageable deployed.current, e)))))) in
      run disk refl
