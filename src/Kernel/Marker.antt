-- ===== src/Kernel/Marker.antt =====
-- packages/publish-kernel/src/generation-marker.js: the public generation marker. The schema
-- validator is the package @rathnasgala2/schemas, a parameter.
use publish.Prelude.{
  String, Bool, true, false, List, [], ◌∷◌, ◌≡◌, ◌≢◌, ◌↔◌, refl, map, if◌then◌else◌, Bool-cases,
  inl, inr,
}
use publish.Json.{Value, str, obj, field, end}
use publish.Finding.{
  Finding, kernel_finding, artifact_safety_error, at_location, has_blocking_finding, blocks,
}

abbrev pub public_generation_marker_schema_id : String
public_generation_marker_schema_id = "urn:gala:schema:public-generation-marker:2.0.0"

-- What `validateGalaDocument` returns.
pub record Diagnostic : Type 0 where
  pub code : String
  pub rule : String
  pub instance_pointer : String

pub record Validation : Type 0 where
  pub valid : Bool
  pub diagnostics : List Diagnostic

abbrev pub Validator : Type 0
Validator = String → Value → Validation

-- A document that is not valid has a diagnostic.
abbrev pub Explains : Validator → Type 0
Explains validate =
    (schema : String) (v : Value)
    → (validate schema v).valid ≡ false
    → (validate schema v).diagnostics ≢ []

pub record MarkerFields : Type 0 where
  pub artifact_id : String
  pub artifact_digest : String
  pub generation_id : String

unfoldable pub build_generation_marker : MarkerFields → Value
build_generation_marker fields = obj (
    field "schemaId" (str public_generation_marker_schema_id) (
      field "schemaVersion" (str "2.0.0") (
        field "artifactId" (str fields.artifact_id) (
          field "artifactDigest" (str fields.artifact_digest)
            (field "generationId" (str fields.generation_id) end)))))

unfoldable pub marker_finding : Diagnostic → Finding
unfolding kernel_finding
marker_finding d =
    kernel_finding d.code artifact_safety_error d.rule
      "Correct the marker so it validates against urn:gala:schema:public-generation-marker:2.0.0."
      (at_location d.instance_pointer)

unfoldable pub check_generation_marker : Validator → Value → List Finding
check_generation_marker validate candidate =
    let result = validate public_generation_marker_schema_id candidate in
    if result.valid then [] else map marker_finding result.diagnostics

blocking-diagnostics :
    (ds : List Diagnostic) → ds ≢ [] → has_blocking_finding (map marker_finding ds) ≡ true
unfolding has_blocking_finding marker_finding blocks
blocking-diagnostics [] h = absurd (h refl)
blocking-diagnostics (d ∷ ds) h = refl

-- The marker check has no blocking finding exactly when the schema admits the marker, if the
-- validator gives a diagnostic for what it refuses.
pub marker_iff :
    (validate : Validator) (candidate : Value)
    → Explains validate
    → (has_blocking_finding (check_generation_marker validate candidate) ≡ false)
      ↔ ((validate public_generation_marker_schema_id candidate).valid ≡ true)
unfolding check_generation_marker
marker_iff validate candidate explains =
    elim (Bool-cases (validate public_generation_marker_schema_id candidate).valid) [
      | inl valid ↦ rw valid ((λ _. refl), (λ _. unfold has_blocking_finding in refl))
      | inr invalid ↦
          let blocked =
            blocking-diagnostics _
              (explains public_generation_marker_schema_id candidate invalid) in
          rw (invalid) ((λ h. cc), (λ h. cc))
    ]
