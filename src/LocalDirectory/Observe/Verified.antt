-- ===== src/LocalDirectory/Observe/Verified.antt =====
-- When `observe` reports a generation as verified.
use publish.Prelude.{true, Option, none, some, ◌≡◌}
use publish.Json.{Value, str}
use publish.Kernel.Marker.{public_generation_marker_schema_id}
use publish.Kernel.DecisionFields.{property}
use publish.LocalDirectory.Environment.{Environment}
use publish.LocalDirectory.Observe.{ObserveInput}

-- A marker was read, the schema accepts it, and it names the generation and the digest.
abbrev pub HasMarker : Environment → ObserveInput → Option Value → Type 0
HasMarker env input none = ⊥
HasMarker env input (some v) =
    ((env.validate public_generation_marker_schema_id v).valid ≡ true)
    × ((property v "generationId" ≡ str input.generation_id)
        × (property v "artifactDigest" ≡ str input.expected_artifact_digest))
