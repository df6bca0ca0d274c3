-- ===== src/Examples/Data.antt =====
-- Records that the examples share.
use publish.Prelude.{String, Option, [], ◌∷◌, true, false}
use publish.Json.{Value, obj}
use publish.Kernel.ArtifactIdentity.{ArtifactIdentityRecord}
use publish.Kernel.DestinationAuthority.{DestinationIdentity}
use publish.Kernel.Fencing.{JournaledOperation, ConcurrencyFenceInput, expected_generation}
use publish.Kernel.Retention.{CertifiedDigestRecord}
use publish.Kernel.Marker.{Validator, build_generation_marker}
use publish.Kernel.Containment.{ArtifactPathEntry, Kind}

abbrev pub first_generation : String
first_generation = "01890a5d-ac96-774b-bcce-b302099a8057"

abbrev pub second_generation : String
second_generation = "01890a5d-ac96-774b-bcce-b302099a8058"

abbrev pub artifact : ArtifactIdentityRecord
artifact = record {
  artifact_id = first_generation;
  artifact_digest = "sha256:aa";
  manifest_digest = "sha256:bb";
  artifact_file_count = 2;
  artifact_byte_count = 300;
}

abbrev pub destination : DestinationIdentity
destination = record {
  environment = "production";
  adapter_id = "local-directory";
  adapter_version = "1.0.0";
  target_digest = "sha256:cc";
  base_url = "https://example.org/";
}

abbrev pub operation : String → JournaledOperation
operation digest = record {
  operation_id = first_generation;
  attempt_id = first_generation;
  idempotency_key = second_generation;
  artifact_digest = digest;
}

abbrev pub expecting : Value → Option (Option String) → ConcurrencyFenceInput
expecting expected observed = record {
  concurrency = expected_generation;
  expected_generation_id = expected;
  observed_generation_id = observed;
}

abbrev pub certified : String → String → CertifiedDigestRecord
certified g digest = record {
  generation_id = g;
  artifact_digest = digest;
  certified_at = "2026-01-01T00:00:00Z";
}

abbrev pub marker : Value
marker = build_generation_marker (record {
  artifact_id = first_generation;
  artifact_digest = "sha256:aa";
  generation_id = first_generation;
})

-- A validator that admits objects and explains why it refuses anything else.
abbrev pub admits_objects : Validator
admits_objects schema (obj fs) = record { valid = true; diagnostics = [] }
admits_objects schema _ = record {
  valid = false;
  diagnostics = record { code = "TYPE"; rule = "type"; instance_pointer = "" } ∷ [];
}

abbrev pub entry : String → ArtifactPathEntry
entry path = record { path = path; kind = Kind.file }

abbrev pub unchanged : String → String
unchanged s = s

-- A text in place of a digest.
abbrev pub short_digest : String → String
short_digest s = "00"
