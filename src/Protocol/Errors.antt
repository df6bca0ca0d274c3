-- ===== src/Protocol/Errors.antt =====
-- packages/adapter-protocol/src/errors.js: a protocol failure and its findings. The severities are
-- those of the kernel's findings.
use publish.Prelude.{String, Option, none, List}
use publish.Json.{Fields}
use publish.Finding.{Severity}

pub record ProtocolFinding : Type 0 where
  pub code : String
  pub severity : Severity
  pub detail : String
  pub location : Option String
  pub evidence : Option Fields

pub record AdapterProtocolError : Type 0 where
  pub message : String
  pub findings : List ProtocolFinding

-- The optional last argument of `finding`.
pub record Extra : Type 0 where
  pub location : Option String
  pub evidence : Option Fields

abbrev pub no_extra : Extra
no_extra = record { location = none; evidence = none }

abbrev pub at_location : String → Extra
at_location l = record { location = Option.some l; evidence = none }

abbrev pub with_evidence : Fields → Extra
with_evidence e = record { location = none; evidence = Option.some e }

unfoldable pub finding : String → Severity → String → Extra → ProtocolFinding
finding code severity detail extra = record {
  code = code;
  severity = severity;
  detail = detail;
  location = extra.location;
  evidence = extra.evidence;
}
