-- ===== src/Finding.antt =====
-- packages/publish-kernel/src/errors.js: the kernel's typed diagnostics.
use publish.Prelude.{
  String, Bool, true, false, Option, none, some, List, any, if◌then◌else◌, Result, ok, err, ◌≡◌,
  ◌||◌, ◌++◌, any-append, ◌↔◌, arith,
}
use publish.Json.{Fields}

-- The closed severity vocabulary.
pub data Severity : Type 0 where
  source_error artifact_safety_error target_constraint_error warning advisory : Severity

pub record Finding : Type 0 where
  pub code : String
  pub severity : Severity
  pub detail : String
  pub location : Option String
  pub evidence : Option Fields
  pub recovery : String
  pub overridable : Bool

-- The optional last argument of `kernelFinding`.
pub record Extra : Type 0 where
  pub location : Option String
  pub evidence : Option Fields
  pub overridable : Option Bool

abbrev pub no_extra : Extra
no_extra = record { location = none; evidence = none; overridable = none }

abbrev pub at_location : String → Extra
at_location l = record { location = some l; evidence = none; overridable = none }

abbrev pub at_location_with : String → Fields → Extra
at_location_with l e = record { location = some l; evidence = some e; overridable = none }

abbrev pub or_false : Option Bool → Bool
or_false none = false
or_false (some b) = b

-- The severity is of the closed type, so the code's `TypeError` cannot arise.
unfoldable pub kernel_finding : String → Severity → String → String → Extra → Finding
kernel_finding code severity detail recovery extra = record {
  code = code;
  severity = severity;
  detail = detail;
  location = extra.location;
  evidence = extra.evidence;
  recovery = recovery;
  overridable = or_false extra.overridable;
}

pub record KernelError : Type 0 where
  pub message : String
  pub findings : List Finding

unfoldable pub blocks : Severity → Bool
blocks source_error = true
blocks artifact_safety_error = true
blocks target_constraint_error = true
blocks warning = false
blocks advisory = false

unfoldable pub has_blocking_finding : List Finding → Bool
has_blocking_finding findings = any (λ f. blocks f.severity) findings

unfoldable pub assert_no_blocking_finding :
    String → List Finding → Result KernelError (List Finding)
assert_no_blocking_finding message findings =
    if has_blocking_finding findings
    then err (record { message = message; findings = findings })
    else ok findings

or-none : (b c : Bool) → ((b || c) ≡ false) ↔ ((b ≡ false) × (c ≡ false))
or-none b c = ground arith

pub has_blocking_finding-append :
    (fs gs : List Finding)
    → has_blocking_finding (fs ++ gs) ≡ (has_blocking_finding fs || has_blocking_finding gs)
unfolding has_blocking_finding
has_blocking_finding-append fs gs = any-append _ fs gs

-- A list in two parts is free of blocking findings when both parts are.
pub unblocked-append :
    (fs gs : List Finding)
    → (has_blocking_finding (fs ++ gs) ≡ false)
      ↔ ((has_blocking_finding fs ≡ false) × (has_blocking_finding gs ≡ false))
unblocked-append fs gs = rw (has_blocking_finding-append fs gs) (or-none _ _)
