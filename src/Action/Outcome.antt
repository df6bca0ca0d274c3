-- ===== src/Action/Outcome.antt =====
-- packages/publish-action/src/result.js, adapter-select.js and the constants they use: exit codes
-- of finding sets, and the choice of an adapter.
pub mod ExitCodes
use Prim.Native.String.{◌++◌}
use publish.Prelude.{
  ℕ, String, Bool, true, false, List, [], ◌∷◌, any, ◌==◌, if◌then◌else◌, Result, ok, err,
}
use publish.Finding.{
  Severity, source_error, artifact_safety_error, target_constraint_error, warning, advisory,
}
use publish.Protocol.Errors.{AdapterProtocolError, ProtocolFinding, finding, at_location}

-- `EXIT_CODES`, for the names that these functions use.
abbrev pub success : ℕ
success = 0

abbrev pub findings_code : ℕ
findings_code = 1

abbrev pub incompatible_contract : ℕ
incompatible_contract = 2

abbrev pub unsafe_input : ℕ
unsafe_input = 5

-- A finding of this package, of which only the severity is read here.
pub record ActionFinding : Type 0 where
  pub code : String
  pub severity : Severity
  pub detail : String

-- `BLOCKING_SEVERITIES.includes(severity)`
unfoldable pub is_blocking : Severity → Bool
is_blocking source_error = true
is_blocking artifact_safety_error = true
is_blocking target_constraint_error = true
is_blocking warning = false
is_blocking advisory = false

unfoldable pub any_blocking : List ActionFinding → Bool
any_blocking findings = any (λ f. is_blocking f.severity) findings

unfoldable pub exit_code_for_findings : List ActionFinding → ℕ
exit_code_for_findings [] = success
exit_code_for_findings (f ∷ fs) = findings_code

unfoldable pub is_target_severity : Severity → Bool
is_target_severity target_constraint_error = true
is_target_severity _ = false

unfoldable pub is_unsafe_severity : Severity → Bool
is_unsafe_severity source_error = true
is_unsafe_severity artifact_safety_error = true
is_unsafe_severity _ = false

pub record ResultClass : Type 0 where
  pub result_code : String
  pub exit_code : ℕ

-- `findings.length > 0`, after the two tests for blocking severities.
unfoldable pub classify_rest : List ActionFinding → ResultClass
classify_rest [] = record { result_code = "SUCCESS"; exit_code = success }
classify_rest (f ∷ fs) = record { result_code = "FINDINGS"; exit_code = findings_code }

unfoldable pub classify_findings : List ActionFinding → ResultClass
classify_findings findings =
    if any (λ f. is_target_severity f.severity) findings
    then record { result_code = "INCOMPATIBLE_CONTRACT"; exit_code = incompatible_contract }
    else if any (λ f. is_unsafe_severity f.severity) findings
    then record { result_code = "UNSAFE_INPUT"; exit_code = unsafe_input }
    else classify_rest findings

abbrev pub implemented_adapter_id : String
implemented_adapter_id = "local-directory"

abbrev pub adapter_ids : List String
adapter_ids = "local-directory" ∷ "github-pages" ∷ "do-spaces" ∷ []

unfoldable pub not_implemented : String → AdapterProtocolError
not_implemented adapter_id = record {
  message =
      "Adapter \""
      ++ (adapter_id
          ++ "\" is a valid destination kind but is not yet implemented in this repository (S2-T18/S2-T19).");
  findings =
      finding "TARGET_CAPABILITY_UNAVAILABLE" target_constraint_error
        ("Adapter \""
          ++ (adapter_id
              ++ "\" is not implemented; only \"local-directory\" is available in this repository."))
        (at_location "/adapter")
      ∷ [];
}

unfoldable pub unknown_adapter : String → AdapterProtocolError
unknown_adapter adapter_id = record {
  message = "Unknown adapter \"" ++ (adapter_id ++ "\".");
  findings =
      finding "TARGET_CAPABILITY_UNAVAILABLE" target_constraint_error
        ("\""
          ++ (adapter_id
              ++ "\" is not one of the closed adapter identities (local-directory, github-pages, do-spaces)."))
        (at_location "/adapter")
      ∷ [];
}

unfoldable pub assert_implemented_adapter : String → Result AdapterProtocolError (Unit {0})
assert_implemented_adapter adapter_id =
    if adapter_id == implemented_adapter_id
    then ok tt
    else if any (λ id. id == adapter_id) adapter_ids
    then err (not_implemented adapter_id)
    else err (unknown_adapter adapter_id)
