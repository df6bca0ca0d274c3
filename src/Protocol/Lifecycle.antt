-- ===== src/Protocol/Lifecycle.antt =====
-- packages/adapter-protocol/src/lifecycle.js: the eight functions every adapter exports. A module
-- namespace is the list of its exports.
pub mod Defined
use Prim.Native.String.{◌++◌}
use publish.Prelude.{String, Bool, true, false, List, [], ◌∷◌, Result, ok, err, if◌then◌else◌}
use publish.Json.{Value, Fields, function, end, field, get, has_own}
use publish.Finding.{artifact_safety_error}
use publish.Protocol.Errors.{ProtocolFinding, AdapterProtocolError, finding, no_extra, at_location}

abbrev pub lifecycle_operations : List String
lifecycle_operations =
    "describeCapabilities" ∷ "inspectDestination" ∷ "preflight" ∷ "stage" ∷ "activate" ∷ "observe"
    ∷ "cleanupStaged" ∷ "rollback" ∷ []

-- `typeof value === 'function'`
unfoldable pub is_function : Value → Bool
is_function function = true
is_function _ = false

unfoldable pub default_export : ProtocolFinding
default_export =
    finding "ADAPTER_DEFAULT_EXPORT_FORBIDDEN" artifact_safety_error
      "An adapter module must not have a default export (DEC-094: named exports only)." no_extra

unfoldable pub missing_function : String → ProtocolFinding
missing_function operation =
    finding "ADAPTER_LIFECYCLE_FUNCTION_MISSING" artifact_safety_error
      ("Adapter module does not export a \"" ++ (operation ++ "\" function."))
      (at_location ("/" ++ operation))

-- The findings that the loop over the operations adds, and the lifecycle it fills in.
unfoldable pub missing_findings : List String → Fields → List ProtocolFinding
missing_findings [] module_namespace = []
missing_findings (operation ∷ rest) module_namespace =
    let more = missing_findings rest module_namespace in
    if is_function (get module_namespace operation) then more else missing_function operation ∷ more

unfoldable pub exported : List String → Fields → Fields
exported [] module_namespace = end
exported (operation ∷ rest) module_namespace =
    let more = exported rest module_namespace in
    if is_function (get module_namespace operation)
    then field operation (get module_namespace operation) more
    else more

unfoldable pub adapter_findings : Fields → List ProtocolFinding
adapter_findings module_namespace =
    let missing = missing_findings lifecycle_operations module_namespace in
    if has_own module_namespace "default" then default_export ∷ missing else missing

unfoldable pub refuse_findings : List ProtocolFinding → Fields → Result AdapterProtocolError Fields
refuse_findings [] lifecycle = ok lifecycle
refuse_findings (f ∷ fs) lifecycle = err (record {
  message = "Adapter module does not implement the mandatory lifecycle interface";
  findings = f ∷ fs;
})

unfoldable pub define_adapter : Fields → Result AdapterProtocolError Fields
define_adapter module_namespace =
    refuse_findings (adapter_findings module_namespace)
      (exported lifecycle_operations module_namespace)
