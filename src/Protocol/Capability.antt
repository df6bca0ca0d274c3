-- ===== src/Protocol/Capability.antt =====
-- packages/adapter-protocol/src/capability.js: the validation of a capability declaration. The
-- schema validator is a parameter.
pub mod Values
pub mod ExactRow
use Prim.Native.String.{◌++◌}
use publish.Prelude.{
  String, Bool, true, false, Option, none, some, List, [], ◌∷◌, ◌++◌ as append, map, ◌==◌, ◌&&◌,
  if◌then◌else◌, Result, ok, err, ◌>>=◌,
}
use publish.Json.{Value, null, bool, str, arr, obj, instance_of, Items, nil, cons, Fields, get}
use publish.Json.Print.{quoted}
use publish.Finding.{artifact_safety_error}
use publish.Protocol.Errors.{ProtocolFinding, AdapterProtocolError, finding, no_extra, at_location}
use publish.Protocol.Vocabulary.{
  AdapterCapabilityRow, get_capability_row, is_same_set, operations, rollback, cache_invalidation,
}
use publish.Kernel.DecisionFields.{property}
use publish.Kernel.Marker.{Validator, Diagnostic}

abbrev pub adapter_capability_schema_id : String
adapter_capability_schema_id = "urn:gala:schema:adapter-capability:2.0.0"

-- What is thrown: the protocol's error, or the language's where a property of `null` is read.
pub data CapabilityError : Type 0 where
  invalid : AdapterProtocolError → CapabilityError
  type_error : CapabilityError

-- `value === text` and `value === true` or `false`.
unfoldable pub is_text : Value → String → Bool
is_text (str s) t = s == t
is_text _ t = false

unfoldable pub is_bool : Value → Bool → Bool
is_bool (bool true) true = true
is_bool (bool false) false = true
is_bool _ b = false

unfoldable pub and_text : String → Option (List String) → Option (List String)
and_text s none = none
and_text s (some ts) = some (s ∷ ts)

-- An array of texts; a member that is no text equals none of the other side's.
unfoldable pub item_texts : Items → Option (List String)
item_texts nil = some []
item_texts (cons (str s) items) = and_text s (item_texts items)
item_texts (cons _ items) = none

unfoldable pub same_texts : Option (List String) → List String → Bool
same_texts none expected = false
same_texts (some ts) expected = is_same_set ts expected

-- `Array.isArray(value) && isSameSet(value, expected)`
unfoldable pub is_set : Value → List String → Bool
is_set (arr items) expected = same_texts (item_texts items) expected
is_set _ expected = false

unfoldable pub mismatch : String → String → ProtocolFinding
mismatch detail location =
    finding "TARGET_CAPABILITY_ROW_MISMATCH" artifact_safety_error detail (at_location location)

unfoldable pub report : Bool → ProtocolFinding → List ProtocolFinding
report true f = []
report false f = f ∷ []

unfoldable pub check_field : Fields → String → String → List ProtocolFinding
check_field doc field expected =
    report (is_text (get doc field) expected)
      (mismatch (field ++ (" must be exactly " ++ (quoted expected ++ "."))) ("/" ++ field))

unfoldable pub quoted_texts : List String → String
quoted_texts [] = ""
quoted_texts (t ∷ []) = quoted t
quoted_texts (t ∷ u ∷ ts) = quoted t ++ ("," ++ quoted_texts (u ∷ ts))

unfoldable pub for_adapter : String → String → String
for_adapter text adapter_id = text ++ (" for adapterId \"" ++ (adapter_id ++ "\"."))

unfoldable pub bool_text : Bool → String
bool_text true = "true"
bool_text false = "false"

unfoldable pub check_false : Value → String → List ProtocolFinding
check_false configuration key =
    report (is_bool (property configuration key) false)
      (mismatch ("configuration." ++ (key ++ " must be false.")) ("/configuration/" ++ key))

-- The checks of a configuration that is an object, `null` aside.
unfoldable pub check_settings : AdapterCapabilityRow → Value → List ProtocolFinding
check_settings row configuration = append (check_false configuration "redirects") (
    append (check_false configuration "headers") (
      append (check_false configuration "customDomains") (
        append (check_false configuration "immutableCaching") (
          report (is_bool (property configuration "notFoundBehavior") row.not_found_behavior) (
            mismatch
              (for_adapter
                ("configuration.notFoundBehavior must be " ++ bool_text row.not_found_behavior)
                row.adapter_id)
              "/configuration/notFoundBehavior")))))

abbrev no_configuration : List ProtocolFinding
no_configuration = mismatch "configuration is missing." "/configuration" ∷ []

unfoldable pub check_configuration :
    AdapterCapabilityRow → Value → Result CapabilityError (List ProtocolFinding)
check_configuration row null = err type_error
check_configuration row (obj fs) = ok (check_settings row (obj fs))
check_configuration row (instance_of fs) = ok (check_settings row (instance_of fs))
check_configuration row (arr items) = ok (check_settings row (arr items))
check_configuration row _ = ok no_configuration

unfoldable pub check_limits :
    AdapterCapabilityRow → Value → Result CapabilityError (List ProtocolFinding)
check_limits row null = err type_error
check_limits row limits = ok (
    report (is_text (property limits "transport") row.transport) (
      mismatch
        (for_adapter ("limits.transport must be \"" ++ (row.transport ++ "\"")) row.adapter_id)
        "/limits/transport"))

unfoldable pub check_sets : AdapterCapabilityRow → Fields → List ProtocolFinding
check_sets row doc =
    append
      (report (is_set (get doc "destinationKinds") (row.destination_kind ∷ [])) (
        mismatch
          (for_adapter ("destinationKinds must be exactly [\"" ++ (row.destination_kind ++ "\"]"))
            row.adapter_id)
          "/destinationKinds"))
      (append
        (report (is_set (get doc "operations") operations)
          (mismatch "operations must be the exact six-member operation set." "/operations"))
        (report (is_set (get doc "verification") row.verification) (
          mismatch
            (for_adapter
              ("verification must be exactly [" ++ (quoted_texts row.verification ++ "]"))
              row.adapter_id)
            "/verification")))

unfoldable pub check_fields : AdapterCapabilityRow → Fields → List ProtocolFinding
check_fields row doc = append (check_field doc "staging" row.staging) (
    append (check_field doc "activation" row.activation) (
      append (check_field doc "concurrency" row.concurrency) (
        append (check_field doc "idempotencyClass" row.idempotency_class) (
          append (check_field doc "providerInventoryAssurance" row.provider_inventory_assurance) (
            append (check_field doc "rollback" rollback)
              (check_field doc "cacheInvalidation" cache_invalidation))))))

unfoldable pub check_row :
    AdapterCapabilityRow → Fields → Result CapabilityError (List ProtocolFinding)
check_row row doc = do
  configuration ← check_configuration row (get doc "configuration")
  limits ← check_limits row (get doc "limits")
  ok (append (check_fields row doc) (append (check_sets row doc) (append configuration limits)))

unfoldable pub malformed : ProtocolFinding
malformed =
    finding "TARGET_CAPABILITY_DECLARATION_MALFORMED" artifact_safety_error
      "Adapter capability declaration must be a JSON object." no_extra

unfoldable pub unknown_adapter : ProtocolFinding
unknown_adapter =
    finding "TARGET_CAPABILITY_DECLARATION_MALFORMED" artifact_safety_error
      "adapter.adapterId is missing or is not one of the three closed adapter identities."
      (at_location "/adapter/adapterId")

unfoldable pub check_known :
    Fields → Option AdapterCapabilityRow → Result CapabilityError (List ProtocolFinding)
check_known doc none = ok (unknown_adapter ∷ [])
check_known doc (some row) = check_row row doc

unfoldable pub check_document : Fields → Result CapabilityError (List ProtocolFinding)
check_document doc = check_known doc (get_capability_row (property (get doc "adapter") "adapterId"))

unfoldable pub check_exact_row : Value → Result CapabilityError (List ProtocolFinding)
check_exact_row (obj doc) = check_document doc
check_exact_row (instance_of doc) = check_document doc
check_exact_row _ = ok (malformed ∷ [])

pub record CapabilityValidationResult : Type 0 where
  pub schema_valid : Bool
  pub schema_diagnostics : List Diagnostic
  pub exact_row_valid : Bool
  pub findings : List ProtocolFinding

unfoldable pub is_empty : List ProtocolFinding → Bool
is_empty [] = true
is_empty (f ∷ fs) = false

module _ (validate : Validator) where
  unfoldable pub validate_capability_declaration :
      Value → Result CapabilityError CapabilityValidationResult
  validate_capability_declaration declaration = do
    findings ← check_exact_row declaration
    ok (record {
      schema_valid = (validate adapter_capability_schema_id declaration).valid;
      schema_diagnostics = (validate adapter_capability_schema_id declaration).diagnostics;
      exact_row_valid = is_empty findings;
      findings = findings;
    })

  unfoldable pub diagnostic_finding : Diagnostic → ProtocolFinding
  diagnostic_finding d =
      finding d.code artifact_safety_error d.rule (at_location d.instance_pointer)

  unfoldable pub refuse_invalid : CapabilityValidationResult → Result CapabilityError (Unit {0})
  refuse_invalid result =
      if result.schema_valid && result.exact_row_valid
      then ok tt
      else err (
          invalid (record {
            message = "Adapter capability declaration is invalid";
            findings = append result.findings (map diagnostic_finding result.schema_diagnostics);
          }))

  unfoldable pub assert_valid_capability_declaration : Value → Result CapabilityError (Unit {0})
  assert_valid_capability_declaration declaration = do
    result ← validate_capability_declaration declaration
    refuse_invalid result
