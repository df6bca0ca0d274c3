-- ===== src/Protocol/Negotiation.antt =====
-- packages/adapter-protocol/src/negotiation.js: a declaration against the requirements of a policy.
pub mod Satisfied
pub mod Required
use Prim.Native.String.{◌++◌}
use publish.Prelude.{
  String, Bool, true, false, not, Option, none, some, List, [], ◌∷◌, ◌++◌ as append, map, all,
  filter, if◌then◌else◌, Result, ok, err, ◌>>=◌,
}
use publish.Json.{
  Value, undefined, null, bool, str, arr, obj, instance_of, Items, nil, cons, Fields, field, end,
  get,
}
use publish.Json.Print.{shown}
use publish.Finding.{target_constraint_error}
use publish.Protocol.Errors.{ProtocolFinding, finding, with_evidence}
use publish.Protocol.Digest.{NotCanonical, domain_digest}
use publish.Protocol.Capability.{
  CapabilityError, invalid, type_error, is_text, is_bool, is_set,
  assert_valid_capability_declaration,
}
use publish.Kernel.DecisionFields.{property}
use publish.Kernel.Marker.{Validator}

abbrev pub negotiation_decision_domain : String
negotiation_decision_domain = "GALA-ADAPTER-PROTOCOL-NEGOTIATION-V2\0"

-- A requirement that is left out is `none`. `configuration` has the entries of the object.
pub record CapabilityRequirements : Type 0 where
  pub destination_kind : Option String
  pub staging : Option String
  pub activation : Option String
  pub concurrency : Option String
  pub idempotency_class : Option String
  pub provider_inventory_assurance : Option String
  pub verification : Option (List String)
  pub transport : Option String
  pub configuration : Option (List (String × Bool))

pub record RequirementOutcome : Type 0 where
  pub capability : String
  pub required : Value
  pub declared : Value
  pub satisfied : Bool

unfoldable pub outcome : String → Value → Value → Bool → RequirementOutcome
outcome capability required declared satisfied = record {
  capability = capability;
  required = required;
  declared = declared;
  satisfied = satisfied;
}

unfoldable pub push_scalar_requirement : Fields → String → Option String → List RequirementOutcome
push_scalar_requirement doc key none = []
push_scalar_requirement doc key (some required) =
    outcome key (str required) (get doc key) (is_text (get doc key) required) ∷ []

unfoldable pub destination_outcome : Fields → Option String → List RequirementOutcome
destination_outcome doc none = []
destination_outcome doc (some required) =
    outcome "destinationKind" (str required) (get doc "destinationKinds")
      (is_set (get doc "destinationKinds") (required ∷ []))
    ∷ []

unfoldable pub text_items : List String → Items
text_items [] = nil
text_items (t ∷ ts) = cons (str t) (text_items ts)

-- `declaredSet.includes(text)`
unfoldable pub has_text : Items → String → Bool
has_text nil t = false
has_text (cons v items) t = let rest = has_text items t in if is_text v t then true else rest

unfoldable pub declares : Value → String → Bool
declares (arr items) t = has_text items t
declares _ t = false

unfoldable pub verification_outcome : Fields → Option (List String) → List RequirementOutcome
verification_outcome doc none = []
verification_outcome doc (some required) =
    outcome "verification" (arr (text_items required)) (get doc "verification")
      (all (declares (get doc "verification")) required)
    ∷ []

unfoldable pub transport_outcome : Fields → Option String → List RequirementOutcome
transport_outcome doc none = []
transport_outcome doc (some required) =
    outcome "transport" (str required) (property (get doc "limits") "transport")
      (is_text (property (get doc "limits") "transport") required)
    ∷ []

unfoldable pub configuration_outcome : Value → String × Bool → RequirementOutcome
configuration_outcome configuration (key, required) =
    outcome ("configuration." ++ key) (bool required) (property configuration key)
      (is_bool (property configuration key) required)

unfoldable pub configuration_outcomes :
    Fields → Option (List (String × Bool)) → List RequirementOutcome
configuration_outcomes doc none = []
configuration_outcomes doc (some entries) =
    map (configuration_outcome (get doc "configuration")) entries

unfoldable pub scalar_outcomes : Fields → CapabilityRequirements → List RequirementOutcome
scalar_outcomes doc r = append (push_scalar_requirement doc "staging" r.staging) (
    append (push_scalar_requirement doc "activation" r.activation) (
      append (push_scalar_requirement doc "concurrency" r.concurrency) (
        append (push_scalar_requirement doc "idempotencyClass" r.idempotency_class) (
          push_scalar_requirement doc "providerInventoryAssurance"
            r.provider_inventory_assurance))))

unfoldable pub outcomes_of : Fields → CapabilityRequirements → List RequirementOutcome
outcomes_of doc r = append (destination_outcome doc r.destination_kind) (
    append (scalar_outcomes doc r) (
      append (verification_outcome doc r.verification)
        (append (transport_outcome doc r.transport) (configuration_outcomes doc r.configuration))))

unfoldable pub all_satisfied : List RequirementOutcome → Bool
all_satisfied outcomes = all (λ o. o.satisfied) outcomes

-- The requirements and the outcomes as the values that are digested.
unfoldable pub with_text : String → Option String → Fields → Fields
with_text key none rest = rest
with_text key (some t) rest = field key (str t) rest

unfoldable pub with_texts : String → Option (List String) → Fields → Fields
with_texts key none rest = rest
with_texts key (some ts) rest = field key (arr (text_items ts)) rest

unfoldable pub setting_fields : List (String × Bool) → Fields
setting_fields [] = end
setting_fields ((key, b) ∷ entries) = field key (bool b) (setting_fields entries)

unfoldable pub with_settings : String → Option (List (String × Bool)) → Fields → Fields
with_settings key none rest = rest
with_settings key (some entries) rest = field key (obj (setting_fields entries)) rest

unfoldable pub requirements_value : CapabilityRequirements → Value
requirements_value r = obj (
    with_text "destinationKind" r.destination_kind (
      with_text "staging" r.staging (
        with_text "activation" r.activation (
          with_text "concurrency" r.concurrency (
            with_text "idempotencyClass" r.idempotency_class (
              with_texts "verification" r.verification (
                with_text "providerInventoryAssurance" r.provider_inventory_assurance (
                  with_text "transport" r.transport
                    (with_settings "configuration" r.configuration end)))))))))

unfoldable pub outcome_items : List RequirementOutcome → Items
outcome_items [] = nil
outcome_items (o ∷ os) =
    cons
      (obj (
        field "capability" (str o.capability) (
          field "required" o.required
            (field "declared" o.declared (field "satisfied" (bool o.satisfied) end)))))
      (outcome_items os)

abbrev negotiation_profile : String
negotiation_profile = "gala-adapter-protocol-negotiation-v2"

pub record NegotiationDecision : Type 0 where
  pub profile : String
  pub adapter : Value
  pub capability_digest : Value
  pub requirements : CapabilityRequirements
  pub outcomes : List RequirementOutcome
  pub satisfied : Bool
  pub decision_digest : String

-- The properties of a declaration that was found valid.
unfoldable pub fields_of : Value → Fields
fields_of (obj fs) = fs
fields_of (instance_of fs) = fs
fields_of _ = end

unfoldable pub without_digest : Fields → CapabilityRequirements → Value
without_digest doc r = obj (
    field "profile" (str negotiation_profile) (
      field "adapter" (get doc "adapter") (
        field "capabilityDigest" (get doc "capabilityDigest") (
          field "requirements" (requirements_value r) (
            field "outcomes" (arr (outcome_items (outcomes_of doc r)))
              (field "satisfied" (bool (all_satisfied (outcomes_of doc r))) end))))))

unfoldable pub decided :
    Fields
    → CapabilityRequirements
    → Result NotCanonical String
    → Result CapabilityError NegotiationDecision
decided doc r (err e) = err type_error
decided doc r (ok digest) = ok (record {
  profile = negotiation_profile;
  adapter = get doc "adapter";
  capability_digest = get doc "capabilityDigest";
  requirements = r;
  outcomes = outcomes_of doc r;
  satisfied = all_satisfied (outcomes_of doc r);
  decision_digest = digest;
})

unfoldable pub unmet_finding : String → RequirementOutcome → ProtocolFinding
unmet_finding digest o =
    finding "TARGET_CAPABILITY_UNAVAILABLE" target_constraint_error
      ("Adapter does not satisfy required capability \""
        ++ (o.capability
            ++ ("\": required "
                ++ (shown o.required ++ (", declared " ++ (shown o.declared ++ "."))))))
      (with_evidence (field "decisionDigest" (str digest) end))

unfoldable pub require_satisfied : NegotiationDecision → Result CapabilityError NegotiationDecision
require_satisfied decision =
    if decision.satisfied
    then ok decision
    else err (
        invalid (record {
          message =
              "Adapter capability declaration does not satisfy the required policy before staging";
          findings =
              map (unmet_finding decision.decision_digest)
                (filter (λ o. not o.satisfied) decision.outcomes);
        }))

module _ (sha256 : String → String) (validate : Validator) where
  unfoldable pub negotiate_capability :
      Value → CapabilityRequirements → Result CapabilityError NegotiationDecision
  negotiate_capability declaration r = do
    valid ← assert_valid_capability_declaration validate declaration
    decided (fields_of declaration) r (
        domain_digest sha256 negotiation_decision_domain (without_digest (fields_of declaration) r))

  unfoldable pub require_capability_match :
      Value → CapabilityRequirements → Result CapabilityError NegotiationDecision
  require_capability_match declaration r = do
    decision ← negotiate_capability declaration r
    require_satisfied decision
