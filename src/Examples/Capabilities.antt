-- ===== src/Examples/Capabilities.antt =====
-- A capability declaration at a concrete input.
use publish.Prelude.{String, true, false, ◌≡◌, ◌↔◌, refl, ok, [], ◌∷◌, some, none}
use publish.Json.{Value, Fields, Items, str, bool, arr, obj, nil, cons, field, end}
use publish.Kernel.Marker.{Validator}
use publish.Protocol.Digest.{domain_digest}
use publish.Protocol.Vocabulary.{local_directory_row}
use publish.Protocol.Capability.{assert_valid_capability_declaration, check_exact_row}
use publish.Protocol.Capability.ExactRow.{MatchesRow, exact_row_iff}
use publish.Protocol.Negotiation.{
  CapabilityRequirements, NegotiationDecision, fields_of, without_digest,
  negotiation_decision_domain, require_capability_match, text_items,
}
use publish.Protocol.Negotiation.Satisfied.{Meets}
use publish.Protocol.Negotiation.Required.{match-ok_iff}
use publish.Protocol.Capability.{validate_capability_declaration}
use publish.Protocol.Capability.{check_exact_row}
use publish.Protocol.Capability.{check_document}
use publish.Protocol.Capability.{check_known}
use publish.Protocol.Vocabulary.{get_capability_row}
use publish.Kernel.DecisionFields.{property}
use publish.Json.{get}
use publish.Protocol.Capability.{check_row}
use publish.Protocol.Capability.{check_configuration}
use publish.Protocol.Capability.{check_limits}
use publish.Protocol.Capability.{refuse_invalid}
use publish.Protocol.Capability.{is_empty}
use publish.Protocol.Capability.{check_fields}
use publish.Protocol.Capability.{check_field}
use publish.Protocol.Capability.{report}
use publish.Protocol.Negotiation.{declares}
use publish.Protocol.Negotiation.{has_text}
use publish.Protocol.Capability.{is_text}
use publish.Protocol.Digest.{digest_of_text}
use publish.Protocol.Digest.{canonicalize_json}
use publish.Protocol.Digest.{braces}
use publish.Protocol.Digest.{put_member}
use publish.Protocol.Digest.{is_undefined}
use publish.Protocol.Digest.{with_member}
use publish.Protocol.Negotiation.{requirements_value}
use publish.Protocol.Negotiation.{with_text}
use publish.Protocol.Negotiation.{with_texts}
use publish.Protocol.Digest.{brackets}
use publish.Protocol.Negotiation.{with_settings}
use publish.Protocol.Capability.{check_sets}
use publish.Protocol.Capability.{is_set}
use publish.Protocol.Capability.{same_texts}
use publish.Protocol.Capability.{item_texts}
use publish.Protocol.Capability.{and_text}
use publish.Protocol.Vocabulary.{is_same_set}
use publish.Protocol.Vocabulary.{equal_texts}
use publish.Protocol.Vocabulary.{sort_texts}
use publish.Protocol.Vocabulary.{place_text}
use publish.Protocol.Digest.{before}
use publish.Protocol.Digest.{text_units}
use publish.Protocol.Digest.{prepend_units}
use publish.Protocol.Capability.{check_settings}
use publish.Protocol.Capability.{check_false}
use publish.Protocol.Capability.{is_bool}
use publish.Protocol.Negotiation.{setting_fields}
use publish.Protocol.Negotiation.{outcome_items}
use publish.Protocol.Negotiation.{outcomes_of}
use publish.Protocol.Negotiation.{destination_outcome}
use publish.Protocol.Negotiation.{scalar_outcomes}
use publish.Protocol.Negotiation.{push_scalar_requirement}
use publish.Protocol.Digest.{with_item}
use publish.Protocol.Negotiation.{outcome}
use publish.Protocol.Negotiation.{verification_outcome}
use publish.Protocol.Negotiation.{transport_outcome}
use publish.Protocol.Negotiation.{configuration_outcomes}
use publish.Protocol.Negotiation.{configuration_outcome}

abbrev admits : Validator
admits schema v = record { valid = true; diagnostics = [] }

abbrev constant_hash : String → String
constant_hash s = "digest"

abbrev settings : Fields
settings = field "redirects" (bool false) (
    field "headers" (bool false) (
      field "customDomains" (bool false)
        (field "immutableCaching" (bool false) (field "notFoundBehavior" (bool false) end))))

abbrev declared_operations : Items
declared_operations = cons (str "rollback") (
    cons (str "stage") (
      cons (str "activate")
        (cons (str "observe") (cons (str "cleanup-staged") (cons (str "inspect") nil)))))

abbrev declared : Fields
declared = field "adapter" (obj (field "adapterId" (str "local-directory") end)) (
    field "staging" (str "unreachable-generation") (
      field "activation" (str "pointer-swap") (
        field "concurrency" (str "expected-generation") (
          field "idempotencyClass" (str "observable-identity") (
            field "providerInventoryAssurance" (str "complete-artifact-digest") (
              field "rollback" (str "reupload") (
                field "cacheInvalidation" (str "none") (
                  field "destinationKinds" (arr (cons (str "local-directory") nil)) (
                    field "operations" (arr declared_operations) (
                      field "verification"
                        (arr (
                          cons (str "generation-marker")
                            (cons (str "provider-state") (cons (str "artifact-digest") nil))))
                        (field "configuration" (obj settings) (
                          field "limits" (obj (field "transport" (str "filesystem") end))
                            (field "capabilityDigest" (str "sha256:00") end)))))))))))))

abbrev declaration : Value
declaration = obj declared

abbrev policy : CapabilityRequirements
policy = record {
  destination_kind = some "local-directory";
  staging = none;
  activation = some "pointer-swap";
  concurrency = none;
  idempotency_class = none;
  provider_inventory_assurance = none;
  verification = some ("artifact-digest" ∷ []);
  transport = some "filesystem";
  configuration = some (("headers", false) ∷ []);
}

declaration-valid : assert_valid_capability_declaration admits declaration ≡ ok tt
unfolding assert_valid_capability_declaration validate_capability_declaration check_exact_row
    check_document check_known get_capability_row property get check_row check_configuration
    check_limits refuse_invalid is_empty check_fields check_field report is_text check_sets is_set
    same_texts item_texts and_text is_same_set equal_texts sort_texts place_text before text_units
    prepend_units check_settings check_false is_bool
declaration-valid = refl

declaration-Meets : Meets (fields_of declaration) policy
unfolding get fields_of declares has_text is_text property
declaration-Meets = (refl, ((tt, (refl, (tt, (tt, tt)))), ((refl, tt), (refl, (refl, tt)))))

digest-exact :
    domain_digest constant_hash negotiation_decision_domain
      (without_digest (fields_of declaration) policy)
    ≡ ok "sha256:digest"
unfolding domain_digest digest_of_text canonicalize_json without_digest braces put_member
    is_undefined with_member get fields_of requirements_value with_text with_texts brackets
    text_items with_settings setting_fields outcome_items outcomes_of destination_outcome
    scalar_outcomes push_scalar_requirement with_item outcome verification_outcome transport_outcome
    configuration_outcomes property configuration_outcome
digest-exact = refl

match-ok_iff_example :
    ((d : NegotiationDecision) × (require_capability_match constant_hash admits declaration policy
        ≡ ok d))
    ↔ ((assert_valid_capability_declaration admits declaration ≡ ok tt)
        × Meets (fields_of declaration) policy)
match-ok_iff_example =
    match-ok_iff constant_hash admits declaration policy "sha256:digest" digest-exact

exact_row_iff_example :
    (check_exact_row (obj declared) ≡ ok []) ↔ MatchesRow local_directory_row declared
unfolding get_capability_row property get
exact_row_iff_example = exact_row_iff declared local_directory_row refl
