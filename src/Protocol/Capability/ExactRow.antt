-- ===== src/Protocol/Capability/ExactRow.antt =====
-- When a declaration is the exact admission row of its adapter.
use publish.Prelude.{
  String, Bool, true, false, some, List, [], ◌∷◌, ◌++◌, ◌≡◌, ◌↔◌, refl, ap, arith, iff_trans,
  iff_pair, Result, ok, err, ◌>>=◌,
}
use publish.Json.{Value, null, bool, str, arr, obj, instance_of, nil, cons, Fields, get}
use publish.Protocol.Errors.{ProtocolFinding}
use publish.Protocol.Vocabulary.{
  AdapterCapabilityRow, get_capability_row, operations, rollback, cache_invalidation,
}
use publish.Kernel.DecisionFields.{property}
use publish.Protocol.Capability.{
  CapabilityError, is_set, report, check_field, check_false, check_settings, check_configuration,
  check_limits, check_sets, check_fields, check_row, check_known, check_document, check_exact_row,
}
use publish.Protocol.Capability.Values.{text_iff, bool_iff, kind_iff}

-- The texts of the row, each at its field.
abbrev RowTexts : AdapterCapabilityRow → Fields → Type 0
RowTexts row doc =
    (get doc "staging" ≡ str row.staging)
    × ((get doc "activation" ≡ str row.activation)
        × ((get doc "concurrency" ≡ str row.concurrency)
            × ((get doc "idempotencyClass" ≡ str row.idempotency_class)
                × ((get doc "providerInventoryAssurance" ≡ str row.provider_inventory_assurance)
                    × ((get doc "rollback" ≡ str rollback)
                        × (get doc "cacheInvalidation" ≡ str cache_invalidation))))))

abbrev RowSets : AdapterCapabilityRow → Fields → Type 0
RowSets row doc =
    (get doc "destinationKinds" ≡ arr (cons (str row.destination_kind) nil))
    × ((is_set (get doc "operations") operations ≡ true)
        × (is_set (get doc "verification") row.verification ≡ true))

abbrev RowSettings : AdapterCapabilityRow → Value → Type 0
RowSettings row v =
    (property v "redirects" ≡ bool false)
    × ((property v "headers" ≡ bool false)
        × ((property v "customDomains" ≡ bool false)
            × ((property v "immutableCaching" ≡ bool false)
                × (property v "notFoundBehavior" ≡ bool row.not_found_behavior))))

-- Every value that the row closes.
abbrev pub MatchesRow : AdapterCapabilityRow → Fields → Type 0
MatchesRow row doc =
    RowTexts row doc
    × (RowSets row doc
        × (RowSettings row (get doc "configuration")
            × (property (get doc "limits") "transport" ≡ str row.transport)))

append-nil_iff {ℓ} : {A : Type ℓ} (xs ys : List A) → (xs ++ ys ≡ []) ↔ ((xs ≡ []) × (ys ≡ []))
append-nil_iff [] ys = (λ h. (refl, h), λ h. h.1)
append-nil_iff (x ∷ xs) ys = (λ h. absurd (ground (arith, h)), λ h. absurd (ground (arith, h.0)))

both_iff :
    {P Q : Type 0} (xs ys : List ProtocolFinding)
    → (xs ≡ []) ↔ P
    → (ys ≡ []) ↔ Q
    → (xs ++ ys ≡ []) ↔ (P × Q)
both_iff xs ys p q = iff_trans (append-nil_iff xs ys) (iff_pair p q)

report_iff : (b : Bool) (f : ProtocolFinding) → (report b f ≡ []) ↔ (b ≡ true)
unfolding report
report_iff true f = (λ h. refl, λ h. refl)
report_iff false f = (λ h. absurd (ground (arith, h)), λ h. absurd (ground (arith, h)))

check_field_iff :
    (doc : Fields) (key expected : String)
    → (check_field doc key expected ≡ []) ↔ (get doc key ≡ str expected)
unfolding check_field
check_field_iff doc key expected = iff_trans (report_iff _ _) (text_iff (get doc key) expected)

check_false_iff :
    (v : Value) (key : String) → (check_false v key ≡ []) ↔ (property v key ≡ bool false)
unfolding check_false
check_false_iff v key = iff_trans (report_iff _ _) (bool_iff (property v key) false)

fields_iff :
    (row : AdapterCapabilityRow) (doc : Fields) → (check_fields row doc ≡ []) ↔ RowTexts row doc
unfolding check_fields
fields_iff row doc = both_iff _ _ (check_field_iff doc "staging" row.staging) (
    both_iff _ _ (check_field_iff doc "activation" row.activation) (
      both_iff _ _ (check_field_iff doc "concurrency" row.concurrency) (
        both_iff _ _ (check_field_iff doc "idempotencyClass" row.idempotency_class) (
          both_iff _ _
            (check_field_iff doc "providerInventoryAssurance" row.provider_inventory_assurance)
            (both_iff _ _ (check_field_iff doc "rollback" rollback)
              (check_field_iff doc "cacheInvalidation" cache_invalidation))))))

sets_iff : (row : AdapterCapabilityRow) (doc : Fields) → (check_sets row doc ≡ []) ↔ RowSets row doc
unfolding check_sets
sets_iff row doc =
    both_iff _ _
      (iff_trans (report_iff _ _) (kind_iff (get doc "destinationKinds") row.destination_kind))
      (both_iff _ _ (report_iff _ _) (report_iff _ _))

settings_iff :
    (row : AdapterCapabilityRow) (v : Value) → (check_settings row v ≡ []) ↔ RowSettings row v
unfolding check_settings
settings_iff row v = both_iff _ _ (check_false_iff v "redirects") (
    both_iff _ _ (check_false_iff v "headers") (
      both_iff _ _ (check_false_iff v "customDomains") (
        both_iff _ _ (check_false_iff v "immutableCaching") (
          iff_trans (report_iff _ _)
            (bool_iff (property v "notFoundBehavior") row.not_found_behavior)))))

ok_iff :
    {P : Type 0} (fs : List ProtocolFinding)
    → (fs ≡ []) ↔ P
    → (let found : Result CapabilityError (List ProtocolFinding) = ok fs in found ≡ ok []) ↔ P
ok_iff fs p = (λ h. p.0 (ground (arith, h)), λ q. ap ok (p.1 q))

configuration_iff :
    (row : AdapterCapabilityRow) (v : Value)
    → (check_configuration row v ≡ ok []) ↔ RowSettings row v
unfolding check_configuration property
configuration_iff row (obj fs) = ok_iff _ (settings_iff row (obj fs))
configuration_iff row (instance_of fs) = ok_iff _ (settings_iff row (instance_of fs))
configuration_iff row (arr vs) = ok_iff _ (settings_iff row (arr vs))
configuration_iff row v =
    (λ h. absurd (ground (arith, h)), λ h. let e = h.0 in absurd (ground (arith, e)))

limits_iff :
    (row : AdapterCapabilityRow) (v : Value)
    → (check_limits row v ≡ ok []) ↔ (property v "transport" ≡ str row.transport)
unfolding check_limits property
limits_iff row null = (λ h. absurd (ground (arith, h)), λ h. absurd (ground (arith, h)))
limits_iff row v =
    ok_iff _ (iff_trans (report_iff _ _) (text_iff (property v "transport") row.transport))

joined_iff :
    {P Q R S : Type 0}
    → (fields sets : List ProtocolFinding)
    → (configuration limits : Result CapabilityError (List ProtocolFinding)) → (fields ≡ []) ↔ P
    → (sets ≡ []) ↔ Q
    → (configuration ≡ ok []) ↔ R
    → (limits ≡ ok []) ↔ S
    → ((do c ← configuration; l ← limits; ok (fields ++ (sets ++ (c ++ l)))) ≡ ok [])
      ↔ (P × (Q × (R × S)))
joined_iff fields sets (ok c) (ok l) p q r s = ok_iff _ (
    both_iff _ _ p (
      both_iff _ _ q (
        both_iff _ _ (iff_trans (λ h. ap ok h, λ h. ground (arith, h)) r)
          (iff_trans (λ h. ap ok h, λ h. ground (arith, h)) s))))
joined_iff fields sets (err e) limits p q r s =
    (λ h. absurd (ground (arith, h)), λ h. let f = r.1 h.1.1.0 in absurd (ground (arith, f)))
joined_iff fields sets (ok c) (err e) p q r s =
    (λ h. absurd (ground (arith, h)), λ h. let f = s.1 h.1.1.1 in absurd (ground (arith, f)))

-- checkExactRow of an object whose adapterId has that row returns no finding exactly when every
-- value the row closes is the row's; in particular it does not throw there.
pub exact_row_iff :
    (doc : Fields)
    → (row : AdapterCapabilityRow)
    → get_capability_row (property (get doc "adapter") "adapterId") ≡ some row
    → (check_exact_row (obj doc) ≡ ok []) ↔ MatchesRow row doc
unfolding check_exact_row check_document check_known check_row
exact_row_iff doc row e = rw e (
    joined_iff _ _ _ _ (fields_iff row doc) (sets_iff row doc)
      (configuration_iff row (get doc "configuration")) (limits_iff row (get doc "limits")))
