-- ===== src/Kernel/CapabilityDecision/Presence.antt =====
-- Which fields a decision is built from.
use publish.Prelude.{
  String, true, not, List, [], ◌∷◌, ◌++◌, ◌≡◌, ◌≢◌, ◌↔◌, refl, arith, All, Bool-cases, inl, inr,
  iff_trans, iff_pair,
}
use publish.Json.{Value, Fields, str, undefined, get}
use publish.Finding.{Finding}
use publish.Protocol.Digest.{is_undefined}
use publish.Kernel.DecisionFields.{
  required_fields, conditional_fields, all_conditional_field_names, includes, present,
  required_findings, conditional_findings,
}
use publish.Kernel.CapabilityDecision.{field_findings}

-- A field is supplied.
abbrev pub Supplied : Fields → String → Type 0
Supplied fields name = get fields name ≢ undefined

defined_iff : (v : Value) → (not (is_undefined v) ≡ true) ↔ (v ≢ undefined)
unfolding is_undefined
defined_iff v = ((λ h e. ground arith), (λ h. ground arith))

present_iff :
    (fields : Fields) (name : String) → (present fields name ≡ true) ↔ Supplied fields name
unfolding present
present_iff fields name = defined_iff (get fields name)

required_iff :
    (names : List String) (fields : Fields)
    → (required_findings names fields ≡ []) ↔ All (Supplied fields) names
unfolding required_findings
required_iff [] fields = ((λ _. tt), (λ _. refl))
required_iff (n ∷ ns) fields =
    let supplied = present_iff fields n in
    let rest = required_iff ns fields in
    elim (Bool-cases (present fields n)) [
      | inl given ↦ rw given ((λ h. (supplied.0 given, rest.0 h)), (λ (_, h). rest.1 h))
      | inr lacking ↦ rw lacking ((λ h. ground arith), (λ (s, h). ground (arith, supplied.1 s)))
    ]

-- A field is supplied exactly when the adapter's own names hold it.
abbrev pub Exact : List String → Fields → String → Type 0
Exact required fields name = (includes required (str name) ≡ true) ↔ Supplied fields name

conditional_iff :
    (names required : List String) (adapter_id : String) (fields : Fields)
    → (conditional_findings names required adapter_id fields ≡ [])
      ↔ All (Exact required fields) names
unfolding conditional_findings
conditional_iff [] required id fields = ((λ _. tt), (λ _. refl))
conditional_iff (n ∷ ns) required id fields =
    let supplied = present_iff fields n in
    let rest = conditional_iff ns required id fields in
    let member = includes required (str n) in
    elim (Bool-cases (present fields n)) [
      | inl given ↦ elim (Bool-cases member) [
        | inl own ↦
            rw (own, given)
              ((λ h. (((λ _. supplied.0 given), (λ _. refl)), rest.0 h)), (λ (_, h). rest.1 h))
        | inr foreign ↦
            rw (foreign, given)
              ((λ h. ground arith), (λ (e, _). ground (arith, e.1 (supplied.0 given))))
      ]
      | inr lacking ↦ elim (Bool-cases member) [
        | inl own ↦
            rw (own, lacking)
              ((λ h. ground arith), (λ (e, _). ground (arith, supplied.1 (e.0 refl))))
        | inr foreign ↦
            rw (foreign, lacking)
              (
                (λ h. (((λ e. ground arith), (λ s. ground (arith, supplied.1 s))), rest.0 h)),
                (λ (_, h). rest.1 h),
              )
      ]
    ]

append-none : (fs gs : List Finding) → (fs ++ gs ≡ []) ↔ ((fs ≡ []) × (gs ≡ []))
append-none [] gs = ((λ h. (refl, h)), (λ (_, h). h))
append-none (f ∷ fs) gs = ((λ h. ground arith), (λ (h, _). ground arith))

-- The fields given for an adapter have no finding exactly when each of the sixteen required fields
-- is supplied, and a conditional field is supplied exactly when it is one of the adapter's own.
pub fields_iff :
    (adapter_id : String) (fields : Fields)
    → (field_findings adapter_id fields ≡ []) ↔ (
        All (Supplied fields) required_fields
        × All (Exact (conditional_fields adapter_id) fields) all_conditional_field_names)
unfolding field_findings
fields_iff adapter_id fields = iff_trans (append-none _ _) (
    iff_pair (required_iff required_fields fields) (
      conditional_iff all_conditional_field_names (conditional_fields adapter_id) adapter_id
        fields))
