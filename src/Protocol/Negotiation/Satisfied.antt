-- ===== src/Protocol/Negotiation/Satisfied.antt =====
-- When a declaration satisfies what a policy requires.
use publish.Prelude.{
  String, Bool, true, ◌&&◌, Option, none, some, List, [], ◌∷◌, ◌++◌, map, all, all-append, ◌≡◌, ◌↔◌,
  refl, arith, All, iff_trans, iff_pair,
}
use publish.Json.{Value, bool, str, arr, nil, cons, Fields, get}
use publish.Protocol.Capability.{is_bool}
use publish.Kernel.DecisionFields.{property}
use publish.Protocol.Capability.Values.{text_iff, bool_iff, kind_iff}
use publish.Protocol.Negotiation.{
  CapabilityRequirements, RequirementOutcome, outcome, push_scalar_requirement, destination_outcome,
  verification_outcome, declares, transport_outcome, configuration_outcome, configuration_outcomes,
  scalar_outcomes, outcomes_of, all_satisfied,
}

and_iff : (a b : Bool) → ((a && b) ≡ true) ↔ ((a ≡ true) × (b ≡ true))
and_iff a b = (λ h. (ground arith, ground arith), λ h. ground arith)

-- What is required of one value: nothing, or that text.
abbrev pub MeetsText : Value → Option String → Type 0
MeetsText v none = Unit
MeetsText v (some t) = v ≡ str t

-- The array of that one text.
abbrev pub MeetsKind : Value → Option String → Type 0
MeetsKind v none = Unit
MeetsKind v (some t) = v ≡ arr (cons (str t) nil)

abbrev pub MeetsAll : Value → Option (List String) → Type 0
MeetsAll v none = Unit
MeetsAll v (some ts) = All (λ t. declares v t ≡ true) ts

abbrev pub MeetsSettings : Value → Option (List (String × Bool)) → Type 0
MeetsSettings v none = Unit
MeetsSettings v (some entries) = All (λ e. property v e.0 ≡ bool e.1) entries

-- Every requirement, by the declaration's properties.
abbrev pub Meets : Fields → CapabilityRequirements → Type 0
Meets doc r =
    MeetsKind (get doc "destinationKinds") r.destination_kind
    × ((MeetsText (get doc "staging") r.staging
          × (MeetsText (get doc "activation") r.activation
              × (MeetsText (get doc "concurrency") r.concurrency
                  × (MeetsText (get doc "idempotencyClass") r.idempotency_class
                      × MeetsText (get doc "providerInventoryAssurance")
                          r.provider_inventory_assurance))))
        × (MeetsAll (get doc "verification") r.verification
            × (MeetsText (property (get doc "limits") "transport") r.transport
                × MeetsSettings (get doc "configuration") r.configuration)))

all-true_iff :
    {A : Type 0} (p : A → Bool) (P : A → Type 0) (xs : List A)
    → ((x : A) → (p x ≡ true) ↔ P x)
    → (all p xs ≡ true) ↔ All P xs
all-true_iff p P [] h = (λ e. tt, λ u. refl)
all-true_iff p P (x ∷ xs) h =
    iff_trans (and_iff (p x) (all p xs)) (iff_pair (h x) (all-true_iff p P xs h))

satisfied-append_iff :
    {P Q : Type 0} (xs ys : List RequirementOutcome)
    → (all_satisfied xs ≡ true) ↔ P
    → (all_satisfied ys ≡ true) ↔ Q
    → (all_satisfied (xs ++ ys) ≡ true) ↔ (P × Q)
unfolding all_satisfied
satisfied-append_iff xs ys p q =
    rw (all-append (λ o. o.satisfied) xs ys)
      (iff_trans (and_iff (all (λ o. o.satisfied) xs) (all (λ o. o.satisfied) ys)) (iff_pair p q))

one_iff :
    {P : Type 0} (o : RequirementOutcome)
    → (o.satisfied ≡ true) ↔ P
    → (all_satisfied (o ∷ []) ≡ true) ↔ P
unfolding all_satisfied
one_iff o p = (λ h. p.0 (ground (arith, h)), λ q. let e = p.1 q in rw e refl)

none_iff : (all_satisfied [] ≡ true) ↔ Unit {0}
unfolding all_satisfied
none_iff = (λ h. tt, λ u. refl)

scalar_iff :
    (doc : Fields) (key : String) (o : Option String)
    → (all_satisfied (push_scalar_requirement doc key o) ≡ true) ↔ MeetsText (get doc key) o
unfolding push_scalar_requirement outcome
scalar_iff doc key none = none_iff
scalar_iff doc key (some t) = one_iff _ (text_iff (get doc key) t)

destination_iff :
    (doc : Fields) (o : Option String)
    → (all_satisfied (destination_outcome doc o) ≡ true) ↔ MeetsKind (get doc "destinationKinds") o
unfolding destination_outcome outcome
destination_iff doc none = none_iff
destination_iff doc (some t) = one_iff _ (kind_iff (get doc "destinationKinds") t)

verification_iff :
    (doc : Fields) (o : Option (List String))
    → (all_satisfied (verification_outcome doc o) ≡ true) ↔ MeetsAll (get doc "verification") o
unfolding verification_outcome outcome
verification_iff doc none = none_iff
verification_iff doc (some ts) =
    one_iff _ (all-true_iff (declares (get doc "verification")) _ ts (λ t. (λ h. h, λ h. h)))

transport_iff :
    (doc : Fields) (o : Option String)
    → (all_satisfied (transport_outcome doc o) ≡ true)
      ↔ MeetsText (property (get doc "limits") "transport") o
unfolding transport_outcome outcome
transport_iff doc none = none_iff
transport_iff doc (some t) = one_iff _ (text_iff (property (get doc "limits") "transport") t)

settings_iff :
    (v : Value) (entries : List (String × Bool))
    → (all_satisfied (map (configuration_outcome v) entries) ≡ true)
      ↔ All (λ e. property v e.0 ≡ bool e.1) entries
unfolding all_satisfied configuration_outcome outcome
settings_iff v [] = (λ h. tt, λ u. refl)
settings_iff v ((key, b) ∷ entries) =
    iff_trans (and_iff (is_bool (property v key) b) _)
      (iff_pair (bool_iff (property v key) b) (settings_iff v entries))

configuration_iff :
    (doc : Fields) (o : Option (List (String × Bool)))
    → (all_satisfied (configuration_outcomes doc o) ≡ true)
      ↔ MeetsSettings (get doc "configuration") o
unfolding configuration_outcomes
configuration_iff doc none = none_iff
configuration_iff doc (some entries) = settings_iff (get doc "configuration") entries

-- Every outcome is satisfied exactly when the declaration meets every requirement.
pub satisfied_iff :
    (doc : Fields) (r : CapabilityRequirements)
    → (all_satisfied (outcomes_of doc r) ≡ true) ↔ Meets doc r
unfolding outcomes_of scalar_outcomes
satisfied_iff doc r = satisfied-append_iff _ _ (destination_iff doc r.destination_kind) (
    satisfied-append_iff _ _
      (satisfied-append_iff _ _ (scalar_iff doc "staging" r.staging) (
        satisfied-append_iff _ _ (scalar_iff doc "activation" r.activation) (
          satisfied-append_iff _ _ (scalar_iff doc "concurrency" r.concurrency) (
            satisfied-append_iff _ _ (scalar_iff doc "idempotencyClass" r.idempotency_class)
              (scalar_iff doc "providerInventoryAssurance" r.provider_inventory_assurance)))))
      (satisfied-append_iff _ _ (verification_iff doc r.verification) (
        satisfied-append_iff _ _ (transport_iff doc r.transport)
          (configuration_iff doc r.configuration))))
