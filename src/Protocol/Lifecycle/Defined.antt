-- ===== src/Protocol/Lifecycle/Defined.antt =====
-- Which modules are adapters.
use publish.Prelude.{
  String, true, false, List, [], ◌∷◌, ◌≡◌, ◌↔◌, refl, sym, ap, ◌∙◌, All, arith, ok,
}
use publish.Json.{Value, Fields, function, end, field, get, has_own}
use publish.Protocol.Errors.{ProtocolFinding}
use publish.Protocol.Lifecycle.{
  lifecycle_operations, is_function, missing_findings, exported, adapter_findings, refuse_findings,
  define_adapter,
}

-- The lifecycle that holds each operation once, in the order of the list.
abbrev pub functions : List String → Fields
functions [] = end
functions (operation ∷ rest) = field operation function (functions rest)

abbrev pub ExportsAll : Fields → List String → Type 0
ExportsAll module_namespace = All (λ operation. get module_namespace operation ≡ function)

is_function-true : (v : Value) → is_function v ≡ true → v ≡ function
unfolding is_function
is_function-true v h = ground arith

missing-none : (ops : List String) (m : Fields) → missing_findings ops m ≡ [] → ExportsAll m ops
unfolding missing_findings
missing-none [] m h = tt
missing-none (o ∷ os) m h =
    (is_function-true (get m o) (ground arith), missing-none os m (ground arith))

exports-none :
    (ops : List String) (m : Fields)
    → ExportsAll m ops
    → (missing_findings ops m ≡ []) × (exported ops m ≡ functions ops)
unfolding missing_findings exported is_function
exports-none [] m h = (refl, refl)
exports-none (o ∷ os) m (e, h) =
    let (a, b) = exports-none os m h in rw e (a, ap (field o function) b)

adapter_findings-none :
    (m : Fields)
    → adapter_findings m ≡ []
    → (has_own m "default" ≡ false) × (missing_findings lifecycle_operations m ≡ [])
unfolding adapter_findings
adapter_findings-none m h = ground arith

refuse-ok :
    (fs : List ProtocolFinding) (l r : Fields) → refuse_findings fs l ≡ ok r → (fs ≡ []) × (l ≡ r)
unfolding refuse_findings
refuse-ok [] l r h = (refl, ground arith)
refuse-ok (f ∷ fs) l r h = ground arith

-- A module namespace is accepted as an adapter exactly when it has no default export and each of
-- the eight lifecycle names is a function; what is returned then holds those eight functions, each
-- under its name, and nothing else.
pub define_adapter_iff :
    (m l : Fields)
    → (define_adapter m ≡ ok l) ↔ (
        (has_own m "default" ≡ false)
        × (ExportsAll m lifecycle_operations × (l ≡ functions lifecycle_operations)))
unfolding define_adapter
define_adapter_iff m l = (
  (λ h.
      let (none, shape) = refuse-ok (adapter_findings m) (exported lifecycle_operations m) l h in
      let (own, missing) = adapter_findings-none m none in
      let all = missing-none lifecycle_operations m missing in
      (own, (all, sym shape ∙ (exports-none lifecycle_operations m all).1))),
  (λ (own, (all, shape)).
      let (missing, exports) = exports-none lifecycle_operations m all in
      unfold adapter_findings refuse_findings in rw (own, missing, exports, shape)),
)
