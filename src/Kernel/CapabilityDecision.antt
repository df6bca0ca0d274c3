-- ===== src/Kernel/CapabilityDecision.antt =====
-- packages/publish-kernel/src/capability-decision.js: the capability decision and its digest.
-- `sha256` is the parameter of Protocol.Digest.
pub mod Presence
pub mod Verified
use Prim.Native.String
use publish.Prelude.{
  String, Bool, true, false, List, [], ◌∷◌, ◌++◌, ◌==◌, if◌then◌else◌, Result, ok, err, Option,
  none, some, ◌>>=◌,
}
use publish.Json.{Value, Fields, undefined, str, obj, end, field, get, has_own}
use publish.Json.Print.{shown}
use publish.Finding.{Finding, kernel_finding, artifact_safety_error, no_extra}
use publish.Protocol.Digest.{NotCanonical, domain_digest}
use publish.Kernel.DecisionFields.{
  capability_decision_domain, destination_kinds, required_fields, conditional_fields,
  all_conditional_field_names, includes, adapter_id_of, adapter_unknown, required_findings,
  conditional_findings,
}

-- `{[key]: _, ...rest} = fields`
unfoldable pub without : Fields → String → Fields
without end key = end
without (field k v fs) key = if k == key then without fs key else field k v (without fs key)

-- The properties after `fields[key] = value`.
unfoldable pub set : Fields → String → Value → Fields
set end key value = field key value end
set (field k v fs) key value = if k == key then field k value fs else field k v (set fs key value)

unfoldable pub record_without_digest : Fields → Fields
record_without_digest fields =
    if has_own fields "profile"
    then field "profile" (get fields "profile") (without fields "profile")
    else field "profile" (str "gala-capability-decision-v2") fields

-- What `buildCapabilityDecision` returns.
pub record BuiltDecision : Type 0 where
  pub decision : Option Fields
  pub findings : List Finding

unfoldable pub field_findings : String → Fields → List Finding
field_findings adapter_id fields =
    required_findings required_fields fields
    ++ conditional_findings all_conditional_field_names (conditional_fields adapter_id) adapter_id
        fields

unfoldable pub refused : List Finding → BuiltDecision
refused findings = record { decision = none; findings = findings }

unfoldable pub completed : Fields → String → BuiltDecision
completed without_digest digest = record {
  decision = some (set without_digest "decisionDigest" (str digest));
  findings = [];
}

unfoldable pub digested :
    (String → String) → List Finding → Fields → Result NotCanonical BuiltDecision
digested sha256 [] fields =
    let without_digest = record_without_digest fields in
    domain_digest sha256 capability_decision_domain (obj without_digest) >>= λ digest.
    ok (completed without_digest digest)
digested sha256 (f ∷ fs) fields = ok (refused (f ∷ fs))

unfoldable pub build_for : (String → String) → Value → Fields → Result NotCanonical BuiltDecision
build_for sha256 (str adapter_id) fields =
    if includes destination_kinds (str adapter_id)
    then digested sha256 (field_findings adapter_id fields) fields
    else ok (refused (adapter_unknown (str adapter_id) ∷ []))
build_for sha256 adapter_id fields = ok (refused (adapter_unknown adapter_id ∷ []))

unfoldable pub build_capability_decision :
    (String → String) → Fields → Result NotCanonical BuiltDecision
build_capability_decision sha256 fields = build_for sha256 (adapter_id_of fields) fields

unfoldable pub digest_mismatch : Value → String → Finding
digest_mismatch carried recomputed =
    kernel_finding "CAPABILITY_DECISION_DIGEST_MISMATCH" artifact_safety_error
      (String.◌++◌ "The capability decision's carried digest " (
        String.◌++◌ (shown carried) (
          String.◌++◌ " disagrees with its recomputed digest "
            (String.◌++◌ (shown (str recomputed)) "."))))
      "Recompute and republish the capability decision; a stale or tampered digest is never staged against."
      no_extra

-- `recomputed === decisionDigest`
unfoldable pub compare_digest : String → Value → List Finding
compare_digest recomputed (str carried) =
    if recomputed == carried then [] else digest_mismatch (str carried) recomputed ∷ []
compare_digest recomputed carried = digest_mismatch carried recomputed ∷ []

unfoldable pub verify_capability_decision_digest :
    (String → String) → Fields → Result NotCanonical (List Finding)
verify_capability_decision_digest sha256 fields =
    domain_digest sha256 capability_decision_domain (obj (without fields "decisionDigest"))
    >>= λ recomputed. ok (compare_digest recomputed (get fields "decisionDigest"))
