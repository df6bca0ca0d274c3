-- ===== src/Kernel/CapabilityDecision/Verified.antt =====
-- A decision that was built verifies.
use publish.Prelude.{
  String, true, false, List, [], ◌∷◌, ◌≡◌, refl, ap, arith, ◌==◌, eq_refl, Result, ok, err, ◌>>=◌,
  some, Bool-cases, inl, inr,
}
use publish.Json.{
  Value, Fields, str, obj, end, field, get, has_own, null, undefined, function, other, bool, num,
  arr, instance_of,
}
use publish.Finding.{Finding}
use publish.Protocol.Digest.{NotCanonical, domain_digest}
use publish.Kernel.DecisionFields.{
  adapter_id_of, capability_decision_domain, includes, destination_kinds,
}
use publish.Kernel.CapabilityDecision.{
  without, set, record_without_digest, refused, field_findings, completed, digested, build_for,
  build_capability_decision, compare_digest, verify_capability_decision_digest,
}

absent-field :
    (l k : String) (v : Value) (fs : Fields)
    → has_own (field l v fs) k ≡ false
    → (l == k ≡ false) × (has_own fs k ≡ false)
unfolding has_own
absent-field l k v fs h = elim (Bool-cases (l == k)) [
  | inl same ↦ ground arith
  | inr apart ↦ (apart, ground arith)
]

without-absent : (fs : Fields) (k : String) → has_own fs k ≡ false → without fs k ≡ fs
unfolding without has_own
without-absent end k h = refl
without-absent (field l v fs) k h =
    let (apart, absent) = absent-field l k v fs h in
    let rest = without-absent fs k absent in rw apart (ap (field l v) rest)

without-set :
    (fs : Fields) (k : String) (v : Value) → has_own fs k ≡ false → without (set fs k v) k ≡ fs
unfolding without set has_own
without-set end k v h = rw (eq_refl k)
without-set (field l w fs) k v h =
    let (apart, absent) = absent-field l k w fs h in
    let rest = without-set fs k v absent in rw (apart, apart) (ap (field l w) rest)

get-set : (fs : Fields) (k : String) (v : Value) → get (set fs k v) k ≡ v
unfolding get set
get-set end k v = rw (eq_refl k)
get-set (field l w fs) k v =
    let rest = get-set fs k v in
    elim (Bool-cases (l == k)) [ inl same ↦ rw (same, same) | inr apart ↦ rw (apart, apart) rest ]

has_own-without :
    (fs : Fields) (p k : String) → has_own fs k ≡ false → has_own (without fs p) k ≡ false
unfolding has_own without
has_own-without end p k h = refl
has_own-without (field l v fs) p k h =
    let (apart, absent) = absent-field l k v fs h in
    let rest = has_own-without fs p k absent in
    elim (Bool-cases (l == p)) [
      | inl same ↦ rw same rest
      | inr other_key ↦ rw (other_key, apart) rest
    ]

has_own-record :
    (fs : Fields)
    → has_own fs "decisionDigest" ≡ false
    → has_own (record_without_digest fs) "decisionDigest" ≡ false
unfolding record_without_digest has_own
has_own-record fs h = elim (Bool-cases (has_own fs "profile")) [
  | inl own ↦ rw own (has_own-without fs "profile" "decisionDigest" h)
  | inr none_own ↦ rw none_own h
]

digest-shape :
    (r : Result NotCanonical String) (w decision : Fields)
    → (r >>= λ d. ok (completed w d)) ≡ ok (record { decision = some decision; findings = [] })
    → (digest : String) × (r ≡ ok digest) × (decision ≡ set w "decisionDigest" (str digest))
unfolding completed
digest-shape (ok d) w decision h = (d, refl, ground arith)
digest-shape (err e) w decision h = ground arith

-- A built decision carries the digest of what it was built from.
built-shape :
    (sha256 : String → String) (findings : List Finding) (fields decision : Fields)
    → digested sha256 findings fields ≡ ok (record { decision = some decision; findings = [] })
    → (digest : String) × (domain_digest sha256 capability_decision_domain
          (obj (record_without_digest fields))
        ≡ ok digest)
      × (decision ≡ set (record_without_digest fields) "decisionDigest" (str digest))
unfolding digested completed refused
built-shape sha256 [] fields decision h =
    digest-shape
      (domain_digest sha256 capability_decision_domain (obj (record_without_digest fields)))
      (record_without_digest fields) decision h
built-shape sha256 (f ∷ fs) fields decision h = ground arith

built-for :
    (sha256 : String → String) (id : Value) (fields decision : Fields)
    → build_for sha256 id fields ≡ ok (record { decision = some decision; findings = [] })
    → (name : String) × (id ≡ str name)
      × ((includes destination_kinds (str name) ≡ true)
          × (digested sha256 (field_findings name fields) fields
              ≡ ok (record { decision = some decision; findings = [] })))
unfolding build_for refused
built-for sha256 (str name) fields decision h =
    elim (Bool-cases (includes destination_kinds (str name))) [
      | inl known ↦ (name, refl, (known, ground arith))
      | inr unknown ↦ ground arith
    ]
built-for sha256 null fields decision h = ground arith
built-for sha256 undefined fields decision h = ground arith
built-for sha256 function fields decision h = ground arith
built-for sha256 other fields decision h = ground arith
built-for sha256 (bool b) fields decision h = ground arith
built-for sha256 (num n) fields decision h = ground arith
built-for sha256 (arr vs) fields decision h = ground arith
built-for sha256 (obj fs) fields decision h = ground arith
built-for sha256 (instance_of fs) fields decision h = ground arith

-- A capability decision that `buildCapabilityDecision` returns, from fields that hold no
-- `decisionDigest` of their own, passes `verifyCapabilityDecisionDigest`.
pub verify-build :
    (sha256 : String → String) (fields decision : Fields)
    → has_own fields "decisionDigest" ≡ false
    → build_capability_decision sha256 fields
      ≡ ok (record { decision = some decision; findings = [] })
    → verify_capability_decision_digest sha256 decision ≡ ok []
unfolding build_capability_decision verify_capability_decision_digest compare_digest
verify-build sha256 fields decision absent h =
    let (name, _, (_, built)) = built-for sha256 (adapter_id_of fields) fields decision h in
    let (digest, computed, shape) =
      built-shape sha256 (field_findings name fields) fields decision built in
    rw shape (
      rw (
        without-set (record_without_digest fields) "decisionDigest" (str digest)
            (has_own-record fields absent),
        computed,
        get-set (record_without_digest fields) "decisionDigest" (str digest),
        eq_refl digest,
      ))
