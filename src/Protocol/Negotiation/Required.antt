-- ===== src/Protocol/Negotiation/Required.antt =====
-- When a declaration is admitted for what a policy requires.
use publish.Prelude.{
  String, true, ◌≡◌, ◌↔◌, refl, Result, ok, err, ◌>>=◌, Bool-cases, inl, inr, arith,
}
use publish.Json.{Value}
use publish.Protocol.Digest.{domain_digest}
use publish.Protocol.Capability.{CapabilityError, assert_valid_capability_declaration}
use publish.Kernel.Marker.{Validator}
use publish.Protocol.Negotiation.{
  CapabilityRequirements, NegotiationDecision, fields_of, without_digest, decided,
  require_satisfied, negotiation_decision_domain, negotiate_capability, require_capability_match,
}
use publish.Protocol.Negotiation.Satisfied.{Meets, satisfied_iff}

require_satisfied_iff :
    (decision : NegotiationDecision)
    → ((d : NegotiationDecision) × (require_satisfied decision ≡ ok d))
      ↔ (decision.satisfied ≡ true)
unfolding require_satisfied
require_satisfied_iff decision = elim (Bool-cases decision.satisfied) [
  | inl e ↦ (λ h. e, λ u. (decision, rw e refl))
  | inr e ↦ (λ h. let f = h.1 in absurd (ground (arith, f, e)), λ u. absurd (ground (arith, u, e)))
]

-- With a digest, the decision is satisfied exactly when the requirements are met.
after_digest_iff :
    (declaration : Value)
    → (r : CapabilityRequirements) → (digest : String)
    → ((d : NegotiationDecision) × ((do
      decision ← decided (fields_of declaration) r (ok digest)
      require_satisfied decision)
          ≡ ok d))
      ↔ Meets (fields_of declaration) r
unfolding decided
after_digest_iff declaration r digest =
    let s = require_satisfied_iff _ in
    let m = satisfied_iff (fields_of declaration) r in (λ h. m.0 (s.0 h), λ h. s.1 (m.1 h))

after_validation_iff :
    (valid : Result CapabilityError (Unit {0}))
    → (declaration : Value) → (r : CapabilityRequirements) → (digest : String)
    → ((d : NegotiationDecision) × ((do
      decision ← (do u ← valid; decided (fields_of declaration) r (ok digest))
      require_satisfied decision)
          ≡ ok d))
      ↔ ((valid ≡ ok tt) × Meets (fields_of declaration) r)
after_validation_iff (ok tt) declaration r digest =
    let m = after_digest_iff declaration r digest in (λ h. (refl, m.0 h), λ h. m.1 h.1)
after_validation_iff (err f) declaration r digest =
    (λ h. let g = h.1 in absurd (ground (arith, g)), λ h. let g = h.0 in absurd (ground (arith, g)))

-- requireCapabilityMatch returns a decision exactly when the declaration is valid and meets every
-- requirement, where the decision has a canonical form.
pub match-ok_iff :
    (sha256 : String → String)
    → (validate : Validator) → (declaration : Value) → (r : CapabilityRequirements)
    → (digest : String)
    → domain_digest sha256 negotiation_decision_domain (without_digest (fields_of declaration) r)
      ≡ ok digest
    → ((d : NegotiationDecision) × (require_capability_match sha256 validate declaration r ≡ ok d))
      ↔ ((assert_valid_capability_declaration validate declaration ≡ ok tt)
          × Meets (fields_of declaration) r)
unfolding require_capability_match negotiate_capability
match-ok_iff sha256 validate declaration r digest e = rw e (
    after_validation_iff (assert_valid_capability_declaration validate declaration) declaration r
      digest)
