-- ===== src/Action/Outcome/ExitCodes.antt =====
-- The exit code tells a blocked run from one that is not.
use publish.Prelude.{
  ℕ, true, false, ◌||◌, List, [], ◌∷◌, ◌≡◌, ◌≢◌, ◌↔◌, ◌⊎◌, inl, inr, refl, arith, any, Bool-cases,
}
use publish.Finding.{
  Severity, source_error, artifact_safety_error, target_constraint_error, warning, advisory,
}
use publish.Action.Outcome.{
  ActionFinding, is_blocking, any_blocking, exit_code_for_findings, is_target_severity,
  is_unsafe_severity, classify_rest, classify_findings, success, findings_code,
  incompatible_contract, unsafe_input,
}

blocking-split : (s : Severity) → is_blocking s ≡ (is_target_severity s || is_unsafe_severity s)
unfolding is_blocking is_target_severity is_unsafe_severity
blocking-split source_error = refl
blocking-split artifact_safety_error = refl
blocking-split target_constraint_error = refl
blocking-split warning = refl
blocking-split advisory = refl

any_blocking-split :
    (fs : List ActionFinding)
    → any_blocking fs
      ≡ (any (λ f. is_target_severity f.severity) fs || any (λ f. is_unsafe_severity f.severity) fs)
unfolding any_blocking
any_blocking-split [] = refl
any_blocking-split (f ∷ fs) =
    let rest = any_blocking-split fs in ground (arith, rest, blocking-split f.severity)

-- What `classify_iff` states of one exit code.
abbrev Classified : List ActionFinding → ℕ → Type 0
Classified fs code =
    ((code ≡ success) ↔ (fs ≡ []))
    × (((code ≡ findings_code) ↔ ((fs ≢ []) × (any_blocking fs ≡ false)))
        × (((code ≡ incompatible_contract) ⊎ (code ≡ unsafe_input)) ↔ (any_blocking fs ≡ true)))

blocks_with :
    (code : ℕ) (f : ActionFinding) (fs : List ActionFinding)
    → any_blocking (f ∷ fs) ≡ true
    → (code ≡ incompatible_contract) ⊎ (code ≡ unsafe_input)
    → code ≢ success
    → code ≢ findings_code
    → Classified (f ∷ fs) code
blocks_with code f fs blocked c h k = (
  ((λ e. absurd (h e)), (λ e. ground arith)),
  (((λ e. absurd (k e)), (λ (_, free). ground arith)), ((λ _. blocked), (λ _. c))),
)

passes_with :
    (f : ActionFinding) (fs : List ActionFinding)
    → any_blocking (f ∷ fs) ≡ false
    → Classified (f ∷ fs) findings_code
passes_with f fs free = (
  ((λ e. ground arith), (λ e. ground arith)),
  (((λ _. ((λ e. ground arith), free)), (λ _. refl)), ((λ c. ground arith), (λ b. ground arith))),
)

-- The exit code of a finding set is 0 exactly for no finding at all, 1 exactly for findings of
-- which none blocks, and 2 or 5 exactly when a finding blocks.
pub classify_iff :
    (fs : List ActionFinding)
    → (((classify_findings fs).exit_code ≡ success) ↔ (fs ≡ []))
      × ((((classify_findings fs).exit_code ≡ findings_code)
            ↔ ((fs ≢ []) × (any_blocking fs ≡ false)))
          × ((((classify_findings fs).exit_code ≡ incompatible_contract)
                ⊎ ((classify_findings fs).exit_code ≡ unsafe_input))
              ↔ (any_blocking fs ≡ true)))
unfolding classify_findings classify_rest
classify_iff [] =
    unfold any_blocking in
    (
      ((λ _. refl), (λ _. refl)),
      (((λ h. ground arith), (λ h. absurd (h.0 refl))), ((λ h. ground arith), (λ h. ground arith))),
    )
classify_iff (f ∷ fs) =
    let split = any_blocking-split (f ∷ fs) in
    elim (Bool-cases (any (λ g. is_target_severity g.severity) (f ∷ fs))) [
      | inl target ↦ rw target (
          blocks_with incompatible_contract f fs (ground (arith, split)) (inl refl) (ground arith)
            (ground arith))
      | inr other ↦ elim (Bool-cases (any (λ g. is_unsafe_severity g.severity) (f ∷ fs))) [
        | inl unsafe ↦
            rw (other, unsafe)
              (blocks_with unsafe_input f fs (ground (arith, split)) (inr refl) (ground arith)
                (ground arith))
        | inr harmless ↦ rw (other, harmless) (passes_with f fs (ground (arith, split)))
      ]
    ]

-- Where no finding blocks, the exit code of a successful run is the one of the classification.
pub exit_code-unblocked :
    (fs : List ActionFinding)
    → any_blocking fs ≡ false
    → exit_code_for_findings fs ≡ (classify_findings fs).exit_code
unfolding exit_code_for_findings classify_findings classify_rest
exit_code-unblocked [] h = refl
exit_code-unblocked (f ∷ fs) h = let split = any_blocking-split (f ∷ fs) in ground (arith, split)
