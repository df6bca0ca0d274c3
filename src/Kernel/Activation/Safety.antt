-- ===== src/Kernel/Activation/Safety.antt =====
-- A candidate activates only past its fence.
use publish.Prelude.{
  true, false, List, [], ◌∷◌, ◌≡◌, ◌≢◌, ◌↔◌, ◌⊎◌, refl, arith, iff_trans, any-append,
}
use publish.Finding.{Finding, has_blocking_finding, blocks}
use publish.Kernel.Fencing.{
  ConcurrencyFenceInput, is_fenced, check_concurrency_fence, check_resolved, check_observation,
  fence_identity_invalid, observation_missing, stale_expectation,
}
use publish.Kernel.Fencing.Fenced.{Agrees, fence-nil_iff}
use publish.Kernel.Activation.{superseded, activate, decide_on, decide_staged_activation}

decide_on-activate : (fs : List Finding) → ((decide_on fs).decision ≡ activate) ↔ (fs ≡ [])
unfolding decide_on
decide_on-activate [] = ((λ _. refl), (λ _. refl))
decide_on-activate (f ∷ fs) = ((λ h. ground arith), (λ h. cc))

-- A candidate activates exactly when its class imposes no fence or its fence agrees with the
-- observation; in every other case it reconciles.
pub activate_iff :
    (input : ConcurrencyFenceInput)
    → ((decide_staged_activation input).decision ≡ activate)
      ↔ ((is_fenced input.concurrency ≡ false) ⊎ Agrees input)
unfolding decide_staged_activation
activate_iff input =
    iff_trans (decide_on-activate (check_concurrency_fence input)) (fence-nil_iff input)

blocking-decide_on :
    (fs : List Finding)
    → has_blocking_finding fs ≡ true
    → has_blocking_finding (decide_on fs).findings ≡ true
unfolding decide_on has_blocking_finding
blocking-decide_on [] h = cc
blocking-decide_on (f ∷ fs) h =
    ground (arith, any-append (λ (g : Finding). blocks g.severity) fs (superseded ∷ []))

-- A fence with a finding is a fence that blocks.
pub blocking-fence :
    (input : ConcurrencyFenceInput)
    → check_concurrency_fence input ≢ []
    → has_blocking_finding (check_concurrency_fence input) ≡ true
unfolding check_concurrency_fence check_resolved check_observation has_blocking_finding
    fence_identity_invalid observation_missing stale_expectation blocks
blocking-fence input h = ground arith

unblocked-decide_on :
    (fs : List Finding)
    → (fs ≢ [] → has_blocking_finding fs ≡ true)
    → (has_blocking_finding (decide_on fs).findings ≡ false) ↔ ((decide_on fs).decision ≡ activate)
unblocked-decide_on [] h =
    ((λ _. (decide_on-activate []).1 refl), (λ _. unfold decide_on has_blocking_finding in refl))
unblocked-decide_on (f ∷ fs) h =
    let blocked = blocking-decide_on (f ∷ fs) (h (λ e. cc)) in
    ((λ e. cc), (λ e. let empty = (decide_on-activate (f ∷ fs)).0 e in cc))

-- The findings of a decision block exactly when the candidate does not activate.
pub unblocked-decision :
    (input : ConcurrencyFenceInput)
    → (has_blocking_finding (decide_staged_activation input).findings ≡ false)
      ↔ ((decide_staged_activation input).decision ≡ activate)
unfolding decide_staged_activation
unblocked-decision input =
    unblocked-decide_on (check_concurrency_fence input) (blocking-fence input)
