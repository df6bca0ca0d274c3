-- ===== src/Kernel/Fencing/Fenced.antt =====
-- When the concurrency fence admits an operation.
use publish.Prelude.{
  String, false, Option, none, some, [], ◌≡◌, ◌↔◌, ◌⊎◌, inl, inr, refl, arith, Result, ok, err,
  Bool-cases,
}
use publish.Protocol.Errors.{AdapterProtocolError}
use publish.Protocol.Fence.{GenerationFence, require_generation_fence, fence_disagrees}
use publish.Kernel.Fencing.{
  ConcurrencyFenceInput, is_fenced, check_observation, check_resolved, check_concurrency_fence,
}

-- A fence that was resolved, an observation that was made, and their agreement.
abbrev pub Agrees : ConcurrencyFenceInput → Type 0
Agrees input =
    (f : GenerationFence) × (o : Option String) × (require_generation_fence
        input.expected_generation_id "publish-kernel"
      ≡ ok f)
    × (input.observed_generation_id ≡ some o)
    × (fence_disagrees f o ≡ false)

check_observation-nil :
    (input : ConcurrencyFenceInput) (f : GenerationFence) (o : Option (Option String))
    → (check_observation input f o ≡ [])
      ↔ ((g : Option String) × (o ≡ some g) × (fence_disagrees f g ≡ false))
unfolding check_observation
check_observation-nil input f none = ((λ h. cc), (λ h. let (g, e, _) = h in cc))
check_observation-nil input f (some g) = elim (Bool-cases (fence_disagrees f g)) [
  | inl stale ↦ rw stale ((λ h. cc), (λ h. let (k, e, agree) = h in ground arith))
  | inr agree ↦ rw agree ((λ h. (g, refl, agree)), (λ h. refl))
]

check_resolved-nil :
    (input : ConcurrencyFenceInput) (r : Result AdapterProtocolError GenerationFence)
    → (check_resolved input r ≡ []) ↔ (
        (f : GenerationFence) × (o : Option String) × (r ≡ ok f)
        × (input.observed_generation_id ≡ some o)
        × (fence_disagrees f o ≡ false))
unfolding check_resolved
check_resolved-nil input (err e) = ((λ h. cc), (λ h. let (f, o, e, _, _) = h in cc))
check_resolved-nil input (ok f) =
    let seen = check_observation-nil input f input.observed_generation_id in
    (
      (λ h. let (o, e, agree) = seen.0 h in (f, o, refl, e, agree)),
      (λ h. let (k, o, same, e, agree) = h in seen.1 (o, e, ground arith)),
    )

-- The fence has no finding exactly when the concurrency class imposes none, or the expectation is
-- valid, an observation was made, and the two agree. No value of the expectation or of the
-- observation turns a fence off.
pub fence-nil_iff :
    (input : ConcurrencyFenceInput)
    → (check_concurrency_fence input ≡ []) ↔ ((is_fenced input.concurrency ≡ false) ⊎ Agrees input)
unfolding check_concurrency_fence
fence-nil_iff input = elim (Bool-cases (is_fenced input.concurrency)) [
  | inr free ↦ rw free ((λ _. inl refl), (λ _. refl))
  | inl fenced ↦ rw fenced (
    (λ h. inr (
        (check_resolved-nil input
            (require_generation_fence input.expected_generation_id "publish-kernel")).0
          h)),
    elim [
      | inl e ↦ cc
      | inr agrees ↦
          (check_resolved-nil input
              (require_generation_fence input.expected_generation_id "publish-kernel")).1
            agrees
    ],
  )
]
