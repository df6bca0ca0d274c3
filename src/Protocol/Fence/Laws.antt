-- ===== src/Protocol/Fence/Laws.antt =====
-- What an activation fence admits.
use publish.Prelude.{
  String, true, false, Option, none, some, ◌≡◌, ◌↔◌, ◌⊎◌, inl, inr, refl, arith, eq_iff, ok, ◌==◌,
  Bool-cases, ap,
}
use publish.Json.{Value, str, undefined}
use publish.Protocol.StableId.{is_stable_id}
use publish.Protocol.Fence.{
  GenerationFence, expect_nothing_served, require_generation_fence, fence_disagrees, fence_for,
}

-- What a destination may serve: nothing, or a generation with a stable identity.
abbrev pub IsObservation : Option String → Type 0
IsObservation none = Unit
IsObservation (some g) = is_stable_id g ≡ true

-- The sentinel is no generation identity.
pub sentinel-ne : is_stable_id expect_nothing_served ≡ false
unfolding is_stable_id
sentinel-ne = refl

ne-sentinel : (g : String) → is_stable_id g ≡ true → (g == expect_nothing_served) ≡ false
ne-sentinel g h = elim (Bool-cases (g == expect_nothing_served)) [
  | inl same ↦
      let e : g ≡ expect_nothing_served = (eq_iff _ _).0 same in cc (ap is_stable_id e, sentinel-ne)
  | inr other ↦ other
]

abbrev pub nothing_fence : GenerationFence
nothing_fence = record { expects_nothing_served = true; generation_id = none }

abbrev pub fence_of : String → GenerationFence
fence_of g = record { expects_nothing_served = false; generation_id = some g }

require-stable :
    (g adapter : String)
    → is_stable_id g ≡ true
    → require_generation_fence (str g) adapter ≡ ok (fence_of g)
unfolding require_generation_fence
require-stable g adapter h = rw (ne-sentinel g h, h)

-- A fence made for an observation, which is that nothing is served or a stable identity, is
-- accepted, and it disagrees with what is observed later exactly when that is something else.
pub fence_for-exact :
    (seen now : Option String) (adapter : String)
    → IsObservation seen
    → (f : GenerationFence) × (require_generation_fence (str (fence_for seen)) adapter ≡ ok f)
      × ((fence_disagrees f now ≡ false) ↔ (now ≡ seen))
unfolding fence_disagrees fence_for
fence_for-exact none now adapter h =
    (nothing_fence, unfold require_generation_fence in refl, ground arith)
fence_for-exact (some g) none adapter h = (fence_of g, require-stable g adapter h, ground arith)
fence_for-exact (some g) (some k) adapter h =
    (fence_of g, require-stable g adapter h, ground (arith, eq_iff k g))

abbrev pub Accepts : Value → GenerationFence → Type 0
Accepts value f =
    ((value ≡ str expect_nothing_served) × (f ≡ nothing_fence))
    ⊎ ((g : String) × (value ≡ str g) × (is_stable_id g ≡ true) × (f ≡ fence_of g))

Accepts-required :
    (value : Value) (adapter : String) (f : GenerationFence)
    → require_generation_fence value adapter ≡ ok f
    → Accepts value f
unfolding require_generation_fence
Accepts-required (str s) adapter f h = elim (Bool-cases (s == expect_nothing_served)) [
  | inl sentinel ↦ inl (ap str ((eq_iff _ _).0 sentinel), ground arith)
  | inr other ↦ elim (Bool-cases (is_stable_id s)) [
    | inl stable ↦ inr (s, refl, stable, ground arith)
    | inr unstable ↦ absurd (ground arith)
  ]
]
Accepts-required undefined adapter f h = cc
Accepts-required _ adapter f h = cc

-- The only values that `requireGenerationFence` accepts are the sentinel, which becomes the fence
-- that expects nothing, and the stable identities, each of which becomes the fence that expects
-- it. Every other value, `null` and `undefined` among them, is refused.
pub require-ok_iff :
    (value : Value) (adapter : String) (f : GenerationFence)
    → (require_generation_fence value adapter ≡ ok f) ↔ Accepts value f
require-ok_iff value adapter f = (
  Accepts-required value adapter f,
  elim [
    | inl (e, k) ↦ rw (e, k) (unfold require_generation_fence in refl)
    | inr (g, e, s, k) ↦ rw (e, k) (require-stable g adapter s)
  ],
)
