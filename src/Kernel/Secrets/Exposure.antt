-- ===== src/Kernel/Secrets/Exposure.antt =====
-- When a value exposes no credential.
pub mod Free
use publish.Prelude.{
  ℕ, ◌+◌, String, Bool, true, false, List, [], ◌∷◌, ◌++◌, ◌≡◌, ◌↔◌, refl, arith, iff_trans,
  iff_pair, iff_pair3, if◌then◌else◌,
}
use publish.Json.{
  Value, Items, Fields, undefined, null, function, other, bool, num, str, arr, obj, instance_of,
  nil, cons, end, field,
}
use publish.Json.Print.{decimal}
use publish.Finding.{Finding, has_blocking_finding, unblocked-append, blocks}
use publish.Kernel.Secrets.{
  is_credential_value, bears_credential, visit_exposure, value_exposed, key_exposed, walk_exposure,
  walk_exposure_items, walk_exposure_fields, walk_keys, walk_keys_items, walk_keys_fields,
  find_secret_exposure, at,
}

-- No text of the value has the shape of a credential, and no property with a credential-bearing
-- name holds a non-empty text, at any depth.
abbrev mutual
  pub IsClean : Value → Type 0
  IsClean (str s) = is_credential_value s ≡ false
  IsClean (arr vs) = AreClean vs
  IsClean (obj fs) = HasCleanFields fs
  IsClean (instance_of fs) = HasCleanFields fs
  IsClean undefined = Unit
  IsClean null = Unit
  IsClean function = Unit
  IsClean other = Unit
  IsClean (bool b) = Unit
  IsClean (num n) = Unit

  pub AreClean : Items → Type 0
  AreClean nil = Unit
  AreClean (cons v vs) = IsClean v × AreClean vs

  pub HasCleanFields : Fields → Type 0
  HasCleanFields end = Unit
  HasCleanFields (field key entry fs) =
      (bears_credential key entry ≡ false) × IsClean entry × HasCleanFields fs

-- Neither walk has a blocking finding.
abbrev Silent : List Finding → List Finding → Type 0
Silent walked keyed = (has_blocking_finding walked ≡ false) × (has_blocking_finding keyed ≡ false)

-- Two walks in parts.
Silent-append : (a b c d : List Finding) → Silent (a ++ b) (c ++ d) ↔ (Silent a c × Silent b d)
Silent-append a b c d =
    let front = unblocked-append a b in
    let back = unblocked-append c d in
    (
      (λ h. let (p, q) = front.0 h.0 in let (r, s) = back.0 h.1 in ((p, r), (q, s))),
      (λ h. (front.1 (h.0.0, h.1.0), back.1 (h.0.1, h.1.1))),
    )

Silent-nil : Silent [] []
unfolding has_blocking_finding
Silent-nil = (refl, refl)

Silent-text :
    (s location : String) → Silent (visit_exposure s location) [] ↔ (is_credential_value s ≡ false)
unfolding visit_exposure has_blocking_finding value_exposed blocks
Silent-text s location = ground arith

-- One property: its own test, and the walks of its value.
Silent-field :
    (b : Bool) (f : Finding) (walked keyed : List Finding)
    → blocks f.severity ≡ true
    → Silent (if b then [] else walked) (if b then f ∷ [] else keyed)
      ↔ ((b ≡ false) × Silent walked keyed)
unfolding has_blocking_finding
Silent-field true f walked keyed h = ((λ q. ground (arith, h)), (λ q. ground arith))
Silent-field false f walked keyed h = ((λ q. (refl, q)), (λ q. q.1))

key-blocks : (key location : String) → blocks (key_exposed key location).severity ≡ true
unfolding key_exposed blocks
key-blocks key location = refl

mutual
  unfolding walk_exposure walk_keys

  Silent-iff : (v : Value) (l k : String) → Silent (walk_exposure v l) (walk_keys v k) ↔ IsClean v
  Silent-iff (str s) l k = Silent-text s l
  Silent-iff (arr vs) l k = Silent-items vs l k 0
  Silent-iff (obj fs) l k = Silent-fields fs l k
  Silent-iff (instance_of fs) l k = Silent-fields fs l k
  Silent-iff undefined l k = ((λ _. tt), (λ _. Silent-nil))
  Silent-iff null l k = ((λ _. tt), (λ _. Silent-nil))
  Silent-iff function l k = ((λ _. tt), (λ _. Silent-nil))
  Silent-iff other l k = ((λ _. tt), (λ _. Silent-nil))
  Silent-iff (bool b) l k = ((λ _. tt), (λ _. Silent-nil))
  Silent-iff (num n) l k = ((λ _. tt), (λ _. Silent-nil))

  Silent-items :
      (vs : Items) (l k : String) (n : ℕ)
      → Silent (walk_exposure_items vs l n) (walk_keys_items vs k n) ↔ AreClean vs
  Silent-items nil l k n = ((λ _. tt), (λ _. Silent-nil))
  Silent-items (cons v vs) l k n =
      iff_trans (Silent-append _ _ _ _) (
        iff_pair (Silent-iff v (at l (decimal n)) (at k (decimal n))) (Silent-items vs l k (n + 1)))

  Silent-fields :
      (fs : Fields) (l k : String)
      → Silent (walk_exposure_fields fs l) (walk_keys_fields fs k) ↔ HasCleanFields fs
  Silent-fields end l k = ((λ _. tt), (λ _. Silent-nil))
  Silent-fields (field key entry fs) l k = iff_trans (Silent-append _ _ _ _) (
      iff_pair3
        (Silent-field (bears_credential key entry) (key_exposed key (at k key)) _ _
          (key-blocks key (at k key)))
        (Silent-iff entry (at l key) (at k key)) (Silent-fields fs l k))

-- The scan has no blocking finding exactly when the value is clean at every depth: no text has the
-- shape of a credential and no property with a credential-bearing name holds a non-empty text.
pub exposure_iff : (v : Value) → (has_blocking_finding (find_secret_exposure v) ≡ false) ↔ IsClean v
unfolding find_secret_exposure
exposure_iff v = iff_trans (unblocked-append _ _) (Silent-iff v "" "")
