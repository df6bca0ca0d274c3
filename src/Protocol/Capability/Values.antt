-- ===== src/Protocol/Capability/Values.antt =====
-- The tests of one value of a declaration.
use publish.Prelude.{
  String, Bool, true, false, Option, none, some, List, [], ◌∷◌, ◌≡◌, ◌↔◌, refl, ap, arith, eq_iff,
}
use publish.Json.{
  Value, undefined, null, function, other, bool, num, str, arr, obj, instance_of, Items, nil, cons,
}
use publish.Protocol.Vocabulary.{is_same_set, sort_texts, place_text, equal_texts}
use publish.Protocol.Capability.{is_text, is_bool, is_set, same_texts, item_texts, and_text}

pub text_iff : (v : Value) (t : String) → (is_text v t ≡ true) ↔ (v ≡ str t)
unfolding is_text
text_iff (str s) t = (λ h. ap str ((eq_iff s t).0 h), λ h. (eq_iff s t).1 (ground (arith, h)))
text_iff undefined t = (λ h. ground arith, λ h. ground arith)
text_iff null t = (λ h. ground arith, λ h. ground arith)
text_iff function t = (λ h. ground arith, λ h. ground arith)
text_iff other t = (λ h. ground arith, λ h. ground arith)
text_iff (bool b) t = (λ h. ground arith, λ h. ground arith)
text_iff (num n) t = (λ h. ground arith, λ h. ground arith)
text_iff (arr is) t = (λ h. ground arith, λ h. ground arith)
text_iff (obj fs) t = (λ h. ground arith, λ h. ground arith)
text_iff (instance_of fs) t = (λ h. ground arith, λ h. ground arith)

pub bool_iff : (v : Value) (b : Bool) → (is_bool v b ≡ true) ↔ (v ≡ bool b)
unfolding is_bool
bool_iff (bool true) true = (λ h. refl, λ h. refl)
bool_iff (bool false) false = (λ h. refl, λ h. refl)
bool_iff (bool true) false = (λ h. ground arith, λ h. ground arith)
bool_iff (bool false) true = (λ h. ground arith, λ h. ground arith)
bool_iff undefined b = (λ h. ground arith, λ h. ground arith)
bool_iff null b = (λ h. ground arith, λ h. ground arith)
bool_iff function b = (λ h. ground arith, λ h. ground arith)
bool_iff other b = (λ h. ground arith, λ h. ground arith)
bool_iff (str s) b = (λ h. ground arith, λ h. ground arith)
bool_iff (num n) b = (λ h. ground arith, λ h. ground arith)
bool_iff (arr is) b = (λ h. ground arith, λ h. ground arith)
bool_iff (obj fs) b = (λ h. ground arith, λ h. ground arith)
bool_iff (instance_of fs) b = (λ h. ground arith, λ h. ground arith)

-- A set of one text is that text alone.
single_text : (x t : String) → is_same_set (x ∷ []) (t ∷ []) ≡ true → x ≡ t
unfolding is_same_set sort_texts place_text equal_texts
single_text x t h = (eq_iff x t).0 (ground (arith, h))

same-one_iff : (ts : List String) (t : String) → (is_same_set ts (t ∷ []) ≡ true) ↔ (ts ≡ t ∷ [])
unfolding is_same_set sort_texts place_text equal_texts
same-one_iff [] t = (λ h. ground arith, λ h. ground arith)
same-one_iff (x ∷ []) t =
    (λ h. ap (λ z. z ∷ []) (single_text x t h), λ h. ground (arith, h, eq_iff x t))
same-one_iff (x ∷ y ∷ ts) t = (λ h. ground (arith, h), λ h. ground arith)

two_texts :
    (s y t : String) (o : Option (List String))
    → same_texts (and_text s (and_text y o)) (t ∷ []) ≡ true
    → ⊥
unfolding same_texts and_text
two_texts s y t none h = ground arith
two_texts s y t (some ts) h = let e = (same-one_iff (s ∷ y ∷ ts) t).0 h in ground (arith, e)

two_items :
    (s t : String) (v : Value) (items : Items)
    → same_texts (and_text s (item_texts (cons v items))) (t ∷ []) ≡ true
    → ⊥
unfolding same_texts and_text item_texts
two_items s t (str y) items h = two_texts s y t (item_texts items) h
two_items s t v items h = ground arith

one-items_iff :
    (items : Items) (t : String)
    → (same_texts (item_texts items) (t ∷ []) ≡ true) ↔ (items ≡ cons (str t) nil)
unfolding same_texts item_texts and_text
one-items_iff nil t = (λ h. absurd (ground (arith, (same-one_iff [] t).0 h)), λ h. ground arith)
one-items_iff (cons (str s) nil) t = (
  λ h. ground (arith, (same-one_iff (s ∷ []) t).0 h),
  λ h. (same-one_iff (s ∷ []) t).1 (ground (arith, h)),
)
one-items_iff (cons (str s) (cons v items)) t =
    (λ h. absurd (two_items s t v items h), λ h. ground arith)
one-items_iff (cons v items) t = (λ h. ground arith, λ h. ground arith)

pub kind_iff : (v : Value) (t : String) → (is_set v (t ∷ []) ≡ true) ↔ (v ≡ arr (cons (str t) nil))
unfolding is_set
kind_iff (arr items) t =
    (λ h. ap arr ((one-items_iff items t).0 h), λ h. (one-items_iff items t).1 (ground (arith, h)))
kind_iff v t = (λ h. ground arith, λ h. ground arith)
