-- ===== src/Protocol/Digest/KeyOrder.antt =====
-- The order of an object's keys does not reach its digest.
use publish.Prelude.{
  ℕ, String, true, false, List, [], ◌∷◌, ◌≡◌, ◌≢◌, refl, sym, ap, ◌∙◌, arith, Result, ok, err,
  Bool-cases, inl, inr, ◌⊎◌,
}
use publish.Json.{Value, Fields, field, obj}
use publish.Protocol.Digest.{
  text_units, before, Member, precedes, insert, NotCanonical, not_canonical, with_member,
  put_member, is_undefined, braces, canonicalize_json, canonical_members, digest_of_text,
  domain_digest,
}

before_trans : (xs ys zs : List ℕ) → before xs ys ≡ true → before ys zs ≡ true → before xs zs ≡ true
unfolding before
before_trans [] (y ∷ ys) (z ∷ zs) h k = refl
before_trans [] [] zs h k = ground arith
before_trans (x ∷ xs) [] zs h k = ground arith
before_trans (x ∷ xs) (y ∷ ys) (z ∷ zs) h k =
    let rest = before_trans xs ys zs in ground (arith, rest)
before_trans [] (y ∷ ys) [] h k = ground arith
before_trans (x ∷ xs) (y ∷ ys) [] h k = ground arith

cons-eq : {x y : ℕ} {xs ys : List ℕ} → x ≡ y → xs ≡ ys → x ∷ xs ≡ y ∷ ys
cons-eq {y} {xs} e h = ap (λ t. t ∷ xs) e ∙ ap (λ t. y ∷ t) h

before_total : (xs ys : List ℕ) → before xs ys ≡ false → before ys xs ≡ false → xs ≡ ys
unfolding before
before_total [] [] h k = refl
before_total [] (y ∷ ys) h k = ground arith
before_total (x ∷ xs) [] h k = ground arith
before_total (x ∷ xs) (y ∷ ys) h k =
    let rest = before_total xs ys in cons-eq (ground arith) (rest (ground arith) (ground arith))

before_asym : (xs ys : List ℕ) → before xs ys ≡ true → before ys xs ≡ false
unfolding before
before_asym [] [] h = refl
before_asym [] (y ∷ ys) h = refl
before_asym (x ∷ xs) [] h = ground arith
before_asym (x ∷ xs) (y ∷ ys) h = let rest = before_asym xs ys in ground (arith, rest)

precedes_trans : (a b c : Member) → precedes a b ≡ true → precedes b c ≡ true → precedes a c ≡ true
unfolding precedes
precedes_trans a b c h k = before_trans (text_units a.key) (text_units b.key) (text_units c.key) h k

-- One of two members with other keys precedes the other.
Ordered : Member → Member → Type 0
Ordered a b = (precedes a b ≡ true) × (precedes b a ≡ false)

Ordered-cases : (a b : Member) → text_units a.key ≢ text_units b.key → Ordered a b ⊎ Ordered b a
unfolding precedes Ordered
Ordered-cases a b h =
    let total = before_total (text_units a.key) (text_units b.key) in
    let asym = before_asym (text_units a.key) (text_units b.key) in
    let back = before_asym (text_units b.key) (text_units a.key) in
    ground (arith, total, asym, back)

insert-Ordered :
    (a b : Member) (ms : List Member)
    → Ordered a b
    → insert a (insert b ms) ≡ insert b (insert a ms)
unfolding insert Ordered
insert-Ordered a b [] (h, k) = rw (h, k)
insert-Ordered a b (m ∷ ms) (h, k) =
    let rest = insert-Ordered a b ms (h, k) in
    let trans = precedes_trans m a b in
    let again : m ∷ insert a (insert b ms) ≡ m ∷ insert b (insert a ms) = ap (λ t. m ∷ t) rest in
    elim (Bool-cases (precedes m a)) [
      | inl first ↦ rw (trans first h, first, trans first h) again
      | inr later ↦ elim (Bool-cases (precedes m b)) [
        | inl second ↦ rw (later, second, h, later)
        | inr last ↦ rw (later, last, h, k)
      ]
    ]

insert_comm :
    (a b : Member) (ms : List Member)
    → text_units a.key ≢ text_units b.key
    → insert a (insert b ms) ≡ insert b (insert a ms)
insert_comm a b ms h = elim (Ordered-cases a b h) [
  | inl ab ↦ insert-Ordered a b ms ab
  | inr ba ↦ sym (insert-Ordered b a ms ba)
]

-- An object whose properties stand in another order: neighbours with other keys change places.
pub data Reordered : Fields → Fields → Type 0 where
  same : (fs : Fields) → Reordered fs fs
  swap :
      (k l : String) (v w : Value) (fs : Fields)
      → text_units k ≢ text_units l
      → Reordered (field k v (field l w fs)) (field l w (field k v fs))
  inside :
      (k : String) (v : Value) (fs gs : Fields)
      → Reordered fs gs
      → Reordered (field k v fs) (field k v gs)
  then_also : (fs gs hs : Fields) → Reordered fs gs → Reordered gs hs → Reordered fs hs

with_member_comm :
    (k l : String) (v w : Result NotCanonical String) (ms : Result NotCanonical (List Member))
    → text_units k ≢ text_units l
    → with_member k v (with_member l w ms) ≡ with_member l w (with_member k v ms)
unfolding with_member
with_member_comm k l (ok v) (ok w) (ok ms) h = ap ok (insert_comm _ _ ms h)
with_member_comm k l (ok v) (ok w) (err e) h = refl
with_member_comm k l (ok v) (err e) (ok ms) h = refl
with_member_comm k l (ok v) (err not_canonical) (err not_canonical) h = refl
with_member_comm k l (err e) (ok w) (ok ms) h = refl
with_member_comm k l (err not_canonical) (ok w) (err not_canonical) h = refl
with_member_comm k l (err not_canonical) (err not_canonical) ms h = refl

put_member_comm :
    (k l : String) (v w : Value) (p q : Result NotCanonical String)
    (ms : Result NotCanonical (List Member))
    → text_units k ≢ text_units l
    → put_member k v p (put_member l w q ms) ≡ put_member l w q (put_member k v p ms)
unfolding put_member is_undefined
put_member_comm k l v w p q ms h =
    let swapped = with_member_comm k l p q ms h in ground (arith, swapped)

members-Reordered : (fs gs : Fields) → Reordered fs gs → canonical_members fs ≡ canonical_members gs
unfolding canonical_members
members-Reordered _ _ (same fs) = refl
members-Reordered _ _ (swap k l v w fs h) = put_member_comm k l v w _ _ (canonical_members fs) h
members-Reordered _ _ (inside k v fs gs r) =
    ap (put_member k v (canonicalize_json v)) (members-Reordered fs gs r)
members-Reordered _ _ (then_also fs gs hs r t) =
    members-Reordered fs gs r ∙ members-Reordered gs hs t

-- Objects whose properties are the same but for their order, neighbours with other keys having
-- changed places, have one digest, or neither has a digest.
pub digest-Reordered :
    (sha256 : String → String) (domain : String) (fs gs : Fields)
    → Reordered fs gs
    → domain_digest sha256 domain (obj fs) ≡ domain_digest sha256 domain (obj gs)
unfolding domain_digest canonicalize_json
digest-Reordered sha256 domain fs gs r =
    ap (λ ms. digest_of_text sha256 domain (braces ms)) (members-Reordered fs gs r)
