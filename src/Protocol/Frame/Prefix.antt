-- ===== src/Protocol/Frame/Prefix.antt =====
-- The length prefix of a frame.
use publish.Prelude.{
  ℕ, ◌+◌, ◌<◌, ◌≤◌, List, [], ◌∷◌, ◌++◌, ◌≡◌, refl, ap, ◌∙◌, sym, length, take, drop, arith, zero,
  suc,
}
use publish.Protocol.Frame.{Bytes, write_uint32, read_uint32}

-- A length that fits 32 bits is read back as it was written, whatever follows.
pub read-write_uint32 :
    (n : ℕ) (rest : Bytes) → n < 4294967296 → read_uint32 (write_uint32 n ++ rest) ≡ n
unfolding read_uint32 write_uint32
read-write_uint32 n rest h = omega arith

pub length-write_uint32 : (n : ℕ) (rest : Bytes) → length (write_uint32 n ++ rest) ≡ 4 + length rest
unfolding write_uint32
length-write_uint32 n rest = omega arith

pub drop-write_uint32 : (n : ℕ) (rest : Bytes) → drop 4 (write_uint32 n ++ rest) ≡ rest
unfolding write_uint32
drop-write_uint32 n rest = refl

pub take-length_append {ℓ} : {A : Type ℓ} (xs ys : List A) → take (length xs) (xs ++ ys) ≡ xs
take-length_append [] ys = refl
take-length_append (x ∷ xs) ys = ap (λ t. x ∷ t) (take-length_append xs ys)

pub drop-length_append {ℓ} : {A : Type ℓ} (xs ys : List A) → drop (length xs) (xs ++ ys) ≡ ys
drop-length_append [] ys = refl
drop-length_append (x ∷ xs) ys = drop-length_append xs ys

pub length-drop {ℓ} :
    {A : Type ℓ} (n : ℕ) (xs : List A) → n ≤ length xs → n + length (drop n xs) ≡ length xs
length-drop zero xs h = omega arith
length-drop (suc n) [] h = absurd (omega arith)
length-drop (suc n) (x ∷ xs) h = omega (arith, length-drop n xs (omega arith))

drop-nil {ℓ} : {A : Type ℓ} (k : ℕ) → drop {A = A} k [] ≡ []
drop-nil zero = refl
drop-nil (suc k) = refl

pub drop-drop {ℓ} : {A : Type ℓ} (n m : ℕ) (xs : List A) → drop m (drop n xs) ≡ drop (n + m) xs
drop-drop zero m xs = ap (λ k. drop k xs) (omega arith)
drop-drop (suc n) m [] = drop-nil m ∙ sym (drop-nil (suc n + m))
drop-drop {A} (suc n) m (x ∷ xs) =
    let step : suc (n + m) ≡ suc n + m = omega arith in
    drop-drop n m xs ∙ ap (λ k. drop {A = A} k (x ∷ xs)) step
