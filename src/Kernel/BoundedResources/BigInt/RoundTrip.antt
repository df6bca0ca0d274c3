-- ===== src/Kernel/BoundedResources/BigInt/RoundTrip.antt =====
-- A natural number that was printed in decimal is read back by `BigInt`.
use Prim.Native.Char.{Char, code}
use Prim.Native.String.{String, [], ◌∷◌}
use publish.Prelude.{
  ℕ, zero, suc, ◌+◌, ◌*◌, ◌/◌, ◌%◌, ◌≤◌, ◌<◌, false, ◌≡◌, refl, none, some, ok, ltb, pos, arith,
  ◌∙◌, ap, ltb→lt, Bool-cases, inl, inr,
}
use publish.Json.Print.{digit, decimal, decimal_from}
use publish.Kernel.BoundedResources.BigInt.{
  text, is_space, trim_start, trim_end, digit_value, digits_from, digits, after_zero, text_integer,
  signed, radix_of, big_int,
}

abbrev IsDigit : Char → Type 0
IsDigit c = (48 ≤ code c) × (code c ≤ 57)

abbrev AllDigits : String → Type 0
AllDigits [] = Unit
AllDigits (c ∷ s) = IsDigit c × AllDigits s

digit-code : (n : ℕ) → n < 10 → code (digit n) ≡ n + 48
digit-code zero h = refl
digit-code (suc zero) h = refl
digit-code (suc (suc zero)) h = refl
digit-code (suc (suc (suc zero))) h = refl
digit-code (suc (suc (suc (suc zero)))) h = refl
digit-code (suc (suc (suc (suc (suc zero))))) h = refl
digit-code (suc (suc (suc (suc (suc (suc zero)))))) h = refl
digit-code (suc (suc (suc (suc (suc (suc (suc zero))))))) h = refl
digit-code (suc (suc (suc (suc (suc (suc (suc (suc zero)))))))) h = refl
digit-code (suc (suc (suc (suc (suc (suc (suc (suc (suc zero))))))))) h = refl
digit-code (suc (suc (suc (suc (suc (suc (suc (suc (suc (suc n)))))))))) h = absurd (omega arith)

digit_value-of_code : (n c : ℕ) → n < 10 → c ≡ n + 48 → digit_value c ≡ n
unfolding digit_value
digit_value-of_code n c h e = ground arith

digit-IsDigit : (n : ℕ) → n < 10 → IsDigit (digit n)
digit-IsDigit n h = omega (arith, digit-code n h)

digits_from-digit :
    (acc n : ℕ) (tail : String)
    → n < 10
    → digits_from 10 acc (digit n ∷ tail) ≡ digits_from 10 (acc * 10 + n) tail
unfolding digits_from
digits_from-digit acc n tail h =
    let e = digit-code n h in
    let v = digit_value-of_code n (code (digit n)) h e in rw v (ground arith)

decimal_from-AllDigits :
    (fuel n : ℕ) (tail : String) → AllDigits tail → AllDigits (decimal_from fuel n tail)
unfolding decimal_from
decimal_from-AllDigits zero n tail h = h
decimal_from-AllDigits (suc fuel) n tail h = elim (Bool-cases (ltb n 10)) [
  | inl small ↦ rw small (digit-IsDigit n (ltb→lt n 10 small), h)
  | inr large ↦ rw large (
      decimal_from-AllDigits fuel (n / 10) (digit (n % 10) ∷ tail)
        (digit-IsDigit (n % 10) (omega arith), h))
]

digits_from-decimal_from :
    (fuel n : ℕ) (tail : String)
    → n < fuel
    → digits_from 10 0 (decimal_from fuel n tail) ≡ digits_from 10 n tail
unfolding decimal_from
digits_from-decimal_from zero n tail h = absurd (omega arith)
digits_from-decimal_from (suc fuel) n tail h = elim (Bool-cases (ltb n 10)) [
  | inl small ↦ rw small (
      digits_from-digit 0 n tail (ltb→lt n 10 small)
      ∙ ap (λ m. digits_from 10 m tail) (omega arith))
  | inr large ↦ rw large (
      digits_from-decimal_from fuel (n / 10) (digit (n % 10) ∷ tail) (ground arith)
      ∙ digits_from-digit (n / 10) (n % 10) tail (omega arith)
      ∙ ap (λ m. digits_from 10 m tail) (omega arith))
]

radix_of-digit : (n : ℕ) → 48 ≤ n → n ≤ 57 → radix_of n ≡ none
radix_of-digit n h k = ground arith

is_space-digit : (c : Char) → IsDigit c → is_space (code c) ≡ false
unfolding is_space
is_space-digit c h = ground arith

trim_start-AllDigits : (s : String) → AllDigits s → trim_start s ≡ s
unfolding trim_start
trim_start-AllDigits [] h = refl
trim_start-AllDigits (c ∷ s) (d, h) = rw (is_space-digit c d)

trim_end-AllDigits : (s : String) → AllDigits s → trim_end s ≡ s
unfolding trim_end
trim_end-AllDigits [] h = refl
trim_end-AllDigits (c ∷ []) (d, h) = rw (is_space-digit c d)
trim_end-AllDigits (c ∷ d ∷ s) (_, h) = rw (trim_end-AllDigits (d ∷ s) h)

after_zero-AllDigits :
    (c : Char) (s : String) → AllDigits (c ∷ s) → after_zero c s ≡ signed false (digits 10 (c ∷ s))
unfolding after_zero
after_zero-AllDigits c [] h = refl
after_zero-AllDigits c (x ∷ s) (_, (d, _)) = rw (radix_of-digit (code x) d.0 d.1, after_zero)

text_integer-AllDigits :
    (c : Char) (s : String)
    → AllDigits (c ∷ s)
    → text_integer (c ∷ s) ≡ signed false (digits 10 (c ∷ s))
unfolding text_integer
text_integer-AllDigits c s (d, h) = ground (arith, after_zero-AllDigits c s (d, h))

-- A text of digits that has a value has a digit.
big_int-AllDigits :
    (s : String) (n : ℕ) → AllDigits s → digits_from 10 0 s ≡ some n → big_int (text s) ≡ ok (pos n)
unfolding big_int
big_int-AllDigits [] n h e = unfold text_integer trim_start trim_end digits_from in ground arith
big_int-AllDigits (c ∷ s) n h e =
    rw (trim_start-AllDigits (c ∷ s) h, trim_end-AllDigits (c ∷ s) h, text_integer-AllDigits c s h)
      (unfold digits in rw e)

-- A decimal text of a natural number is read back as that number, whatever its size: no limit that
-- stands on the wire as a decimal string is rounded.
pub big_int-decimal : (n : ℕ) → big_int (text (decimal n)) ≡ ok (pos n)
unfolding decimal digits_from
big_int-decimal n =
    big_int-AllDigits (decimal_from (n + 1) n []) n (decimal_from-AllDigits (n + 1) n [] tt)
      (digits_from-decimal_from (n + 1) n [] (omega arith))
