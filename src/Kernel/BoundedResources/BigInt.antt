-- ===== src/Kernel/BoundedResources/BigInt.antt =====
-- `BigInt(x)` of a number or a string, as the language defines it: a number must be integral; a
-- string is trimmed and is empty, decimal with an optional sign, or 0x, 0o or 0b and digits.
pub mod RoundTrip
use Prim.Native.Char.{Char, code}
use Prim.Native.String.{String, [], ◌∷◌}
use mathlib.Core.List
use publish.Prelude.{
  ℕ, zero, suc, ◌+◌, ◌-◌, ◌*◌, Bool, true, false, ◌&&◌, ◌||◌, Option, none, some, Result, ok, err,
  eqb, ltb, leb, if◌then◌else◌, ℤ, pos, negsuc,
}

-- `number | string`: an integral number, another number, or a text.
pub data Count : Type 0 where
  whole : ℤ → Count
  fraction : Count
  text : String → Count

pub data BigIntError : Type 0 where
  range_error syntax_error : BigIntError

-- White space and line terminators.
unfoldable pub is_space : ℕ → Bool
is_space n =
    eqb n 32
    || eqb n 160
    || (leb 9 n && leb n 13)
    || eqb n 0x1680
    || (leb 0x2000 n && leb n 0x200a)
    || eqb n 0x2028
    || eqb n 0x2029
    || eqb n 0x202f
    || eqb n 0x205f
    || eqb n 0x3000
    || eqb n 0xfeff

unfoldable pub trim_start : String → String
trim_start [] = []
trim_start (c ∷ s) = if is_space (code c) then trim_start s else c ∷ s

-- A text of white space alone is trimmed away.
unfoldable pub trim_end : String → String
trim_end [] = []
trim_end (c ∷ s) = elim (trim_end s) [
  | [] ↦ if is_space (code c) then [] else c ∷ []
  | d ∷ t ↦ c ∷ d ∷ t
]

-- The value of a digit; 36 for what is none.
unfoldable pub digit_value : ℕ → ℕ
digit_value n =
    if leb 48 n && leb n 57
    then n - 48
    else if leb 97 n && leb n 122
    then n - 87
    else if leb 65 n && leb n 90
    then n - 55
    else 36

unfoldable pub digits_from : ℕ → ℕ → String → Option ℕ
unfolding digit_value
digits_from radix acc [] = some acc
digits_from radix acc (c ∷ s) =
    let d = digit_value (code c) in
    let rest = digits_from radix (acc * radix + d) s in if ltb d radix then rest else none

-- At least one digit.
unfoldable pub digits : ℕ → String → Option ℕ
digits radix [] = none
digits radix (c ∷ s) = digits_from radix 0 (c ∷ s)

abbrev pub signed : Bool → Option ℕ → Result BigIntError ℤ
signed minus none = err syntax_error
signed false (some n) = ok (pos n)
signed true (some zero) = ok (pos 0)
signed true (some (suc n)) = ok (negsuc n)

abbrev pub radix_of : ℕ → Option ℕ
radix_of n =
    if eqb n 120 || eqb n 88
    then some 16
    else if eqb n 111 || eqb n 79
    then some 8
    else if eqb n 98 || eqb n 66
    then some 2
    else none

-- A text that begins with 0.
unfoldable pub after_zero : Char → String → Result BigIntError ℤ
after_zero z [] = signed false (digits 10 (z ∷ []))
after_zero z (x ∷ s) = elim (radix_of (code x)) [
  | none ↦ signed false (digits 10 (z ∷ x ∷ s))
  | some radix ↦ signed false (digits radix s)
]

unfoldable pub text_integer : String → Result BigIntError ℤ
unfolding after_zero
text_integer [] = ok (pos 0)
text_integer (c ∷ s) =
    if eqb (code c) 45
    then signed true (digits 10 s)
    else if eqb (code c) 43
    then signed false (digits 10 s)
    else if eqb (code c) 48
    then after_zero c s
    else signed false (digits 10 (c ∷ s))

unfoldable pub big_int : Count → Result BigIntError ℤ
big_int (whole z) = ok z
big_int fraction = err range_error
big_int (text s) = text_integer (trim_end (trim_start s))
