-- ===== src/Protocol/Uuid/Stable.antt =====
-- What is generated is a stable identity.
use Prim.Native.Char.{code}
use publish.Prelude.{
  ℕ, zero, suc, ◌+◌, ◌/◌, ◌%◌, ◌<◌, String, true, List, [], ◌∷◌, ◌≡◌, refl, ◌∙◌, arith,
}
use publish.Json.Print.{digit}
use publish.Protocol.StableId.{Class, fits, matches, generation_id_pattern, is_stable_id}
use publish.Protocol.Uuid.{
  byte_at, version_byte, variant_byte, uuid_bytes, hex_of, write, slice, join_groups,
  generate_uuid_v7,
}

digit-fits : (n : ℕ) → fits Class.hex (code (digit n)) ≡ true
unfolding fits
digit-fits zero = refl
digit-fits (suc zero) = refl
digit-fits (suc (suc zero)) = refl
digit-fits (suc (suc (suc zero))) = refl
digit-fits (suc (suc (suc (suc zero)))) = refl
digit-fits (suc (suc (suc (suc (suc zero))))) = refl
digit-fits (suc (suc (suc (suc (suc (suc zero)))))) = refl
digit-fits (suc (suc (suc (suc (suc (suc (suc zero))))))) = refl
digit-fits (suc (suc (suc (suc (suc (suc (suc (suc zero)))))))) = refl
digit-fits (suc (suc (suc (suc (suc (suc (suc (suc (suc zero))))))))) = refl
digit-fits (suc (suc (suc (suc (suc (suc (suc (suc (suc (suc zero)))))))))) = refl
digit-fits (suc (suc (suc (suc (suc (suc (suc (suc (suc (suc (suc zero))))))))))) = refl
digit-fits (suc (suc (suc (suc (suc (suc (suc (suc (suc (suc (suc (suc zero)))))))))))) = refl
digit-fits (suc (suc (suc (suc (suc (suc (suc (suc (suc (suc (suc (suc (suc zero))))))))))))) = refl
digit-fits
      (suc (suc (suc (suc (suc (suc (suc (suc (suc (suc (suc (suc (suc (suc zero)))))))))))))) =
    refl
digit-fits
      (suc
        (suc (suc (suc (suc (suc (suc (suc (suc (suc (suc (suc (suc (suc (suc zero))))))))))))))) =
    refl
digit-fits
      (suc (
        suc
          (suc (suc (suc (suc (suc (suc (suc (suc (suc (suc (suc (suc (suc (suc n)))))))))))))))) =
    refl

digit-version : (b : ℕ) → fits Class.seven (code (digit (version_byte b / 16))) ≡ true
unfolding fits version_byte
digit-version b = let e : (0x70 + b % 16) / 16 ≡ 7 = omega arith in rw e

digit-variant_from : (m : ℕ) → m < 4 → fits Class.variant (code (digit (8 + m))) ≡ true
unfolding fits
digit-variant_from zero h = refl
digit-variant_from (suc zero) h = refl
digit-variant_from (suc (suc zero)) h = refl
digit-variant_from (suc (suc (suc zero))) h = refl
digit-variant_from (suc (suc (suc (suc m)))) h = absurd (omega arith)

digit-variant : (b : ℕ) → fits Class.variant (code (digit (variant_byte b / 16))) ≡ true
unfolding variant_byte
digit-variant b =
    let e : (0x80 + b % 64) / 16 ≡ 8 + (b % 64) / 16 = omega arith in
    rw e (digit-variant_from ((b % 64) / 16) (omega arith))

byte-matches :
    (b : ℕ) (ks : List Class) (s : String)
    → matches
        (Class.hex ∷ Class.hex ∷ ks)
        (String.◌∷◌ (digit (b / 16)) (String.◌∷◌ (digit (b % 16)) s))
      ≡ matches ks s
unfolding matches
byte-matches b ks s = rw (digit-fits (b / 16), digit-fits (b % 16))

dash-matches :
    (ks : List Class) (s : String) → matches (Class.dash ∷ ks) (String.◌∷◌ "-" s) ≡ matches ks s
unfolding matches fits
dash-matches ks s = refl

all-matched : matches [] "" ≡ true
unfolding matches
all-matched = refl

pattern-is_stable_id : (s : String) → is_stable_id s ≡ matches generation_id_pattern s
unfolding is_stable_id
pattern-is_stable_id s = refl

-- A byte whose first digit fits a class of its own.
marked-matches :
    (c : Class) (b : ℕ) (ks : List Class) (s : String)
    → fits c (code (digit (b / 16))) ≡ true
    → matches (c ∷ Class.hex ∷ ks) (String.◌∷◌ (digit (b / 16)) (String.◌∷◌ (digit (b % 16)) s))
      ≡ matches ks s
unfolding matches
marked-matches c b ks s h = rw (h, digit-fits (b % 16))

bytes-match :
    (a b c d e f g h i j k l m n o p : ℕ)
    → fits Class.seven (code (digit (g / 16))) ≡ true
    → fits Class.variant (code (digit (i / 16))) ≡ true
    → matches generation_id_pattern
        (join_groups (hex_of (a ∷ b ∷ c ∷ d ∷ e ∷ f ∷ g ∷ h ∷ i ∷ j ∷ k ∷ l ∷ m ∷ n ∷ o ∷ p ∷ [])))
      ≡ true
unfolding join_groups hex_of write slice
bytes-match a b c d e f g h i j k l m n o p version variant =
    byte-matches a _ _
    ∙ byte-matches b _ _
    ∙ byte-matches c _ _
    ∙ byte-matches d _ _
    ∙ dash-matches _ _
    ∙ byte-matches e _ _
    ∙ byte-matches f _ _
    ∙ dash-matches _ _
    ∙ marked-matches Class.seven g _ _ version
    ∙ byte-matches h _ _
    ∙ dash-matches _ _
    ∙ marked-matches Class.variant i _ _ variant
    ∙ byte-matches j _ _
    ∙ dash-matches _ _
    ∙ byte-matches k _ _
    ∙ byte-matches l _ _
    ∙ byte-matches m _ _
    ∙ byte-matches n _ _
    ∙ byte-matches o _ _
    ∙ byte-matches p _ _
    ∙ all-matched

-- The generator's result is a stable identity, whatever the clock's milliseconds and the random
-- bytes are, so the protocol's own checks accept it.
pub generate-is_stable_id :
    (timestamp_ms : ℕ) (random : List ℕ)
    → is_stable_id (generate_uuid_v7 timestamp_ms random) ≡ true
unfolding generate_uuid_v7 uuid_bytes
generate-is_stable_id t r =
    pattern-is_stable_id _
    ∙ bytes-match _ _ _ _ _ _ _ _ _ _ _ _ _ _ _ _ (digit-version (byte_at r 0))
        (digit-variant (byte_at r 2))
