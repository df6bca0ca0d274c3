-- ===== src/Kernel/Secrets/Redaction.antt =====
-- What redaction leaves of a value.
use Prim.Native.Char.{code}
use mathlib.Core.Path.{ap₂}
use publish.Prelude.{
  ℕ, String, false, Option, none, some, List, [], ◌∷◌, ◌≡◌, ◌⊎◌, refl, arith, ap, eq_iff,
  Bool-cases, inl, inr, any,
}
use publish.Json.{
  Value, Items, Fields, undefined, null, function, other, bool, num, str, arr, obj, instance_of,
  nil, cons, end, field,
}
use publish.Finding.{has_blocking_finding}
use publish.Kernel.Secrets.{
  is_credential_value, bears_credential, credential_value_patterns, redacted, redact_by,
  redact_string, redact_secrets, redact_items, redact_fields, is_plain_text, find_secret_exposure,
}
use publish.Kernel.Secrets.Pattern.{
  Regex, Place, ends, is_some, match_from, is_match, taken, replace_from, replace_all,
}
use publish.Kernel.Secrets.Exposure.{IsClean, AreClean, HasCleanFields, exposure_iff}

taken-none : (text : String) (ps : List Place) → is_some ps ≡ false → taken text ps ≡ 0
taken-none text [] h = refl
taken-none text (p ∷ ps) h = cc

-- A text with no match is left as it is.
replace-unmatched :
    (r : Regex) (by text : String) (before : Option ℕ)
    → match_from r before text ≡ false
    → replace_from r by before text 0 ≡ text
unfolding match_from replace_from
replace-unmatched r by String.[] before h = refl
replace-unmatched r by (String.◌∷◌ c s) before h =
    let place : Place = record { before = before; rest = String.◌∷◌ c s } in
    let none' = taken-none (String.◌∷◌ c s) (ends r place) (ground arith) in
    rw (none', replace_from)
      (ap (String.◌∷◌ c) (replace-unmatched r by s (some (code c)) (ground arith)))

replace_all-unmatched :
    (r : Regex) (by text : String) → is_match r text ≡ false → replace_all r text by ≡ text
unfolding is_match replace_all
replace_all-unmatched r by text h = replace-unmatched r by text none h

redact_by-unmatched :
    (rs : List Regex) (text : String)
    → any (λ r. is_match r text) rs ≡ false
    → redact_by rs text ≡ text
unfolding redact_by
redact_by-unmatched [] text h = refl
redact_by-unmatched (r ∷ rs) text h =
    let here = replace_all-unmatched r redacted text (ground arith) in
    rw here (redact_by-unmatched rs text (ground arith))

redact_string-clean : (s : String) → is_credential_value s ≡ false → redact_string s ≡ s
unfolding redact_string is_credential_value
redact_string-clean s h = redact_by-unmatched credential_value_patterns s h

-- A clone whose objects are plain objects.
unfoldable mutual
  pub as_plain : Value → Value
  as_plain (str s) = str s
  as_plain (arr vs) = arr (as_plain_items vs)
  as_plain (obj fs) = obj (as_plain_fields fs)
  as_plain (instance_of fs) = obj (as_plain_fields fs)
  as_plain undefined = undefined
  as_plain null = null
  as_plain function = function
  as_plain other = other
  as_plain (bool b) = bool b
  as_plain (num n) = num n

  pub as_plain_items : Items → Items
  as_plain_items nil = nil
  as_plain_items (cons v vs) = cons (as_plain v) (as_plain_items vs)

  pub as_plain_fields : Fields → Fields
  as_plain_fields end = end
  as_plain_fields (field key entry fs) = field key (as_plain entry) (as_plain_fields fs)

mutual
  unfolding redact_secrets as_plain

  redact-clean : (v : Value) → IsClean v → redact_secrets v ≡ as_plain v
  redact-clean (str s) h = ap str (redact_string-clean s h)
  redact-clean (arr vs) h = ap arr (redact_items-clean vs h)
  redact-clean (obj fs) h = ap obj (redact_fields-clean fs h)
  redact-clean (instance_of fs) h = ap obj (redact_fields-clean fs h)
  redact-clean undefined h = refl
  redact-clean null h = refl
  redact-clean function h = refl
  redact-clean other h = refl
  redact-clean (bool b) h = refl
  redact-clean (num n) h = refl

  redact_items-clean : (vs : Items) → AreClean vs → redact_items vs ≡ as_plain_items vs
  redact_items-clean nil h = refl
  redact_items-clean (cons v vs) h = ap₂ cons (redact-clean v h.0) (redact_items-clean vs h.1)

  redact_fields-clean : (fs : Fields) → HasCleanFields fs → redact_fields fs ≡ as_plain_fields fs
  redact_fields-clean end h = refl
  redact_fields-clean (field key entry fs) h =
      rw h.0 (ap₂ (field key) (redact-clean entry h.1) (redact_fields-clean fs h.2))

-- Redaction changes nothing in a value that exposes no credential: the result is a clone of it.
pub redact-exposed_none :
    (v : Value)
    → has_blocking_finding (find_secret_exposure v) ≡ false
    → redact_secrets v ≡ as_plain v
redact-exposed_none v h = redact-clean v ((exposure_iff v).0 h)

-- Every property with a credential-bearing name holds the placeholder or no text at all.
abbrev mutual
  pub IsHidden : Value → Type 0
  IsHidden (arr vs) = AreHidden vs
  IsHidden (obj fs) = HasHiddenFields fs
  IsHidden (instance_of fs) = HasHiddenFields fs
  IsHidden (str s) = Unit
  IsHidden undefined = Unit
  IsHidden null = Unit
  IsHidden function = Unit
  IsHidden other = Unit
  IsHidden (bool b) = Unit
  IsHidden (num n) = Unit

  pub AreHidden : Items → Type 0
  AreHidden nil = Unit
  AreHidden (cons v vs) = IsHidden v × AreHidden vs

  pub HasHiddenFields : Fields → Type 0
  HasHiddenFields end = Unit
  HasHiddenFields (field key entry fs) =
      ((bears_credential key entry ≡ false) ⊎ (entry ≡ str redacted))
      × IsHidden entry
      × HasHiddenFields fs

redact_string-empty : redact_string "" ≡ ""
unfolding redact_string redact_by replace_all
redact_string-empty = refl

is_plain_text-redact :
    (v : Value) → is_plain_text v ≡ false → is_plain_text (redact_secrets v) ≡ false
unfolding redact_secrets is_plain_text
is_plain_text-redact (str s) h =
    let e : s ≡ "" = ground (arith, eq_iff s "") in rw (e, redact_string-empty)
is_plain_text-redact undefined h = refl
is_plain_text-redact _ h = refl

bears-redact :
    (key : String) (v : Value)
    → bears_credential key v ≡ false
    → bears_credential key (redact_secrets v) ≡ false
unfolding bears_credential
bears-redact key v h = ground (arith, is_plain_text-redact v)

mutual
  unfolding redact_secrets

  redact-IsHidden' : (v : Value) → IsHidden (redact_secrets v)
  redact-IsHidden' (arr vs) = redact_items-hidden vs
  redact-IsHidden' (obj fs) = redact_fields-hidden fs
  redact-IsHidden' (instance_of fs) = redact_fields-hidden fs
  redact-IsHidden' (str s) = tt
  redact-IsHidden' undefined = tt
  redact-IsHidden' null = tt
  redact-IsHidden' function = tt
  redact-IsHidden' other = tt
  redact-IsHidden' (bool b) = tt
  redact-IsHidden' (num n) = tt

  redact_items-hidden : (vs : Items) → AreHidden (redact_items vs)
  redact_items-hidden nil = tt
  redact_items-hidden (cons v vs) = (redact-IsHidden' v, redact_items-hidden vs)

  redact_fields-hidden : (fs : Fields) → HasHiddenFields (redact_fields fs)
  redact_fields-hidden end = tt
  redact_fields-hidden (field key entry fs) = elim (Bool-cases (bears_credential key entry)) [
    | inl bears ↦ rw bears (inr refl, tt, redact_fields-hidden fs)
    | inr free ↦
        rw free (inl (bears-redact key entry free), redact-IsHidden' entry, redact_fields-hidden fs)
  ]

-- After redaction no property with a credential-bearing name, at any depth, holds a non-empty text
-- other than the placeholder.
pub redact-IsHidden : (v : Value) → IsHidden (redact_secrets v)
redact-IsHidden = redact-IsHidden'
