-- ===== src/Kernel/Secrets/Exposure/Free.antt =====
-- What the scan for credentials finds, by what its patterns match.
use publish.Prelude.{
  String, Bool, true, false, none, ◌≡◌, ◌≢◌, ◌↔◌, refl, arith, Bool-cases, inl, inr, iff_trans,
  iff_pair, ◌==◌, eq_iff,
}
use publish.Json.{
  Value, Items, Fields, undefined, null, function, other, bool, num, str, arr, obj, instance_of,
  nil, cons, end, field,
}
use publish.Finding.{has_blocking_finding}
use publish.Kernel.Secrets.{
  credential_value_patterns, credential_key_pattern, is_credential_key, is_credential_value,
  is_plain_text, bears_credential, find_secret_exposure,
}
use publish.Kernel.Secrets.Pattern.Matches.{Occurs, OccursAny, match_iff, any_iff}
use publish.Kernel.Secrets.Exposure.{IsClean, AreClean, HasCleanFields, exposure_iff}

-- A text that is not empty.
abbrev pub IsText : Value → Type 0
IsText entry = (t : String) × ((entry ≡ str t) × (t ≢ ""))

-- The key has one of the credential-bearing names in it, and the entry is such a text.
abbrev pub BearsCredential : String → Value → Type 0
BearsCredential key entry = Occurs credential_key_pattern none key × IsText entry

-- At every depth no pattern of a credential occurs in a text, and no property bears a credential.
abbrev mutual
  pub IsFree : Value → Type 0
  IsFree (str s) = OccursAny credential_value_patterns s → ⊥
  IsFree (arr vs) = AreFree vs
  IsFree (obj fs) = HasFreeFields fs
  IsFree (instance_of fs) = HasFreeFields fs
  IsFree undefined = Unit
  IsFree null = Unit
  IsFree function = Unit
  IsFree other = Unit
  IsFree (bool b) = Unit
  IsFree (num n) = Unit

  pub AreFree : Items → Type 0
  AreFree nil = Unit
  AreFree (cons v vs) = IsFree v × AreFree vs

  pub HasFreeFields : Fields → Type 0
  HasFreeFields end = Unit
  HasFreeFields (field key entry fs) =
      (BearsCredential key entry → ⊥) × (IsFree entry × HasFreeFields fs)

false_iff : {P : Type 0} (b : Bool) → (b ≡ true) ↔ P → (b ≡ false) ↔ (P → ⊥)
false_iff true e = (λ h. absurd (ground (arith, h)), λ h. absurd (h (e.0 refl)))
false_iff false e = (λ h p. let t = e.1 p in ground (arith, t), λ h. refl)

value_iff : (s : String) → (is_credential_value s ≡ true) ↔ OccursAny credential_value_patterns s
unfolding is_credential_value
value_iff s = any_iff credential_value_patterns s

plain_iff : (entry : Value) → (is_plain_text entry ≡ true) ↔ IsText entry
unfolding is_plain_text
plain_iff (str s) = (
  λ h. (s, (refl, λ e. let t = (eq_iff s "").1 e in ground (arith, h, t))),
  λ (t, (e, some_text)). elim (Bool-cases (s == "")) [
    | inl blank ↦ let b = (eq_iff s "").0 blank in absurd (some_text (ground (arith, e, b)))
    | inr filled ↦ rw filled refl
  ],
)
plain_iff entry =
    (λ h. absurd (ground (arith, h)), λ h. let e = h.1.0 in absurd (ground (arith, e)))

bears_iff :
    (key : String) (entry : Value) → (bears_credential key entry ≡ true) ↔ BearsCredential key entry
unfolding bears_credential is_credential_key
bears_iff key entry =
    let named = match_iff credential_key_pattern key in
    let text' = plain_iff entry in
    (
      λ h. (named.0 (ground (arith, h)), text'.0 (ground (arith, h))),
      λ h. let a = named.1 h.0 in let b = text'.1 h.1 in ground (arith, a, b),
    )

mutual
  IsClean-Free : (v : Value) → IsClean v ↔ IsFree v
  IsClean-Free (str s) = false_iff (is_credential_value s) (value_iff s)
  IsClean-Free (arr vs) = AreClean-Free vs
  IsClean-Free (obj fs) = HasCleanFields-Free fs
  IsClean-Free (instance_of fs) = HasCleanFields-Free fs
  IsClean-Free undefined = (λ h. tt, λ h. tt)
  IsClean-Free null = (λ h. tt, λ h. tt)
  IsClean-Free function = (λ h. tt, λ h. tt)
  IsClean-Free other = (λ h. tt, λ h. tt)
  IsClean-Free (bool b) = (λ h. tt, λ h. tt)
  IsClean-Free (num n) = (λ h. tt, λ h. tt)

  AreClean-Free : (vs : Items) → AreClean vs ↔ AreFree vs
  AreClean-Free nil = (λ h. tt, λ h. tt)
  AreClean-Free (cons v vs) = iff_pair (IsClean-Free v) (AreClean-Free vs)

  HasCleanFields-Free : (fs : Fields) → HasCleanFields fs ↔ HasFreeFields fs
  HasCleanFields-Free end = (λ h. tt, λ h. tt)
  HasCleanFields-Free (field key entry fs) =
      let bears = false_iff (bears_credential key entry) (bears_iff key entry) in
      let inner = IsClean-Free entry in
      let rest = HasCleanFields-Free fs in
      (
        λ h. (bears.0 h.0, (inner.0 h.1, rest.0 h.2)),
        λ h. (bears.1 h.0, inner.1 h.1.0, rest.1 h.1.1),
      )

-- The scan has no blocking finding exactly when, at every depth, none of the six patterns of
-- credentials occurs in a text, and no property in whose name a credential-bearing name occurs
-- holds a text that is not empty. That a pattern occurs is said by what it matches from one place of
-- the text to another.
pub silent_iff : (v : Value) → (has_blocking_finding (find_secret_exposure v) ≡ false) ↔ IsFree v
silent_iff v = iff_trans (exposure_iff v) (IsClean-Free v)
