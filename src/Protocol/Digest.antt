-- ===== src/Protocol/Digest.antt =====
-- packages/adapter-protocol/src/digest.js: canonical JSON and the digests over it. `sha256` is
-- SHA-256 of the UTF-8 bytes of a text, in lowercase hexadecimal: `node:crypto`, a parameter.
pub mod KeyOrder
use Prim.Native.Char.{Char, code}
use Prim.Native.String
use Prim.Native.String.{◌++◌}
use publish.Prelude.{
  ℕ, ◌+◌, ◌-◌, ◌/◌, ◌%◌, String, Bool, true, false, List, [], ◌∷◌, ltb, if◌then◌else◌, Result, ok,
  err, ◌>>=◌, ◌&&◌, ◌||◌, not,
}
use publish.Json.{
  Number, finite, neg_zero, not_finite, Value, Items, Fields, undefined, null, function, other,
  bool, num, str, arr, obj, instance_of, nil, cons, end, field,
}
use publish.Json.Print.{quoted}

-- The UTF-16 code units of a text.
unfoldable pub prepend_units : ℕ → List ℕ → List ℕ
prepend_units n rest =
    if ltb n 0x10000
    then n ∷ rest
    else (0xD800 + (n - 0x10000) / 0x400) ∷ (0xDC00 + (n - 0x10000) % 0x400) ∷ rest

unfoldable pub text_units : String → List ℕ
text_units String.[] = []
text_units (String.◌∷◌ c s) = prepend_units (code c) (text_units s)

-- `left < right` of two texts that are given by their code units.
unfoldable pub before : List ℕ → List ℕ → Bool
before [] [] = false
before [] (y ∷ ys) = true
before (x ∷ xs) [] = false
before (x ∷ xs) (y ∷ ys) =
    let rest = before xs ys in if ltb x y then true else if ltb y x then false else rest

-- A key and the canonical text of its value.
pub record Member : Type 0 where
  pub key : String
  pub text : String

unfoldable pub precedes : Member → Member → Bool
precedes a b = before (text_units a.key) (text_units b.key)

-- `keys.sort(compareUtf16CodeUnits)`, which is stable.
unfoldable pub insert : Member → List Member → List Member
insert m [] = m ∷ []
insert m (x ∷ xs) = let rest = insert m xs in if precedes x m then x ∷ rest else m ∷ x ∷ xs

unfoldable pub member_text : Member → String
member_text m = quoted m.key ++ (":" ++ m.text)

unfoldable pub join_members : List Member → String
join_members [] = ""
join_members (m ∷ []) = member_text m
join_members (m ∷ n ∷ ms) = member_text m ++ ("," ++ join_members (n ∷ ms))

-- The error is a `TypeError`; its message is left out.
pub data NotCanonical : Type 0 where
  not_canonical : NotCanonical

unfoldable pub with_member :
    String
    → Result NotCanonical String
    → Result NotCanonical (List Member)
    → Result NotCanonical (List Member)
with_member key (ok t) (ok ms) = ok (insert (record { key = key; text = t }) ms)
with_member key (ok t) (err e) = err e
with_member key (err e) ms = err e

unfoldable pub is_undefined : Value → Bool
is_undefined undefined = true
is_undefined _ = false

-- `filter((key) => record[key] !== undefined)`
unfoldable pub put_member :
    String
    → Value
    → Result NotCanonical String
    → Result NotCanonical (List Member)
    → Result NotCanonical (List Member)
put_member key value text members =
    if is_undefined value then members else with_member key text members

unfoldable pub with_item :
    Result NotCanonical String → String → Result NotCanonical String → Result NotCanonical String
with_item (ok t) sep (ok rest) = ok (t ++ (sep ++ rest))
with_item (ok t) sep (err e) = err e
with_item (err e) sep rest = err e

unfoldable pub braces : Result NotCanonical (List Member) → Result NotCanonical String
braces (ok ms) = ok ("{" ++ (join_members ms ++ "}"))
braces (err e) = err e

unfoldable pub brackets : Result NotCanonical String → Result NotCanonical String
brackets (ok t) = ok ("[" ++ (t ++ "]"))
brackets (err e) = err e

unfoldable pub canonical_number : Number → Result NotCanonical String
canonical_number (finite t) = ok t
canonical_number neg_zero = ok "0"
canonical_number not_finite = err not_canonical

-- The members of an object are sorted as they are found: each value is printed, then put at its
-- key's place among the members after it.
unfoldable mutual
  pub canonicalize_json : Value → Result NotCanonical String
  canonicalize_json null = ok "null"
  canonicalize_json (bool b) = ok (if b then "true" else "false")
  canonicalize_json (num n) = canonical_number n
  canonicalize_json (str s) = ok (quoted s)
  canonicalize_json (arr vs) = brackets (canonical_items vs)
  canonicalize_json (obj fs) = braces (canonical_members fs)
  canonicalize_json (instance_of fs) = err not_canonical
  canonicalize_json undefined = err not_canonical
  canonicalize_json function = err not_canonical
  canonicalize_json other = err not_canonical

  pub canonical_items : Items → Result NotCanonical String
  canonical_items nil = ok ""
  canonical_items (cons v nil) = canonicalize_json v
  canonical_items (cons v (cons w vs)) =
      with_item (canonicalize_json v) "," (canonical_items (cons w vs))

  pub canonical_members : Fields → Result NotCanonical (List Member)
  canonical_members end = ok []
  canonical_members (field k v fs) = put_member k v (canonicalize_json v) (canonical_members fs)

unfoldable pub digest_of_text :
    (String → String) → String → Result NotCanonical String → Result NotCanonical String
digest_of_text sha256 domain_separator (ok t) = ok ("sha256:" ++ sha256 (domain_separator ++ t))
digest_of_text sha256 domain_separator (err e) = err e

unfoldable pub domain_digest : (String → String) → String → Value → Result NotCanonical String
domain_digest sha256 domain_separator value =
    digest_of_text sha256 domain_separator (canonicalize_json value)
