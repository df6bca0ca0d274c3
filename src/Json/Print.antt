-- ===== src/Json/Print.antt =====
-- `JSON.stringify(value)` without a replacer or indentation (no value here has a `toJSON`
-- method), and template literals that hold its result.
use Prim.Native.Char.{Char, code}
use Prim.Native.String.{◌++◌}
use publish.Prelude.{
  List, [], ◌∷◌, ℕ, zero, suc, ◌+◌, ◌/◌, ◌%◌, String, Option, none, some, ltb, eqb, if◌then◌else◌,
}
use publish.Json.{
  Number, finite, neg_zero, not_finite, Value, Items, Fields, undefined, null, function, other,
  bool, num, str, arr, obj, instance_of, nil, cons, end, field,
}

abbrev hex_digits : List Char
hex_digits =
    "0" ∷ "1" ∷ "2" ∷ "3" ∷ "4" ∷ "5" ∷ "6" ∷ "7" ∷ "8" ∷ "9" ∷ "a" ∷ "b" ∷ "c" ∷ "d" ∷ "e" ∷ "f"
    ∷ []

abbrev nth : List Char → ℕ → Char
nth [] n = "f"
nth (c ∷ cs) zero = c
nth (c ∷ cs) (suc n) = nth cs n

abbrev pub digit : ℕ → Char
digit = nth hex_digits

unfoldable pub decimal_from : ℕ → ℕ → String → String
decimal_from zero n tail = tail
decimal_from (suc fuel) n tail =
    let longer = decimal_from fuel (n / 10) (String.◌∷◌ (digit (n % 10)) tail) in
    if ltb n 10 then String.◌∷◌ (digit n) tail else longer

-- `String(n)` of a natural number; `n + 1` rounds print every digit.
unfoldable pub decimal : ℕ → String
unfolding decimal_from
decimal n = decimal_from (n + 1) n ""

-- The escapes of `JSON.stringify`. A native text holds no lone surrogate.
escape : Char → String
escape c =
    let n = code c in
    if eqb n 0x22
    then "\\\""
    else if eqb n 0x5c
    then "\\\\"
    else if eqb n 8
    then "\\b"
    else if eqb n 12
    then "\\f"
    else if eqb n 10
    then "\\n"
    else if eqb n 13
    then "\\r"
    else if eqb n 9
    then "\\t"
    else if ltb n 32
    then "\\u00" ++ String.◌∷◌ (digit (n / 16)) (String.◌∷◌ (digit (n % 16)) String.[])
    else (String.◌∷◌ c String.[])

escape_all : String → String
escape_all String.[] = "\""
escape_all (String.◌∷◌ c s) = escape c ++ escape_all s

-- `JSON.stringify` of a string.
unfoldable pub quoted : String → String
unfolding escape escape_all
quoted s = "\"" ++ escape_all s

unfoldable pub number_text : Number → String
number_text (finite t) = t
number_text neg_zero = "0"
number_text not_finite = "null"

-- `none` where `JSON.stringify` returns `undefined`.
unfoldable mutual
  pub stringify : Value → Option String
  stringify undefined = none
  stringify function = none
  stringify other = none
  stringify null = some "null"
  stringify (bool b) = some (if b then "true" else "false")
  stringify (num n) = some (number_text n)
  stringify (str s) = some (quoted s)
  stringify (arr vs) = some ("[" ++ stringify_items vs)
  stringify (obj fs) = some ("{" ++ stringify_fields fs "")
  stringify (instance_of fs) = some ("{" ++ stringify_fields fs "")

  pub stringify_items : Items → String
  stringify_items nil = "]"
  stringify_items (cons v nil) = elim (stringify v) [ none ↦ "null]" | some t ↦ t ++ "]" ]
  stringify_items (cons v (cons w vs)) = elim (stringify v) [
    | none ↦ "null," ++ stringify_items (cons w vs)
    | some t ↦ t ++ ("," ++ stringify_items (cons w vs))
  ]

  -- `sep` is what stands before the next member that is not left out.
  pub stringify_fields : Fields → String → String
  stringify_fields end sep = "}"
  stringify_fields (field k v fs) sep = elim (stringify v) [
    | none ↦ stringify_fields fs sep
    | some t ↦ sep ++ (quoted k ++ (":" ++ (t ++ stringify_fields fs ",")))
  ]

-- `${JSON.stringify(value)}` in a template literal.
unfoldable pub shown : Value → String
shown v = elim (stringify v) [ none ↦ "undefined" | some t ↦ t ]
