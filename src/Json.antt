-- ===== src/Json.antt =====
-- JavaScript values, and the parts of the standard library that read and print them
-- (`JSON.stringify`, `String`, property access).
pub mod Print
use publish.Prelude.{String, Bool, Option, none, some, ◌==◌, if◌then◌else◌}

-- A finite double other than -0 is held as the text that `String(x)` gives for it, which is
-- another text for another double.
pub data Number : Type 0 where
  finite : String → Number
  neg_zero : Number
  not_finite : Number

-- `instance_of` is an object whose prototype is neither `Object.prototype` nor `null`; `other` is
-- a bigint or a symbol. A property that holds `undefined` is listed.
mutual
  pub data Value : Type 0 where
    undefined null function other : Value
    bool : Bool → Value
    num : Number → Value
    str : String → Value
    arr : Items → Value
    obj : Fields → Value
    instance_of : Fields → Value

  pub data Fields : Type 0 where
    end : Fields
    field : String → Value → Fields → Fields

  pub data Items : Type 0 where
    nil : Items
    cons : Value → Items → Items

-- `fields[key]`: the value of an own property, or `undefined`.
unfoldable pub get : Fields → String → Value
get end key = undefined
get (field k v fs) key = if k == key then v else get fs key

-- `Object.hasOwn(fields, key)`.
unfoldable pub has_own : Fields → String → Bool
has_own end key = Bool.false
has_own (field k v fs) key = if k == key then Bool.true else has_own fs key

abbrev pub singleton : String → Value → Fields
singleton k v = field k v end
