-- ===== src/Json.antt =====
-- The values that serde_json parses a text into. A number that is a `u64` is told apart from a
-- negative integer (`neg n` is -(n + 1)) and from every other number; an object is its list of
-- fields, the keys being different.
use setfork_core.Shared.{
  ℕ, ◌≡◌, refl, Bool, Option, none, some, List, [], ◌∷◌, arith, Str, str_eq, if◌then◌else◌,
}

mutual
  pub data Json : Type 0 where
    null : Json
    bool : Bool → Json
    uint : ℕ → Json
    neg : ℕ → Json
    number : Str → Json
    str : Str → Json
    arr : Items → Json
    obj : Fields → Json

  pub data Items : Type 0 where
    nil : Items
    cons : Json → Items → Items

  pub data Fields : Type 0 where
    end : Fields
    field : Str → Json → Fields → Fields

-- `json!({})`
abbrev pub empty_object : Json
empty_object = obj end

abbrev pub find : Fields → Str → Option Json
find end k = none
find (field j v fs) k = if str_eq j k then some v else find fs k

-- `v.get(k)`: `None` on a value that is no object.
abbrev pub get : Json → Str → Option Json
get (obj fs) k = find fs k
get _ k = none

abbrev pub as_bool : Json → Option Bool
as_bool (bool b) = some b
as_bool _ = none

abbrev pub as_str : Json → Option Str
as_str (str s) = some s
as_str _ = none

abbrev pub as_u64 : Json → Option ℕ
as_u64 (uint n) = some n
as_u64 _ = none

-- `m.insert(k, v)` of a key that is not there yet, where there is a value.
abbrev pub opt_field : Str → Option Json → Fields → Fields
opt_field k none fs = fs
opt_field k (some v) fs = field k v fs

-- `a.or(b)`
abbrev pub or_else {ℓ} : {A : Type ℓ} → Option A → Option A → Option A
or_else none b = b
or_else (some a) b = some a

pub find-opt_field :
    (k : Str) (o : Option Json) (fs : Fields) (j : Str)
    → find (opt_field k o fs) j ≡ (if str_eq k j then or_else o (find fs j) else find fs j)
find-opt_field k none fs j = ground arith
find-opt_field k (some v) fs j = refl

-- `Value::Array` of a list of values.
abbrev pub items : List Json → Items
items [] = nil
items (v ∷ vs) = cons v (items vs)
