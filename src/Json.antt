-- ===== src/Json.antt =====
-- JSON values, as `JSON.parse` returns them. A number stands by the text that `String(n)` gives.
use node_red_contrib_pod_gat.Prelude.{
  Bool, true, false, Option, none, some, List, [], ◌∷◌, Text, text_eq, ◌==◌, codes, if◌then◌else◌,
}

mutual
  pub data Value : Type 0 where
    null : Value
    bool : Bool → Value
    num : Text → Value
    str : Text → Value
    arr : Items → Value
    obj : Fields → Value

  pub data Items : Type 0 where
    nil : Items
    cons : Value → Items → Items

  pub data Fields : Type 0 where
    end : Fields
    field : Text → Value → Fields → Fields

abbrev pub items : Items → List Value
items nil = []
items (cons v vs) = v ∷ items vs

-- `Object.entries(o)`
abbrev pub entries : Fields → List (Text × Value)
entries end = []
entries (field k v fs) = (k, v) ∷ entries fs

-- `o[key]` of an own property
unfoldable pub lookup : Text → Fields → Option Value
lookup key end = none
lookup key (field k v fs) = if k == key then some v else lookup key fs

-- `typeof value === 'object'`, null included
abbrev pub is_object : Value → Bool
is_object null = true
is_object (arr vs) = true
is_object (obj fs) = true
is_object _ = false

-- `value !== null && typeof value === 'object'`
abbrev pub is_composite : Value → Bool
is_composite (arr vs) = true
is_composite (obj fs) = true
is_composite _ = false

-- `String(value)` of a scalar
abbrev pub to_text : Value → Text
to_text null = codes "null"
to_text (bool true) = codes "true"
to_text (bool false) = codes "false"
to_text (num t) = t
to_text (str t) = t
to_text (arr vs) = []
to_text (obj fs) = []
