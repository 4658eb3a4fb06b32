-- ===== src/Json.antt =====
-- Decoded JSON, `any` in the Go code: `map[string]any` is `obj`, `[]any` is `arr`, `json.Number` is the text
-- of the number. Go values of these types share structure; a function that writes through a map
-- returns the new value here.
pub mod Decode
pub mod Equal
use gotth_scim.Base.{
  ℕ, Bool, true, false, Str, Map, Option, none, some, List, [], ◌∷◌, ◌≡◌, refl, ap, lookup,
}

mutual
  pub data Value : Type 0 where
    null : Value
    bool : Bool → Value
    num : Str → Value
    str : Str → Value
    obj : Fields → Value
    arr : Items → Value

  pub data Items : Type 0 where
    cons : Value → Items → Items
    nil : Items

  pub data Fields : Type 0 where
    field : Str → Value → Fields → Fields
    end : Fields

-- `Document` and `map[string]any`
abbrev pub Object : Type 0
Object = Map Value

abbrev pub elems : Items → List Value
elems nil = []
elems (cons v vs) = v ∷ elems vs

abbrev pub items : List Value → Items
items [] = nil
items (v ∷ vs) = cons v (items vs)

abbrev pub entries : Fields → Object
entries end = []
entries (field k v fs) = (k, v) ∷ entries fs

abbrev pub fields : Object → Fields
fields [] = end
fields ((k, v) ∷ m) = field k v (fields m)

pub entries-fields : (m : Object) → entries (fields m) ≡ m
entries-fields [] = refl
entries-fields ((k, v) ∷ m) = ap (λ r. (k, v) ∷ r) (entries-fields m)

pub fields-entries : (fs : Fields) → fields (entries fs) ≡ fs
fields-entries end = refl
fields-entries (field k v fs) = ap (λ r. field k v r) (fields-entries fs)

pub elems-items : (vs : List Value) → elems (items vs) ≡ vs
elems-items [] = refl
elems-items (v ∷ vs) = ap (λ r. v ∷ r) (elems-items vs)

-- `value.(string)` and the like
abbrev pub as_str : Value → Option Str
as_str (str s) = some s
as_str _ = none

abbrev pub as_bool : Value → Option Bool
as_bool (bool b) = some b
as_bool _ = none

abbrev pub as_arr : Value → Option (List Value)
as_arr (arr vs) = some (elems vs)
as_arr _ = none

abbrev pub as_obj : Value → Option Object
as_obj (obj fs) = some (entries fs)
as_obj _ = none

abbrev pub mk_arr : List Value → Value
mk_arr vs = arr (items vs)

abbrev pub mk_obj : Object → Value
mk_obj m = obj (fields m)
