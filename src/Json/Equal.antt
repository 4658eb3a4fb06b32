-- ===== src/Json/Equal.antt =====
-- reflect.DeepEqual on decoded JSON: maps are compared without regard to order.
use gotth_scim.Base.{Bool, true, false, ◌&&◌, Option, none, some, ◌==◌, length, str_eq, lookup}
use gotth_scim.Json.{
  Value, null, bool, num, str, arr, obj, Items, nil, cons, Fields, end, field, Object, entries,
}

same_bool : Bool → Bool → Bool
same_bool true b = b
same_bool false true = false
same_bool false false = true

found_equal : (Value → Bool) → Option Value → Bool
found_equal p none = false
found_equal p (some v) = p v

unfoldable mutual
  unfolding same_bool found_equal

  pub value_eq : Value → Value → Bool
  value_eq null null = true
  value_eq (bool a) (bool b) = same_bool a b
  value_eq (num a) (num b) = str_eq a b
  value_eq (str a) (str b) = str_eq a b
  value_eq (arr a) (arr b) = items_eq a b
  value_eq (obj a) (obj b) = length (entries a) == length (entries b) && fields_within a (entries b)
  value_eq _ _ = false

  pub items_eq : Items → Items → Bool
  items_eq nil nil = true
  items_eq (cons v vs) (cons w ws) = value_eq v w && items_eq vs ws
  items_eq _ _ = false

  -- Each entry of the first map has an equal entry in the second.
  pub fields_within : Fields → Object → Bool
  fields_within end m = true
  fields_within (field k v fs) m = found_equal (value_eq v) (lookup k m) && fields_within fs m
