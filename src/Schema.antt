-- ===== src/Schema.antt =====
-- Schema attributes, resource definitions and the tests on names: pkg/scim/resource.go and
-- pkg/scim/store.go. Times are nanoseconds since Go's zero time.
pub mod Names
pub mod Resolve
pub mod Exact
mod Examples
use gotth_scim.Base.{
  ℕ, zero, suc, ◌+◌, Bool, true, false, ◌&&◌, ◌||◌, not, ltb, leb, ◌==◌, if◌then◌else◌, Str, bytes,
  str_eq, has_byte, split, List, [], ◌∷◌, length, all, any, Unicode,
}

-- The fields of a `SchemaAttribute` but its sub-attributes.
pub record Contract : Type 0 where
  pub name : Str
  pub kind : Str
  pub multi_valued : Bool
  pub description : Str
  pub required : Bool
  pub canonical_values : List Str
  pub case_exact : Bool
  pub mutability : Str
  pub returned : Str
  pub uniqueness : Str
  pub reference_types : List Str

mutual
  pub data SchemaAttribute : Type 0 where
    attribute : Contract → Attributes → SchemaAttribute

  pub data Attributes : Type 0 where
    none_left : Attributes
    more : SchemaAttribute → Attributes → Attributes

abbrev pub contract : SchemaAttribute → Contract
contract (attribute c subs) = c

abbrev pub sub_attributes : SchemaAttribute → Attributes
sub_attributes (attribute c subs) = subs

abbrev pub attribute_list : Attributes → List SchemaAttribute
attribute_list none_left = []
attribute_list (more a as_) = a ∷ attribute_list as_

abbrev pub attributes_of : List SchemaAttribute → Attributes
attributes_of [] = none_left
attributes_of (a ∷ as_) = more a (attributes_of as_)

abbrev pub maximum_string_bytes : ℕ
maximum_string_bytes = 65536

-- `validName`
pub is_letter : ℕ → Bool
is_letter c = (leb 65 c && leb c 90) || (leb 97 c && leb c 122)

pub is_name_character : ℕ → Bool
unfolding is_letter
is_name_character c = is_letter c || (leb 48 c && leb c 57) || c == 45 || c == 95

unfoldable pub valid_name : Str → Bool
unfolding is_name_character
valid_name [] = false
valid_name (c ∷ s) = leb (length (c ∷ s)) 128 && is_letter c && all is_name_character s

-- `validAttributeName`
unfoldable pub valid_attribute_name : Str → Bool
unfolding valid_name split
valid_attribute_name value =
    let parts = split 46 value in leb (length parts) 2 && all valid_name parts

-- `oneOf`
unfoldable pub one_of : Str → List Str → Bool
one_of value admitted = any (str_eq value) admitted

module _ (u : Unicode) where
  -- `validString`
  unfoldable pub valid_string : Str → ℕ → Bool
  valid_string value maximum =
      leb (length value) maximum && u.valid_utf8 value && not (u.has_control value)

  -- `validResourceID`
  unfoldable pub valid_resource_id : Str → Bool
  unfolding valid_string has_byte
  valid_resource_id id =
      not (str_eq id [])
      && not (str_eq id (bytes "."))
      && not (str_eq id (bytes ".."))
      && not (str_eq id (bytes "bulkId"))
      && valid_string id 1024
      && not (has_byte 47 id)

-- `Extension` and `ResourceDefinition`, but for the `Validate` callbacks, which are the consumer's.
pub record Extension : Type 0 where
  pub schema : Str
  pub name : Str
  pub description : Str
  pub attributes : Attributes
  pub required : Bool

pub record Definition : Type 0 where
  pub name : Str
  pub endpoint : Str
  pub schema : Str
  pub description : Str
  pub attributes : Attributes
  pub unique_attribute : Str
  pub filter_attributes : List Str
  pub extensions : List Extension
