-- ===== src/Resource/Values.antt =====
-- `validateAttributeValues` and what it calls, of pkg/scim/resource.go.
use gotth_scim.Base.{
  Bool, true, false, ◌&&◌, ◌||◌, not, if◌then◌else◌, Str, bytes, str_eq, has_prefix, lookup, Option,
  none, some, List, [], ◌∷◌, any, all, Unicode,
}
use gotth_scim.Failure.{Result, ok, err, fault, ◌>>=◌, ◌>>◌, refuse}
use gotth_scim.Json.{Value, bool, num, str, arr, obj, Object, entries, elems}
use gotth_scim.Schema.{
  Contract, SchemaAttribute, attribute, Attributes, none_left, more, contract, attribute_list,
  valid_string, maximum_string_bytes,
}
use gotth_scim.Filter.{Literals}
use gotth_scim.Resource.{Url, Syntax}

-- The loop over the values of one attribute.
pub each_value : (Value → Result (Unit {0})) → List Value → Result (Unit {0})
each_value f [] = ok tt
each_value f (v ∷ vs) = f v >> each_value f vs

is_array : Value → Bool
is_array (arr vs) = true
is_array _ = false

-- The values of an attribute, by its multiplicity.
values_for : Bool → Value → Result (List Value)
values_for true (arr vs) = ok (elems vs)
values_for true v = err fault
values_for false (arr vs) = err fault
values_for false v = ok (v ∷ [])

module _ (u : Unicode) (l : Literals) (x : Syntax) where
  text_of : Value → Result Str
  text_of (str s) = ok s
  text_of v = err fault

  -- The loop over the kinds of resource that a reference may lead to.
  admits_url : List Str → Str → Option Url → Bool
  admits_url kinds text none = false
  admits_url kinds text (some url) =
      not (str_eq url.scheme [] && not (has_prefix (47 ∷ []) text))
      && not url.has_user
      && all
          (λ kind.
            not (str_eq kind (bytes "external"))
            || str_eq url.scheme (bytes "https")
            || str_eq url.scheme (bytes "http"))
          kinds

  -- The types but `complex`.
  pub validate_simple : Contract → Value → Result (Unit {0})
  unfolding text_of admits_url
  validate_simple c v =
      if str_eq c.kind (bytes "string")
      then (do s ← text_of v; refuse (not (valid_string u s maximum_string_bytes)) fault)
      else if str_eq c.kind (bytes "reference")
      then (do
        s ← text_of v
        refuse (not (valid_string u s maximum_string_bytes)) fault
        refuse (not (admits_url c.reference_types s (x.parse_url s))) fault)
      else if str_eq c.kind (bytes "boolean")
      then (elim v [ bool b ↦ ok tt | _ ↦ err fault ])
      else if str_eq c.kind (bytes "integer")
      then (elim v [
        | num s ↦ refuse (not (l.is_rational s) || not (l.is_integer s)) fault
        | _ ↦ err fault
      ])
      else if str_eq c.kind (bytes "decimal")
      then (elim v [ num s ↦ refuse (not (l.is_rational s)) fault | _ ↦ err fault ])
      else if str_eq c.kind (bytes "dateTime")
      then (do s ← text_of v; refuse (not (l.is_time s)) fault)
      else if str_eq c.kind (bytes "binary")
      then (do s ← text_of v; refuse (not (x.is_base64 s)) fault)
      else err fault

  pub is_declared : List SchemaAttribute → Str → Bool
  is_declared attributes name = any (λ a. str_eq (contract a).name name) attributes

  -- The first loop of `validateAttributeValuesExact`.
  pub all_declared : List SchemaAttribute → Object → Bool
  unfolding is_declared
  all_declared attributes object = all (λ p. is_declared attributes p.0) object

  pub on_complex : List SchemaAttribute → (Object → Result (Unit {0})) → Value → Result (Unit {0})
  unfolding all_declared
  on_complex attributes validate (obj fs) = do
    refuse (not (all_declared attributes (entries fs))) fault
    validate (entries fs)
  on_complex attributes validate v = err fault

  pub validate_present : Contract → (Value → Result (Unit {0})) → Option Value → Result (Unit {0})
  unfolding values_for each_value
  validate_present c validate none = refuse c.required fault
  validate_present c validate (some v) = do
    values ← values_for c.multi_valued v
    each_value validate values

  -- `validateAttributeValue`, given the validation of a complex value's attributes.
  unfoldable pub validate_attribute_value :
      Contract → List SchemaAttribute → (Object → Result (Unit {0})) → Value → Result (Unit {0})
  unfolding on_complex validate_simple
  validate_attribute_value c subs validate v =
      if str_eq c.kind (bytes "complex") then on_complex subs validate v else validate_simple c v

  -- `validateAttributeValues`
  unfoldable mutual
    unfolding lookup validate_present validate_attribute_value

    pub validate_attribute_values : Attributes → Object → Result (Unit {0})
    validate_attribute_values none_left object = ok tt
    validate_attribute_values (more a as_) object =
        validate_attribute a object >> validate_attribute_values as_ object

    pub validate_attribute : SchemaAttribute → Object → Result (Unit {0})
    validate_attribute (attribute c subs) object =
        validate_present c
          (validate_attribute_value c (attribute_list subs) (validate_attribute_values subs))
          (lookup c.name object)

  -- `validateAttributeValuesExact`
  unfoldable pub validate_attribute_values_exact : Attributes → Object → Result (Unit {0})
  unfolding on_complex validate_attribute_values
  validate_attribute_values_exact attributes object = do
    refuse (not (all_declared (attribute_list attributes) object)) fault
    validate_attribute_values attributes object
