-- ===== src/Resource/Shapes.antt =====
-- `validateUser`, `validateGroup` and what they call, of pkg/scim/resource.go.
use gotth_scim.Base.{
  ℕ, ◌+◌, Bool, true, false, ◌&&◌, ◌||◌, not, ltb, if◌then◌else◌, Str, bytes, str_eq, lookup,
  insert, erase, Option, none, some, List, [], ◌∷◌, length, any, all, map, String, Unicode,
}
use gotth_scim.Failure.{Result, ok, err, fault, ◌>>=◌, ◌>>◌, refuse}
use gotth_scim.Json.{Value, bool, str, arr, obj, Object, entries, elems, mk_arr, mk_obj}
use gotth_scim.Schema.{Extension, Definition, valid_string, maximum_string_bytes}
use gotth_scim.Store.{optional_string}
use gotth_scim.Resource.{Syntax}

-- The shapes that `validateTopLevel` tells apart.
pub data Shape : Type 0 where
  a_string a_boolean an_array an_object : Shape

has_shape : Shape → Value → Bool
has_shape a_string (str s) = true
has_shape a_boolean (bool b) = true
has_shape an_array (arr vs) = true
has_shape an_object (obj fs) = true
has_shape _ _ = false

abbrev maximum_values : ℕ
maximum_values = 1000

named : Str → List String → Bool
named name [] = false
named name (n ∷ names) = str_eq name (bytes n) || named name names

shape_of : Str → List (String × Shape) → Option Shape
shape_of name [] = none
shape_of name ((n, shape) ∷ rest) = if str_eq (bytes n) name then some shape else shape_of name rest

text_shapes : List String → List (String × Shape)
text_shapes [] = []
text_shapes (n ∷ names) = (n, a_string) ∷ text_shapes names

user_strings : List String
user_strings =
    "externalId" ∷ "displayName" ∷ "nickName" ∷ "profileUrl" ∷ "title" ∷ "userType"
    ∷ "preferredLanguage" ∷ "locale" ∷ "timezone" ∷ []

user_lists : List String
user_lists =
    "emails" ∷ "phoneNumbers" ∷ "ims" ∷ "photos" ∷ "entitlements" ∷ "roles" ∷ "x509Certificates"
    ∷ []

list_shapes : List String → List (String × Shape) → List (String × Shape)
list_shapes [] rest = rest
list_shapes (n ∷ names) rest = (n, an_array) ∷ list_shapes names rest

user_shapes : List (String × Shape)
unfolding list_shapes text_shapes user_lists user_strings
user_shapes =
    ("schemas", an_array)
    ∷ ("userName", a_string)
    ∷ ("name", an_object)
    ∷ ("active", a_boolean)
    ∷ ("addresses", an_array)
    ∷ list_shapes user_lists (text_shapes user_strings)

group_shapes : List (String × Shape)
group_shapes =
    ("schemas", an_array)
    ∷ ("externalId", a_string)
    ∷ ("displayName", a_string)
    ∷ ("members", an_array)
    ∷ []

module _ (u : Unicode) where
  -- `requiredString`
  unfoldable pub required_string : Object → Str → ℕ → Result Str
  unfolding lookup valid_string
  required_string document name maximum = elim (lookup name document) [
    | some (str s) ↦ do refuse (not (valid_string u s maximum) || str_eq s []) fault; ok s
    | _ ↦ err fault
  ]

  is_extension : List Extension → Str → Bool
  is_extension extensions key = any (λ e. str_eq (u.to_lower e.schema) (u.to_lower key)) extensions

  admits_member : Definition → List (String × Shape) → Str × Value → Bool
  unfolding shape_of has_shape is_extension
  admits_member d shapes (key, v) = elim (shape_of key shapes) [
    | some shape ↦ has_shape shape v
    | none ↦ is_extension d.extensions key
  ]

  -- `validateTopLevel`
  unfoldable pub validate_top_level :
      Definition → List (String × Shape) → Object → Result (Unit {0})
  unfolding admits_member
  validate_top_level d shapes document = refuse (not (all (admits_member d shapes) document)) fault

  is_text : Value → Bool
  unfolding valid_string
  is_text (str s) = valid_string u s maximum_string_bytes
  is_text _ = false

  -- `validateStringObject`
  unfoldable pub validate_string_object : Value → List String → Result (Unit {0})
  unfolding is_text named
  validate_string_object (obj fs) allowed =
      refuse
        (ltb (length allowed) (length (entries fs))
          || not (all (λ p. named p.0 allowed && is_text p.1) (entries fs)))
        fault
  validate_string_object v allowed = err fault

  admits_element : List String → Str × Value → Bool
  unfolding is_text named has_shape
  admits_element allowed (name, v) =
      if str_eq name (bytes "primary")
      then has_shape a_boolean v
      else named name allowed && is_text v

  is_element : List String → Value → Bool
  unfolding admits_element
  is_element allowed (obj fs) =
      not (ltb (length allowed + 1) (length (entries fs)))
      && all (admits_element allowed) (entries fs)
  is_element allowed _ = false

  -- `validateMultiValue`
  unfoldable pub validate_multi_value : Value → List String → Result (Unit {0})
  unfolding is_element
  validate_multi_value (arr vs) allowed =
      refuse (ltb maximum_values (length (elems vs)) || not (all (is_element allowed) (elems vs)))
        fault
  validate_multi_value v allowed = err fault

  when_present : Object → String → (Value → Result (Unit {0})) → Result (Unit {0})
  unfolding lookup
  when_present document name check = elim (lookup (bytes name) document) [
    | none ↦ ok tt
    | some v ↦ check v
  ]

  check_strings : Object → List String → Result (Unit {0})
  unfolding optional_string
  check_strings document [] = ok tt
  check_strings document (n ∷ names) = do
    _ ← optional_string u document (bytes n) maximum_string_bytes
    check_strings document names

  check_lists : Object → List String → Result (Unit {0})
  unfolding when_present validate_multi_value
  check_lists document [] = ok tt
  check_lists document (n ∷ names) = do
    when_present document n
        (λ v. validate_multi_value v ("value" ∷ "display" ∷ "type" ∷ "$ref" ∷ []))
    check_lists document names

  prepared_name : Option Str → Result Str
  prepared_name none = err fault
  prepared_name (some []) = err fault
  prepared_name (some (c ∷ s)) = ok (c ∷ s)

  -- `validateUser`: the document with the prepared user name.
  unfoldable pub validate_user : Syntax → Definition → Object → Result Object
  unfolding user_shapes user_strings user_lists validate_top_level required_string prepared_name
      check_strings check_lists when_present validate_string_object validate_multi_value has_shape
      insert
  validate_user x d document = do
    validate_top_level d user_shapes document
    name ← required_string document (bytes "userName") 1024
    refuse (not (str_eq (u.trim_space name) name)) fault
    prepared ← prepared_name (x.prepare_username name)
    let document' = insert (bytes "userName") (str prepared) document
    check_strings document' user_strings
    when_present document' "active" (λ v. refuse (not (has_shape a_boolean v)) fault)
    when_present document' "name" (λ v. validate_string_object v (
        "formatted" ∷ "familyName" ∷ "givenName" ∷ "middleName" ∷ "honorificPrefix"
        ∷ "honorificSuffix" ∷ []))
    check_lists document' user_lists
    when_present document' "addresses" (λ v. validate_multi_value v (
        "formatted" ∷ "streetAddress" ∷ "locality" ∷ "region" ∷ "postalCode" ∷ "country" ∷ "type"
        ∷ []))
    ok document'

  without_display : Value → Value
  unfolding erase
  without_display (obj fs) = mk_obj (erase (bytes "display") (entries fs))
  without_display v = v

  check_members : List Value → Result (Unit {0})
  unfolding required_string
  check_members [] = ok tt
  check_members (obj fs ∷ vs) = do
    _ ← required_string (entries fs) (bytes "value") 1024
    check_members vs
  check_members (v ∷ vs) = err fault

  group_members : Object → Option Value → Result Object
  unfolding validate_multi_value check_members insert without_display
  group_members document (some (arr vs)) = do
    let members = map without_display (elems vs)
    validate_multi_value (mk_arr members) ("value" ∷ "$ref" ∷ "display" ∷ "type" ∷ [])
    check_members members
    ok (insert (bytes "members") (mk_arr members) document)
  group_members document (some v) = err fault
  group_members document none = ok document

  -- `validateGroup`: the document with members that have no display name. `validateTopLevel` has
  -- admitted only an array for them.
  unfoldable pub validate_group : Definition → Object → Result Object
  unfolding group_shapes validate_top_level required_string optional_string group_members lookup
  validate_group d document = do
    validate_top_level d group_shapes document
    name ← required_string document (bytes "displayName") maximum_string_bytes
    refuse (not (str_eq (u.trim_space name) name)) fault
    _ ← optional_string u document (bytes "externalId") maximum_string_bytes
    group_members document (lookup (bytes "members") document)
