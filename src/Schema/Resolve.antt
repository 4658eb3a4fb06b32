-- ===== src/Schema/Resolve.antt =====
-- `resolveAttributeContract` and its helpers, of pkg/scim/filter_expression.go: from the name of an
-- attribute in a request to its path and its schema.
use gotth_scim.Base.{
  Bool, true, false, ◌&&◌, ltb, if◌then◌else◌, Str, bytes, str_eq, split, take, drop, length,
  Option, none, some, List, [], ◌∷◌, ◌++◌, Unicode, String,
}
use gotth_scim.Schema.{
  SchemaAttribute, attribute, Attributes, none_left, contract, sub_attributes, attribute_list,
  attributes_of, Extension, Definition,
}

pub record Resolved : Type 0 where
  pub path : List Str
  pub found : SchemaAttribute

-- The attributes that every resource has.
plain : String → String → Bool → String → String → String → Bool → Attributes → SchemaAttribute
unfolding bytes
plain name kind multi mutability returned uniqueness exact subs =
    attribute
      (record {
        name = bytes name;
        kind = bytes kind;
        multi_valued = multi;
        description = [];
        required = false;
        canonical_values = [];
        case_exact = exact;
        mutability = bytes mutability;
        returned = bytes returned;
        uniqueness = bytes uniqueness;
        reference_types = [];
      })
      subs

pub common_attributes : List SchemaAttribute
unfolding plain
common_attributes =
    plain "schemas" "string" true "readOnly" "always" "none" true none_left
    ∷ plain "id" "string" false "readOnly" "always" "global" true none_left
    ∷ plain "externalId" "string" false "readWrite" "default" "none" true none_left
    ∷ plain "meta" "complex" false "readOnly" "default" "none" false (
        attributes_of (
          plain "resourceType" "string" false "readOnly" "default" "none" true none_left
          ∷ plain "created" "dateTime" false "readOnly" "default" "none" false none_left
          ∷ plain "lastModified" "dateTime" false "readOnly" "default" "none" false none_left
          ∷ plain "version" "string" false "readOnly" "default" "none" true none_left
          ∷ plain "location" "reference" false "readOnly" "default" "none" true none_left
          ∷ []))
    ∷ []

module _ (u : Unicode) where
  resolve_sub : List Str → Str → List SchemaAttribute → Option Resolved
  resolve_sub path name [] = none
  resolve_sub path name (sub ∷ subs) =
      if u.equal_fold (contract sub).name name
      then some (record { path = path ++ ((contract sub).name ∷ []); found = sub })
      else resolve_sub path name subs

  or_next : Option Resolved → Option Resolved → Option Resolved
  or_next none next = next
  or_next (some r) next = some r

  -- The loop over the attributes, for a name of one part or of two.
  resolve_parts : List SchemaAttribute → List Str → Option Str → Str → Option Resolved
  unfolding resolve_sub or_next
  resolve_parts [] prefix second first = none
  resolve_parts (a ∷ as_) prefix second first =
      let rest = resolve_parts as_ prefix second first in
      let path = prefix ++ ((contract a).name ∷ []) in
      if u.equal_fold (contract a).name first
      then elim second [
        | none ↦ some (record { path = path; found = a })
        | some name ↦ or_next (resolve_sub path name (attribute_list (sub_attributes a))) rest
      ]
      else rest

  dispatch_parts : List SchemaAttribute → List Str → List Str → Option Resolved
  unfolding resolve_parts
  dispatch_parts attributes (first ∷ []) prefix = resolve_parts attributes prefix none first
  dispatch_parts attributes (first ∷ second ∷ []) prefix =
      resolve_parts attributes prefix (some second) first
  dispatch_parts attributes _ prefix = none

  unfoldable pub resolve_from_attributes : List SchemaAttribute → Str → List Str → Option Resolved
  unfolding dispatch_parts
  resolve_from_attributes attributes raw prefix = dispatch_parts attributes (split 46 raw) prefix

  unfoldable pub resolve_common_attribute : Str → Option Resolved
  unfolding resolve_from_attributes common_attributes
  resolve_common_attribute raw = resolve_from_attributes common_attributes raw []

  -- What follows the prefix, compared without regard to case, if something does.
  unfoldable pub after_prefix : Str → Str → Option Str
  after_prefix prefix raw =
      if ltb (length prefix) (length raw) && u.equal_fold (take (length prefix) raw) prefix
      then some (drop (length prefix) raw)
      else none

  abbrev or_whole : Str → Option Str → Str
  or_whole raw none = raw
  or_whole raw (some rest) = rest

  -- The loop over the extensions: the first whose schema qualifies the name decides.
  resolve_extension : List Extension → Str → Option (Option Resolved)
  unfolding after_prefix resolve_from_attributes
  resolve_extension [] remaining = none
  resolve_extension (e ∷ es) remaining = elim (after_prefix (e.schema ++ (58 ∷ [])) remaining) [
    | none ↦ resolve_extension es remaining
    | some rest ↦ some (
        resolve_from_attributes (attribute_list e.attributes) rest
          (if str_eq e.name (bytes "$core") then [] else e.schema ∷ []))
  ]

  resolve_unqualified : Definition → Str → Option (Option Resolved) → Option Resolved
  unfolding resolve_common_attribute or_next
  resolve_unqualified d remaining (some r) = r
  resolve_unqualified d remaining none =
      or_next (resolve_common_attribute remaining)
        (resolve_from_attributes (attribute_list d.attributes) remaining [])

  unfoldable pub resolve_attribute_contract :
      Definition → Option (List SchemaAttribute) → Str → Option Resolved
  unfolding resolve_extension resolve_unqualified
  resolve_attribute_contract d (some relative) raw = resolve_from_attributes relative raw []
  resolve_attribute_contract d none raw =
      let remaining = or_whole raw (after_prefix (d.schema ++ (58 ∷ [])) raw) in
      resolve_unqualified d remaining (resolve_extension d.extensions remaining)
