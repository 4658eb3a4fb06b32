-- ===== src/Patch/Apply.antt =====
-- `applyFilteredPatch`, `applyPatchOperation` and `applyPatchDocument`, of pkg/scim/patch_apply.go.
use gotth_scim.Base.{
  ℕ, zero, suc, ◌+◌, ◌/◌, ◌%◌, Bool, true, false, ◌&&◌, ◌||◌, not, ltb, if◌then◌else◌, Str, bytes,
  str_eq, lookup, insert, Option, none, some, List, [], ◌∷◌, ◌++◌, any, Unicode,
}
use gotth_scim.Failure.{Failure, client_error, Result, ok, err, ◌>>=◌, ◌>>◌, refuse}
use gotth_scim.Json.{Value, null, arr, obj, Object, elems, entries, mk_arr, mk_obj}
use gotth_scim.Json.Decode.{Codec, is_present, decode_document, clone_document}
use gotth_scim.Schema.{contract, sub_attributes, attributes_of, Extension, Definition}
use gotth_scim.Schema.Resolve.{resolve_attribute_contract}
use gotth_scim.Filter.{Literals}
use gotth_scim.Filter.Check.{parse_filter, relative_to, is_complex_list}
use gotth_scim.Filter.Match.{match_filter}
use gotth_scim.Patch.{Operation, PatchOp, refusal, add_value, apply_direct_patch, ensure_schema}
use gotth_scim.Patch.Path.{PatchPath, parse_patch_path, qualified_patch_attribute}

-- Which elements of the list the filter matches; an element that is no object does not match.
unfoldable pub match_flags : (Object → Result Bool) → List Value → Result (List Bool)
match_flags p [] = ok []
match_flags p (obj fs ∷ vs) = do
  matched ← p (entries fs)
  flags ← match_flags p vs
  ok (matched ∷ flags)
match_flags p (_ ∷ vs) = do flags ← match_flags p vs; ok (false ∷ flags)

unfoldable pub unmatched : List Bool → List Value → List Value
unmatched [] vs = vs
unmatched (b ∷ flags) [] = []
unmatched (b ∷ flags) (v ∷ vs) = let rest = unmatched flags vs in if b then rest else v ∷ rest

-- The loop over the fields of a replacement.
pub merged : Object → Object → Object
unfolding insert
merged [] item = item
merged ((name, v) ∷ m) item = merged m (insert name v item)

pub update_item : Str → Operation → Value → Object → Result Object
unfolding merged apply_direct_patch
update_item [] op (obj fs) item = ok (merged (entries fs) item)
update_item [] op v item =
    err (refusal "invalidValue" "PATCH filtered replacement must be an object")
update_item (c ∷ sub) op v item = apply_direct_patch item (c ∷ sub) [] op v

pub update_matched : (Object → Result Object) → List Bool → List Value → Result (List Value)
update_matched f (true ∷ flags) (obj fs ∷ vs) = do
  item ← f (entries fs)
  rest ← update_matched f flags vs
  ok (mk_obj item ∷ rest)
update_matched f (b ∷ flags) (v ∷ vs) = do rest ← update_matched f flags vs; ok (v ∷ rest)
update_matched f _ vs = ok vs

is_remove : Operation → Bool
is_remove Operation.remove = true
is_remove _ = false

pub is_add : Operation → Bool
is_add Operation.add = true
is_add _ = false

-- What the matches are used for, behind the evaluation of the filter.
unfoldable pub edit_matches : Str → Operation → Value → List Bool → List Value → Result (List Value)
unfolding is_remove unmatched update_matched update_item
edit_matches sub op v flags values =
    if not (any (λ b. b) flags)
    then (if is_remove op
        then ok values
        else err (refusal "noTarget" "PATCH value-path matched no values"))
    else if is_remove op && str_eq sub []
    then ok (unmatched flags values)
    else update_matched (update_item sub op v) flags values

-- An empty `ResourceDefinition`
pub no_definition : Definition
no_definition = record {
  name = [];
  endpoint = [];
  schema = [];
  description = [];
  attributes = attributes_of [];
  unique_attribute = [];
  filter_attributes = [];
  extensions = [];
}

or_refusal {ℓ} : {A : Type ℓ} → Failure → Option A → Result A
or_refusal f none = err f
or_refusal f (some a) = ok a

unfoldable pub replace_error {ℓ} : {A : Type ℓ} → Failure → Result A → Result A
replace_error f (ok a) = ok a
replace_error f (err e) = err f

pub or_null : Option Value → Value
or_null none = null
or_null (some v) = v

-- The decimal digits of a number.
decimal : ℕ → ℕ → Str
decimal zero n = []
decimal (suc fuel) n = elim (ltb n 10) [
  | true ↦ (48 + n) ∷ []
  | false ↦ decimal fuel (n / 10) ++ ((48 + n % 10) ∷ [])
]

pub invalid_value : ℕ → Failure
unfolding decimal
invalid_value index =
    client_error 400 (bytes "invalidValue")
      (bytes "PATCH operation " ++ decimal (suc index) index ++ bytes " value is invalid")

array_of : Option Value → Option (List Value)
array_of (some (arr vs)) = some (elems vs)
array_of _ = none

add_each : Object → Object → Object
unfolding add_value
add_each [] target = target
add_each ((name, v) ∷ m) target = add_each m (add_value target name v)

-- The schemas of the extensions that the document has.
pub list_extensions : Unicode → List Extension → Object → Object
unfolding lookup ensure_schema
list_extensions u [] document = document
list_extensions u (e ∷ es) document = list_extensions u es (
    if is_present u (lookup e.schema document) then ensure_schema u document e.schema else document)

module _ (u : Unicode) (l : Literals) (d : Definition) where
  -- The new values of the attribute under a value path.
  filtered_values : Object → PatchPath → Operation → Value → Result (List Value)
  unfolding array_of or_refusal replace_error qualified_patch_attribute resolve_attribute_contract
      is_complex_list parse_filter relative_to match_flags match_filter edit_matches lookup
      no_definition
  filtered_values target path op v = do
    values ←
        or_refusal (refusal "noTarget" "PATCH value-path target does not exist")
          (array_of (lookup path.attribute target))
    parent ←
        or_refusal (refusal "invalidPath" "PATCH value-path parent is invalid")
          (resolve_attribute_contract u d none (qualified_patch_attribute path))
    refuse (not (is_complex_list (contract parent.found)))
        (refusal "invalidPath" "PATCH value-path parent is invalid")
    e ←
        replace_error (refusal "invalidFilter" "PATCH value-path filter is unsupported")
          (parse_filter u l no_definition (relative_to (sub_attributes parent.found)) path.filter)
    flags ←
        replace_error (refusal "invalidFilter" "PATCH value-path filter failed")
          (match_flags (match_filter u l e) values)
    edit_matches path.sub op v flags values

  -- `applyFilteredPatch`
  unfoldable pub apply_filtered_patch : Object → PatchPath → Operation → Value → Result Object
  unfolding filtered_values insert
  apply_filtered_patch target path op v = do
    values ← filtered_values target path op v
    ok (insert path.attribute (mk_arr values) target)

  -- An operation without a path.
  pub apply_pathless : Object → Operation → Value → Result Object
  unfolding add_each merged
  apply_pathless document Operation.remove v =
      err (refusal "noTarget" "PATCH remove requires a path")
  apply_pathless document Operation.add (obj fs) = ok (add_each (entries fs) document)
  apply_pathless document Operation.replace (obj fs) = ok (merged (entries fs) document)
  apply_pathless document op v =
      err (refusal "invalidValue" "pathless PATCH value must be an object")

  pub is_password : PatchPath → Operation → Bool
  unfolding is_remove
  is_password p op =
      str_eq p.extension []
      && str_eq p.attribute (bytes "password")
      && str_eq p.sub []
      && not (is_remove op)

  -- The operation on the object that the path's extension leads to.
  unfoldable pub apply_at : PatchPath → Operation → Value → Object → Result Object
  unfolding is_password apply_direct_patch apply_filtered_patch insert
  apply_at p op v target =
      if str_eq p.filter []
      then (if is_password p op
          then ok (insert p.attribute v target)
          else apply_direct_patch target p.attribute p.sub op v)
      else apply_filtered_patch target p op v

  -- The extension's object in the document; `add` makes it, and lists the extension's schema.
  unfoldable pub apply_in_extension :
      Object → PatchPath → Operation → Value → Option Value → Result Object
  unfolding apply_at insert ensure_schema is_add
  apply_in_extension document p op v none = do
    refuse (not (is_add op) || not (str_eq p.filter []))
        (refusal "noTarget" "PATCH extension target does not exist")
    nested ← apply_at p op v []
    ok (
        insert p.extension (mk_obj nested)
          (ensure_schema u (insert p.extension (mk_obj []) document) p.extension))
  apply_in_extension document p op v (some (obj fs)) = do
    nested ← apply_at p op v (entries fs)
    ok (insert p.extension (mk_obj nested) document)
  apply_in_extension document p op v (some _) =
      err (refusal "invalidPath" "PATCH extension target is not an object")

  unfoldable pub apply_with_path : Object → Operation → Value → PatchPath → Result Object
  unfolding apply_at apply_in_extension lookup
  apply_with_path document op v p =
      if str_eq p.extension []
      then apply_at p op v document
      else apply_in_extension document p op v (lookup p.extension document)

  -- `applyPatchOperation`
  unfoldable pub apply_patch_operation : Object → Operation → Str → Value → Result Object
  unfolding apply_pathless apply_with_path parse_patch_path replace_error
  apply_patch_operation document op [] v = apply_pathless document op v
  apply_patch_operation document op (c ∷ raw) v = do
    p ←
        replace_error (refusal "invalidPath" "PATCH path is unsupported")
          (parse_patch_path u d (c ∷ raw))
    apply_with_path document op v p

  module _ (c : Codec) where
    -- `decodePatchValue`
    pub decode_patch_value : Str → Result Value
    unfolding decode_document lookup
    decode_patch_value raw = do
      document ← decode_document u c (bytes "{\"value\":" ++ raw ++ (125 ∷ []))
      ok (or_null (lookup (bytes "value") document))

    -- The value of an operation; Go's nil where there is none.
    pub patch_value : ℕ → Str → Result Value
    unfolding decode_patch_value replace_error
    patch_value index [] = ok null
    patch_value index (b ∷ raw) = replace_error (invalid_value index) (decode_patch_value (b ∷ raw))

    -- The loop over the operations.
    pub apply_operations : ℕ → Object → List PatchOp → Result Object
    unfolding patch_value apply_patch_operation
    apply_operations index working [] = ok working
    apply_operations index working (o ∷ os) = do
      v ← patch_value index o.value
      working' ← apply_patch_operation working o.op o.path v
      apply_operations (index + 1) working' os

    -- `applyPatchDocument`
    unfoldable pub apply_patch_document : Object → List PatchOp → Result Object
    unfolding clone_document apply_operations list_extensions
    apply_patch_document current operations = do
      working ← clone_document u c current
      changed ← apply_operations 0 working operations
      ok (list_extensions u d.extensions changed)
