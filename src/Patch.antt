-- ===== src/Patch.antt =====
-- PATCH: pkg/scim/patch.go and pkg/scim/patch_apply.go. The code changes a private copy of the document
-- in place; here each operation returns the new document, and an error drops the copy.
pub mod Path
pub mod Decode
pub mod Apply
pub mod Values
pub mod Frame
pub mod Remove
mod Examples
use gotth_scim.Base.{
  Bool, true, false, Str, bytes, lookup, insert, erase, Option, none, some, List, [], ◌∷◌, ◌++◌,
  any, if◌then◌else◌, str_eq, Unicode, String,
}
use gotth_scim.Failure.{Failure, client_error, Result, ok, err, ◌>>=◌}
use gotth_scim.Json.{Value, str, arr, obj, Object, as_arr, as_obj, elems, entries, mk_arr, mk_obj}
use gotth_scim.Json.Equal.{value_eq}

pub data Operation : Type 0 where
  add remove replace : Operation

-- `PatchOp`, with its decoded operation; the value is JSON text, empty where it is missing.
pub record PatchOp : Type 0 where
  pub op : Operation
  pub path : Str
  pub value : Str

abbrev pub refusal : String → String → Failure
refusal scim_type detail = client_error 400 (bytes scim_type) (bytes detail)

-- `containsPatchValue`
unfoldable pub contains_patch_value : List Value → Value → Bool
unfolding value_eq
contains_patch_value values candidate = any (λ v. value_eq v candidate) values

-- The loop over the additions.
unfoldable pub add_missing : List Value → List Value → List Value
unfolding contains_patch_value
add_missing values [] = values
add_missing values (v ∷ vs) =
    add_missing (if contains_patch_value values v then values else values ++ (v ∷ [])) vs

additions : Value → List Value
additions (arr vs) = elems vs
additions v = v ∷ []

added : Option Value → Value → Value
unfolding add_missing additions
added (some (arr values)) v = mk_arr (add_missing (elems values) (additions v))
added _ v = v

-- `addValue`
unfoldable pub add_value : Object → Str → Value → Object
unfolding added lookup insert
add_value target attribute v = insert attribute (added (lookup attribute target) v) target

-- `applyDirectPatch` on an attribute; a missing value is Go's nil, as null is.
unfoldable pub apply_to_attribute : Object → Str → Operation → Value → Result Object
unfolding add_value lookup insert erase
apply_to_attribute target attribute Operation.remove v = elim (lookup attribute target) [
  | none ↦ err (refusal "noTarget" "PATCH target does not exist")
  | some _ ↦ ok (erase attribute target)
]
apply_to_attribute target attribute Operation.replace v = elim (lookup attribute target) [
  | none ↦ err (refusal "noTarget" "PATCH target does not exist")
  | some _ ↦ ok (insert attribute v target)
]
apply_to_attribute target attribute Operation.add v = ok (add_value target attribute v)

nested_in : Object → Str → Str → Operation → Value → Option Value → Result Object
unfolding apply_to_attribute insert
nested_in target attribute sub Operation.add v none =
    ok (insert attribute (mk_obj ((sub, v) ∷ [])) target)
nested_in target attribute sub op v none =
    err (refusal "noTarget" "PATCH parent target does not exist")
nested_in target attribute sub op v (some (obj fs)) = do
  nested ← apply_to_attribute (entries fs) sub op v
  ok (insert attribute (mk_obj nested) target)
nested_in target attribute sub op v (some _) =
    err (refusal "invalidPath" "PATCH parent target is not complex")

-- `applyDirectPatch`
unfoldable pub apply_direct_patch : Object → Str → Str → Operation → Value → Result Object
unfolding apply_to_attribute nested_in lookup
apply_direct_patch target attribute [] op v = apply_to_attribute target attribute op v
apply_direct_patch target attribute (c ∷ sub) op v =
    nested_in target attribute (c ∷ sub) op v (lookup attribute target)

module _ (u : Unicode) where
  lists_schema : Str → Value → Bool
  lists_schema schema (str s) = u.equal_fold s schema
  lists_schema schema _ = false

  abbrev values_of : Option Value → List Value
  values_of (some (arr vs)) = elems vs
  values_of _ = []

  -- `ensureSchema`
  unfoldable pub ensure_schema : Object → Str → Object
  unfolding lists_schema lookup insert
  ensure_schema document schema =
      let values = values_of (lookup (bytes "schemas") document) in
      if any (lists_schema schema) values
      then document
      else insert (bytes "schemas") (mk_arr (values ++ (str schema ∷ []))) document
