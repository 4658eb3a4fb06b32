-- ===== src/Patch/Decode.antt =====
-- `DecodePatch`, of pkg/scim/patch.go.
use gotth_scim.Base.{
  ℕ, ◌&&◌, ◌||◌, not, ltb, ◌==◌, if◌then◌else◌, Str, bytes, str_eq, length, Option, none, some,
  List, [], ◌∷◌, Unicode,
}
use gotth_scim.Failure.{Result, ok, err, fault, ◌>>=◌, ◌>>◌, refuse}
use gotth_scim.Json.Decode.{Codec, decode_document}
use gotth_scim.Schema.Exact.{validate_schemas}
use gotth_scim.Patch.{Operation, PatchOp}
use gotth_scim.Patch.Path.{valid_attribute_path}

-- `PatchRequest` as encoding/json decodes it, the operations with the names that they have in the text.
pub record RawPatchOp : Type 0 where
  pub op : Str
  pub path : Str
  pub value : Str

pub record RawPatchRequest : Type 0 where
  pub schemas : List Str
  pub operations : List RawPatchOp

abbrev pub maximum_patch_bytes : ℕ
maximum_patch_bytes = 1048576

module _ (u : Unicode) where
  -- The switch over the name of an operation, in lower case.
  named_operation : RawPatchOp → Result Operation
  unfolding bytes str_eq
  named_operation raw =
      let name = u.to_lower raw.op in
      let has_value = not (str_eq raw.value [] || str_eq (u.trim_space raw.value) (bytes "null")) in
      if str_eq name (bytes "add")
      then (if has_value then ok Operation.add else err fault)
      else if str_eq name (bytes "replace")
      then (if has_value then ok Operation.replace else err fault)
      else if str_eq name (bytes "remove")
      then (if str_eq raw.path [] || not (str_eq raw.value [])
          then err fault
          else ok Operation.remove)
      else err fault

  -- The loop over the operations.
  pub decode_operations : List RawPatchOp → Result (List PatchOp)
  unfolding named_operation valid_attribute_path str_eq
  decode_operations [] = ok []
  decode_operations (raw ∷ raws) = do
    operation ← named_operation raw
    refuse (not (str_eq raw.path []) && not (valid_attribute_path u raw.path)) fault
    rest ← decode_operations raws
    ok (record { op = operation; path = raw.path; value = raw.value } ∷ rest)

  or_fault : Option RawPatchRequest → Result RawPatchRequest
  or_fault none = err fault
  or_fault (some request) = ok request

  -- `DecodePatch`; the parameter is encoding/json into a `PatchRequest` without unknown fields.
  unfoldable pub decode_patch :
      Codec → (Str → Option RawPatchRequest) → Str → ℕ → Result (List PatchOp)
  unfolding decode_operations or_fault validate_schemas decode_document bytes str_eq
  decode_patch c decode_request raw maximum_operations = do
    refuse
        (str_eq raw []
          || ltb maximum_patch_bytes (length raw)
          || ltb maximum_operations 1
          || ltb 1000 maximum_operations)
        fault
    document ← decode_document u c raw
    request ← or_fault (decode_request raw)
    validate_schemas u request.schemas (bytes "urn:ietf:params:scim:api:messages:2.0:PatchOp" ∷ [])
    refuse (length request.operations == 0 || ltb maximum_operations (length request.operations))
        fault
    decode_operations request.operations
