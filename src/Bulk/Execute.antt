-- ===== src/Bulk/Execute.antt =====
-- The execution of one Bulk operation: `executeBulkOperation` and `bulkOperationLocation` of
-- pkg/scim/bulk_execute.go, over the writes of the server.
use gotth_scim.Base.{
  length, ℕ, ◌+◌, Bool, true, false, if◌then◌else◌, Str, bytes, str_eq, Map, lookup, Option, none,
  some, List, [], ◌++◌, Unicode,
}
use gotth_scim.Failure.{Result, ok, err, ◌>>=◌}
use gotth_scim.Json.Decode.{Codec}
use gotth_scim.Schema.{Definition}
use gotth_scim.Filter.{Literals}
use gotth_scim.Store.{Record, State}
use gotth_scim.Patch.{PatchOp, refusal}
use gotth_scim.Patch.Apply.{replace_error}
use gotth_scim.Patch.Decode.{RawPatchRequest, decode_patch}
use gotth_scim.Resource.{Syntax, Callbacks}
use gotth_scim.Server.{Config, Context, create, replace, patch, remove}
use gotth_scim.Bulk.{
  BulkOperation, BulkPath, Reference, Wire, parse_bulk_path, bulk_dependencies, resolve_bulk_data,
}
use gotth_scim.Bulk.Schedule.{
  BulkResult, Entry, Progress, Executor, Setting, setting, fresh_entries, rounds,
}

-- What a Bulk request finds on the server: its definitions by endpoint, the limit of PATCH operations,
-- `resourceLocation`, encoding/json into a `PatchRequest`, and what the n-th operation meets.
pub record Site : Type 0 where
  pub by_endpoint : Str → Option Definition
  pub maximum_patch_operations : ℕ
  pub resource_location : Definition → Str → Str
  pub decode_patch_request : Str → Option RawPatchRequest
  pub contexts : ℕ → Context

-- The entity tag that the server shows of a version.
shown_tag : Bool → Str → Str
unfolding bytes
shown_tag weak strong = if weak then bytes "W/" ++ strong else strong

reference_id : Str → Option Reference → Str
reference_id id none = id
reference_id id (some r) = r.id

module _ (u : Unicode) (l : Literals) (x : Syntax) (cb : Callbacks) (c : Codec) (cfg : Config)
    (w : Wire) (site : Site) where
  location_at : Str → Option Definition → Str
  unfolding str_eq
  location_at id none = []
  location_at id (some d) = if str_eq id [] then [] else site.resource_location d id

  -- `bulkOperationLocation`
  unfoldable pub bulk_operation_location : BulkOperation → Map Reference → Str
  unfolding location_at parse_bulk_path reference_id lookup
  bulk_operation_location operation references = elim (parse_bulk_path w operation.path) [
    | err _ ↦ []
    | ok path ↦
        let id =
          (if str_eq path.reference []
            then path.id
            else reference_id path.id (lookup path.reference references)) in
        location_at id (site.by_endpoint path.collection)
  ]

  -- The id of the operation's resource, with its reference resolved.
  target_id : BulkPath → Map Reference → Result Str
  unfolding str_eq lookup bytes
  target_id path references =
      if str_eq path.reference [] then ok path.id else elim (lookup path.reference references) [
        | none ↦ err (refusal "invalidValue" "Bulk reference is unresolved")
        | some r ↦ ok r.id
      ]

  definition_at : Option Definition → Result Definition
  unfolding bytes
  definition_at none = err (refusal "invalidPath" "Bulk collection is unsupported")
  definition_at (some d) = ok d

  -- What an operation is about: its definition, the id and the data without references.
  unfoldable pub resolved_operation :
      BulkOperation → Map Reference → Result (Definition × Str × Str)
  unfolding target_id definition_at parse_bulk_path resolve_bulk_data replace_error
  resolved_operation operation references = do
    path ← parse_bulk_path w operation.path
    id ← target_id path references
    d ← definition_at (site.by_endpoint path.collection)
    body ←
        replace_error (refusal "invalidValue" "Bulk data reference is unresolved")
          (resolve_bulk_data u c w operation.body references)
    ok (d, id, body)

  abbrev no_reference : Reference
  no_reference = record { id = []; location = [] }

  -- What a request gives: the result, with the tag of the resource if it is still there.
  written : BulkOperation → Definition → Record → BulkResult
  unfolding shown_tag
  written operation d r = record {
    method = operation.method;
    bulk_id = operation.bulk_id;
    location = site.resource_location d r.id;
    version = shown_tag cfg.weak_etags r.version;
    failure = none;
  }

  unfoldable pub after_write :
      BulkOperation
      → Definition
      → Bool
      → Result Record × State
      → Result (BulkResult × Reference) × State
  unfolding written
  after_write operation d true (ok r, s) = (
    ok (written operation d r, record { id = r.id; location = site.resource_location d r.id }),
    s,
  )
  after_write operation d false (ok r, s) = (ok (written operation d r, no_reference), s)
  after_write operation d made (err e, s) = (err e, s)

  unfoldable pub after_removal :
      BulkOperation
      → Definition
      → Str
      → Result Record × State
      → Result (BulkResult × Reference) × State
  after_removal operation d id (ok r, s) = (
    ok (
      record {
        method = operation.method;
        bulk_id = operation.bulk_id;
        location = site.resource_location d id;
        version = [];
        failure = none;
      },
      no_reference,
    ),
    s,
  )
  after_removal operation d id (err e, s) = (err e, s)

  unfoldable pub apply_decoded :
      BulkOperation
      → Context
      → Definition
      → Str
      → State
      → Result (List PatchOp)
      → Result (BulkResult × Reference) × State
  unfolding after_write patch bytes
  apply_decoded operation q d id s (err _) =
      (err (refusal "invalidSyntax" "Bulk PATCH data is invalid"), s)
  apply_decoded operation q d id s (ok operations) =
      after_write operation d false (patch u l x cb c cfg d q id operations operation.version [] s)

  -- The switch over the method.
  unfoldable pub by_method :
      BulkOperation
      → Context
      → Definition × Str × Str
      → State
      → Result (BulkResult × Reference) × State
  unfolding after_write after_removal apply_decoded create replace remove decode_patch bytes str_eq
  by_method operation q (d, id, body) s =
      if str_eq operation.method (bytes "POST")
      then after_write operation d true (create u l x cb c cfg d q [] body s)
      else if str_eq operation.method (bytes "PUT")
      then after_write operation d false (replace u l x cb c cfg d q id body operation.version [] s)
      else if str_eq operation.method (bytes "PATCH")
      then apply_decoded operation q d id s
          (decode_patch u c site.decode_patch_request body site.maximum_patch_operations)
      else if str_eq operation.method (bytes "DELETE")
      then after_removal operation d id (remove u l x cb c cfg d q id operation.version [] s)
      else (err (refusal "invalidValue" "Bulk method is unsupported"), s)

  unfoldable pub at_next :
      ℕ → Result (BulkResult × Reference) × State → Result (BulkResult × Reference) × (ℕ × State)
  at_next n (result, s) = (result, (n + 1, s))

  unfoldable pub execute_resolved :
      BulkOperation
      → ℕ
      → State
      → Result (Definition × Str × Str)
      → Result (BulkResult × Reference) × (ℕ × State)
  unfolding by_method at_next
  execute_resolved operation n s (err e) = (err e, (n, s))
  execute_resolved operation n s (ok about) =
      at_next n (by_method operation (site.contexts n) about s)

  -- `executeBulkOperation`; the number counts the operations executed so far.
  unfoldable pub execute_bulk_operation : Executor (ℕ × State)
  unfolding resolved_operation execute_resolved
  execute_bulk_operation operation references (n, s) =
      execute_resolved operation n s (resolved_operation operation references)

  dependency_list : Result (List Str) → List Str
  dependency_list (ok names) = names
  dependency_list (err _) = []

  unfoldable pub request_setting : ℕ → List BulkOperation → Setting (ℕ × State)
  unfolding dependency_list bulk_dependencies execute_bulk_operation bulk_operation_location
  request_setting fail_on_errors operations =
      setting (λ o. dependency_list (bulk_dependencies u c w o)) bulk_operation_location
        fail_on_errors execute_bulk_operation operations

  -- `serveBulk` on a request that has been decoded, with an error of `bulkDependencies` ignored.
  unfoldable pub serve_bulk_request :
      ℕ → List BulkOperation → State → Option (List Entry × Progress (ℕ × State))
  unfolding request_setting rounds
  serve_bulk_request fail_on_errors operations s =
      rounds (request_setting fail_on_errors operations) (length operations)
        (fresh_entries operations)
        (record { references = []; failed = []; failures = 0; store = (0, s) })
