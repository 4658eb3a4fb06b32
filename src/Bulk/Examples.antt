-- ===== src/Bulk/Examples.antt =====
-- Bulk scheduling on sample operations.
use gotth_scim.Base.{
  ℕ, ◌≤◌, ◌⊎◌, length, Bool, true, false, bytes, Str, Map, all, All, none, some, List, [], ◌∷◌, ◌≡◌,
  refl,
}
use gotth_scim.Failure.{Result, ok, err, fault}
use gotth_scim.Json.{str, arr, nil, cons}
use gotth_scim.Samples.{ascii, literals, stored}
use gotth_scim.Store.{State}
use gotth_scim.Store.Memory.Consistent.{IsConsistent}
use gotth_scim.Server.Requests.{Call, serve_all}
use gotth_scim.Server.Samples.{
  syntax, callbacks, config, schemas_codec, users, context, stored-IsConsistent,
}
use gotth_scim.Bulk.Execute.{Site, serve_bulk_request, request_setting}
use gotth_scim.Bulk.Invariant.{serve_bulk_request-IsConsistent}
use gotth_scim.Bulk.Asked.{is_asked}
use gotth_scim.Bulk.{Wire, BulkOperation, Reference, collect_bulk_dependencies, resolve_bulk_value}
use gotth_scim.Bulk.References.{is_ok, is_resolved, resolve_bulk_value-is_resolved}
use gotth_scim.Bulk.Schedule.{
  limit_reached, Executor, Entry, Progress, BulkResult, setting, serve_bulk, is_done,
}
use gotth_scim.Bulk.Order.{Finishes, serve_bulk-Finishes, operations_of}
use gotth_scim.Bulk.Executor.{recorded, is_among, serve_bulk-executor}

-- The second operation needs what the first makes, and the third needs itself.
abbrev first : BulkOperation
first = record { method = []; bulk_id = 49 ∷ []; path = []; version = []; body = [] }

abbrev second : BulkOperation
second = record { method = []; bulk_id = 50 ∷ []; path = []; version = []; body = 49 ∷ [] }

abbrev third : BulkOperation
third = record { method = []; bulk_id = 51 ∷ []; path = []; version = []; body = 51 ∷ [] }

abbrev operations : List BulkOperation
operations = second ∷ third ∷ first ∷ []

abbrev dependencies : BulkOperation → List Str
dependencies o = elim o.body [ [] ↦ [] | c ∷ rest ↦ (c ∷ rest) ∷ [] ]

abbrev made : BulkResult × Reference
made = (
  record { method = []; bulk_id = []; location = []; version = []; failure = none },
  record { id = 49 ∷ []; location = [] },
)

-- The store is the list of what was executed, the last first.
abbrev execute : Executor (List BulkOperation)
execute o references s = (ok made, o ∷ s)

abbrev Log : Type 0
Log = List BulkOperation × List Str

abbrev guarded_by :
    Bool → BulkOperation → Map Reference → Log → Result (BulkResult × Reference) × Log
guarded_by true o references t = recorded execute o references t
guarded_by false o references t = (err fault, ([], []))

abbrev guarded : Executor Log
guarded o references (s, succeeded) =
    guarded_by (all (is_among succeeded) (dependencies o)) o references (s, succeeded)

guarded-execute :
    (o : BulkOperation) (references : Map Reference) (t : List BulkOperation) (succeeded : List Str)
    → all (is_resolved references) (dependencies o) ≡ true
    → all (is_among succeeded) (dependencies o) ≡ true
    → recorded execute o references (t, succeeded) ≡ guarded o references (t, succeeded)
guarded-execute o references t succeeded h k = rw k refl

serve_bulk-Finishes_example :
    Finishes
      (setting dependencies (λ o r. []) 0 execute operations)
      operations
      (serve_bulk dependencies (λ o r. []) 0 execute operations [])
serve_bulk-Finishes_example = serve_bulk-Finishes dependencies (λ o r. []) 0 execute operations []

serve_bulk-executor_example :
    serve_bulk dependencies (λ o r. []) 0 (recorded execute) operations ([], [])
    ≡ serve_bulk dependencies (λ o r. []) 0 guarded operations ([], [])
serve_bulk-executor_example =
    serve_bulk-executor dependencies (λ o r. []) 0 execute operations [] guarded guarded-execute

resolve_bulk_value-is_resolved_example :
    is_ok (resolve_bulk_value [] [] (arr (cons (str (98 ∷ [])) nil)))
    ≡ all (is_resolved []) (collect_bulk_dependencies (arr (cons (str (98 ∷ [])) nil)))
resolve_bulk_value-is_resolved_example =
    resolve_bulk_value-is_resolved [] [] (arr (cons (str (98 ∷ [])) nil))

abbrev wire : Wire
wire = record {
  parse_url = λ s.
      some (record {
        is_absolute = false;
        host = [];
        raw_query = [];
        fragment = [];
        escaped_path = s;
      });
  path_unescape = λ s. some s;
  to_upper = λ s. s;
  decode_request = λ s. none;
  is_object = λ s. true;
}

abbrev site : Site
site = record {
  by_endpoint = λ s. some users;
  maximum_patch_operations = 10;
  resource_location = λ d id. id;
  decode_patch_request = λ s. none;
  contexts = λ n. context;
}

-- `DELETE /U/1`
abbrev removal : BulkOperation
removal = record {
  method = bytes "DELETE";
  bulk_id = [];
  path = 47 ∷ 85 ∷ 47 ∷ 49 ∷ [];
  version = [];
  body = [];
}

serve_bulk_request-IsConsistent_example :
    (es : List Entry) × (p : Progress (ℕ × State)) × (serve_bulk_request ascii literals syntax
        callbacks schemas_codec config wire site 0
        (removal ∷ [])
        stored
      ≡ some (es, p))
    × (all is_done es ≡ true)
    × ((operations_of es ≡ removal ∷ [])
        ⊎ (limit_reached
              (request_setting ascii literals syntax callbacks schemas_codec config wire site 0
                (removal ∷ []))
              p
            ≡ true))
    × ((calls : List Call) × (p.store.1
          ≡ serve_all ascii literals syntax callbacks schemas_codec config calls stored)
        × (length calls ≤ p.store.0)
        × All (λ k. is_asked (removal ∷ []) k ≡ true) calls)
    × IsConsistent ascii p.store.1
serve_bulk_request-IsConsistent_example =
    serve_bulk_request-IsConsistent ascii literals syntax callbacks schemas_codec config wire site 0
      (removal ∷ []) stored stored-IsConsistent
