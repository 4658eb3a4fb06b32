-- ===== src/Bulk.antt =====
-- Bulk requests: pkg/scim/bulk.go, and the references of pkg/scim/bulk_execute.go. The field `Data` of an
-- operation is `body` here.
pub mod Schedule
pub mod Kept
pub mod Order
pub mod Executor
pub mod Execute
pub mod Asked
pub mod Invariant
pub mod References
mod Examples
use gotth_scim.Base.{
  ℕ, ◌+◌, Bool, true, false, ◌&&◌, ◌||◌, not, ltb, leb, ◌==◌, if◌then◌else◌, Str, bytes, str_eq,
  split, strip_prefix, has_prefix, has_byte, Map, lookup, length, any, map, Option, none, some,
  List, [], ◌∷◌, ◌++◌, Unicode,
}
use gotth_scim.Failure.{Result, ok, err, fault, ◌>>=◌, ◌>>◌, refuse}
use gotth_scim.Json.{
  Value, null, bool, num, str, arr, obj, Items, nil, cons, Fields, end, field, Object, entries,
  fields,
}
use gotth_scim.Json.Decode.{Codec, decode_document, canonical_document}
use gotth_scim.Schema.{valid_name}
use gotth_scim.Schema.Exact.{validate_schemas}

pub record BulkOperation : Type 0 where
  pub method : Str
  pub bulk_id : Str
  pub path : Str
  pub version : Str
  pub body : Str

pub record BulkRequest : Type 0 where
  pub schemas : List Str
  pub fail_on_errors : ℕ
  pub operations : List BulkOperation

-- A URL as net/url parses it, by the parts that the code looks at.
pub record BulkUrl : Type 0 where
  pub is_absolute : Bool
  pub host : Str
  pub raw_query : Str
  pub fragment : Str
  pub escaped_path : Str

-- net/url, strings.ToUpper, and encoding/json into a `BulkRequest` without unknown fields and into a map of
-- raw messages. `none` is an error, a negative `failOnErrors` included, which the code refuses.
pub record Wire : Type 0 where
  pub parse_url : Str → Option BulkUrl
  pub path_unescape : Str → Option Str
  pub to_upper : Str → Str
  pub decode_request : Str → Option BulkRequest
  pub is_object : Str → Bool

-- A path: the collection, the id, and the bulkId reference that stands in the id's place.
pub record BulkPath : Type 0 where
  pub collection : Str
  pub id : Str
  pub reference : Str

unfoldable pub after_bulk_id : Str → Option Str
unfolding strip_prefix bytes
after_bulk_id s = strip_prefix (bytes "bulkId:") s

abbrev or_whole : Str → Option Str → Str
or_whole s none = s
or_whole s (some rest) = rest

module _ (w : Wire) where
  resource_path : Str → Str → Result BulkPath
  unfolding after_bulk_id has_byte str_eq
  resource_path collection part = do
    refuse (str_eq part []) fault
    elim (w.path_unescape part) [
      | none ↦ err fault
      | some decoded ↦ do
        refuse (str_eq decoded [] || has_byte 47 decoded) fault
        elim (after_bulk_id decoded) [
          | none ↦ ok (record { collection = collection; id = decoded; reference = [] })
          | some reference ↦ do
            refuse (str_eq reference []) fault
            ok (record { collection = collection; id = []; reference = reference })
        ]
    ]

  path_of_parts : List Str → Result BulkPath
  unfolding resource_path valid_name
  path_of_parts [] = err fault
  path_of_parts (first ∷ parts) = elim (w.path_unescape first) [
    | none ↦ err fault
    | some collection ↦ do
      refuse (ltb 1 (length parts) || not (valid_name collection)) fault
      elim parts [
        | [] ↦ ok (record { collection = collection; id = []; reference = [] })
        | part ∷ _ ↦ resource_path collection part
      ]
  ]

  -- `ParseBulkPath`
  unfoldable pub parse_bulk_path : Str → Result BulkPath
  unfolding path_of_parts split strip_prefix str_eq
  parse_bulk_path raw = do
    refuse (str_eq raw []) fault
    elim (w.parse_url raw) [
      | none ↦ err fault
      | some url ↦ do
        refuse
            (url.is_absolute
              || not (str_eq url.host [])
              || not (str_eq url.raw_query [])
              || not (str_eq url.fragment []))
            fault
        path_of_parts
            (split 47 (or_whole url.escaped_path (strip_prefix (47 ∷ []) url.escaped_path)))
    ]

-- The reference that a string is: what follows `bulkId:`, if something does.
unfoldable pub reference_of : Str → Option Str
unfolding after_bulk_id
reference_of s = elim (after_bulk_id s) [ some (c ∷ rest) ↦ some (c ∷ rest) | _ ↦ none ]

abbrev pub option_list : Option Str → List Str
option_list none = []
option_list (some s) = s ∷ []

-- `collectBulkDependencies`; the list stands for the set.
unfoldable mutual
  unfolding reference_of

  pub collect_bulk_dependencies : Value → List Str
  collect_bulk_dependencies (str s) = option_list (reference_of s)
  collect_bulk_dependencies (obj fs) = collect_from_fields fs
  collect_bulk_dependencies (arr vs) = collect_from_items vs
  collect_bulk_dependencies _ = []

  pub collect_from_fields : Fields → List Str
  collect_from_fields end = []
  collect_from_fields (field k v fs) = collect_bulk_dependencies v ++ collect_from_fields fs

  pub collect_from_items : Items → List Str
  collect_from_items nil = []
  collect_from_items (cons v vs) = collect_bulk_dependencies v ++ collect_from_items vs

-- `bulkReference`
pub record Reference : Type 0 where
  pub id : Str
  pub location : Str

-- What a string becomes; `$ref` takes the location.
unfoldable pub resolve_text : Map Reference → Str → Str → Result Value
unfolding reference_of lookup str_eq bytes
resolve_text references key s = elim (reference_of s) [
  | none ↦ ok (str s)
  | some name ↦ elim (lookup name references) [
    | none ↦ err fault
    | some r ↦ ok (str (if str_eq key (bytes "$ref") then r.location else r.id))
  ]
]

-- `resolveBulkValue`, with the name under which the value stands.
unfoldable mutual
  unfolding resolve_text

  pub resolve_bulk_value : Map Reference → Str → Value → Result Value
  resolve_bulk_value references key (str s) = resolve_text references key s
  resolve_bulk_value references key (obj fs) = do
    resolved ← resolve_fields references fs
    ok (obj resolved)
  resolve_bulk_value references key (arr vs) = do
    resolved ← resolve_items references key vs
    ok (arr resolved)
  resolve_bulk_value references key null = ok null
  resolve_bulk_value references key (bool b) = ok (bool b)
  resolve_bulk_value references key (num n) = ok (num n)

  pub resolve_fields : Map Reference → Fields → Result Fields
  resolve_fields references end = ok end
  resolve_fields references (field k v fs) = do
    resolved ← resolve_bulk_value references k v
    rest ← resolve_fields references fs
    ok (field k resolved rest)

  pub resolve_items : Map Reference → Str → Items → Result Items
  resolve_items references key nil = ok nil
  resolve_items references key (cons v vs) = do
    resolved ← resolve_bulk_value references key v
    rest ← resolve_items references key vs
    ok (cons resolved rest)

module _ (u : Unicode) (c : Codec) (w : Wire) where
  -- `bulkDependencies`
  unfoldable pub bulk_dependencies : BulkOperation → Result (List Str)
  unfolding parse_bulk_path collect_bulk_dependencies decode_document str_eq
  bulk_dependencies operation = do
    path ← parse_bulk_path w operation.path
    let own = (if str_eq path.reference [] then [] else path.reference ∷ [])
    let more = (do
      document ← decode_document u c operation.body
      ok (own ++ collect_bulk_dependencies (obj (fields document))))
    if str_eq operation.body [] then ok own else more

  -- `validBulkID`
  unfoldable pub valid_bulk_id : Str → Bool
  unfolding str_eq
  valid_bulk_id value =
      not (str_eq value [])
      && leb (length value) 128
      && u.valid_utf8 value
      && not (u.has_control value)

  -- `isJSONObject`
  unfoldable pub is_json_object : Str → Bool
  unfolding str_eq
  is_json_object raw = not (str_eq raw []) && w.is_object raw

  upper_method : BulkOperation → BulkOperation
  upper_method operation = record operation { method = w.to_upper operation.method }

  -- The first loop, with the bulkIds that it has seen.
  check_bulk_ids : List Str → List BulkOperation → Result (Unit {0})
  unfolding valid_bulk_id bytes str_eq
  check_bulk_ids seen [] = ok tt
  check_bulk_ids seen (operation ∷ operations) =
      let next = check_bulk_ids (operation.bulk_id ∷ seen) operations in
      let rest = check_bulk_ids seen operations in
      if str_eq operation.method (bytes "POST")
      then (refuse (not (valid_bulk_id operation.bulk_id)) fault
          >> refuse (any (str_eq operation.bulk_id) seen) fault
          >> next)
      else rest

  names_resource : BulkPath → Bool
  unfolding str_eq
  names_resource path =
      not (str_eq path.collection []) && (not (str_eq path.id []) || not (str_eq path.reference []))

  is_admitted : BulkOperation → BulkPath → Bool
  unfolding valid_bulk_id is_json_object names_resource bytes str_eq
  is_admitted operation path =
      if str_eq operation.method (bytes "POST")
      then str_eq path.id []
        && str_eq path.reference []
        && valid_bulk_id operation.bulk_id
        && is_json_object operation.body
      else if str_eq operation.method (bytes "PUT") || str_eq operation.method (bytes "PATCH")
      then names_resource path && is_json_object operation.body && str_eq operation.bulk_id []
      else str_eq operation.method (bytes "DELETE")
        && names_resource path
        && str_eq operation.body []
        && str_eq operation.bulk_id []

  -- The second loop.
  check_operations : List BulkOperation → Result (Unit {0})
  unfolding parse_bulk_path is_admitted bulk_dependencies
  check_operations [] = ok tt
  check_operations (operation ∷ operations) = do
    path ← parse_bulk_path w operation.path
    refuse (not (is_admitted operation path)) fault
    dependencies ← bulk_dependencies operation
    check_operations operations

  abbrev pub maximum_bulk_bytes : ℕ
  maximum_bulk_bytes = 1048576

  abbrev pub maximum_bulk_operations : ℕ
  maximum_bulk_operations = 100

  or_fault : Option BulkRequest → Result BulkRequest
  or_fault none = err fault
  or_fault (some request) = ok request

  -- `DecodeBulk`
  unfoldable pub decode_bulk : Str → Result BulkRequest
  unfolding or_fault check_bulk_ids check_operations upper_method validate_schemas decode_document
      str_eq bytes
  decode_bulk raw = do
    refuse (str_eq raw [] || ltb maximum_bulk_bytes (length raw)) fault
    document ← decode_document u c raw
    request ← or_fault (w.decode_request raw)
    validate_schemas u request.schemas
        (bytes "urn:ietf:params:scim:api:messages:2.0:BulkRequest" ∷ [])
    refuse
        (length request.operations == 0
          || ltb maximum_bulk_operations (length request.operations)
          || ltb maximum_bulk_operations request.fail_on_errors)
        fault
    let operations = map upper_method request.operations
    check_bulk_ids [] operations
    check_operations operations
    ok (record request { operations = operations })

  -- `resolveBulkData`; the last step is `json.Marshal`.
  unfoldable pub resolve_bulk_data : Str → Map Reference → Result Str
  unfolding resolve_bulk_value decode_document
  resolve_bulk_data [] references = ok []
  resolve_bulk_data (b ∷ raw) references = do
    document ← decode_document u c (b ∷ raw)
    resolved ← resolve_bulk_value references [] (obj (fields document))
    elim (c.marshal resolved) [ none ↦ err fault | some s ↦ ok s ]
