-- ===== src/Store.antt =====
-- The storage contract and the reference store: pkg/scim/store.go, `calculateRecordVersion` of
-- pkg/scim/record.go, `Version` of pkg/scim/etag.go, and pkg/scim/memory.go. The maps of the store are
-- association lists; `cloneRecord` copies slices, which values have no need of.
pub mod Memory
pub mod Versions
use gotth_scim.Base.{
  ℕ, zero, suc, ◌+◌, Bool, true, false, ◌&&◌, ◌||◌, not, ltb, leb, ◌==◌, if◌then◌else◌, Str, bytes,
  str_eq, Map, lookup, insert, erase, Option, none, some, List, [], ◌∷◌, ◌++◌, length, all, any,
  select, map, Unicode, split, compare_bytes, Sign, less, same, greater,
}
use gotth_scim.Failure.{
  Failure, Result, ok, err, fault, not_found, conflict, precondition, tombstoned, too_many, ◌>>=◌,
  ◌>>◌, refuse,
}
use gotth_scim.Json.{Value, str, Object, mk_obj, as_str, as_obj}
use gotth_scim.Json.Decode.{Codec, decode_document, maximum_resource_bytes, some_text}
use gotth_scim.Schema.{
  valid_name, valid_attribute_name, valid_string, valid_resource_id, maximum_string_bytes,
}
use gotth_scim.Etag.{parse_single_strong_tag}

pub record IndexKey : Type 0 where
  pub name : Str
  pub value : Str
  pub case_exact : Bool
  pub unique : Bool

pub record Record : Type 0 where
  pub scope : Str
  pub resource_type : Str
  pub id : Str
  pub external_id : Str
  pub manager : Str
  pub version : Str
  pub credential_version : Str
  pub created : ℕ
  pub last_modified : ℕ
  pub content : Str
  pub indexes : List IndexKey

pub record Tombstone : Type 0 where
  pub scope : Str
  pub resource_type : Str
  pub id : Str
  pub external_id : Str
  pub manager : Str
  pub version : Str
  pub deleted_at : ℕ

pub record Query : Type 0 where
  pub scope : Str
  pub resource_type : Str
  pub attribute : Str
  pub value : Str
  pub limit : ℕ

pub record State : Type 0 where
  pub records : Map Record
  pub tombstones : Map Tombstone

abbrev pub empty_state : State
empty_state = record { records = []; tombstones = [] }

abbrev pub record_key : Str → Str → Str
record_key resource_type id = resource_type ++ (0 ∷ id)

abbrev pub key_of : Record → Str
key_of r = record_key r.resource_type r.id

-- A test on a value that may be missing.
abbrev pub holds {ℓ} : {A : Type ℓ} → Option A → (A → Bool) → Bool
holds none p = false
holds (some a) p = p a

-- `optionalString` for a name: "" where the name is missing.
abbrev checked_string : Unicode → ℕ → Option Value → Result Str
checked_string u maximum none = ok []
checked_string u maximum (some v) = elim (as_str v) [
  | none ↦ err fault
  | some s ↦ if valid_string u s maximum then ok s else err fault
]

unfoldable pub optional_string : Unicode → Object → Str → ℕ → Result Str
unfolding valid_string lookup
optional_string u document name maximum = checked_string u maximum (lookup name document)

-- `stringPath`: the string at a dotted path, `none` where a part is missing.
abbrev whole_string : Value → Result (Option Str)
whole_string (str []) = err fault
whole_string (str s) = ok (some s)
whole_string _ = err fault

unfoldable pub string_path : List Str → Value → Result (Option Str)
unfolding lookup
string_path [] v = whole_string v
string_path (part ∷ parts) v = elim (as_obj v) [
  | none ↦ err fault
  | some m ↦ elim (lookup part m) [ none ↦ ok none | some child ↦ string_path parts child ]
]

abbrev present : Result (Option Str) → Result Str
present (err e) = err e
present (ok none) = err fault
present (ok (some s)) = ok s

module _ (u : Unicode) (c : Codec) where
  -- `Version`
  unfoldable pub version_of : Str → Result Str
  version_of canonical = do
    refuse (str_eq canonical [] || ltb 1048576 (length canonical)) fault
    ok (34 ∷ (c.digest canonical ++ (34 ∷ [])))

  -- `calculateRecordVersion`
  unfoldable pub calculate_record_version : Record → Result Str
  unfolding version_of
  calculate_record_version r = do
    canonical ←
        some_text u c (c.marshal_version r.resource_type r.id r.content r.credential_version)
    version_of canonical

  -- The loop over the indexes in `validateRecord`.
  unfoldable pub validate_indexes : Object → List Str → List IndexKey → Result (Unit {0})
  unfolding string_path valid_string valid_attribute_name split
  validate_indexes document seen [] = ok tt
  validate_indexes document seen (i ∷ is) = do
    refuse
        (not (valid_attribute_name i.name)
          || str_eq i.value []
          || not (valid_string u i.value maximum_string_bytes))
        fault
    refuse (any (str_eq (u.to_lower i.name)) seen) fault
    value ← present (string_path (split 46 i.name) (mk_obj document))
    refuse (not (str_eq value i.value)) fault
    validate_indexes document (u.to_lower i.name ∷ seen) is

  -- `validateRecord`
  unfoldable pub validate_record : Record → Result (Unit {0})
  unfolding valid_string valid_name valid_resource_id optional_string calculate_record_version
  validate_record r = do
    refuse
        (str_eq r.scope []
          || not (valid_string u r.scope 1024)
          || not (valid_name r.resource_type)
          || not (valid_resource_id u r.id)
          || not (valid_string u r.manager 1024)
          || not (valid_string u r.external_id maximum_string_bytes))
        fault
    refuse
        (str_eq r.version []
          || r.created == 0
          || ltb r.last_modified r.created
          || str_eq r.content []
          || ltb maximum_resource_bytes (length r.content))
        fault
    refuse (not (str_eq r.credential_version []) && not (valid_string u r.credential_version 1024))
        fault
    _ ← parse_single_strong_tag r.version
    document ← decode_document u c r.content
    external_id ← optional_string u document (bytes "externalId") maximum_string_bytes
    refuse (not (str_eq external_id r.external_id)) fault
    expected ← calculate_record_version r
    refuse (not (str_eq expected r.version)) fault
    validate_indexes document [] r.indexes
