-- ===== src/Store/Versions.antt =====
-- `newRecord` and `replacementRecord`, of pkg/scim/record.go.
pub mod Kept
use gotth_scim.Base.{
  ℕ, suc, ◌+◌, Bool, true, false, ◌&&◌, ltb, if◌then◌else◌, Str, str_eq, Option, none, some, List,
  [], Unicode,
}
use gotth_scim.Failure.{Result, ok, err, ◌>>=◌, ◌>>◌}
use gotth_scim.Json.{Object}
use gotth_scim.Json.Decode.{Codec, canonical_document}
use gotth_scim.Store.{IndexKey, Record, calculate_record_version, validate_record}

abbrev pub credential_or : Str → Option Str → Str
credential_or current none = current
credential_or current (some given) = given

-- Nothing to store: the same content, external id and credential version.
pub is_unchanged : Record → Str → Str → Str → Bool
is_unchanged current content external_id credential =
    str_eq content current.content
    && str_eq external_id current.external_id
    && str_eq credential current.credential_version

-- A time after the last one: the clock's, or the next nanosecond.
pub time_after : ℕ → ℕ → ℕ
time_after last now = if ltb last now then now else last + 1

-- The record after a change, before it has its version.
pub changed_record : Record → Str → Str → List IndexKey → ℕ → Str → Record
unfolding time_after
changed_record current content external_id indexes now credential = record current {
  content = content;
  external_id = external_id;
  indexes = indexes;
  credential_version = credential;
  last_modified = time_after current.last_modified now;
}

-- A new record, before it has its version.
pub draft : Str → Str → Str → Str → Str → Str → List IndexKey → ℕ → Str → Record
draft scope manager resource_type id external_id content indexes now credential = record {
  scope = scope;
  resource_type = resource_type;
  id = id;
  external_id = external_id;
  manager = manager;
  version = [];
  credential_version = credential;
  created = now;
  last_modified = now;
  content = content;
  indexes = indexes;
}

module _ (u : Unicode) (c : Codec) where
  -- The record with the version of its content, if it is valid.
  pub versioned : Record → Result Record
  unfolding calculate_record_version
  versioned r = do
    version ← calculate_record_version u c r
    let r' = record r { version = version }
    validate_record u c r'
    ok r'

  -- `newRecord`; the server always passes a credential version, which may be empty.
  unfoldable pub new_record :
      Str → Str → Str → Str → Str → Object → List IndexKey → ℕ → Str → Result Record
  unfolding versioned draft
  new_record scope manager resource_type id external_id document indexes now credential = do
    content ← canonical_document u c document
    versioned (draft scope manager resource_type id external_id content indexes now credential)

  -- `replacementRecord`, with the flag that says whether anything changes.
  unfoldable pub replacement_record :
      Record → Str → Object → List IndexKey → ℕ → Option Str → Result (Record × Bool)
  unfolding is_unchanged versioned changed_record
  replacement_record current external_id document indexes now given = do
    content ← canonical_document u c document
    let credential = credential_or current.credential_version given
    let changed = (do
      r ← versioned (changed_record current content external_id indexes now credential)
      ok (r, true))
    if is_unchanged current content external_id credential then ok (current, false) else changed
