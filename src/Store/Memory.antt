-- ===== src/Store/Memory.antt =====
-- pkg/scim/memory.go. An operation of a transaction returns the new working state, or the error; on an
-- error the working state is the one before.
pub mod Keys
pub mod Indexes
pub mod Consistent
pub mod History
pub mod Access
pub mod Listing
mod Examples
use gotth_scim.Base.{
  ℕ, zero, suc, Bool, true, false, ◌&&◌, ◌||◌, not, ltb, ◌==◌, if◌then◌else◌, Str, bytes, str_eq,
  Map, lookup, insert, erase, Option, none, some, List, [], ◌∷◌, ◌++◌, length, all, any, select,
  map, Unicode, compare_bytes, is_less, sort_by,
}
use gotth_scim.Failure.{
  Failure, Result, ok, err, fault, not_found, conflict, precondition, tombstoned, too_many, ◌>>=◌,
  ◌>>◌, refuse,
}
use gotth_scim.Json.Decode.{Codec}
use gotth_scim.Schema.{valid_name, valid_attribute_name}
use gotth_scim.Store.{
  IndexKey, Record, Tombstone, Query, State, empty_state, record_key, key_of, validate_record,
  holds,
}

abbrev pub xor_bool : Bool → Bool → Bool
xor_bool true b = not b
xor_bool false b = b

pub record_before : Record → Record → Bool
unfolding compare_bytes
record_before a b = is_less (compare_bytes a.id b.id)

tombstone_before : Tombstone → Tombstone → Bool
unfolding compare_bytes
tombstone_before a b = is_less (compare_bytes a.id b.id)

-- `Get`
pub found_in_scope : Str → Option Record → Result Record
found_in_scope scope none = err not_found
found_in_scope scope (some r) = if str_eq r.scope scope then ok r else err not_found

unfoldable pub get : Str → Str → Str → State → Result Record
unfolding found_in_scope
get scope resource_type id s = found_in_scope scope (lookup (record_key resource_type id) s.records)

module _ (u : Unicode) where
  -- The body of the inner loop of `hasIndexConflict`, for one pair of indexes.
  pub index_clash : IndexKey → IndexKey → Bool
  index_clash candidate current =
      u.equal_fold candidate.name current.name
      && (xor_bool candidate.unique current.unique
          || (xor_bool candidate.case_exact current.case_exact
              || (candidate.unique
                  && (if candidate.case_exact
                      then str_eq candidate.value current.value
                      else u.equal_fold candidate.value current.value))))

  -- The two loops over the indexes, for one live record.
  unfoldable pub indexes_clash : Record → Record → Bool
  indexes_clash record_ existing =
      str_eq existing.scope record_.scope
      && str_eq existing.resource_type record_.resource_type
      && any (λ i. any (index_clash i) existing.indexes) record_.indexes

  -- `hasIndexConflict`; no excluded key is `none`.
  unfoldable pub has_index_conflict : Record → Option Str → Map Record → Bool
  has_index_conflict record_ excluded records =
      any (λ p. not (holds excluded (str_eq p.0)) && indexes_clash record_ p.1) records

  -- `recordMatches`
  pub index_matches : Str → Str → List IndexKey → Bool
  index_matches attribute value [] = false
  index_matches attribute value (i ∷ is) =
      if u.equal_fold i.name attribute
      then (if i.case_exact then str_eq i.value value else u.equal_fold i.value value)
      else index_matches attribute value is

  pub record_matches : Record → Str → Str → Bool
  unfolding index_matches
  record_matches r attribute value =
      if u.equal_fold attribute (bytes "externalId")
      then str_eq r.external_id value
      else index_matches attribute value r.indexes

  pub query_matches : Query → Record → Bool
  query_matches q r =
      str_eq r.scope q.scope
      && str_eq r.resource_type q.resource_type
      && (str_eq q.attribute [] || record_matches r q.attribute q.value)

  -- The loop of `List` over the records.
  pub collect : Query → List Record → Map Record → Result (List Record)
  collect q result [] = ok result
  collect q result ((k, r) ∷ records) =
      let kept = result ++ (r ∷ []) in
      let more = (if ltb q.limit (length kept) then err too_many else collect q kept records) in
      let skipped = collect q result records in if query_matches q r then more else skipped

  pub list : Query → State → Result (List Record)
  unfolding collect record_before
  list q s = do
    refuse
        (str_eq q.scope []
          || not (valid_name q.resource_type)
          || (not (str_eq q.attribute []) && not (valid_attribute_name q.attribute))
          || q.limit == 0)
        fault
    result ← collect q [] s.records
    ok (sort_by record_before result)

  module _ (c : Codec) where
    unfoldable pub same_identity : Record → Str × Record → Bool
    same_identity r p = str_eq p.1.id r.id || str_eq p.0 (key_of r)

    unfoldable pub buries : Record → Str × Tombstone → Bool
    buries r p =
        str_eq p.1.id r.id
        || (not (str_eq r.external_id [])
            && str_eq p.1.scope r.scope
            && str_eq p.1.resource_type r.resource_type
            && str_eq p.1.external_id r.external_id)

    -- `Create`
    unfoldable pub create : Record → State → Result State
    unfolding same_identity buries
    create r s = do
      validate_record u c r
      refuse (any (same_identity r) s.records) conflict
      refuse (any (buries r) s.tombstones) tombstoned
      refuse (has_index_conflict r none s.records) conflict
      ok (record s { records = insert (key_of r) r s.records })

    -- `Replace`
    unfoldable pub replace : Record → Str → State → Result State
    replace r expected s = do
      validate_record u c r
      existing ← get r.scope r.resource_type r.id s
      refuse (str_eq expected [] || not (str_eq existing.version expected)) precondition
      refuse (not (r.created == existing.created) || not (str_eq r.manager existing.manager)) fault
      refuse (has_index_conflict r (some (key_of r)) s.records) conflict
      ok (record s { records = insert (key_of r) r s.records })

-- The check of the tombstone in `Delete`.
unfoldable pub tombstone_fits : Str → Str → Str → Record → Tombstone → Bool
tombstone_fits scope resource_type id r t =
    str_eq t.scope scope
    && str_eq t.resource_type resource_type
    && str_eq t.id id
    && not (t.deleted_at == 0)
    && str_eq t.version r.version
    && str_eq t.external_id r.external_id
    && str_eq t.manager r.manager

-- `Delete`
unfoldable pub delete : Str → Str → Str → Str → Tombstone → State → Result State
delete scope resource_type id expected t s = do
  let key = record_key resource_type id
  r ← get scope resource_type id s
  refuse (str_eq expected [] || not (str_eq r.version expected)) precondition
  refuse (not (tombstone_fits scope resource_type id r t)) fault
  refuse (holds (lookup key s.tombstones) (λ _. true)) tombstoned
  ok (record { records = erase key s.records; tombstones = insert key t s.tombstones })

-- `Tombstones`
pub tombstones_of : Str → Str → State → Result (List Tombstone)
unfolding tombstone_before
tombstones_of scope resource_type s = do
  refuse (str_eq scope [] || not (valid_name resource_type)) fault
  ok (
      sort_by tombstone_before (
        select (λ t. str_eq t.scope scope && str_eq t.resource_type resource_type)
          (map (λ p. p.1) s.tombstones)))

pub finish {ℓ} : {A : Type ℓ} → Bool → State → Result A × State → Result A × State
finish cancelled s (ok a, working) = if cancelled then (err fault, s) else (ok a, working)
finish cancelled s (err e, working) = (err e, s)

-- `Transact`: the callback works on a copy, and what it left is stored only where it succeeded and the
-- context was not cancelled before or after it.
unfoldable pub transact {ℓ} :
    {A : Type ℓ} → Bool → Bool → (State → Result A × State) → State → Result A × State
unfolding finish
transact cancelled_before cancelled_after f s =
    if cancelled_before then (err fault, s) else finish cancelled_after s (f s)
