-- ===== src/Store/Memory/Examples.antt =====
-- The operations of the store on the sample user.
use mathlib.Core.List.{Perm}
use gotth_scim.Base.{
  ◌↔◌, ◌≢◌, arith, length, IsOrdered, ltb, if◌then◌else◌, true, false, List, Str, [], ◌∷◌, refl,
  ◌≡◌, lookup, str_eq, erase, insert, bytes,
}
use gotth_scim.Failure.{ok, err, not_found, too_many}
use gotth_scim.Json.Decode.{decode_document}
use gotth_scim.Etag.{is_invalid, parse_single_strong_tag}
use gotth_scim.Etag.Render.{parse_single_strong_tag-strong}
use gotth_scim.Samples.{
  lower, lower_byte, same_letters, holds_control, is_ascii, ascii, codec, user, burial, stored,
  buried,
}
use gotth_scim.Store.{State, Record, empty_state, validate_record, validate_indexes, key_of, Query}
use gotth_scim.Schema.{valid_name}
use gotth_scim.Store.Memory.Consistent.{IsConsistent, IsConsistent-empty, create-IsConsistent}
use gotth_scim.Store.Memory.History.{creates, replaces, run, run-IsConsistent, delete_permanent}
use gotth_scim.Store.Memory.Access.{get-replace}
use gotth_scim.Store.Memory.Listing.{list-eq, matching, Asks, IsBefore}
use gotth_scim.Store.Memory.{
  list, query_matches, get, create, replace, delete, tombstone_fits, same_identity, buries,
  has_index_conflict,
}

is_strong : parse_single_strong_tag user.version ≡ ok (49 ∷ [])
unfolding is_invalid
is_strong = parse_single_strong_tag-strong (49 ∷ []) ((refl, refl), tt)

created : create ascii codec user empty_state ≡ ok stored
unfolding create validate_record str_eq same_letters holds_control is_ascii same_identity buries
    has_index_conflict insert lookup decode_document bytes lower lower_byte validate_indexes
created = rw (is_strong, create) refl

replaced : replace ascii codec user user.version stored ≡ ok stored
unfolding replace validate_record get str_eq same_letters holds_control is_ascii has_index_conflict
    insert lookup decode_document bytes lower lower_byte validate_indexes
replaced = rw (is_strong, replace) refl

deleted : delete user.scope user.resource_type user.id user.version burial stored ≡ ok buried
unfolding delete get lookup str_eq tombstone_fits erase insert
deleted = refl

get-replace_example :
    ((old : Record) × (get user.scope user.resource_type user.id stored ≡ ok old)
      × (old.version ≡ user.version)
      × (old.created ≡ user.created)
      × (old.manager ≡ user.manager))
    × (get user.scope user.resource_type user.id stored ≡ ok user)
    × ((k : Str)
        → str_eq (key_of user) k ≡ false
        → lookup k stored.records ≡ lookup k stored.records)
    × (stored.tombstones ≡ stored.tombstones)
get-replace_example = get-replace ascii codec user user.version stored stored replaced

abbrev all_users : Query
all_users = record {
  scope = 115 ∷ [];
  resource_type = 85 ∷ [];
  attribute = [];
  value = [];
  limit = 1;
}

is_user_name : valid_name (85 ∷ []) ≡ true
unfolding valid_name
is_user_name = refl

list-eq_example :
    (rs : List Record) × (list ascii all_users stored
      ≡ (if ltb 1 (length rs) then err too_many else ok rs))
    × Perm rs (matching ascii all_users stored.records)
    × ((r : Record) → (query_matches ascii all_users r ≡ true) ↔ Asks ascii all_users r)
    × IsOrdered IsBefore rs
unfolding str_eq
list-eq_example = list-eq ascii all_users stored refl is_user_name refl (omega arith)

stored-IsConsistent : IsConsistent ascii stored
stored-IsConsistent =
    create-IsConsistent ascii codec user empty_state (IsConsistent-empty ascii) created

run-IsConsistent_example :
    IsConsistent ascii (run ascii codec (creates user ∷ replaces user user.version ∷ []) stored)
run-IsConsistent_example =
    run-IsConsistent ascii codec (creates user ∷ replaces user user.version ∷ []) stored
      stored-IsConsistent

delete_permanent_example :
    ((scope' type' : Str)
      → get scope' type' user.id (run ascii codec (creates user ∷ []) buried) ≡ err not_found)
    × ((r : Record) (s'' : State)
        → r.id ≡ user.id
        → create ascii codec r (run ascii codec (creates user ∷ []) buried) ≢ ok s'')
delete_permanent_example =
    delete_permanent ascii codec user.scope user.resource_type user.id user.version burial stored
      buried (creates user ∷ []) stored-IsConsistent deleted
