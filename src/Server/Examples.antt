-- ===== src/Server/Examples.antt =====
-- The writes of the server on sample requests.
use gotth_scim.Base.{
  true, false, Str, bytes, str_eq, lookup, insert, erase, none, List, [], ◌∷◌, ◌≡◌, ◌≢◌, ap, refl,
  inl, ◌⊎◌, ◌<◌,
}
use gotth_scim.Failure.{◌>>◌, ok, err, not_found}
use gotth_scim.Json.Decode.{
  canonical_document, canonical, core_key_cases, decode_document, clone_document,
}
use gotth_scim.Json.{arr, cons, nil, str}
use gotth_scim.Schema.{Definition}
use gotth_scim.Etag.Render.{parse_single_strong_tag-strong}
use gotth_scim.Etag.{
  parse_single_strong_tag, is_invalid, evaluate_write_preconditions, if_match, if_none_match,
}
use gotth_scim.Store.{validate_record, validate_indexes, calculate_record_version, Record, State}
use gotth_scim.Store.Versions.{new_record, replacement_record}
use gotth_scim.Store.Versions.Kept.{replacement_record-SameIdentity, SameIdentity}
use gotth_scim.Store.Memory as Memory
use gotth_scim.Store.Memory.{
  same_identity, indexes_clash, has_index_conflict, buries, get, transact, delete, tombstone_fits,
}
use gotth_scim.Store.Memory.Consistent.{IsConsistent}
use gotth_scim.Patch.Apply.{replace_error}
use gotth_scim.Mutability.{enforce_replacement_mutability}
use gotth_scim.Resource.Prepare.{prepare_resource}
use gotth_scim.Samples.{
  holds_control, lower_byte, is_ascii, lower, same_letters, ascii, codec, literals, user, stored,
  buried,
}
use gotth_scim.Server.Samples.{
  syntax, callbacks, config, schemas_codec, users, context, stored-IsConsistent,
}
use gotth_scim.Server.{
  next_credential, store_change, create_in, creation, write_password, remove_in, tombstone_of,
  replacement, change_in, extract_password, current_time, Context, create, replace, remove,
}
use gotth_scim.Server.Requests.{Ends, Writes, serve, Call, removing, replacing, serve_all}
use gotth_scim.Store.Memory.History.{perform}
use gotth_scim.Server.Effects.{serve-Writes}
use gotth_scim.Server.History.{
  change-Readable, create-Readable, serve_all-IsConsistent, remove_permanent, Readable,
}

removed :
    remove ascii literals syntax callbacks schemas_codec config users context user.id [] [] stored
    ≡ (ok user, buried)
unfolding remove transact get lookup str_eq evaluate_write_preconditions delete tombstone_fits erase
    insert if_match if_none_match current_time remove_in tombstone_of
removed = refl

replaced :
    replace ascii literals syntax callbacks schemas_codec config users context user.id user.content
      [] [] stored
    ≡ (ok user, stored)
unfolding replace replacement replace_error transact get lookup str_eq evaluate_write_preconditions
    if_match if_none_match decode_document erase change_in extract_password current_time
    enforce_replacement_mutability prepare_resource clone_document bytes replacement_record
    calculate_record_version is_ascii canonical core_key_cases lower same_letters next_credential
    store_change
replaced = refl

abbrev second : Record
second = record user { id = 50 ∷ []; version = 34 ∷ 50 ∷ 34 ∷ []; created = 2; last_modified = 2 }

abbrev both : State
both = record {
  records = ((85 ∷ 0 ∷ 49 ∷ []), user) ∷ ((85 ∷ 0 ∷ 50 ∷ []), second) ∷ [];
  tombstones = [];
}

is_strong : parse_single_strong_tag second.version ≡ ok (50 ∷ [])
unfolding is_invalid
is_strong = parse_single_strong_tag-strong (50 ∷ []) ((refl, refl), tt)

second_is_valid : validate_record ascii schemas_codec second ≡ ok tt
unfolding validate_record str_eq same_letters holds_control is_ascii decode_document bytes lower
    lower_byte validate_indexes canonical core_key_cases insert
second_is_valid = rw is_strong refl

second_is_made :
    new_record ascii schemas_codec context.scope
      (109 ∷ [])
      users.name
      (50 ∷ [])
      []
      ((bytes "schemas", arr (cons (str (83 ∷ [])) nil)) ∷ [])
      []
      2
      []
    ≡ ok second
unfolding new_record calculate_record_version canonical_document is_ascii str_eq validate_record
second_is_made = ap (λ z. z >> ok second) second_is_valid

second_is_stored : Memory.create ascii schemas_codec second stored ≡ ok both
unfolding Memory.create same_identity buries has_index_conflict indexes_clash insert lookup str_eq
second_is_stored = rw second_is_valid refl

created :
    create ascii literals syntax callbacks schemas_codec config users context
      (109 ∷ [])
      user.content
      stored
    ≡ (ok second, both)
unfolding create creation create_in write_password replace_error transact lookup str_eq
    decode_document erase extract_password current_time prepare_resource clone_document bytes
    is_ascii canonical core_key_cases lower same_letters
created = rw (second_is_made, second_is_stored) refl

unchanged : replacement_record ascii codec user [] [] [] 5 none ≡ ok (user, false)
unfolding replacement_record canonical_document is_ascii str_eq
unchanged = refl

create-Readable_example :
    (second.scope ≡ context.scope)
    × (second.resource_type ≡ users.name)
    × (second.manager ≡ 109 ∷ [])
    × ((p : _) × (creation ascii literals syntax callbacks schemas_codec config users context
            user.content
          ≡ ok p)
        × (second.id ≡ p.2)
        × (second.created ≡ p.3))
    × Readable context.scope users.name second.id second stored both
create-Readable_example =
    create-Readable ascii literals syntax callbacks schemas_codec config users context (109 ∷ [])
      user.content stored second both created

change-Readable_example :
    (current : Record) × (get context.scope users.name user.id stored ≡ ok current)
    × (evaluate_write_preconditions false [] [] current.version ≡ ok tt)
    × SameIdentity user current
    × Readable context.scope users.name user.id user stored stored
change-Readable_example =
    change-Readable ascii literals syntax callbacks schemas_codec config users context user.id
      user.content [] [] [] stored user stored stored-IsConsistent (inl replaced)

abbrev calls : List Call
calls =
    record { definition = users; context = context; request = replacing user.id user.content [] [] }
    ∷ record { definition = users; context = context; request = removing user.id [] [] }
    ∷ []

serve_all-IsConsistent_example :
    IsConsistent ascii (serve_all ascii literals syntax callbacks schemas_codec config calls stored)
serve_all-IsConsistent_example =
    serve_all-IsConsistent ascii literals syntax callbacks schemas_codec config calls stored
      stored-IsConsistent

remove_permanent_example :
    ((scope' type' : Str)
      → get scope' type' user.id
          (serve_all ascii literals syntax callbacks schemas_codec config calls buried)
        ≡ err not_found)
    × ((d' : Definition) (q' : Context) (manager raw : Str) (r' : Record) (t : State)
        → create ascii literals syntax callbacks schemas_codec config d' q' manager raw
            (serve_all ascii literals syntax callbacks schemas_codec config calls buried)
          ≡ (ok r', t)
        → r'.id ≢ user.id)
remove_permanent_example =
    remove_permanent ascii literals syntax callbacks schemas_codec config users context user.id []
      [] stored buried user calls stored-IsConsistent removed

replacement_record-SameIdentity_example :
    SameIdentity user user
    × (((false ≡ false) × (user ≡ user))
        ⊎ ((false ≡ true)
            × (user.last_modified < user.last_modified)
            × (validate_record ascii codec user ≡ ok tt)
            × (canonical_document ascii codec [] ≡ ok user.content)
            × (user.external_id ≡ [])))
replacement_record-SameIdentity_example =
    replacement_record-SameIdentity ascii codec user [] [] [] 5 none user false unchanged

serve-Writes_example :
    Ends stored
      (serve ascii literals syntax callbacks schemas_codec config users context
        (removing user.id [] [])
        stored)
      (λ r s'. Writes (perform ascii schemas_codec) stored s')
serve-Writes_example =
    serve-Writes ascii literals syntax callbacks schemas_codec config users context
      (removing user.id [] []) stored
