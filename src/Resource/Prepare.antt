-- ===== src/Resource/Prepare.antt =====
-- `prepareResource`, of pkg/scim/resource.go.
use gotth_scim.Base.{
  Bool, true, if◌then◌else◌, Str, bytes, str_eq, lookup, erase, split, Option, none, some, List, [],
  ◌∷◌, Unicode,
}
use gotth_scim.Failure.{Result, ok, fault, ◌>>=◌, ◌>>◌, refuse}
use gotth_scim.Json.{obj, Object, entries, fields, mk_obj}
use gotth_scim.Json.Decode.{Codec, clone_document, is_present}
use gotth_scim.Schema.{Extension, Definition, maximum_string_bytes}
use gotth_scim.Filter.{Literals}
use gotth_scim.Store.{IndexKey, optional_string, string_path}
use gotth_scim.Mutability.{strip_read_only}
use gotth_scim.Resource.{Syntax, Callbacks}
use gotth_scim.Resource.Clean.{remove_unassigned, normalize_primary_values}
use gotth_scim.Resource.Values.{validate_attribute_values, validate_attribute_values_exact}
use gotth_scim.Resource.Schemas.{validate_schema_set}
use gotth_scim.Resource.Shapes.{validate_user, validate_group}

-- What preparation gives: the document, its indexes and its external id.
pub record Prepared : Type 0 where
  pub document : Object
  pub indexes : List IndexKey
  pub external_id : Str

-- The attributes that the server owns, and those that the schema calls read-only, are gone, what is not
-- assigned is removed, and at most one value of an attribute is primary.
unfoldable pub normalized : Definition → Object → Object
unfolding erase strip_read_only remove_unassigned normalize_primary_values
normalized d document =
    let owned = erase (bytes "groups") (erase (bytes "meta") (erase (bytes "id") document)) in
    entries (normalize_primary_values (remove_unassigned true (fields (strip_read_only d owned))))

module _ (u : Unicode) where
  abbrev indexed : Str → Str → Option Str → List IndexKey → List IndexKey
  indexed unique name none rest = rest
  indexed unique name (some value) rest =
      record {
        name = name;
        value = value;
        case_exact = u.equal_fold name (bytes "externalId");
        unique = u.equal_fold name unique;
      }
      ∷ rest

  -- The loop over the filter attributes.
  pub indexes_of : Str → Object → List Str → Result (List IndexKey)
  unfolding string_path
  indexes_of unique document [] = ok []
  indexes_of unique document (name ∷ names) = do
    value ← string_path (split 46 name) (mk_obj document)
    rest ← indexes_of unique document names
    ok (indexed unique name value rest)

  module _ (l : Literals) (x : Syntax) (cb : Callbacks) (c : Codec) (d : Definition) where
    -- The checks that the name of the definition asks for.
    by_kind : Object → Result Object
    unfolding validate_user validate_group
    by_kind document =
        if str_eq d.name (bytes "User")
        then validate_user u x d document
        else if str_eq d.name (bytes "Group")
        then validate_group u d document
        else ok document

    -- The loop over the extensions.
    check_extensions : List Extension → Object → Result (Unit {0})
    unfolding lookup validate_attribute_values_exact
    check_extensions [] document = ok tt
    check_extensions (e ∷ es) document = elim (lookup e.schema document) [
      | some (obj fs) ↦
          validate_attribute_values_exact u l x e.attributes (entries fs)
          >> check_extensions es document
      | _ ↦ check_extensions es document
    ]

    -- The steps behind the normalisation.
    pub validated : Bool → Object → Result Object
    unfolding validate_schema_set by_kind check_extensions validate_attribute_values
    validated creating document = do
      respelled ← validate_schema_set u cb d document
      checked ← by_kind respelled
      admitted ← cb.validate_resource d creating checked
      validate_attribute_values u l x d.attributes admitted
      check_extensions d.extensions admitted
      ok admitted

    -- `prepareResource`, in one of its two modes; the id of the request is not looked at.
    unfoldable pub prepare_resource : Bool → Object → Result Prepared
    unfolding validated normalized indexes_of optional_string lookup clone_document
    prepare_resource creating document = do
      copy ← clone_document u c document
      refuse (is_present u (lookup (bytes "password") copy)) fault
      admitted ← validated creating (normalized d copy)
      external_id ← optional_string u admitted (bytes "externalId") maximum_string_bytes
      indexes ← indexes_of d.unique_attribute admitted d.filter_attributes
      ok (record { document = admitted; indexes = indexes; external_id = external_id })
