-- ===== src/Resource/Schemas.antt =====
-- `validateSchemaSet`, of pkg/scim/resource.go: the schemas that a resource lists, and the objects of its
-- extensions, both respelled as the definition has them.
use gotth_scim.Base.{
  ◌+◌, Bool, true, false, ◌&&◌, ◌||◌, not, ltb, ◌==◌, if◌then◌else◌, Str, bytes, str_eq, lookup,
  insert, erase, Option, none, some, List, [], ◌∷◌, length, any, Unicode,
}
use gotth_scim.Failure.{Result, ok, err, fault, ◌>>=◌, ◌>>◌, refuse}
use gotth_scim.Json.{Value, str, arr, obj, Object, entries, elems, mk_arr, mk_obj}
use gotth_scim.Schema.{Extension, Definition}
use gotth_scim.Resource.{Callbacks}

module _ (u : Unicode) where
  -- `admitted[folded]`: the map is filled in order, so that the last extension of a name counts.
  unfoldable pub admitted_extension : List Extension → Str → Option Extension
  admitted_extension [] folded = none
  admitted_extension (e ∷ es) folded = elim (admitted_extension es folded) [
    | some later ↦ some later
    | none ↦ if str_eq (u.to_lower e.schema) folded then some e else none
  ]

  -- The loop over the keys for one that is the schema but for case.
  similar_key : Str → Object → Option (Str × Value)
  similar_key schema [] = none
  similar_key schema ((k, v) ∷ m) =
      let rest = similar_key schema m in if u.equal_fold k schema then some (k, v) else rest

  -- The extension's object, with the document in which it stands under its own schema.
  unfoldable pub extension_object : Str → Object → Result (Object × Object)
  unfolding similar_key lookup insert erase
  extension_object schema document = elim (lookup schema document) [
    | some (obj fs) ↦ ok (entries fs, document)
    | some _ ↦ err fault
    | none ↦ elim (similar_key schema document) [
      | none ↦ err fault
      | some (k, obj fs) ↦ ok (entries fs, insert schema (obj fs) (erase k document))
      | some (k, _) ↦ err fault
    ]
  ]

  module _ (cb : Callbacks) (d : Definition) where
    pub admit_extension : Option Extension → Object → Result (Str × Object)
    unfolding extension_object insert
    admit_extension none document = err fault
    admit_extension (some e) document = do
      (object, document') ← extension_object e.schema document
      validated ← cb.validate_extension e object
      ok (e.schema, insert e.schema (mk_obj validated) document')

    -- The loop over the schemas. It gives the schemas as the definition spells them, whether the base
    -- schema was among them, what was seen, and the document.
    pub admit_schemas :
        List Str → Bool → List Value → Object → Result (List Value × Bool × List Str × Object)
    unfolding admit_extension admitted_extension
    admit_schemas seen base [] document = ok ([], base, seen, document)
    admit_schemas seen base (str s ∷ values) document = do
      refuse (str_eq s []) fault
      refuse (any (str_eq (u.to_lower s)) seen) fault
      (name, base', document') ← elim (u.equal_fold s d.schema) [
        | true ↦ ok (d.schema, true, document)
        | false ↦ do
          (name, changed) ←
              admit_extension (admitted_extension d.extensions (u.to_lower s)) document
          ok (name, base, changed)
      ]
      (rest, found, seen', last) ← admit_schemas (u.to_lower s ∷ seen) base' values document'
      ok (str name ∷ rest, found, seen', last)
    admit_schemas seen base (v ∷ values) document = err fault

    listed_schemas : Option Value → Result (List Value)
    listed_schemas (some (arr vs)) = ok (elems vs)
    listed_schemas _ = err fault

    -- `validateSchemaSet`
    unfoldable pub validate_schema_set : Object → Result Object
    unfolding listed_schemas admit_schemas lookup insert
    validate_schema_set document = do
      values ← listed_schemas (lookup (bytes "schemas") document)
      refuse (length values == 0 || ltb (length d.extensions + 1) (length values)) fault
      (respelled, base, seen, document') ← admit_schemas [] false values document
      refuse (not base) fault
      refuse (any (λ e. e.required && not (any (str_eq (u.to_lower e.schema)) seen)) d.extensions)
          fault
      ok (insert (bytes "schemas") (mk_arr respelled) document')
