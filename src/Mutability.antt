-- ===== src/Mutability.antt =====
-- The rules of mutability: pkg/scim/mutability.go. The code changes the incoming objects in place; here
-- each function returns the new object. The loops over attributes recur on the schema, and a nil map
-- is a missing object.
pub mod Strip
pub mod Enforce
pub mod Immutable
pub mod Places
pub mod Creation
pub mod Replacement
mod Examples
use gotth_scim.Base.{
  ℕ, suc, Bool, true, false, ◌&&◌, not, if◌then◌else◌, Str, bytes, str_eq, Map, lookup, insert,
  erase, Option, none, some, List, [], ◌∷◌, ◌++◌, map,
}
use gotth_scim.Failure.{client_error, Failure, Result, ok, err, ◌>>=◌, ◌>>◌, refuse}
use gotth_scim.Json.{
  Value, null, str, arr, obj, Object, as_arr, as_obj, as_str, elems, entries, mk_arr, mk_obj,
}
use gotth_scim.Json.Equal.{value_eq}
use gotth_scim.Schema.{
  Contract, SchemaAttribute, attribute, Attributes, none_left, more, contract, Extension,
  Definition,
}

pub is_complex : Contract → Bool
is_complex c = str_eq c.kind (bytes "complex")

-- What the loop does with one attribute that may be written.
pub on_objects : (Object → Object) → Value → Value
on_objects f (obj fs) = mk_obj (f (entries fs))
on_objects f v = v

pub strip_nested : (Object → Object) → Option Value → Option Value
unfolding on_objects
strip_nested f (some (obj fs)) = some (mk_obj (f (entries fs)))
strip_nested f (some (arr vs)) = some (mk_arr (map (on_objects f) (elems vs)))
strip_nested f v = v

pub put : Str → Option Value → Object → Object
unfolding insert
put name none m = m
put name (some v) m = insert name v m

-- A read-only attribute takes its value from the current object, or goes.
pub keep_current : Str → Option Value → Object → Object
unfolding insert erase
keep_current name none m = erase name m
keep_current name (some v) m = insert name v m

-- `stripReadOnlyAttributes`, whose callers all pass nil for the current object.
unfoldable mutual
  unfolding lookup strip_nested put erase is_complex

  pub strip_attribute : SchemaAttribute → Object → Object
  strip_attribute (attribute c subs) object =
      if str_eq c.mutability (bytes "readOnly")
      then erase c.name object
      else if is_complex c
      then put c.name (strip_nested (strip_read_only_attributes subs) (lookup c.name object)) object
      else object

  pub strip_read_only_attributes : Attributes → Object → Object
  strip_read_only_attributes none_left object = object
  strip_read_only_attributes (more a as_) object =
      strip_read_only_attributes as_ (strip_attribute a object)

object_of : Option Value → Object
object_of (some (obj fs)) = entries fs
object_of _ = []

list_of : Option Value → List Value
list_of (some (arr vs)) = elems vs
list_of _ = []

strip_extension : Extension → Option Value → Object → Object
unfolding strip_read_only_attributes insert
strip_extension e (some (obj fs)) document =
    insert e.schema (mk_obj (strip_read_only_attributes e.attributes (entries fs))) document
strip_extension e _ document = document

strip_extensions : List Extension → Object → Object
unfolding strip_extension lookup
strip_extensions [] document = document
strip_extensions (e ∷ es) document =
    strip_extensions es (strip_extension e (lookup e.schema document) document)

-- `stripReadOnly`
unfoldable pub strip_read_only : Definition → Object → Object
unfolding strip_extensions strip_read_only_attributes
strip_read_only d document =
    strip_extensions d.extensions (strip_read_only_attributes d.attributes document)

abbrev pub immutable_failure : Str → Failure
immutable_failure name =
    client_error 400 (bytes "mutability") (bytes "attribute " ++ name ++ bytes " is immutable")

-- An immutable attribute keeps the value that it has.
pub hold_immutable : Contract → Option Value → Option Value → Object → Result Object
unfolding value_eq insert
hold_immutable c (some before) (some after) incoming =
    if str_eq c.mutability (bytes "immutable") && not (value_eq before after)
    then err (immutable_failure c.name)
    else ok incoming
hold_immutable c (some before) none incoming =
    if str_eq c.mutability (bytes "immutable")
    then ok (insert c.name before incoming)
    else ok incoming
hold_immutable c none after incoming = ok incoming

value_text : Object → Option Str
unfolding lookup
value_text m = elim (lookup (bytes "value") m) [ none ↦ none | some v ↦ as_str v ]

-- `byValue`, on the entries so far: the last object of each value.
index_from : List Value → Map Object → Map Object
unfolding value_text insert
index_from [] table = table
index_from (obj fs ∷ vs) table = elim (value_text (entries fs)) [
  | none ↦ index_from vs table
  | some s ↦ index_from vs (insert s (entries fs) table)
]
index_from (_ ∷ vs) table = index_from vs table

by_value : List Value → Map Object
unfolding index_from
by_value vs = index_from vs []

first_of : Option Object → Option Object → Option Object
first_of none next = next
first_of (some m) next = some m

-- The object that an incoming one replaces: by its value, or else at its index.
previous_of : Map Object → List Value → Object → Option Object
unfolding value_text lookup first_of
previous_of table befores after =
    let at_index : Option Object = elim befores [ [] ↦ none | b ∷ bs ↦ as_obj b ] in
    elim (value_text after) [ none ↦ at_index | some s ↦ first_of (lookup s table) at_index ]

rest_of : List Value → List Value
rest_of [] = []
rest_of (v ∷ vs) = vs

-- The loop of `enforceMultiValueMutability`.
enforce_elements :
    (Object → Object → Result Object) → Map Object → List Value → List Value → Result (List Value)
unfolding previous_of rest_of
enforce_elements f table befores [] = ok []
enforce_elements f table befores (obj fs ∷ vs) = do
  v ← elim (previous_of table befores (entries fs)) [
    | none ↦ ok (entries fs)
    | some before ↦ f before (entries fs)
  ]
  rest ← enforce_elements f table (rest_of befores) vs
  ok (mk_obj v ∷ rest)
enforce_elements f table befores (v ∷ vs) = do
  rest ← enforce_elements f table (rest_of befores) vs
  ok (v ∷ rest)

-- What the loop does with the value of a complex attribute.
pub enforce_nested :
    (Object → Object → Result Object)
    → Contract
    → Option Value
    → Option Value
    → Object
    → Result Object
unfolding object_of list_of by_value enforce_elements insert
enforce_nested f c before (some (obj fs)) incoming =
    let changed = do
      nested ← f (object_of before) (entries fs)
      ok (insert c.name (mk_obj nested) incoming)
    in if c.multi_valued then ok incoming else changed
enforce_nested f c before (some (arr vs)) incoming =
    let changed = do
      values ← enforce_elements f (by_value (list_of before)) (list_of before) (elems vs)
      ok (insert c.name (mk_arr values) incoming)
    in if c.multi_valued then changed else ok incoming
enforce_nested f c before _ incoming = ok incoming

-- `enforceAttributeMutability`
unfoldable mutual
  unfolding lookup keep_current hold_immutable enforce_nested is_complex

  pub enforce_attribute : SchemaAttribute → Object → Object → Result Object
  enforce_attribute (attribute c subs) current incoming =
      let before = lookup c.name current in
      let after = lookup c.name incoming in
      if str_eq c.mutability (bytes "readOnly")
      then ok (keep_current c.name before incoming)
      else (hold_immutable c before after incoming >>= λ held.
          if is_complex c
          then enforce_nested (enforce_attribute_mutability subs) c before after held
          else ok held)

  pub enforce_attribute_mutability : Attributes → Object → Object → Result Object
  enforce_attribute_mutability none_left current incoming = ok incoming
  enforce_attribute_mutability (more a as_) current incoming = do
    held ← enforce_attribute a current incoming
    enforce_attribute_mutability as_ current held

-- The body of the loop over the extensions, on what the document has under the extension's schema.
enforce_extension : Extension → Object → Option Value → Object → Result Object
unfolding enforce_attribute_mutability lookup insert object_of
enforce_extension e current (some (obj fs)) incoming = do
  nested ←
      enforce_attribute_mutability e.attributes (object_of (lookup e.schema current)) (entries fs)
  ok (insert e.schema (mk_obj nested) incoming)
enforce_extension e current _ incoming = ok incoming

enforce_extensions : List Extension → Object → Object → Result Object
unfolding enforce_extension lookup
enforce_extensions [] current incoming = ok incoming
enforce_extensions (e ∷ es) current incoming = do
  held ← enforce_extension e current (lookup e.schema incoming) incoming
  enforce_extensions es current held

-- `enforceReplacementMutability`
unfoldable pub enforce_replacement_mutability : Definition → Object → Object → Result Object
unfolding enforce_extensions enforce_attribute_mutability
enforce_replacement_mutability d current incoming = do
  held ← enforce_attribute_mutability d.attributes current incoming
  enforce_extensions d.extensions current held
