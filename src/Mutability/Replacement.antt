-- ===== src/Mutability/Replacement.antt =====
-- What a replacement keeps of a resource: `enforceReplacementMutability` of pkg/scim/mutability.go.
use gotth_scim.Base.{false, bytes, lookup, Option, some, ◌≡◌, ◌∙◌}
use gotth_scim.Failure.{ok}
use gotth_scim.Json.{Value, Object}
use gotth_scim.Schema.{SchemaAttribute, contract, Extension, Definition}
use gotth_scim.Mutability.{is_complex, enforce_replacement_mutability}
use gotth_scim.Mutability.Enforce.{IsLast, enforce_attribute_mutability-read_only}
use gotth_scim.Mutability.Immutable.{Keeps, enforce_attribute_mutability-immutable}
use gotth_scim.Mutability.Places.{
  attributes_at, object_at, or_empty, IsPlace, enforce_replacement-at,
}

module _ (d : Definition) (place : Option Extension) (a : SchemaAttribute)
    (current incoming sent r : Object) where
  -- When `enforceReplacementMutability` admits a replacement, a read-only attribute has in its result what it
  -- has in the current document, and is missing where it is missing there. The attribute is one of the
  -- definition's own, or of an extension whose object the incoming document has under the extension's exact
  -- schema; an extension that is omitted or spelled in another case is not covered. No later attribute of its
  -- list has its name, and no other attribute or extension has its key, or that of its extension.
  pub enforce_replacement_mutability-read_only :
      IsPlace d place (contract a).name
      → IsLast a (attributes_at d place)
      → (contract a).mutability ≡ bytes "readOnly"
      → object_at place incoming ≡ some sent
      → enforce_replacement_mutability d current incoming ≡ ok r
      → (kept : Object) × (object_at place r ≡ some kept)
        × (lookup (contract a).name kept
            ≡ lookup (contract a).name (or_empty (object_at place current)))
  enforce_replacement_mutability-read_only alone listed m s h =
      let (held, kept, e, there, same) =
        enforce_replacement-at current d place (contract a).name incoming sent alone s h in
      (
        kept,
        there,
        same
            ∙ enforce_attribute_mutability-read_only (attributes_at d place) a
                (or_empty (object_at place current)) sent held listed m e,
      )

  -- When `enforceReplacementMutability` admits a replacement, an immutable attribute that is not complex and
  -- that the current document has keeps its value: the result has the current value, or one that
  -- reflect.DeepEqual takes for the same. The attribute is one of the definition's own at the top of the
  -- document, or one at the top of an extension's object, which the incoming document has under the
  -- extension's exact schema; sub-attributes, and an extension that is omitted or spelled in another case,
  -- are not covered. No later attribute of its list has its name, and no other attribute or extension has
  -- its key, or that of its extension.
  pub enforce_replacement_mutability-immutable :
      (v : Value)
      → IsPlace d place (contract a).name
      → IsLast a (attributes_at d place)
      → (contract a).mutability ≡ bytes "immutable"
      → is_complex (contract a) ≡ false
      → lookup (contract a).name (or_empty (object_at place current)) ≡ some v
      → object_at place incoming ≡ some sent
      → enforce_replacement_mutability d current incoming ≡ ok r
      → (kept : Object) × (object_at place r ≡ some kept) × Keeps v (lookup (contract a).name kept)
  enforce_replacement_mutability-immutable v alone listed m simple had s h =
      let (held, kept, e, there, same) =
        enforce_replacement-at current d place (contract a).name incoming sent alone s h in
      let keeps =
        enforce_attribute_mutability-immutable (attributes_at d place) a
          (or_empty (object_at place current)) sent held v listed m simple had e in
      (kept, there, rw same keeps)
