-- ===== src/Mutability/Creation.antt =====
-- What stripping leaves of a new resource: `stripReadOnly` of pkg/scim/mutability.go.
use gotth_scim.Base.{
  false, Str, bytes, str_eq, lookup, lookup-insert, lookup-insert_self, Option, none, some, List,
  [], ◌∷◌, ◌≡◌, refl, ap, sym, ◌∙◌, inl, inr, subst,
}
use gotth_scim.Json.{Value, obj, Object, entries, entries-fields}
use gotth_scim.Schema.{SchemaAttribute, contract, Extension, Definition}
use gotth_scim.Mutability.{
  strip_read_only_attributes, strip_extension, strip_extensions, strip_read_only,
}
use gotth_scim.Mutability.Strip.{
  Lists, strip_read_only_attributes-elsewhere, strip_read_only_attributes-lookup,
}
use gotth_scim.Mutability.Places.{NoExtension, IsOnly, attributes_at, as_object, object_at, IsPlace}

strip_extension-elsewhere :
    (k : Str) (e : Extension) (o : Option Value) (m : Object)
    → str_eq e.schema k ≡ false
    → lookup k (strip_extension e o m) ≡ lookup k m
unfolding strip_extension
strip_extension-elsewhere k e (some (obj fs)) m n = simp (lookup-insert, n)
strip_extension-elsewhere k e none m n = refl
strip_extension-elsewhere k e (some v) m n = refl

strip_extensions-elsewhere :
    (k : Str) (es : List Extension) (m : Object)
    → NoExtension k es
    → lookup k (strip_extensions es m) ≡ lookup k m
unfolding strip_extensions
strip_extensions-elsewhere k [] m h = refl
strip_extensions-elsewhere k (e ∷ es) m (n, ns) =
    strip_extensions-elsewhere k es _ ns ∙ strip_extension-elsewhere k e (lookup e.schema m) m n

-- The extension's object in the document is the stripped one.
abbrev IsStripped : Extension → Object → Object → Type 0
IsStripped e sent m =
    as_object (lookup e.schema m) ≡ some (strip_read_only_attributes e.attributes sent)

strip_extension-IsStripped :
    (e : Extension) (o : Option Value) (m sent : Object)
    → as_object o ≡ some sent
    → IsStripped e sent (strip_extension e o m)
unfolding strip_extension
strip_extension-IsStripped e none m sent h = cc
strip_extension-IsStripped e (some (obj fs)) m sent h =
    let same : entries fs ≡ sent = cc in rw (← same) (simp (lookup-insert_self, entries-fields))
strip_extension-IsStripped e (some v) m sent h = cc

strip_extensions-IsStripped :
    (e : Extension) (es : List Extension) (m sent : Object)
    → IsOnly e es
    → as_object (lookup e.schema m) ≡ some sent
    → IsStripped e sent (strip_extensions es m)
unfolding strip_extensions
strip_extensions-IsStripped e [] m sent only h = elim only [ ]
strip_extensions-IsStripped e (b ∷ bs) m sent (inl (same, others)) h =
    let stripped = strip_extension b (lookup b.schema m) m in
    let there : IsStripped b sent stripped =
      strip_extension-IsStripped b (lookup b.schema m) m sent (rw (← same) h) in
    let stays : lookup b.schema (strip_extensions bs stripped) ≡ lookup b.schema stripped =
      strip_extensions-elsewhere b.schema bs stripped (rw (← same) others) in
    subst (λ z. IsStripped z sent (strip_extensions bs stripped)) (sym same)
      (ap as_object stays ∙ there)
strip_extensions-IsStripped e (b ∷ bs) m sent (inr (other, only)) h =
    strip_extensions-IsStripped e bs (strip_extension b (lookup b.schema m) m) sent only
      (ap as_object (strip_extension-elsewhere e.schema b (lookup b.schema m) m other) ∙ h)

-- `stripReadOnly` leaves no read-only attribute of the definition at the top of the document, and none of an
-- extension at the top of the object that the document has under the extension's exact schema; an object
-- under another spelling of the schema is not covered. The name is no extension's key; or else no attribute
-- and no other extension has the key of the extension.
pub strip_read_only-lookup :
    (d : Definition) (place : Option Extension) (a : SchemaAttribute) (m sent : Object)
    → IsPlace d place (contract a).name
    → Lists a (attributes_at d place)
    → (contract a).mutability ≡ bytes "readOnly"
    → object_at place m ≡ some sent
    → (kept : Object) × (object_at place (strip_read_only d m) ≡ some kept)
      × (lookup (contract a).name kept ≡ none)
unfolding strip_read_only
strip_read_only-lookup d none a m sent alone listed h s =
    let stripped = strip_read_only_attributes d.attributes m in
    (
      strip_extensions d.extensions stripped,
      refl,
      strip_extensions-elsewhere (contract a).name d.extensions stripped alone
          ∙ strip_read_only_attributes-lookup d.attributes a m listed h,
    )
strip_read_only-lookup d (some e) a m sent (only, unnamed) listed h s = (
  strip_read_only_attributes e.attributes sent,
  strip_extensions-IsStripped e d.extensions _ sent only
      (ap as_object (strip_read_only_attributes-elsewhere e.schema d.attributes m unnamed) ∙ s),
  strip_read_only_attributes-lookup e.attributes a sent listed h,
)
