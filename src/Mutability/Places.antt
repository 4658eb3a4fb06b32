-- ===== src/Mutability/Places.antt =====
-- Where a definition keeps its attributes: in the document, and in an object of the document for each
-- extension. What `enforceReplacementMutability` of pkg/scim/mutability.go does there.
use gotth_scim.Base.{
  false, Str, str_eq, lookup, lookup-insert_self, Option, none, some, List, [], ◌∷◌, ◌≡◌, refl, ap,
  sym, ◌∙◌, inl, inr, ◌⊎◌, All, subst,
}
use gotth_scim.Failure.{ok-injective, ok, >>=-eq-ok}
use gotth_scim.Json.{Value, obj, Object, entries, entries-fields, mk_obj}
use gotth_scim.Schema.{Attributes, Extension, Definition}
use gotth_scim.Mutability.{
  object_of, enforce_attribute_mutability, enforce_extension, enforce_extensions,
  enforce_replacement_mutability,
}
use gotth_scim.Mutability.Enforce.{
  Unnamed, changed-elsewhere, enforce_attribute_mutability-elsewhere,
}

-- No extension of the list has the key.
abbrev pub NoExtension : Str → List Extension → Type 0
NoExtension k es = All (λ e. str_eq e.schema k ≡ false) es

-- The extension is in the list, and no other has its schema.
abbrev pub IsOnly : Extension → List Extension → Type 0
IsOnly e [] = ⊥
IsOnly e (b ∷ bs) =
    ((e ≡ b) × NoExtension e.schema bs) ⊎ ((str_eq b.schema e.schema ≡ false) × IsOnly e bs)

-- A place is the document (`none`) or an extension.
abbrev pub attributes_at : Definition → Option Extension → Attributes
attributes_at d none = d.attributes
attributes_at d (some e) = e.attributes

abbrev pub as_object : Option Value → Option Object
as_object (some (obj fs)) = some (entries fs)
as_object _ = none

-- The object there. An extension's stands under the extension's exact schema.
abbrev pub object_at : Option Extension → Object → Option Object
object_at none m = some m
object_at (some e) m = as_object (lookup e.schema m)

abbrev pub or_empty : Option Object → Object
or_empty none = []
or_empty (some m) = m

-- The attribute `k` of the place shares its key with no other place.
abbrev pub IsPlace : Definition → Option Extension → Str → Type 0
IsPlace d none k = NoExtension k d.extensions
IsPlace d (some e) k = IsOnly e d.extensions × Unnamed e.schema d.attributes

or_empty-object : (o : Option Value) → or_empty (as_object o) ≡ object_of o
unfolding object_of
or_empty-object none = refl
or_empty-object (some (obj fs)) = refl
or_empty-object (some v) = refl

module _ (current : Object) where
  enforce_extension-elsewhere :
      (k : Str) (e : Extension) (o : Option Value) (incoming : Object) {r : Object}
      → enforce_extension e current o incoming ≡ ok r
      → str_eq e.schema k ≡ false
      → lookup k r ≡ lookup k incoming
  unfolding enforce_extension
  enforce_extension-elsewhere k e (some (obj fs)) incoming h n =
      changed-elsewhere k e.schema _ mk_obj incoming h n
  enforce_extension-elsewhere k e none incoming h n = ap (lookup k) (ok-injective (sym h))
  enforce_extension-elsewhere k e (some v) incoming h n = ap (lookup k) (ok-injective (sym h))

  enforce_extensions-elsewhere :
      (k : Str) (es : List Extension) (incoming : Object) {r : Object}
      → enforce_extensions es current incoming ≡ ok r
      → NoExtension k es
      → lookup k r ≡ lookup k incoming
  unfolding enforce_extensions
  enforce_extensions-elsewhere k [] incoming h n = ap (lookup k) (ok-injective (sym h))
  enforce_extensions-elsewhere k (e ∷ es) incoming h (n, ns) =
      let (held, q, p) =
        >>=-eq-ok (enforce_extension e current (lookup e.schema incoming) incoming) _ h in
      enforce_extensions-elsewhere k es held p ns
      ∙ enforce_extension-elsewhere k e (lookup e.schema incoming) incoming q n

  -- The extension's object was enforced against the current one, and stands in the result.
  abbrev Enforced : Extension → Object → Object → Type 0
  Enforced e sent r =
      (nested : Object) × (enforce_attribute_mutability e.attributes
          (object_of (lookup e.schema current)) sent
        ≡ ok nested)
      × (as_object (lookup e.schema r) ≡ some nested)

  enforce_extension-Enforced :
      (e : Extension) (o : Option Value) (incoming sent : Object) {r : Object}
      → as_object o ≡ some sent
      → enforce_extension e current o incoming ≡ ok r
      → Enforced e sent r
  unfolding enforce_extension
  enforce_extension-Enforced e none incoming sent s h = cc
  enforce_extension-Enforced e (some (obj fs)) incoming sent s h =
      let (nested, q, p) =
        >>=-eq-ok
          (enforce_attribute_mutability e.attributes (object_of (lookup e.schema current))
            (entries fs))
          _ h in
      (nested, cc, rw (← ok-injective p) (simp (lookup-insert_self, entries-fields)))
  enforce_extension-Enforced e (some v) incoming sent s h = cc

  enforce_extensions-Enforced :
      (e : Extension) (es : List Extension) (incoming sent : Object) {r : Object}
      → IsOnly e es
      → as_object (lookup e.schema incoming) ≡ some sent
      → enforce_extensions es current incoming ≡ ok r
      → Enforced e sent r
  unfolding enforce_extensions
  enforce_extensions-Enforced e [] incoming sent only s h = elim only [ ]
  enforce_extensions-Enforced e (b ∷ bs) incoming sent {r} (inl (same, others)) s h =
      let (held, q, p) =
        >>=-eq-ok (enforce_extension b current (lookup b.schema incoming) incoming) _ h in
      let (nested, f, g) =
        enforce_extension-Enforced b (lookup b.schema incoming) incoming sent (rw (← same) s) q in
      let stays : lookup b.schema r ≡ lookup b.schema held =
        enforce_extensions-elsewhere b.schema bs held p (rw (← same) others) in
      subst (λ z. Enforced z sent r) (sym same) (nested, f, ap as_object stays ∙ g)
  enforce_extensions-Enforced e (b ∷ bs) incoming sent (inr (other, only)) s h =
      let (held, q, p) =
        >>=-eq-ok (enforce_extension b current (lookup b.schema incoming) incoming) _ h in
      let before : lookup e.schema held ≡ lookup e.schema incoming =
        enforce_extension-elsewhere e.schema b (lookup b.schema incoming) incoming q other in
      enforce_extensions-Enforced e bs held sent only (ap as_object before ∙ s) p

  -- What a replacement does at a place: the object there was enforced against the current one.
  pub enforce_replacement-at :
      (d : Definition) (place : Option Extension) (k : Str) (incoming sent : Object) {r : Object}
      → IsPlace d place k
      → object_at place incoming ≡ some sent
      → enforce_replacement_mutability d current incoming ≡ ok r
      → (held : Object) × (kept : Object) × (enforce_attribute_mutability
            (attributes_at d place)
            (or_empty (object_at place current))
            sent
          ≡ ok held)
        × (object_at place r ≡ some kept)
        × (lookup k kept ≡ lookup k held)
  unfolding enforce_replacement_mutability
  enforce_replacement-at d none k incoming sent {r} alone s h =
      let (held, q, p) =
        >>=-eq-ok (enforce_attribute_mutability d.attributes current incoming) _ h in
      (held, r, cc, refl, enforce_extensions-elsewhere k d.extensions held p alone)
  enforce_replacement-at d (some e) k incoming sent (only, unnamed) s h =
      let (held, q, p) =
        >>=-eq-ok (enforce_attribute_mutability d.attributes current incoming) _ h in
      let before : lookup e.schema held ≡ lookup e.schema incoming =
        enforce_attribute_mutability-elsewhere e.schema d.attributes current incoming q unnamed in
      let (nested, f, g) =
        enforce_extensions-Enforced e d.extensions held sent only (ap as_object before ∙ s) p in
      (nested, nested, rw (or_empty-object (lookup e.schema current)) f, g, refl)
