-- ===== src/Mutability/Strip.antt =====
-- What stripping leaves of the attributes that a client may not write.
use gotth_scim.Base.{
  false, Str, bytes, str_eq, str_eq_refl, lookup, lookup-insert, lookup-erase, eq_of_str_eq, ◌∙◌,
  Option, none, some, ◌≡◌, refl, arith, Bool-cases, inl, inr, ◌⊎◌, All,
}
use gotth_scim.Json.{Value, Object}
use gotth_scim.Schema.{
  SchemaAttribute, attribute, Attributes, none_left, more, contract, attribute_list,
}
use gotth_scim.Mutability.{
  put, strip_nested, strip_attribute, strip_read_only_attributes, is_complex,
}

-- The attribute is one of the list.
abbrev pub Lists : SchemaAttribute → Attributes → Type 0
Lists a none_left = ⊥
Lists a (more b bs) = (a ≡ b) ⊎ Lists a bs

put-elsewhere :
    (k name : Str) (o : Option Value) (m : Object)
    → str_eq name k ≡ false
    → lookup k (put name o m) ≡ lookup k m
unfolding put
put-elsewhere k name none m h = refl
put-elsewhere k name (some v) m h = simp (lookup-insert, h)

put-absent :
    (f : Object → Object) (name : Str) (m : Object)
    → lookup name m ≡ none
    → lookup name (put name (strip_nested f (lookup name m)) m) ≡ none
unfolding put strip_nested
put-absent f name m h = rw (h, put, strip_nested) h

strip_attribute-absent :
    (k : Str) (a : SchemaAttribute) (m : Object)
    → lookup k m ≡ none
    → lookup k (strip_attribute a m) ≡ none
unfolding strip_attribute
strip_attribute-absent k (attribute c subs) m h =
    elim (Bool-cases (str_eq c.mutability (bytes "readOnly"))) [
      | inl y ↦ rw y (ground (arith, lookup-erase c.name k m))
      | inr n ↦ rw n (elim (Bool-cases (is_complex c)) [
        | inr n' ↦ rw n' h
        | inl y' ↦ rw y' (elim (Bool-cases (str_eq c.name k)) [
          | inl e ↦
              let same : c.name ≡ k = eq_of_str_eq c.name k e in
              rw same (put-absent (strip_read_only_attributes subs) k m h)
          | inr e ↦ put-elsewhere k c.name _ m e ∙ h
        ])
      ])
    ]

strip_attribute-elsewhere :
    (k : Str) (a : SchemaAttribute) (m : Object)
    → str_eq (contract a).name k ≡ false
    → lookup k (strip_attribute a m) ≡ lookup k m
unfolding strip_attribute
strip_attribute-elsewhere k (attribute c subs) m e =
    elim (Bool-cases (str_eq c.mutability (bytes "readOnly"))) [
      | inl y ↦ rw y (simp (lookup-erase, e))
      | inr n ↦ rw n (elim (Bool-cases (is_complex c)) [
        | inl y' ↦ rw y' (put-elsewhere k c.name _ m e)
        | inr n' ↦ rw n' refl
      ])
    ]

pub strip_read_only_attributes-elsewhere :
    (k : Str) (as_ : Attributes) (m : Object)
    → All (λ b. str_eq (contract b).name k ≡ false) (attribute_list as_)
    → lookup k (strip_read_only_attributes as_ m) ≡ lookup k m
unfolding strip_read_only_attributes
strip_read_only_attributes-elsewhere k none_left m h = refl
strip_read_only_attributes-elsewhere k (more a as_) m (e, es) =
    strip_read_only_attributes-elsewhere k as_ (strip_attribute a m) es
    ∙ strip_attribute-elsewhere k a m e

strip_read_only_attributes-absent :
    (k : Str) (as_ : Attributes) (m : Object)
    → lookup k m ≡ none
    → lookup k (strip_read_only_attributes as_ m) ≡ none
unfolding strip_read_only_attributes
strip_read_only_attributes-absent k none_left m h = h
strip_read_only_attributes-absent k (more a as_) m h =
    strip_read_only_attributes-absent k as_ (strip_attribute a m) (strip_attribute-absent k a m h)

strip_attribute-read_only :
    (a : SchemaAttribute) (m : Object)
    → (contract a).mutability ≡ bytes "readOnly"
    → lookup (contract a).name (strip_attribute a m) ≡ none
unfolding strip_attribute
strip_attribute-read_only (attribute c subs) m h =
    rw (h, str_eq_refl (bytes "readOnly")) (simp (lookup-erase, str_eq_refl))

-- Stripping an object removes every attribute that the list calls read-only.
pub strip_read_only_attributes-lookup :
    (as_ : Attributes) (a : SchemaAttribute) (m : Object)
    → Lists a as_
    → (contract a).mutability ≡ bytes "readOnly"
    → lookup (contract a).name (strip_read_only_attributes as_ m) ≡ none
unfolding strip_read_only_attributes
strip_read_only_attributes-lookup (more b bs) a m (inl e) h =
    strip_read_only_attributes-absent (contract a).name bs (strip_attribute b m)
      (rw (← e) (strip_attribute-read_only a m h))
strip_read_only_attributes-lookup (more b bs) a m (inr l) h =
    strip_read_only_attributes-lookup bs a (strip_attribute b m) l h
strip_read_only_attributes-lookup none_left a m l h = elim l [ ]
