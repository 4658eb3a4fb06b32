-- ===== src/Mutability/Enforce.antt =====
-- What `enforceAttributeMutability` of pkg/scim/mutability.go keeps of the read-only attributes of a list.
use gotth_scim.Base.{
  ◌&&◌, true, false, not, Str, bytes, str_eq, str_eq_refl, lookup, insert, lookup-insert,
  lookup-erase, lookup-insert_self, Option, none, some, ◌≡◌, sym, ap, inl, inr, ◌⊎◌, ◌∙◌, All,
}
use gotth_scim.Failure.{ok-injective, if-ok, then-ok, Result, ok, ◌>>=◌, >>=-eq-ok}
use gotth_scim.Json.{Value, arr, obj, Object, mk_obj, mk_arr}
use gotth_scim.Json.Equal.{value_eq}
use gotth_scim.Schema.{
  Contract, SchemaAttribute, attribute, Attributes, none_left, more, contract, attribute_list,
}
use gotth_scim.Mutability.{
  keep_current, hold_immutable, enforce_nested, enforce_attribute, enforce_attribute_mutability,
  is_complex,
}

-- No attribute of the list has the name.
abbrev pub Unnamed : Str → Attributes → Type 0
Unnamed k as_ = All (λ b. str_eq (contract b).name k ≡ false) (attribute_list as_)

-- The attribute is in the list, and no later one has its name.
abbrev pub IsLast : SchemaAttribute → Attributes → Type 0
IsLast a none_left = ⊥
IsLast a (more b bs) = ((a ≡ b) × Unnamed (contract a).name bs) ⊎ IsLast a bs

pub str_eq_of_eq : {s t : Str} → s ≡ t → str_eq s t ≡ true
str_eq_of_eq {s} {t} e = rw e (str_eq_refl t)

pub changed-elsewhere :
    {A : Type 0} (k name : Str) (m : Result A) (f : A → Value) (incoming : Object) {r : Object}
    → (m >>= λ a. ok (insert name (f a) incoming)) ≡ ok r
    → str_eq name k ≡ false
    → lookup k r ≡ lookup k incoming
changed-elsewhere k name m f incoming h e =
    let (a, q, p) = >>=-eq-ok m (λ a. ok (insert name (f a) incoming)) h in
    rw (← ok-injective p) (simp (lookup-insert, e))

hold_immutable-elsewhere :
    (k : Str) (c : Contract) (before after : Option Value) (incoming : Object) {r : Object}
    → hold_immutable c before after incoming ≡ ok r
    → str_eq c.name k ≡ false
    → lookup k r ≡ lookup k incoming
unfolding hold_immutable
hold_immutable-elsewhere k c none after incoming h e = ap (lookup k) (ok-injective (sym h))
hold_immutable-elsewhere k c (some v) none incoming {r} h e =
    elim (if-ok (str_eq c.mutability (bytes "immutable")) h) [
      | inl p ↦ rw (← ok-injective p) (simp (lookup-insert, e))
      | inr p ↦ ap (lookup k) (ok-injective (sym p))
    ]
hold_immutable-elsewhere k c (some v) (some w) incoming {r} h e =
    elim (if-ok (str_eq c.mutability (bytes "immutable") && not (value_eq v w)) h) [
      | inl p ↦ cc
      | inr p ↦ ap (lookup k) (ok-injective (sym p))
    ]

enforce_nested-elsewhere :
    (k : Str) (f : Object → Object → Result Object) (c : Contract) (before after : Option Value)
    (incoming : Object) {r : Object}
    → enforce_nested f c before after incoming ≡ ok r
    → str_eq c.name k ≡ false
    → lookup k r ≡ lookup k incoming
unfolding enforce_nested
enforce_nested-elsewhere k f c before (some (obj fs)) incoming h e = elim (if-ok c.multi_valued h) [
  | inl p ↦ ap (lookup k) (ok-injective (sym p))
  | inr p ↦ changed-elsewhere k c.name _ mk_obj incoming p e
]
enforce_nested-elsewhere k f c before (some (arr vs)) incoming h e = elim (if-ok c.multi_valued h) [
  | inl p ↦ changed-elsewhere k c.name _ mk_arr incoming p e
  | inr p ↦ ap (lookup k) (ok-injective (sym p))
]
enforce_nested-elsewhere k f c before none incoming h e = ap (lookup k) (ok-injective (sym h))
enforce_nested-elsewhere k f c before (some v) incoming h e = ap (lookup k) (ok-injective (sym h))

keep_current-elsewhere :
    (k name : Str) (o : Option Value) (m : Object)
    → str_eq name k ≡ false
    → lookup k (keep_current name o m) ≡ lookup k m
unfolding keep_current
keep_current-elsewhere k name none m e = simp (lookup-erase, e)
keep_current-elsewhere k name (some v) m e = simp (lookup-insert, e)

keep_current-lookup :
    (name : Str) (o : Option Value) (m : Object) → lookup name (keep_current name o m) ≡ o
unfolding keep_current
keep_current-lookup name none m = simp (lookup-erase, str_eq_refl)
keep_current-lookup name (some v) m = lookup-insert_self name v m

enforce_attribute-elsewhere :
    (k : Str) (a : SchemaAttribute) (current incoming : Object) {r : Object}
    → enforce_attribute a current incoming ≡ ok r
    → str_eq (contract a).name k ≡ false
    → lookup k r ≡ lookup k incoming
unfolding enforce_attribute
enforce_attribute-elsewhere k (attribute c subs) current incoming h e =
    elim (if-ok (str_eq c.mutability (bytes "readOnly")) h) [
      | inl p ↦
          rw (← ok-injective p) (keep_current-elsewhere k c.name (lookup c.name current) incoming e)
      | inr p ↦
          let (held, q, p') =
            >>=-eq-ok (hold_immutable c (lookup c.name current) (lookup c.name incoming) incoming) _
              p in
          let first : lookup k held ≡ lookup k incoming =
            hold_immutable-elsewhere k c (lookup c.name current) (lookup c.name incoming) incoming q
              e in
          elim (if-ok (is_complex c) p') [
            | inl s ↦
                enforce_nested-elsewhere k (enforce_attribute_mutability subs) c
                  (lookup c.name current) (lookup c.name incoming) held s e
                ∙ first
            | inr s ↦ ap (lookup k) (ok-injective (sym s)) ∙ first
          ]
    ]

pub enforce_attribute_mutability-elsewhere :
    (k : Str) (as_ : Attributes) (current incoming : Object) {r : Object}
    → enforce_attribute_mutability as_ current incoming ≡ ok r
    → Unnamed k as_
    → lookup k r ≡ lookup k incoming
unfolding enforce_attribute_mutability
enforce_attribute_mutability-elsewhere k none_left current incoming h e =
    ap (lookup k) (ok-injective (sym h))
enforce_attribute_mutability-elsewhere k (more a as_) current incoming h (e, es) =
    let (held, q, p) = >>=-eq-ok (enforce_attribute a current incoming) _ h in
    enforce_attribute_mutability-elsewhere k as_ current held p es
    ∙ enforce_attribute-elsewhere k a current incoming q e

enforce_attribute-read_only :
    (a : SchemaAttribute) (current incoming : Object) {r : Object}
    → (contract a).mutability ≡ bytes "readOnly"
    → enforce_attribute a current incoming ≡ ok r
    → lookup (contract a).name r ≡ lookup (contract a).name current
unfolding enforce_attribute
enforce_attribute-read_only (attribute c subs) current incoming m h =
    let p = then-ok (str_eq c.mutability (bytes "readOnly")) _ _ (str_eq_of_eq m) h in
    rw (← ok-injective p) (keep_current-lookup c.name (lookup c.name current) incoming)

-- When `enforceAttributeMutability` admits an object, every attribute that its list calls read-only has in
-- the result what it has in the current object, and is missing where it is missing there. The names of the
-- attributes in the list differ at least from that attribute on.
pub enforce_attribute_mutability-read_only :
    (as_ : Attributes) (a : SchemaAttribute) (current incoming r : Object)
    → IsLast a as_
    → (contract a).mutability ≡ bytes "readOnly"
    → enforce_attribute_mutability as_ current incoming ≡ ok r
    → lookup (contract a).name r ≡ lookup (contract a).name current
unfolding enforce_attribute_mutability
enforce_attribute_mutability-read_only none_left a current incoming r l m h = elim l [ ]
enforce_attribute_mutability-read_only (more b bs) a current incoming r (inl (e, es)) m h =
    let (held, q, p) = >>=-eq-ok (enforce_attribute b current incoming) _ h in
    enforce_attribute_mutability-elsewhere (contract a).name bs current held p es
    ∙ enforce_attribute-read_only a current incoming m (rw e q)
enforce_attribute_mutability-read_only (more b bs) a current incoming r (inr l) m h =
    let (held, q, p) = >>=-eq-ok (enforce_attribute b current incoming) _ h in
    enforce_attribute_mutability-read_only bs a current held r l m p
