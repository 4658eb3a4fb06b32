-- ===== src/Mutability/Immutable.antt =====
-- What `enforceAttributeMutability` of pkg/scim/mutability.go keeps of the immutable attributes of a list.
use gotth_scim.Base.{
  ◌&&◌, Bool, true, false, not, if◌then◌else◌, bytes, str_eq, lookup, lookup-insert_self, Option,
  none, some, ◌≡◌, refl, arith, inl, inr, ◌⊎◌,
}
use gotth_scim.Failure.{ok-injective, then-ok, else-ok, Failure, ok, err, >>=-eq-ok}
use gotth_scim.Json.{Value, Object}
use gotth_scim.Json.Equal.{value_eq}
use gotth_scim.Schema.{Contract, SchemaAttribute, attribute, Attributes, none_left, more, contract}
use gotth_scim.Mutability.{
  hold_immutable, enforce_attribute, enforce_attribute_mutability, is_complex,
}
use gotth_scim.Mutability.Enforce.{IsLast, str_eq_of_eq, enforce_attribute_mutability-elsewhere}

guard-ok :
    (b : Bool) (f : Failure) (m : Object) {r : Object}
    → (if b then err f else ok m) ≡ ok r
    → (b ≡ false) × (m ≡ r)
guard-ok true f m h = cc
guard-ok false f m h = (refl, ok-injective h)

immutable-ne : str_eq (bytes "immutable") (bytes "readOnly") ≡ false
unfolding bytes str_eq
immutable-ne = refl

-- A value that is there, or one that reflect.DeepEqual does not tell from it.
abbrev pub Keeps : Value → Option Value → Type 0
Keeps v o = (o ≡ some v) ⊎ ((w : Value) × (o ≡ some w) × (value_eq v w ≡ true))

hold_immutable-Keeps :
    (c : Contract) (v : Value) (after : Option Value) (incoming : Object) {r : Object}
    → lookup c.name incoming ≡ after
    → c.mutability ≡ bytes "immutable"
    → hold_immutable c (some v) after incoming ≡ ok r
    → Keeps v (lookup c.name r)
unfolding hold_immutable
hold_immutable-Keeps c v none incoming l m h =
    let p = then-ok (str_eq c.mutability (bytes "immutable")) _ _ (str_eq_of_eq m) h in
    inl (rw (← ok-injective p) (lookup-insert_self c.name v incoming))
hold_immutable-Keeps c v (some w) incoming l m h =
    let (g, p) =
      guard-ok (str_eq c.mutability (bytes "immutable") && not (value_eq v w)) _ incoming h in
    inr (
      w,
      rw (← p) l,
      kept (str_eq c.mutability (bytes "immutable")) (value_eq v w) (str_eq_of_eq m) g,
    )
  where
    kept : (a b : Bool) → a ≡ true → (a && not b) ≡ false → b ≡ true
    kept a b x y = ground arith

enforce_attribute-immutable :
    (a : SchemaAttribute) (current incoming : Object) (v : Value) {r : Object}
    → (contract a).mutability ≡ bytes "immutable"
    → is_complex (contract a) ≡ false
    → lookup (contract a).name current ≡ some v
    → enforce_attribute a current incoming ≡ ok r
    → Keeps v (lookup (contract a).name r)
unfolding enforce_attribute
enforce_attribute-immutable (attribute c subs) current incoming v m k s h =
    let p = else-ok (str_eq c.mutability (bytes "readOnly")) _ _ (rw m immutable-ne) h in
    let (held, q, p') =
      >>=-eq-ok (hold_immutable c (lookup c.name current) (lookup c.name incoming) incoming) _ p in
    let p'' = else-ok (is_complex c) _ _ k p' in
    rw (← ok-injective p'')
      (hold_immutable-Keeps c v (lookup c.name incoming) incoming refl m (rw (← s) q))

-- When `enforceAttributeMutability` admits an object, an immutable attribute of its list that is not complex
-- and that the current object has keeps its value: the result has the current one, or one that
-- reflect.DeepEqual takes for the same. The names of the attributes in the list differ at least from that
-- attribute on.
pub enforce_attribute_mutability-immutable :
    (as_ : Attributes) (a : SchemaAttribute) (current incoming r : Object) (v : Value)
    → IsLast a as_
    → (contract a).mutability ≡ bytes "immutable"
    → is_complex (contract a) ≡ false
    → lookup (contract a).name current ≡ some v
    → enforce_attribute_mutability as_ current incoming ≡ ok r
    → Keeps v (lookup (contract a).name r)
unfolding enforce_attribute_mutability
enforce_attribute_mutability-immutable none_left a current incoming r v l m k s h = elim l [ ]
enforce_attribute_mutability-immutable (more b bs) a current incoming r v (inl (e, es)) m k s h =
    let (held, q, p) = >>=-eq-ok (enforce_attribute b current incoming) _ h in
    rw (enforce_attribute_mutability-elsewhere (contract a).name bs current held p es)
      (enforce_attribute-immutable a current incoming v m k s (rw e q))
enforce_attribute_mutability-immutable (more b bs) a current incoming r v (inr l) m k s h =
    let (held, q, p) = >>=-eq-ok (enforce_attribute b current incoming) _ h in
    enforce_attribute_mutability-immutable bs a current held r v l m k s p
