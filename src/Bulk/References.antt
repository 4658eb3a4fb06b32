-- ===== src/Bulk/References.antt =====
-- The references of a Bulk operation: `collectBulkDependencies` of pkg/scim/bulk.go and `resolveBulkValue` of
-- pkg/scim/bulk_execute.go agree.
use gotth_scim.Base.{
  Bool, true, false, ◌&&◌, Str, Map, lookup, Option, none, some, Option-cases, List, [], ◌∷◌, ◌++◌,
  all, ◌≡◌, refl, sym, ◌∙◌, arith, inl, inr,
}
use gotth_scim.Failure.{Result, ok, err, ◌>>=◌}
use gotth_scim.Json.{Value, null, bool, num, str, arr, obj, Items, nil, cons, Fields, end, field}
use gotth_scim.Bulk.{
  Reference, reference_of, option_list, collect_bulk_dependencies, collect_from_fields,
  collect_from_items, resolve_text, resolve_bulk_value, resolve_fields, resolve_items,
}

abbrev pub is_ok {ℓ} : {A : Type ℓ} → Result A → Bool
is_ok (ok a) = true
is_ok (err e) = false

abbrev pub is_some {ℓ} : {A : Type ℓ} → Option A → Bool
is_some (some a) = true
is_some none = false

abbrev pub is_resolved : Map Reference → Str → Bool
is_resolved references name = is_some (lookup name references)

all-append : (p : Str → Bool) (xs ys : List Str) → all p (xs ++ ys) ≡ (all p xs && all p ys)
all-append p [] ys = refl
all-append p (x ∷ xs) ys = ground (arith, all-append p xs ys)

is_ok-map {ℓ κ} :
    {A : Type ℓ} {B : Type κ} (m : Result A) (f : A → B) → is_ok (m >>= (λ a. ok (f a))) ≡ is_ok m
is_ok-map (ok a) f = refl
is_ok-map (err e) f = refl

is_ok-both {ℓ κ μ} :
    {A : Type ℓ} {B : Type κ} {C : Type μ} (m : Result A) (n : Result B) (f : A → B → C)
    → is_ok (m >>= (λ a. n >>= (λ b. ok (f a b)))) ≡ (is_ok m && is_ok n)
is_ok-both (ok a) (ok b) f = refl
is_ok-both (ok a) (err e) f = refl
is_ok-both (err e) n f = refl

text-resolved :
    (references : Map Reference) (key s : Str)
    → is_ok (resolve_text references key s)
      ≡ all (is_resolved references) (option_list (reference_of s))
unfolding resolve_text
text-resolved references key s = elim (Option-cases (reference_of s)) [
  | inl e ↦ rw e refl
  | inr (name, e) ↦ elim (Option-cases (lookup name references)) [
    | inl f ↦ rw (e, f) refl
    | inr (r, f) ↦ rw (e, f) refl
  ]
]

mutual
  unfolding resolve_bulk_value collect_bulk_dependencies

  value-is_resolved :
      (references : Map Reference) (key : Str) (v : Value)
      → is_ok (resolve_bulk_value references key v)
        ≡ all (is_resolved references) (collect_bulk_dependencies v)
  value-is_resolved references key (str s) = text-resolved references key s
  value-is_resolved references key (obj fs) =
      is_ok-map (resolve_fields references fs) obj ∙ fields-is_resolved references fs
  value-is_resolved references key (arr vs) =
      is_ok-map (resolve_items references key vs) arr ∙ items-is_resolved references key vs
  value-is_resolved references key null = refl
  value-is_resolved references key (bool b) = refl
  value-is_resolved references key (num n) = refl

  fields-is_resolved :
      (references : Map Reference) (fs : Fields)
      → is_ok (resolve_fields references fs) ≡ all (is_resolved references) (collect_from_fields fs)
  fields-is_resolved references end = refl
  fields-is_resolved references (field k v fs) =
      is_ok-both (resolve_bulk_value references k v) (resolve_fields references fs)
        (λ a b. field k a b)
      ∙ rw (value-is_resolved references k v, fields-is_resolved references fs)
          (sym (
            all-append (is_resolved references) (collect_bulk_dependencies v)
              (collect_from_fields fs)))

  items-is_resolved :
      (references : Map Reference) (key : Str) (vs : Items)
      → is_ok (resolve_items references key vs)
        ≡ all (is_resolved references) (collect_from_items vs)
  items-is_resolved references key nil = refl
  items-is_resolved references key (cons v vs) =
      is_ok-both (resolve_bulk_value references key v) (resolve_items references key vs)
        (λ a b. cons a b)
      ∙ rw (value-is_resolved references key v, items-is_resolved references key vs)
          (sym (
            all-append (is_resolved references) (collect_bulk_dependencies v)
              (collect_from_items vs)))

-- The references of a value can be put in exactly when each of its dependencies has been resolved: whatever
-- the value nests, the code that collects dependencies and the code that replaces them see the same ones.
pub resolve_bulk_value-is_resolved :
    (references : Map Reference) (key : Str) (v : Value)
    → is_ok (resolve_bulk_value references key v)
      ≡ all (is_resolved references) (collect_bulk_dependencies v)
resolve_bulk_value-is_resolved references key v = value-is_resolved references key v
