-- ===== src/Resource/Primary.antt =====
-- At most one value of an attribute is primary: `normalizePrimaryValues` of pkg/scim/resource.go.
use gotth_scim.Base.{
  ℕ, ◌+◌, Bool, true, false, ◌&&◌, not, leb, if◌then◌else◌, if_cases, and-parts, Bool-cases, Str,
  bytes, str_eq, lookup, insert, lookup-insert_self, erase, Option, none, some, [], ◌∷◌, ◌≡◌, refl,
  arith, inl, inr,
}
use gotth_scim.Json.{
  Value, null, bool, num, str, arr, obj, Items, nil, cons, Fields, end, field, Object, entries,
  fields, entries-fields, fields-entries, mk_obj,
}
use gotth_scim.Schema.{Definition}
use gotth_scim.Mutability.{strip_read_only}
use gotth_scim.Resource.Clean.{
  is_primary, any_primary, demoted, demote, demote_others, remove_unassigned,
  normalize_primary_values, normalize_value, normalize_items,
}
use gotth_scim.Resource.Prepare.{normalized}

unfoldable pub count_primary : Items → ℕ
count_primary nil = 0
count_primary (cons v vs) = (if is_primary v then 1 else 0) + count_primary vs

-- No array that the code visits holds two primary objects. It visits those that are the values of attributes, and
-- the objects among their elements, but no array that is an element of an array.
unfoldable mutual
  unfolding count_primary

  pub is_single_fields : Fields → Bool
  is_single_fields end = true
  is_single_fields (field k v fs) = is_single v && is_single_fields fs

  pub is_single : Value → Bool
  is_single (arr vs) = leb (count_primary vs) 1 && is_single_items vs
  is_single (obj fs) = is_single_fields fs
  is_single _ = true

  pub is_single_items : Items → Bool
  is_single_items nil = true
  is_single_items (cons (obj fs) vs) = is_single_fields fs && is_single_items vs
  is_single_items (cons _ vs) = is_single_items vs

demoted-not_primary :
    (m : Object) (o : Option Value)
    → lookup (bytes "primary") m ≡ o
    → is_primary (demoted m o) ≡ false
unfolding is_primary
demoted-not_primary m none h = rw (entries-fields m, h) refl
demoted-not_primary m (some v) h =
    rw
      (
        entries-fields (insert (bytes "primary") (bool false) m),
        lookup-insert_self (bytes "primary") (bool false) m,
      )
      refl

demote-not_primary : (v : Value) → is_primary (demote v) ≡ false
unfolding demote
demote-not_primary (obj fs) =
    demoted-not_primary (entries fs) (lookup (bytes "primary") (entries fs)) refl
demote-not_primary null = unfold is_primary in refl
demote-not_primary (bool _) = unfold is_primary in refl
demote-not_primary (num _) = unfold is_primary in refl
demote-not_primary (str _) = unfold is_primary in refl
demote-not_primary (arr _) = unfold is_primary in refl

count_primary-none : (vs : Items) → any_primary vs ≡ false → count_primary vs ≡ 0
unfolding count_primary any_primary
count_primary-none nil h = refl
count_primary-none (cons v vs) h = ground (arith, count_primary-none vs)

-- One value stays primary, if any was.
count_primary-demote_others :
    (vs : Items) → count_primary (demote_others vs) ≡ (if any_primary vs then 1 else 0)
unfolding count_primary demote_others any_primary
count_primary-demote_others nil = refl
count_primary-demote_others (cons v vs) =
    ground (arith, count_primary-demote_others vs, demote-not_primary v)

is_single-insert :
    (k : Str) (b : Bool) (m : Object)
    → is_single_fields (fields m) ≡ true
    → is_single_fields (fields (insert k (bool b) m)) ≡ true
unfolding is_single_fields insert
is_single-insert k b [] h = refl
is_single-insert k b ((j, v) ∷ m) h =
    let (first, rest) = and-parts (is_single v) (is_single_fields (fields m)) h in
    elim (Bool-cases (str_eq j k)) [
      | inl e ↦ rw e rest
      | inr e ↦ rw (e, first) (is_single-insert k b m rest)
    ]

demoted-is_single :
    (m : Object) (o : Option Value)
    → is_single_fields (fields m) ≡ true
    → is_single (demoted m o) ≡ true
unfolding is_single_fields
demoted-is_single m none h = h
demoted-is_single m (some v) h = is_single-insert (bytes "primary") false m h

-- An element of an array, which counts if it is an object.
is_single-cons :
    (v : Value) (vs : Items)
    → is_single v ≡ true
    → is_single_items vs ≡ true
    → is_single_items (cons v vs) ≡ true
unfolding is_single_fields
is_single-cons (obj fs) vs h k = rw (h, k) refl
is_single-cons null vs h k = k
is_single-cons (bool _) vs h k = k
is_single-cons (num _) vs h k = k
is_single-cons (str _) vs h k = k
is_single-cons (arr _) vs h k = k

is_single-demote_cons :
    (v : Value) (vs rest : Items)
    → is_single_items (cons v vs) ≡ true
    → (is_single_items vs ≡ true → is_single_items rest ≡ true)
    → (is_single_items (cons (demote v) rest) ≡ true) × (is_single_items (cons v rest) ≡ true)
unfolding is_single_fields demote
is_single-demote_cons (obj fs) vs rest h k =
    let (first, others) = and-parts (is_single_fields fs) (is_single_items vs) h in
    (
      is_single-cons (demote (obj fs)) rest
          (demoted-is_single (entries fs) (lookup (bytes "primary") (entries fs))
            (rw (fields-entries fs) first))
          (k others),
      rw (first, k others) refl,
    )
is_single-demote_cons null vs rest h k = (k h, k h)
is_single-demote_cons (bool _) vs rest h k = (k h, k h)
is_single-demote_cons (num _) vs rest h k = (k h, k h)
is_single-demote_cons (str _) vs rest h k = (k h, k h)
is_single-demote_cons (arr _) vs rest h k = (k h, k h)

is_single-demote_others :
    (vs : Items) → is_single_items vs ≡ true → is_single_items (demote_others vs) ≡ true
unfolding demote_others
is_single-demote_others nil h = h
is_single-demote_others (cons v vs) h =
    let (demoted_, kept) =
      is_single-demote_cons v vs (demote_others vs) h (is_single-demote_others vs) in
    if_cases (λ z. is_single_items z ≡ true) (is_primary v && not (any_primary vs)) _ _ (λ e. kept)
      (λ e. demoted_)

-- The array, when its objects have been normalised.
chosen-is_single :
    (vs : Items)
    → is_single_items vs ≡ true
    → is_single (if any_primary vs then arr (demote_others vs) else arr vs) ≡ true
unfolding is_single_fields
chosen-is_single vs h =
    if_cases (λ z. is_single z ≡ true) (any_primary vs) _ _
      (λ e. rw (count_primary-demote_others vs, e, is_single-demote_others vs h) refl)
      (λ e. rw (count_primary-none vs e, h) refl)

mutual
  unfolding normalize_primary_values is_single_fields

  fields-is_single : (fs : Fields) → is_single_fields (normalize_primary_values fs) ≡ true
  fields-is_single end = refl
  fields-is_single (field k v fs) = rw (value-is_single v, fields-is_single fs) refl

  value-is_single : (v : Value) → is_single (normalize_value v) ≡ true
  value-is_single (arr vs) = chosen-is_single (normalize_items vs) (items-is_single vs)
  value-is_single (obj fs) = fields-is_single fs
  value-is_single null = refl
  value-is_single (bool _) = refl
  value-is_single (num _) = refl
  value-is_single (str _) = refl

  items-is_single : (vs : Items) → is_single_items (normalize_items vs) ≡ true
  items-is_single nil = refl
  items-is_single (cons (obj fs) vs) = rw (fields-is_single fs, items-is_single vs) refl
  items-is_single (cons null vs) = items-is_single vs
  items-is_single (cons (bool _) vs) = items-is_single vs
  items-is_single (cons (num _) vs) = items-is_single vs
  items-is_single (cons (str _) vs) = items-is_single vs
  items-is_single (cons (arr _) vs) = items-is_single vs

-- In a document that is normalised for the store, an array that is the value of an attribute, of the document
-- or of an object at any depth, has at most one primary object. An array that is itself an element of an
-- array is not looked into, and neither are the objects in it. Where an array had a primary object before its
-- others were demoted, it keeps exactly one.
pub normalized-is_single :
    (d : Definition) (document : Object) (vs : Items)
    → (is_single (mk_obj (normalized d document)) ≡ true)
      × (count_primary (demote_others vs) ≡ (if any_primary vs then 1 else 0))
unfolding normalized is_single_fields
normalized-is_single d document vs =
    let cleaned : Fields = remove_unassigned true (
      fields (
        strip_read_only d
          (erase (bytes "groups") (erase (bytes "meta") (erase (bytes "id") document))))) in
    (
      rw (fields-entries (normalize_primary_values cleaned)) (fields-is_single cleaned),
      count_primary-demote_others vs,
    )
