-- ===== src/Patch/Frame.antt =====
-- What an operation leaves alone: every attribute but the one that its path names.
use gotth_scim.Base.{
  ℕ, Bool-cases, arith, true, not, ◌++◌, ◌||◌, any, if◌then◌else◌, if_cases, bytes, refl, ap, ◌∙◌,
  ◌⊎◌, lookup-insert_self, false, Str, str_eq, lookup, insert, erase, lookup-insert, lookup-erase,
  Option, none, some, [], ◌∷◌, ◌≡◌, inl, inr, Unicode,
}
use gotth_scim.Failure.{
  refuse-ok, then-ok, else-ok, ok-injective, if-ok, Result, ok, err, ◌>>=◌, >>=-eq-ok,
}
use gotth_scim.Json.{
  Value, null, bool, num, str, arr, obj, Object, entries, entries-fields, mk_obj, mk_arr,
}
use gotth_scim.Schema.{Definition}
use gotth_scim.Filter.{Literals}
use gotth_scim.Patch.{
  Operation, refusal, add_value, apply_to_attribute, nested_in, apply_direct_patch, ensure_schema,
  lists_schema, values_of,
}
use gotth_scim.Patch.Path.{PatchPath, parse_patch_path}
use gotth_scim.Patch.Apply.{
  apply_filtered_patch, apply_at, is_password, is_add, apply_in_extension, apply_with_path,
  apply_patch_operation, replace_error,
}

inserted-elsewhere :
    {A : Type 0} (k name : Str) (m : Result A) (f : A → Value) (target : Object) {r : Object}
    → (m >>= λ a. ok (insert name (f a) target)) ≡ ok r
    → str_eq name k ≡ false
    → lookup k r ≡ lookup k target
inserted-elsewhere k name m f target h e =
    let (a, q, p) = >>=-eq-ok m (λ a. ok (insert name (f a) target)) h in
    rw (← ok-injective p) (simp (lookup-insert, e))

set-elsewhere :
    (k name : Str) (v : Value) (target : Object) {r : Object}
    → ok (insert name v target) ≡ ok r
    → str_eq name k ≡ false
    → lookup k r ≡ lookup k target
set-elsewhere k name v target h e = rw (← ok-injective h) (simp (lookup-insert, e))

module _ (k attribute : Str) (v : Value) (target : Object) where
  apply_to_attribute-elsewhere :
      (op : Operation) {r : Object}
      → apply_to_attribute target attribute op v ≡ ok r
      → str_eq attribute k ≡ false
      → lookup k r ≡ lookup k target
  unfolding apply_to_attribute add_value
  apply_to_attribute-elsewhere Operation.add h e = set-elsewhere k attribute _ target h e
  apply_to_attribute-elsewhere Operation.remove {r} h e = removed (lookup attribute target) h
    where
      removed :
          (o : Option Value)
          → elim o as (λ _. Result Object) [
            | none ↦ err (refusal "noTarget" "PATCH target does not exist")
            | some _ ↦ ok (erase attribute target)
          ]
            ≡ ok r
          → lookup k r ≡ lookup k target
      removed none p = cc
      removed (some w) p = rw (← ok-injective p) (simp (lookup-erase, e))
  apply_to_attribute-elsewhere Operation.replace {r} h e = replaced (lookup attribute target) h
    where
      replaced :
          (o : Option Value)
          → elim o as (λ _. Result Object) [
            | none ↦ err (refusal "noTarget" "PATCH target does not exist")
            | some _ ↦ ok (insert attribute v target)
          ]
            ≡ ok r
          → lookup k r ≡ lookup k target
      replaced none p = cc
      replaced (some w) p = set-elsewhere k attribute v target p e

  nested_in-elsewhere :
      (sub : Str) (op : Operation) (o : Option Value) {r : Object}
      → nested_in target attribute sub op v o ≡ ok r
      → str_eq attribute k ≡ false
      → lookup k r ≡ lookup k target
  unfolding nested_in
  nested_in-elsewhere sub Operation.add none h e = set-elsewhere k attribute _ target h e
  nested_in-elsewhere sub Operation.remove none h e = cc
  nested_in-elsewhere sub Operation.replace none h e = cc
  nested_in-elsewhere sub op (some (obj fs)) h e =
      inserted-elsewhere k attribute _ mk_obj target h e
  nested_in-elsewhere sub op (some null) h e = cc
  nested_in-elsewhere sub op (some (bool b)) h e = cc
  nested_in-elsewhere sub op (some (num s)) h e = cc
  nested_in-elsewhere sub op (some (str s)) h e = cc
  nested_in-elsewhere sub op (some (arr vs)) h e = cc

  pub apply_direct_patch-elsewhere :
      (sub : Str) (op : Operation) {r : Object}
      → apply_direct_patch target attribute sub op v ≡ ok r
      → str_eq attribute k ≡ false
      → lookup k r ≡ lookup k target
  unfolding apply_direct_patch
  apply_direct_patch-elsewhere [] op h e = apply_to_attribute-elsewhere op h e
  apply_direct_patch-elsewhere (c ∷ sub) op h e =
      nested_in-elsewhere (c ∷ sub) op (lookup attribute target) h e

module _ (u : Unicode) (l : Literals) (d : Definition) (k : Str) where
  apply_filtered_patch-elsewhere :
      (p : PatchPath) (op : Operation) (v : Value) (target : Object) {r : Object}
      → apply_filtered_patch u l d target p op v ≡ ok r
      → str_eq p.attribute k ≡ false
      → lookup k r ≡ lookup k target
  unfolding apply_filtered_patch
  apply_filtered_patch-elsewhere p op v target h e =
      inserted-elsewhere k p.attribute _ mk_arr target h e

  -- On the object that its path leads to.
  pub apply_at-elsewhere :
      (p : PatchPath) (op : Operation) (v : Value) (target r : Object)
      → apply_at u l d p op v target ≡ ok r
      → str_eq p.attribute k ≡ false
      → lookup k r ≡ lookup k target
  unfolding apply_at
  apply_at-elsewhere p op v target r h e = elim (if-ok (str_eq p.filter []) h) [
    | inr q ↦ apply_filtered_patch-elsewhere p op v target q e
    | inl q ↦ elim (if-ok (is_password u l d p op) q) [
      | inl s ↦ set-elsewhere k p.attribute v target s e
      | inr s ↦ apply_direct_patch-elsewhere k p.attribute v target p.sub op s e
    ]
  ]

  ensure_schema-elsewhere :
      (document : Object) (schema : Str)
      → str_eq (bytes "schemas") k ≡ false
      → lookup k (ensure_schema u document schema) ≡ lookup k document
  unfolding ensure_schema
  ensure_schema-elsewhere document schema e =
      if_cases (λ z. lookup k z ≡ lookup k document)
        (any (lists_schema u schema) (values_of u (lookup (bytes "schemas") document))) _
        (insert (bytes "schemas")
          (mk_arr (values_of u (lookup (bytes "schemas") document) ++ (str schema ∷ []))) document)
        (λ h. refl) (λ h. simp (lookup-insert, e))

-- The object that the document has under the key, or an empty one.
abbrev as_entries : Option Value → Object
as_entries (some (obj fs)) = entries fs
as_entries _ = []

abbrev pub object_under : Str → Object → Object
object_under key document = as_entries (lookup key document)

-- The key of the document that a path leads through.
abbrev pub root : PatchPath → Str
root p = if str_eq p.extension [] then p.attribute else p.extension

-- What stays: `k` in the document, and `j` in the extension's object if the path leads there.
abbrev pub Stays : PatchPath → Str → Str → Object → Object → Type 0
Stays p k j document r =
    (lookup k r ≡ lookup k document)
    × ((str_eq p.extension [] ≡ true)
        ⊎ (lookup j (object_under p.extension r) ≡ lookup j (object_under p.extension document)))

object_under-insert :
    (key : Str) (m document : Object) → object_under key (insert key (mk_obj m) document) ≡ m
object_under-insert key m document =
    ap as_entries (lookup-insert_self key (mk_obj m) document) ∙ entries-fields m

module _ (u : Unicode) (l : Literals) (d : Definition) (p : PatchPath) (k j : Str) (op : Operation)
    (v : Value) (inner : str_eq p.attribute j ≡ false) where
  outer :
      (document nested : Object)
      → str_eq p.extension k ≡ false
      → str_eq (bytes "schemas") k ≡ false
      → lookup k (
          insert p.extension
            (mk_obj nested)
            (ensure_schema u (insert p.extension (mk_obj []) document) p.extension))
        ≡ lookup k document
  outer document nested e s =
      let made : Object = insert p.extension (mk_obj []) document in
      set-elsewhere k p.extension (mk_obj nested) (ensure_schema u made p.extension) refl e
      ∙ ensure_schema-elsewhere u l d k made p.extension s
      ∙ set-elsewhere k p.extension (mk_obj []) document refl e

  apply_in_extension-Stays :
      (document : Object) (o : Option Value) {r : Object}
      → lookup p.extension document ≡ o
      → str_eq p.extension k ≡ false
      → str_eq (bytes "schemas") k ≡ false
      → apply_in_extension u l d document p op v o ≡ ok r
      → Stays p k j document r
  unfolding apply_in_extension
  apply_in_extension-Stays document none found e s h =
      let (open_, h1) = refuse-ok (not (is_add op) || not (str_eq p.filter [])) _ _ h in
      let (nested, q, h2) = >>=-eq-ok (apply_at u l d p op v []) _ h1 in
      rw (← ok-injective h2) (
        outer document nested e s,
        inr (
            rw (object_under-insert p.extension nested _, found)
              (apply_at-elsewhere u l d j p op v [] nested q inner)),
      )
  apply_in_extension-Stays document (some (obj fs)) found e s h =
      let (nested, q, h2) = >>=-eq-ok (apply_at u l d p op v (entries fs)) _ h in
      rw (← ok-injective h2) (
        simp (lookup-insert, e),
        inr (
            rw (object_under-insert p.extension nested document, found)
              (apply_at-elsewhere u l d j p op v (entries fs) nested q inner)),
      )
  apply_in_extension-Stays document (some w) found e s h = cc

  apply_with_path-Stays :
      (document r : Object)
      → str_eq (root p) k ≡ false
      → (str_eq p.extension [] || not (str_eq (bytes "schemas") k)) ≡ true
      → apply_with_path u l d document op v p ≡ ok r
      → Stays p k j document r
  unfolding apply_with_path
  apply_with_path-Stays document r e s h = elim (Bool-cases (str_eq p.extension [])) [
    | inl own ↦
        let other : str_eq p.attribute k ≡ false = rw own at e in
        let q = then-ok (str_eq p.extension []) _ _ own h in
        (apply_at-elsewhere u l d k p op v document r q other, inl own)
    | inr nested ↦
        let other : str_eq p.extension k ≡ false = rw nested at e in
        let q = else-ok (str_eq p.extension []) _ _ nested h in
        apply_in_extension-Stays document (lookup p.extension document) refl other (ground arith) q
  ]

  -- A PATCH operation with a path, `applyPatchOperation`, that is admitted changes no attribute of the document
  -- but the one that its path leads through: the path's attribute, or the key of its extension, and then also
  -- `schemas`, which lists an extension that the operation adds. In the extension's object it changes no
  -- attribute but the one that the path names. That is so with a value path or without.
  pub apply_patch_operation-Stays :
      (c : ℕ) (raw : Str) (document r : Object)
      → parse_patch_path u d (c ∷ raw) ≡ ok p
      → str_eq (root p) k ≡ false
      → (str_eq p.extension [] || not (str_eq (bytes "schemas") k)) ≡ true
      → apply_patch_operation u l d document op (c ∷ raw) v ≡ ok r
      → Stays p k j document r
  unfolding apply_patch_operation replace_error
  apply_patch_operation-Stays c raw document r parsed e s h =
      apply_with_path-Stays document r e s (rw parsed at h)
