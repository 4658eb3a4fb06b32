-- ===== src/Store/Memory/Indexes.antt =====
-- `hasIndexConflict`: the test is symmetric, and what its failure says of two records.
use gotth_scim.Base.{
  Bool, true, false, ◌||◌, if◌then◌else◌, Str, str_eq, str_eq_iff, List, [], ◌∷◌, any, All,
  All_of_not_any, All_imp, Unicode, ◌≡◌, refl, ap, ◌∙◌, sym, arith,
}
use gotth_scim.Store.{IndexKey, Record}
use gotth_scim.Store.Memory.{index_clash, indexes_clash}

or-swap : (a b c d : Bool) → ((a || b) || (c || d)) ≡ ((a || c) || (b || d))
or-swap a b c d = ground arith

module _ {A B : Type 0} where
  -- Two nested loops in either order.
  any-any :
      (f : A → B → Bool) (g : B → A → Bool) (same : (x : A) (y : B) → f x y ≡ g y x) (xs : List A)
      (ys : List B)
      → any (λ x. any (f x) ys) xs ≡ any (λ y. any (g y) xs) ys
  any-any f g same [] ys = sym (none_left ys)
    where
      none_left : (zs : List B) → any (λ y. any (g y) []) zs ≡ false
      none_left [] = refl
      none_left (z ∷ zs) = none_left zs
  any-any f g same (x ∷ xs) ys = ap (λ r. any (f x) ys || r) (any-any f g same xs ys) ∙ join ys
    where
      join :
          (zs : List B)
          → (any (f x) zs || any (λ y. any (g y) xs) zs) ≡ any (λ y. any (g y) (x ∷ xs)) zs
      join [] = refl
      join (z ∷ zs) =
          or-swap (f x z) (any (f x) zs) (any (g z) xs) (any (λ y. any (g y) xs) zs)
          ∙ (rw (join zs, same x z) refl)

module _ (u : Unicode) where
  equal_fold_comm : (a b : Str) → u.equal_fold a b ≡ u.equal_fold b a
  equal_fold_comm a b = ground (arith, u.equal_fold_sym a b, u.equal_fold_sym b a)

  index_clash_comm : (i j : IndexKey) → index_clash u i j ≡ index_clash u j i
  unfolding index_clash
  index_clash_comm i j = ground (
    arith,
    equal_fold_comm i.name j.name,
    equal_fold_comm i.value j.value,
    str_eq_iff i.value j.value,
    str_eq_iff j.value i.value,
  )

  pub indexes_clash_comm : (a b : Record) → indexes_clash u a b ≡ indexes_clash u b a
  unfolding indexes_clash
  indexes_clash_comm a b =
      let loops = any-any (index_clash u) (index_clash u) index_clash_comm a.indexes b.indexes in
      ground (
        arith,
        loops,
        str_eq_iff a.scope b.scope,
        str_eq_iff b.scope a.scope,
        str_eq_iff a.resource_type b.resource_type,
        str_eq_iff b.resource_type a.resource_type,
      )

  -- No index of one record that is unique has the value of an index of that name of the other.
  abbrev pub Separate : Record → Record → Type 0
  Separate a b =
      a.scope ≡ b.scope
      → a.resource_type ≡ b.resource_type
      → All
          (λ i.
            All
              (λ j.
                u.equal_fold i.name j.name ≡ true
                → i.unique ≡ true
                → (if i.case_exact then str_eq i.value j.value else u.equal_fold i.value j.value)
                  ≡ false)
              b.indexes)
          a.indexes

  index_clash_separate :
      (i j : IndexKey)
      → index_clash u i j ≡ false
      → u.equal_fold i.name j.name ≡ true
      → i.unique ≡ true
      → (if i.case_exact then str_eq i.value j.value else u.equal_fold i.value j.value) ≡ false
  unfolding index_clash
  index_clash_separate i j h same only = ground arith

  pub indexes_clash-Separate : (a b : Record) → indexes_clash u a b ≡ false → Separate a b
  unfolding indexes_clash
  indexes_clash-Separate a b h same_scope same_type =
      let loops : any (λ i. any (index_clash u i) b.indexes) a.indexes ≡ false =
        ground (arith, str_eq_iff b.scope a.scope, str_eq_iff b.resource_type a.resource_type) in
      All_imp
        (λ i h'. All_imp (λ j. index_clash_separate i j) b.indexes (All_of_not_any _ b.indexes h'))
        a.indexes (All_of_not_any _ a.indexes loops)
