-- ===== src/Search/Page.antt =====
-- The pages of a search: `compileSearch` and `applySearch` of pkg/scim/search.go.
use mathlib.Core.List.Perm
use mathlib.Core.List.{Perm}
use gotth_scim.Base.{
  ℕ, zero, suc, ◌+◌, ◌-◌, ◌≤◌, min, Bool, true, false, ◌&&◌, ltb, if◌then◌else◌, Bool-cases, Str,
  str_eq, length, take, drop, select, sort_by-Perm, any, Option-cases, ◌≢◌, length-sort_by, ◌⊎◌,
  Option, none, some, List, [], ◌∷◌, ◌++◌, Unicode, ◌≡◌, refl, sym, ap, ◌∙◌, arith, inl, inr,
}
use gotth_scim.Failure.{ok, err, fault, >>=-eq-ok, ok-injective, refuse-ok}
use gotth_scim.Json.{Object}
use gotth_scim.Schema.{Definition}
use gotth_scim.Filter.{Checked, Literals}
use gotth_scim.Filter.Match.Meaning.{holds, match_filter-holds}
use gotth_scim.Schema.Resolve.{resolve_attribute_contract, Resolved}
use gotth_scim.Search.{
  join, ℤ, pos, negsuc, plan_filter, sort_contract, projection_paths, SearchRequest, SearchPlan,
  plan_start, plan_count, compile_search, compile_projection_paths, matches, matching, sorted, page,
  apply_search,
}

suc_add : (n m : ℕ) → suc n + m ≡ suc (n + m)
suc_add n m = omega arith

zero_add : (n : ℕ) → 0 + n ≡ n
zero_add n = omega arith

module _ {ℓ} {A : Type ℓ} where
  take-whole : (n : ℕ) (xs : List A) → length xs ≤ n → take n xs ≡ xs
  take-whole zero [] h = refl
  take-whole (suc n) [] h = refl
  take-whole zero (x ∷ xs) h = absurd (omega arith)
  take-whole (suc n) (x ∷ xs) h = ap (λ r. x ∷ r) (take-whole n xs (omega arith))

  drop-past : (n : ℕ) (xs : List A) → length xs ≤ n → drop n xs ≡ []
  drop-past zero [] h = refl
  drop-past (suc n) [] h = refl
  drop-past zero (x ∷ xs) h = absurd (omega arith)
  drop-past (suc n) (x ∷ xs) h = drop-past n xs (omega arith)

  length-take : (n : ℕ) (xs : List A) → length (take n xs) ≡ min n (length xs)
  length-take zero [] = refl
  length-take zero (x ∷ xs) = ground arith
  length-take (suc n) [] = ground arith
  length-take (suc n) (x ∷ xs) = ground (arith, length-take n xs)

  length-drop : (n : ℕ) (xs : List A) → length (drop n xs) ≡ length xs - n
  length-drop zero xs = omega arith
  length-drop (suc n) [] = omega arith
  length-drop (suc n) (x ∷ xs) = omega (arith, length-drop n xs)

  take-nil : (n : ℕ) → take {A = A} n [] ≡ []
  take-nil zero = refl
  take-nil (suc n) = refl

  drop-nil : (n : ℕ) → drop {A = A} n [] ≡ []
  drop-nil zero = refl
  drop-nil (suc n) = refl

  -- Two consecutive cuts are one.
  take-append-take : (n m : ℕ) (xs : List A) → take n xs ++ take m (drop n xs) ≡ take (n + m) xs
  take-append-take zero m xs = rw (zero_add m) refl
  take-append-take (suc n) m [] = take-nil m ∙ sym (take-nil (suc n + m))
  take-append-take (suc n) m (x ∷ xs) = rw (suc_add n m) (ap (λ r. x ∷ r) (take-append-take n m xs))

  drop-drop : (a n : ℕ) (xs : List A) → drop n (drop a xs) ≡ drop (a + n) xs
  drop-drop zero n xs = rw (zero_add n) refl
  drop-drop (suc a) n [] = drop-nil n ∙ sym (drop-nil (suc a + n))
  drop-drop (suc a) n (x ∷ xs) = rw (suc_add a n) (drop-drop a n xs)

cut-eq :
    (a n : ℕ) (xs : List Object)
    → take ((if ltb (length xs) (a + n) then length xs else a + n) - a) (drop a xs)
      ≡ take n (drop a xs)
cut-eq a n xs = elim (Bool-cases (ltb (length xs) (a + n))) [
  | inl past ↦ rw past (
      take-whole (length xs - a) (drop a xs) (omega (arith, length-drop a xs))
      ∙ sym (take-whole n (drop a xs) (ground (arith, length-drop a xs))))
  | inr inside ↦ rw inside (ap (λ k. take k (drop a xs)) (omega arith))
]

-- The bounds that the code computes cut the plan's count behind what comes before its start.
page-eq :
    (plan : SearchPlan) (xs : List Object)
    → page plan xs ≡ take plan.count (drop (plan.start - 1) xs)
unfolding page
page-eq plan xs = elim (Bool-cases (ltb (length xs) (plan.start - 1))) [
  | inl past ↦
      rw
        (past, drop-past (length xs) xs (omega arith), drop-past (plan.start - 1) xs (ground arith))
        (take-nil _ ∙ sym (take-nil plan.count))
  | inr inside ↦ rw inside (cut-eq (plan.start - 1) plan.count xs)
]

fault-ne-ok : {A : Type 0} {a : A} → err fault ≢ ok a
fault-ne-ok h = cc

not_both :
    (xs ys : List (List Str)) (n m : ℕ)
    → (ltb 0 n && ltb 0 m) ≡ false
    → length xs ≤ n
    → length ys ≤ m
    → (xs ≡ []) ⊎ (ys ≡ [])
not_both [] ys n m h a b = inl refl
not_both (x ∷ xs) [] n m h a b = inr refl
not_both (x ∷ xs) (y ∷ ys) n m h a b = absurd (ground arith)

plan_start-ge : (start : ℤ) → 1 ≤ plan_start start
unfolding plan_start
plan_start-ge (pos zero) = omega arith
plan_start-ge (pos (suc n)) = omega arith
plan_start-ge (negsuc n) = omega arith

plan_count-le : (maximum : ℕ) (count : Option ℤ) → plan_count maximum count ≤ maximum
unfolding plan_count
plan_count-le maximum none = omega arith
plan_count-le maximum (some (negsuc n)) = omega arith
plan_count-le maximum (some (pos n)) = ground arith

module _ (u : Unicode) (l : Literals) where
  -- The meaning of the filter of a plan, which may have none.
  abbrev pub admitted : Option Checked → Object → Bool
  admitted none m = true
  admitted (some e) m = holds u l e m

  matches-admitted :
      (filter : Option Checked) (m : Object) → matches u l filter m ≡ ok (admitted filter m)
  unfolding matches
  matches-admitted none m = refl
  matches-admitted (some e) m = match_filter-holds u l e m

  matching-select :
      (filter : Option Checked) (resources : List Object)
      → matching u l filter resources ≡ ok (select (admitted filter) resources)
  unfolding matching
  matching-select filter [] = refl
  matching-select filter (m ∷ resources) =
      rw (matches-admitted filter m, matching-select filter resources) refl

  -- The resources that a plan selects, in its order.
  abbrev pub selected : SearchPlan → List Object → List Object
  selected plan resources =
      sorted u l plan.sort plan.descending (select (admitted plan.filter) resources)

  sorted-Perm :
      (sort : Option Resolved) (descending : Bool) (resources : List Object)
      → Perm (sorted u l sort descending resources) resources
  unfolding sorted
  sorted-Perm none descending resources = Perm.refl _
  sorted-Perm (some r) descending resources = sort_by-Perm _ resources

  length-sorted :
      (sort : Option Resolved) (descending : Bool) (resources : List Object)
      → length (sorted u l sort descending resources) ≡ length resources
  unfolding sorted
  length-sorted none descending resources = refl
  length-sorted (some r) descending resources = length-sort_by _ resources

  -- A search never fails on its resources. It returns the cut of the plan, of at most its count, from its
  -- start on, out of those resources that satisfy the filter, in the plan's order, with the number of all of
  -- them; ordering them loses none and adds none.
  pub apply_search-selected :
      (plan : SearchPlan) (resources : List Object)
      → (apply_search u l plan resources
          ≡ ok (
            take plan.count (drop (plan.start - 1) (selected plan resources)),
            length (select (admitted plan.filter) resources),
          ))
        × Perm (selected plan resources) (select (admitted plan.filter) resources)
  unfolding apply_search
  apply_search-selected plan resources =
      let kept = sorted-Perm plan.sort plan.descending (select (admitted plan.filter) resources) in
      (
        rw
            (
              matching-select plan.filter resources,
              page-eq plan (selected plan resources),
              length-sorted plan.sort plan.descending (select (admitted plan.filter) resources),
            )
            refl,
        kept,
      )

  -- Pages fit together: a page of `n` from some start and the page of `m` that begins where it ends are, one
  -- after the other, the page of `n + m` from that start, and all report the same total.
  pub apply_search-pages :
      (plan : SearchPlan) (n m : ℕ) (resources a b whole : List Object) (t t' t'' : ℕ)
      → 1 ≤ plan.start
      → apply_search u l (record plan { count = n }) resources ≡ ok (a, t)
      → apply_search u l (record plan { start = plan.start + n; count = m }) resources ≡ ok (b, t')
      → apply_search u l (record plan { count = n + m }) resources ≡ ok (whole, t'')
      → (a ++ b ≡ whole) × (t ≡ t') × (t ≡ t'')
  apply_search-pages plan n m resources a b whole t t' t'' h ha hb hw =
      let xs = selected plan resources in
      let a_is =
        ok-injective (sym (apply_search-selected (record plan { count = n }) resources).0 ∙ ha) in
      let b_is = ok-injective (
        sym (apply_search-selected (record plan { start = plan.start + n; count = m }) resources).0
        ∙ hb) in
      let w_is =
        ok-injective
          (sym (apply_search-selected (record plan { count = n + m }) resources).0 ∙ hw) in
      let shift : plan.start + n - 1 ≡ plan.start - 1 + n = omega arith in
      let b_from : take m (drop (plan.start + n - 1) xs)
          ≡ take m (drop n (drop (plan.start - 1) xs)) =
        rw (shift, drop-drop (plan.start - 1) n xs) refl in
      (
        rw (← ap (λ z. z.0) a_is, ← ap (λ z. z.0) b_is, ← ap (λ z. z.0) w_is, b_from)
            (take-append-take n m (drop (plan.start - 1) xs)),
        sym (ap (λ z. z.1) a_is) ∙ ap (λ z. z.1) b_is,
        sym (ap (λ z. z.1) a_is) ∙ ap (λ z. z.1) w_is,
      )

  projection_paths-le :
      (d : Definition) (seen raw : List Str) {paths : List (List Str)}
      → projection_paths u d seen raw ≡ ok paths
      → length paths ≤ length raw
  unfolding projection_paths
  projection_paths-le d seen [] h = ground arith
  projection_paths-le d seen (name ∷ raw) {paths} h =
      elim (Option-cases (resolve_attribute_contract u d none name)) [
        | inl e ↦ absurd (fault-ne-ok (rw (e, projection_paths) at h))
        | inr (r, e) ↦ elim (Bool-cases (any (str_eq (u.to_lower (join (0 ∷ []) r.path))) seen)) [
          | inl again ↦
              let shorter = projection_paths-le d seen raw (rw (e, projection_paths, again) at h) in
              omega (arith, shorter)
          | inr fresh ↦
              let (rest, found, h1) =
                >>=-eq-ok (projection_paths u d (u.to_lower (join (0 ∷ []) r.path) ∷ seen) raw) _
                  (rw (e, projection_paths, fresh) at h) in
              let shorter =
                projection_paths-le d (u.to_lower (join (0 ∷ []) r.path) ∷ seen) raw found in
              let same : r.path ∷ rest ≡ paths = ok-injective h1 in
              rw (← same) (omega (arith, shorter))
        ]
      ]

  compile_projection_paths-le :
      (d : Definition) (raw : List Str) {paths : List (List Str)}
      → compile_projection_paths u d raw ≡ ok paths
      → (length paths ≤ 100) × (length paths ≤ length raw)
  unfolding compile_projection_paths
  compile_projection_paths-le d raw h =
      let (few, h1) = refuse-ok (ltb 100 (length raw)) fault _ h in
      let fewer = projection_paths-le d [] raw h1 in (ground arith, fewer)

  -- A plan that is compiled starts at one or later, and its count is at most the server's page size; it has
  -- at most 100 paths to include and 100 to exclude, and not both.
  pub compile_search-bounds :
      (request : SearchRequest) (d : Definition) (maximum_page_size : ℕ) (plan : SearchPlan)
      → compile_search u l request d maximum_page_size ≡ ok plan
      → (1 ≤ plan.start)
        × (plan.count ≤ maximum_page_size)
        × (length plan.include ≤ 100)
        × (length plan.exclude ≤ 100)
        × ((plan.include ≡ []) ⊎ (plan.exclude ≡ []))
  unfolding compile_search
  compile_search-bounds request d maximum plan h =
      let (filter, _, h1) = >>=-eq-ok (plan_filter u l d request.filter) _ h in
      let (_, h2) = refuse-ok _ fault _ h1 in
      let (_, h3) = refuse-ok _ fault _ h2 in
      let (sort, _, h4) = >>=-eq-ok (sort_contract u d request.sort_by) _ h3 in
      let (one, h5) =
        refuse-ok (ltb 0 (length request.attributes) && ltb 0 (length request.excluded_attributes))
          fault _ h4 in
      let (include, i, h6) = >>=-eq-ok (compile_projection_paths u d request.attributes) _ h5 in
      let (exclude, x, h7) =
        >>=-eq-ok (compile_projection_paths u d request.excluded_attributes) _ h6 in
      let same = ok-injective h7 in
      let (i_le, i_nil) = compile_projection_paths-le d request.attributes i in
      let (x_le, x_nil) = compile_projection_paths-le d request.excluded_attributes x in
      rw (← same) (
        plan_start-ge request.start_index,
        plan_count-le maximum request.count,
        i_le,
        x_le,
        not_both include exclude (length request.attributes) (length request.excluded_attributes)
            one i_nil x_nil,
      )
