-- ===== src/Search.antt =====
-- Searches: pkg/scim/search.go. A request becomes a plan, which selects, sorts, cuts and projects.
pub mod Count
pub mod Page
pub mod Project
mod Examples
use gotth_scim.Base.{
  ℕ, zero, suc, ◌+◌, ◌-◌, min, Bool, true, false, ◌&&◌, ◌||◌, not, ltb, leb, ◌==◌, if◌then◌else◌,
  Str, bytes, str_eq, split, Sign, less, same, greater, compare_bytes, lookup, length, take, drop,
  any, map, sort_by, Option, none, some, List, [], ◌∷◌, ◌++◌, Unicode,
}
use gotth_scim.Failure.{Result, ok, err, fault, ◌>>=◌, ◌>>◌, refuse}
use gotth_scim.Json.{Value, null, bool, num, str, arr, obj, Object, entries, elems}
use gotth_scim.Schema.{Contract, contract, Definition}
use gotth_scim.Schema.Resolve.{Resolved, resolve_attribute_contract}
use gotth_scim.Filter.{Checked, Literals}
use gotth_scim.Filter.Check.{parse_filter}
use gotth_scim.Filter.Match.{match_filter, lookup_filter_values, order_filter_values}

-- Go's `int`, over the native numbers.
pub data ℤ : Type 0 where
  pos : ℕ → ℤ
  negsuc : ℕ → ℤ

-- `SearchRequest`, without the schemas, which are checked when it is decoded.
pub record SearchRequest : Type 0 where
  pub attributes : List Str
  pub excluded_attributes : List Str
  pub filter : Str
  pub sort_by : Str
  pub sort_order : Str
  pub start_index : ℤ
  pub count : Option ℤ

-- `searchPlan`; the path and the schema to sort by stand together, and are missing where the path is empty.
pub record SearchPlan : Type 0 where
  pub filter : Option Checked
  pub sort : Option Resolved
  pub descending : Bool
  pub start : ℕ
  pub count : ℕ
  pub include : List (List Str)
  pub exclude : List (List Str)

unfoldable pub plan_start : ℤ → ℕ
plan_start (pos zero) = 1
plan_start (pos (suc n)) = suc n
plan_start (negsuc n) = 1

unfoldable pub plan_count : ℕ → Option ℤ → ℕ
plan_count maximum none = maximum
plan_count maximum (some (negsuc n)) = 0
plan_count maximum (some (pos n)) = if ltb maximum n then maximum else n

-- `strings.Join`
unfoldable pub join : Str → List Str → Str
join separator [] = []
join separator (part ∷ []) = part
join separator (part ∷ next ∷ parts) = part ++ (separator ++ join separator (next ∷ parts))

module _ (u : Unicode) where
  -- `splitAttributeParameter`
  unfoldable pub split_attribute_parameter : Str → List Str
  unfolding split
  split_attribute_parameter [] = []
  split_attribute_parameter (c ∷ raw) = map u.trim_space (split 44 (c ∷ raw))

  -- The loop over the names, with the keys that it has seen.
  pub projection_paths : Definition → List Str → List Str → Result (List (List Str))
  unfolding resolve_attribute_contract join str_eq
  projection_paths d seen [] = ok []
  projection_paths d seen (candidate ∷ candidates) =
      elim (resolve_attribute_contract u d none candidate) [
        | none ↦ err fault
        | some r ↦
            let key = u.to_lower (join (0 ∷ []) r.path) in
            let again = projection_paths d seen candidates in
            let rest = projection_paths d (key ∷ seen) candidates in
            if any (str_eq key) seen then again else (do paths ← rest; ok (r.path ∷ paths))
      ]

  -- `compileProjectionPaths`
  unfoldable pub compile_projection_paths : Definition → List Str → Result (List (List Str))
  unfolding projection_paths
  compile_projection_paths d raw = do refuse (ltb 100 (length raw)) fault; projection_paths d [] raw

  sort_contract : Definition → Str → Result (Option Resolved)
  unfolding resolve_attribute_contract
  sort_contract d [] = ok none
  sort_contract d (c ∷ name) = elim (resolve_attribute_contract u d none (c ∷ name)) [
    | none ↦ err fault
    | some r ↦ if str_eq (contract r.found).kind (bytes "complex") then err fault else ok (some r)
  ]

  module _ (l : Literals) where
    plan_filter : Definition → Str → Result (Option Checked)
    plan_filter d [] = ok none
    plan_filter d (c ∷ text) = do e ← parse_filter u l d none (c ∷ text); ok (some e)

    -- `compileSearch`; its errors are not told apart.
    unfoldable pub compile_search : SearchRequest → Definition → ℕ → Result SearchPlan
    unfolding plan_filter sort_contract compile_projection_paths plan_start plan_count str_eq
    compile_search request d maximum_page_size = do
      filter ← plan_filter d request.filter
      refuse
          (not (str_eq request.sort_order [])
            && not (u.equal_fold request.sort_order (bytes "ascending"))
            && not (u.equal_fold request.sort_order (bytes "descending")))
          fault
      refuse (not (str_eq request.sort_order []) && str_eq request.sort_by []) fault
      sort ← sort_contract d request.sort_by
      refuse (ltb 0 (length request.attributes) && ltb 0 (length request.excluded_attributes)) fault
      include ← compile_projection_paths d request.attributes
      exclude ← compile_projection_paths d request.excluded_attributes
      ok (record {
        filter = filter;
        sort = sort;
        descending = u.equal_fold request.sort_order (bytes "descending");
        start = plan_start request.start_index;
        count = plan_count maximum_page_size request.count;
        include = include;
        exclude = exclude;
      })

-- `documentID`
unfoldable pub document_id : Object → Str
unfolding lookup
document_id document = elim (lookup (bytes "id") document) [ some (str s) ↦ s | _ ↦ [] ]

-- The element of an array that sorting looks at: the first primary object, or else the first object.
unfoldable pub has_primary : Object → Bool
unfolding lookup
has_primary m = elim (lookup (bytes "primary") m) [ some (bool b) ↦ b | _ ↦ false ]

unfoldable pub select_from : Option Object → List Value → Option Object
unfolding has_primary
select_from selected [] = selected
select_from none (obj fs ∷ vs) =
    let rest = select_from (some (entries fs)) vs in
    if has_primary (entries fs) then some (entries fs) else rest
select_from (some m) (obj fs ∷ vs) =
    let rest = select_from (some m) vs in
    if has_primary (entries fs) then some (entries fs) else rest
select_from selected (_ ∷ vs) = select_from selected vs

-- `sortValues`
unfoldable pub sort_values : Object → List Str → List Value
unfolding select_from lookup_filter_values lookup
sort_values document (part ∷ next ∷ path) = elim (lookup part document) [
  | some (arr vs) ↦ elim (select_from none (elems vs)) [
    | some m ↦ lookup_filter_values m (next ∷ path)
    | none ↦ lookup_filter_values document (part ∷ next ∷ path)
  ]
  | _ ↦ lookup_filter_values document (part ∷ next ∷ path)
]
sort_values document path = lookup_filter_values document path

-- The page of the plan, by the bounds that the code computes.
pub page : SearchPlan → List Object → List Object
page plan resources =
    let total = length resources in
    let begin = (if ltb total (plan.start - 1) then total else plan.start - 1) in
    let end_ = (if ltb total (begin + plan.count) then total else begin + plan.count) in
    take (end_ - begin) (drop begin resources)

module _ (u : Unicode) (l : Literals) where
  or_same : Option Sign → Sign
  or_same none = same
  or_same (some s) = s

  first_values : Contract → List Value → List Value → Sign
  unfolding order_filter_values or_same
  first_values c [] [] = same
  first_values c [] (_ ∷ _) = greater
  first_values c (_ ∷ _) [] = less
  first_values c (v ∷ _) (w ∷ _) = or_same (order_filter_values u l c v w)

  -- `compareSortValues`
  unfoldable pub compare_sort_values : Object → Object → Resolved → Sign
  unfolding first_values sort_values
  compare_sort_values left right r =
      first_values (contract r.found) (sort_values left r.path) (sort_values right r.path)

  by_id : Object → Object → Sign → Sign
  unfolding compare_bytes document_id
  by_id left right same = compare_bytes (document_id left) (document_id right)
  by_id left right s = s

  directed : Bool → Sign → Bool
  directed descending less = not descending
  directed descending greater = descending
  directed descending same = false

  -- The order that `applySearch` sorts by.
  unfoldable pub sorts_before : Resolved → Bool → Object → Object → Bool
  unfolding by_id directed compare_sort_values
  sorts_before r descending left right =
      directed descending (by_id left right (compare_sort_values left right r))

  -- `MatchFilter`, where no filter admits everything.
  unfoldable pub matches : Option Checked → Object → Result Bool
  unfolding match_filter
  matches none document = ok true
  matches (some e) document = match_filter u l e document

  -- The loop that selects.
  unfoldable pub matching : Option Checked → List Object → Result (List Object)
  unfolding matches
  matching filter [] = ok []
  matching filter (m ∷ resources) = do
    matched ← matches filter m
    rest ← matching filter resources
    ok (if matched then m ∷ rest else rest)

  pub sorted : Option Resolved → Bool → List Object → List Object
  unfolding sort_by sorts_before
  sorted none descending resources = resources
  sorted (some r) descending resources = sort_by (sorts_before r descending) resources

  -- `applySearch`: the page, and the number of all matches.
  unfoldable pub apply_search : SearchPlan → List Object → Result (List Object × ℕ)
  unfolding matching sorted page
  apply_search plan resources = do
    filtered ← matching plan.filter resources
    let ordered = sorted plan.sort plan.descending filtered
    ok (page plan ordered, length ordered)
