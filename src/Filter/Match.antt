-- ===== src/Filter/Match.antt =====
-- `MatchFilter` and what it calls, of pkg/scim/filter_expression.go: a checked filter on a resource.
pub mod Meaning
pub mod Paths
use gotth_scim.Base.{
  ℕ, suc, Bool, true, false, ◌&&◌, ◌||◌, not, if◌then◌else◌, Str, bytes, str_eq, Sign, less, same,
  greater, compare_bytes, has_prefix, Option, none, some, List, [], ◌∷◌, ◌++◌, Unicode, lookup, any,
}
use gotth_scim.Failure.{Result, ok, err, fault, ◌>>=◌}
use gotth_scim.Json.{
  Value, null, bool, num, str, arr, obj, Object, entries, elems, as_obj, as_str, as_bool, mk_obj,
}
use gotth_scim.Schema.{Contract, SchemaAttribute, contract}
use gotth_scim.Filter.{
  Comparison, equal, not_equal, contains, starts_with, ends_with, greater_than, greater_equal,
  less_than, less_equal, Checked, Literals,
}
use gotth_scim.Filter.Check.{is_text_comparison}

option_list : Option Value → List Value
option_list none = []
option_list (some v) = v ∷ []

-- The members called `part` of the objects in a list.
children_in : Str → List Value → List Value
unfolding option_list lookup
children_in part [] = []
children_in part (obj fs ∷ vs) = option_list (lookup part (entries fs)) ++ children_in part vs
children_in part (_ ∷ vs) = children_in part vs

-- One step of the loop over the path, on one of the current values.
next_values : Str → Value → List Value
unfolding option_list lookup children_in
next_values part (obj fs) = option_list (lookup part (entries fs))
next_values part (arr vs) = children_in part (elems vs)
next_values part _ = []

all_next : Str → List Value → List Value
unfolding next_values
all_next part [] = []
all_next part (v ∷ vs) = next_values part v ++ all_next part vs

follow : List Str → List Value → List Value
unfolding all_next
follow [] vs = vs
follow (part ∷ path) vs = follow path (all_next part vs)

flattened : List Value → List Value
flattened [] = []
flattened (arr vs ∷ rest) = elems vs ++ flattened rest
flattened (v ∷ rest) = v ∷ flattened rest

-- `lookupFilterValues`
unfoldable pub lookup_filter_values : Object → List Str → List Value
unfolding follow flattened option_list lookup
lookup_filter_values document [] = []
lookup_filter_values document (part ∷ path) =
    flattened (follow path (option_list (lookup part document)))

-- `filterPresent`
unfoldable pub filter_present : Value → Bool
filter_present null = false
filter_present (str s) = not (str_eq s [])
filter_present (arr vs) = elim (elems vs) [ [] ↦ false | _ ∷ _ ↦ true ]
filter_present (obj fs) = elim (entries fs) [ [] ↦ false | _ ∷ _ ↦ true ]
filter_present _ = true

-- `strings.Contains` and `strings.HasSuffix`
contains_text : Str → Str → Bool
unfolding has_prefix
contains_text [] right = has_prefix right []
contains_text (c ∷ left) right = has_prefix right (c ∷ left) || contains_text left right

has_suffix : Str → Str → Bool
has_suffix [] right = str_eq [] right
has_suffix (c ∷ left) right = str_eq (c ∷ left) right || has_suffix left right

compare_bools : Bool → Bool → Sign
compare_bools true true = same
compare_bools false false = same
compare_bools false true = less
compare_bools true false = greater

-- The switch over the operators that order decides; the code has an error in its default case.
unfoldable pub by_order : Comparison → Sign → Result Bool
by_order equal s = ok (elim s [ same ↦ true | _ ↦ false ])
by_order not_equal s = ok (elim s [ same ↦ false | _ ↦ true ])
by_order greater_than s = ok (elim s [ greater ↦ true | _ ↦ false ])
by_order greater_equal s = ok (elim s [ less ↦ false | _ ↦ true ])
by_order less_than s = ok (elim s [ less ↦ true | _ ↦ false ])
by_order less_equal s = ok (elim s [ greater ↦ false | _ ↦ true ])
by_order _ s = err fault

by_text : Comparison → Str → Str → Bool
unfolding contains_text has_suffix has_prefix
by_text contains left right = contains_text left right
by_text starts_with left right = has_prefix right left
by_text _ left right = has_suffix left right

-- The loops over the values: the first that matches, or that is an error, ends them.
pub first_match : (Value → Result Bool) → List Value → Result Bool
first_match f [] = ok false
first_match f (v ∷ vs) =
    let rest = first_match f vs in do matched ← f v; if matched then ok true else rest

pub on_object : (Object → Result Bool) → Value → Result Bool
on_object f (obj fs) = f (entries fs)
on_object f _ = ok false

module _ (u : Unicode) (l : Literals) where
  unfoldable pub folded : Contract → Str → Str
  folded c s = if c.case_exact then s else u.fold s

  -- `orderFilterValues`
  unfoldable pub order_filter_values : Contract → Value → Value → Option Sign
  unfolding folded compare_bytes compare_bools
  order_filter_values c (str a) (str b) =
      if str_eq c.kind (bytes "string")
        || str_eq c.kind (bytes "reference")
        || str_eq c.kind (bytes "binary")
      then some (compare_bytes (folded c a) (folded c b))
      else if str_eq c.kind (bytes "dateTime")
      then l.compare_times a b
      else none
  order_filter_values c (num a) (num b) =
      if str_eq c.kind (bytes "integer") || str_eq c.kind (bytes "decimal")
      then l.compare_numbers a b
      else none
  order_filter_values c (bool a) (bool b) =
      if str_eq c.kind (bytes "boolean") then some (compare_bools a b) else none
  order_filter_values c _ _ = none

  unfoldable pub compare_text : Contract → Comparison → Value → Value → Bool
  unfolding by_text folded
  compare_text c op (str a) (str b) = by_text op (folded c a) (folded c b)
  compare_text c op _ _ = false

  unfoldable pub is_null : Value → Bool
  is_null null = true
  is_null _ = false

  compare_present : Contract → Comparison → Value → Value → Result Bool
  unfolding is_null compare_text order_filter_values by_order is_text_comparison
  compare_present c op actual expected =
      if is_null actual
      then ok false
      else if is_text_comparison op
      then ok (compare_text c op actual expected)
      else elim (order_filter_values c actual expected) [ none ↦ ok false | some s ↦ by_order op s ]

  -- `compareFilterValue`
  unfoldable pub compare_filter_value : Contract → Comparison → Value → Value → Result Bool
  unfolding is_null compare_present
  compare_filter_value c equal actual null = ok (is_null actual)
  compare_filter_value c not_equal actual null = ok (not (is_null actual))
  compare_filter_value c op actual expected = compare_present c op actual expected

  -- `matchFilter`, on a filter that is there.
  unfoldable pub match_filter : Checked → Object → Result Bool
  unfolding first_match on_object lookup_filter_values filter_present compare_filter_value
  match_filter (Checked.conjunction e f) document = do
    left ← match_filter e document
    if left then match_filter f document else ok false
  match_filter (Checked.disjunction e f) document = do
    left ← match_filter e document
    if left then ok true else match_filter f document
  match_filter (Checked.negation e) document = do
    matched ← match_filter e document
    ok (not matched)
  match_filter (Checked.value_path path e) document =
      first_match (on_object (match_filter e)) (lookup_filter_values document path)
  match_filter (Checked.present path) document =
      ok (any filter_present (lookup_filter_values document path))
  match_filter (Checked.comparison op path found v) document =
      first_match (λ actual. compare_filter_value (contract found) op actual v)
        (lookup_filter_values document path)
