-- ===== src/Filter/Match/Meaning.antt =====
-- The meaning of a filter, as a Boolean of its parts, and that the evaluation, with its early returns
-- and its errors, decides it.
use gotth_scim.Base.{
  Bool, true, false, ◌&&◌, ◌||◌, not, if◌then◌else◌, Sign, less, same, greater, Option, none, some,
  List, [], ◌∷◌, Unicode, any, ◌≡◌, refl, Bool-cases, Option-cases, inl, inr,
}
use gotth_scim.Failure.{Result, ok}
use gotth_scim.Json.{Value, null, bool, num, str, arr, obj, Object, entries}
use gotth_scim.Schema.{Contract, contract}
use gotth_scim.Filter.{
  Comparison, equal, not_equal, contains, starts_with, ends_with, greater_than, greater_equal,
  less_than, less_equal, Checked, Literals,
}
use gotth_scim.Filter.Check.{is_text_comparison}
use gotth_scim.Filter.Match.{
  lookup_filter_values, filter_present, first_match, on_object, is_null, compare_text,
  order_filter_values, by_order, compare_present, compare_filter_value, match_filter,
}

-- What an operator asks of an order.
abbrev pub admits : Comparison → Sign → Bool
admits equal same = true
admits not_equal less = true
admits not_equal greater = true
admits greater_than greater = true
admits greater_equal same = true
admits greater_equal greater = true
admits less_than less = true
admits less_equal less = true
admits less_equal same = true
admits _ _ = false

abbrev pub admits_some : Comparison → Option Sign → Bool
admits_some op none = false
admits_some op (some s) = admits op s

abbrev pub of_object : (Object → Bool) → Value → Bool
of_object p (obj fs) = p (entries fs)
of_object p _ = false

module _ (u : Unicode) (l : Literals) where
  -- A value that is not null satisfies a comparison by its text or by its order; null equals only null.
  abbrev pub satisfies : Contract → Comparison → Value → Value → Bool
  satisfies c equal v null = is_null u l v
  satisfies c not_equal v null = not (is_null u l v)
  satisfies c op v w =
      not (is_null u l v)
      && (if is_text_comparison op
          then compare_text u l c op v w
          else admits_some op (order_filter_values u l c v w))

  abbrev pub holds : Checked → Object → Bool
  holds (Checked.conjunction e f) m = holds e m && holds f m
  holds (Checked.disjunction e f) m = holds e m || holds f m
  holds (Checked.negation e) m = not (holds e m)
  holds (Checked.value_path path e) m = any (of_object (holds e)) (lookup_filter_values m path)
  holds (Checked.present path) m = any filter_present (lookup_filter_values m path)
  holds (Checked.comparison op path a v) m =
      any (λ w. satisfies (contract a) op w v) (lookup_filter_values m path)

  first_match-any :
      (f : Value → Result Bool) (p : Value → Bool) (vs : List Value)
      → ((v : Value) → f v ≡ ok (p v))
      → first_match f vs ≡ ok (any p vs)
  unfolding first_match
  first_match-any f p [] h = refl
  first_match-any f p (v ∷ vs) h = elim (Bool-cases (p v)) [
    | inl y ↦ rw (h v, y) refl
    | inr n ↦ rw (h v, n) (first_match-any f p vs h)
  ]

  by_order-admits :
      (op : Comparison) (s : Sign)
      → is_text_comparison op ≡ false
      → by_order op s ≡ ok (admits op s)
  unfolding by_order is_text_comparison
  by_order-admits equal less h = refl
  by_order-admits equal same h = refl
  by_order-admits equal greater h = refl
  by_order-admits not_equal less h = refl
  by_order-admits not_equal same h = refl
  by_order-admits not_equal greater h = refl
  by_order-admits greater_than less h = refl
  by_order-admits greater_than same h = refl
  by_order-admits greater_than greater h = refl
  by_order-admits greater_equal less h = refl
  by_order-admits greater_equal same h = refl
  by_order-admits greater_equal greater h = refl
  by_order-admits less_than less h = refl
  by_order-admits less_than same h = refl
  by_order-admits less_than greater h = refl
  by_order-admits less_equal less h = refl
  by_order-admits less_equal same h = refl
  by_order-admits less_equal greater h = refl
  by_order-admits contains s h = cc
  by_order-admits starts_with s h = cc
  by_order-admits ends_with s h = cc

  compare_present-eq :
      (c : Contract) (op : Comparison) (v w : Value)
      → compare_present u l c op v w
        ≡ ok (
            not (is_null u l v)
            && (if is_text_comparison op
                then compare_text u l c op v w
                else admits_some op (order_filter_values u l c v w)))
  unfolding compare_present
  compare_present-eq c op v w = elim (Bool-cases (is_null u l v)) [
    | inl y ↦ rw y refl
    | inr n ↦ rw n (elim (Bool-cases (is_text_comparison op)) [
      | inl y' ↦ rw y' refl
      | inr n' ↦ rw n' (elim (Option-cases (order_filter_values u l c v w)) [
        | inl e ↦ rw (e, compare_present) refl
        | inr (s, e) ↦ rw (e, compare_present) (by_order-admits op s n')
      ])
    ])
  ]

  compare_filter_value-satisfies :
      (c : Contract) (op : Comparison) (v w : Value)
      → compare_filter_value u l c op v w ≡ ok (satisfies c op v w)
  unfolding compare_filter_value
  compare_filter_value-satisfies c equal v null = refl
  compare_filter_value-satisfies c equal v (bool b) = compare_present-eq c equal v (bool b)
  compare_filter_value-satisfies c equal v (num s) = compare_present-eq c equal v (num s)
  compare_filter_value-satisfies c equal v (str s) = compare_present-eq c equal v (str s)
  compare_filter_value-satisfies c equal v (arr ws) = compare_present-eq c equal v (arr ws)
  compare_filter_value-satisfies c equal v (obj fs) = compare_present-eq c equal v (obj fs)
  compare_filter_value-satisfies c not_equal v null = refl
  compare_filter_value-satisfies c not_equal v (bool b) = compare_present-eq c not_equal v (bool b)
  compare_filter_value-satisfies c not_equal v (num s) = compare_present-eq c not_equal v (num s)
  compare_filter_value-satisfies c not_equal v (str s) = compare_present-eq c not_equal v (str s)
  compare_filter_value-satisfies c not_equal v (arr ws) = compare_present-eq c not_equal v (arr ws)
  compare_filter_value-satisfies c not_equal v (obj fs) = compare_present-eq c not_equal v (obj fs)
  compare_filter_value-satisfies c contains v w = compare_present-eq c contains v w
  compare_filter_value-satisfies c starts_with v w = compare_present-eq c starts_with v w
  compare_filter_value-satisfies c ends_with v w = compare_present-eq c ends_with v w
  compare_filter_value-satisfies c greater_than v w = compare_present-eq c greater_than v w
  compare_filter_value-satisfies c greater_equal v w = compare_present-eq c greater_equal v w
  compare_filter_value-satisfies c less_than v w = compare_present-eq c less_than v w
  compare_filter_value-satisfies c less_equal v w = compare_present-eq c less_equal v w

  on_object-of_object :
      (f : Object → Result Bool) (p : Object → Bool)
      → ((m : Object) → f m ≡ ok (p m))
      → (v : Value) → on_object f v ≡ ok (of_object p v)
  unfolding on_object
  on_object-of_object f p h (obj fs) = h (entries fs)
  on_object-of_object f p h v = refl

  -- The evaluation of a checked filter never ends in an error, and its answer is the meaning of the filter:
  -- and, or and not are those of logic, a value path asks for one object that satisfies its
  -- filter, and presence and comparison ask for one value that the path leads to.
  pub match_filter-holds : (e : Checked) (m : Object) → match_filter u l e m ≡ ok (holds e m)
  unfolding match_filter
  match_filter-holds (Checked.conjunction e f) m =
      rw (match_filter-holds e m, match_filter-holds f m)
        (elim (Bool-cases (holds e m)) [ inl y ↦ rw y refl | inr n ↦ rw n refl ])
  match_filter-holds (Checked.disjunction e f) m =
      rw (match_filter-holds e m, match_filter-holds f m)
        (elim (Bool-cases (holds e m)) [ inl y ↦ rw y refl | inr n ↦ rw n refl ])
  match_filter-holds (Checked.negation e) m = rw (match_filter-holds e m) refl
  match_filter-holds (Checked.value_path path e) m =
      first_match-any (on_object (match_filter u l e)) (of_object (holds e))
        (lookup_filter_values m path)
        (on_object-of_object (match_filter u l e) (holds e) (match_filter-holds e))
  match_filter-holds (Checked.present path) m = refl
  match_filter-holds (Checked.comparison op path a v) m =
      first_match-any (λ w. compare_filter_value u l (contract a) op w v)
        (λ w. satisfies (contract a) op w v) (lookup_filter_values m path)
        (λ w. compare_filter_value-satisfies (contract a) op w v)
