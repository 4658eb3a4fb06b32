-- ===== src/Patch/Remove.antt =====
-- Removal by a value path.
use gotth_scim.Base.{
  Bool, false, str_eq, not, List, [], ◌∷◌, any, select, map, ◌≡◌, refl, ap, Bool-cases, inl, inr,
  Unicode,
}
use gotth_scim.Failure.{Result, ok, ◌>>=◌}
use gotth_scim.Json.{Value, null, bool, num, str, arr, obj, Object, entries}
use gotth_scim.Filter.{Checked, Literals}
use gotth_scim.Filter.Match.{match_filter}
use gotth_scim.Filter.Match.Meaning.{holds, of_object, match_filter-holds}
use gotth_scim.Patch.{Operation}
use gotth_scim.Patch.Apply.{match_flags, unmatched, edit_matches}

match_flags-map :
    (f : Object → Result Bool) (p : Object → Bool)
    → ((m : Object) → f m ≡ ok (p m))
    → (vs : List Value) → match_flags f vs ≡ ok (map (of_object p) vs)
unfolding match_flags
match_flags-map f p h [] = refl
match_flags-map f p h (obj fs ∷ vs) = rw (h (entries fs), match_flags-map f p h vs) refl
match_flags-map f p h (null ∷ vs) = rw (match_flags-map f p h vs) refl
match_flags-map f p h (bool b ∷ vs) = rw (match_flags-map f p h vs) refl
match_flags-map f p h (num s ∷ vs) = rw (match_flags-map f p h vs) refl
match_flags-map f p h (str s ∷ vs) = rw (match_flags-map f p h vs) refl
match_flags-map f p h (arr ws ∷ vs) = rw (match_flags-map f p h vs) refl

unmatched-select :
    (q : Value → Bool) (vs : List Value) → unmatched (map q vs) vs ≡ select (λ v. not (q v)) vs
unfolding unmatched
unmatched-select q [] = refl
unmatched-select q (v ∷ vs) = elim (Bool-cases (q v)) [
  | inl y ↦ rw y (unmatched-select q vs)
  | inr n ↦ rw n (ap (λ r. v ∷ r) (unmatched-select q vs))
]

select-none :
    (q : Value → Bool) (vs : List Value)
    → any (λ b. b) (map q vs) ≡ false
    → select (λ v. not (q v)) vs ≡ vs
select-none q [] h = refl
select-none q (v ∷ vs) h = elim (Bool-cases (q v)) [
  | inl y ↦ cc
  | inr n ↦ rw n (ap (λ r. v ∷ r) (select-none q vs (rw n at h)))
]

module _ (u : Unicode) (l : Literals) where
  -- Removing by a value path without a sub-attribute keeps exactly the values that the filter does not
  -- hold of, in their order, and is no error when it holds of none.
  pub edit_matches-remove :
      (e : Checked) (v : Value) (vs : List Value)
      → (match_flags (match_filter u l e) vs >>= λ flags.
          edit_matches [] Operation.remove v flags vs)
        ≡ ok (select (λ w. not (of_object (holds u l e) w)) vs)
  unfolding edit_matches str_eq
  edit_matches-remove e v vs =
      rw (match_flags-map (match_filter u l e) (holds u l e) (match_filter-holds u l e) vs)
        (kept (of_object (holds u l e)))
    where
      kept :
          (q : Value → Bool)
          → edit_matches [] Operation.remove v (map q vs) vs ≡ ok (select (λ w. not (q w)) vs)
      kept q = elim (Bool-cases (any (λ b. b) (map q vs))) [
        | inl y ↦ rw y (ap ok (unmatched-select q vs))
        | inr n ↦ rw n (ap ok (rw (select-none q vs n) refl))
      ]
