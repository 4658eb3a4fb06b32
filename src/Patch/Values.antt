-- ===== src/Patch/Values.antt =====
-- The addition of values to an attribute of several values.
use gotth_scim.Base.{
  Bool, true, false, ◌||◌, if◌then◌else◌, List, [], ◌∷◌, ◌++◌, any, All, ◌≡◌, refl, arith,
  Bool-cases, inl, inr,
}
use gotth_scim.Json.{Value}
use gotth_scim.Json.Equal.{value_eq}
use gotth_scim.Patch.{contains_patch_value, add_missing}

any-append_left :
    (p : Value → Bool) (xs ys : List Value) → any p xs ≡ true → any p (xs ++ ys) ≡ true
any-append_left p [] ys h = cc
any-append_left p (x ∷ xs) ys h = elim (Bool-cases (p x)) [
  | inl y ↦ rw y refl
  | inr n ↦ rw n (any-append_left p xs ys (any_tail p x xs n h))
]
  where
    any_tail :
        (p : Value → Bool) (x : Value) (xs : List Value)
        → p x ≡ false
        → (p x || any p xs) ≡ true
        → any p xs ≡ true
    any_tail p x xs n h = ground arith

any-append_self :
    (p : Value → Bool) (xs : List Value) (x : Value) → p x ≡ true → any p (xs ++ (x ∷ [])) ≡ true
any-append_self p [] x h = rw h refl
any-append_self p (y ∷ xs) x h = elim (Bool-cases (p y)) [
  | inl e ↦ rw e refl
  | inr n ↦ rw n (any-append_self p xs x h)
]

contains-add_missing :
    (values vs : List Value) (w : Value)
    → contains_patch_value values w ≡ true
    → contains_patch_value (add_missing values vs) w ≡ true
unfolding add_missing contains_patch_value
contains-add_missing values [] w h = h
contains-add_missing values (v ∷ vs) w h = elim (Bool-cases (contains_patch_value values v)) [
  | inl y ↦ rw y (contains-add_missing values vs w h)
  | inr n ↦ rw n (
      contains-add_missing (values ++ (v ∷ [])) vs w
        (any-append_left (λ x. value_eq x w) values (v ∷ []) h))
]

-- Values that reflect.DeepEqual takes for equal to themselves, as all that hold no key twice are.
abbrev pub Reflexive : List Value → Type 0
Reflexive vs = All (λ v. value_eq v v ≡ true) vs

contains-next :
    (values : List Value) (v : Value)
    → value_eq v v ≡ true
    → contains_patch_value (if contains_patch_value values v then values else values ++ (v ∷ [])) v
      ≡ true
unfolding contains_patch_value
contains-next values v r = elim (Bool-cases (contains_patch_value values v)) [
  | inl y ↦ rw y y
  | inr n ↦ rw n (any-append_self (λ x. value_eq x v) values v r)
]

add_missing-contains :
    (values vs : List Value)
    → Reflexive vs
    → All (λ w. contains_patch_value (add_missing values vs) w ≡ true) vs
unfolding add_missing contains_patch_value
add_missing-contains values [] h = tt
add_missing-contains values (v ∷ vs) (r, h) =
    let next = if contains_patch_value values v then values else values ++ (v ∷ []) in
    (contains-add_missing next vs v (contains-next values v r), add_missing-contains next vs h)

add_missing-contained :
    (values vs : List Value)
    → All (λ w. contains_patch_value values w ≡ true) vs
    → add_missing values vs ≡ values
unfolding add_missing contains_patch_value
add_missing-contained values [] h = refl
add_missing-contained values (v ∷ vs) (c, h) = rw c (add_missing-contained values vs h)

-- Adding the same values a second time changes nothing, if reflect.DeepEqual takes each of them for
-- equal to itself.
pub add_missing-idempotent :
    (values vs : List Value)
    → Reflexive vs
    → add_missing (add_missing values vs) vs ≡ add_missing values vs
add_missing-idempotent values vs h =
    add_missing-contained (add_missing values vs) vs (add_missing-contains values vs h)
