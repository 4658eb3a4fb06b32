-- ===== src/Base/Lists.antt =====
-- Lists measured and cut by native numbers, predicates on lists, and tests over them.
use Prim.Native.Nat.{ℕ, zero, suc, ◌+◌, ◌≤◌}
use mathlib.Core.Path.{◌≡◌, refl}
use mathlib.Core.Bool.{Bool, true, false, ◌&&◌, ◌||◌}
use mathlib.Core.Logic.{inl, inr}
use mathlib.Core.List.{List, [], ◌∷◌, ◌++◌}
use native.Mathlib.Omega.{arith}
use gotth_scim.Base.Tests.{if◌then◌else◌, and-parts, Bool-cases, or-eq-false}

module _ {ℓ} {A : Type ℓ} where
  abbrev pub length : List A → ℕ
  length [] = 0
  length (x ∷ xs) = suc (length xs)

  abbrev pub take : ℕ → List A → List A
  take zero xs = []
  take (suc n) [] = []
  take (suc n) (x ∷ xs) = x ∷ take n xs

  abbrev pub drop : ℕ → List A → List A
  drop zero xs = xs
  drop (suc n) [] = []
  drop (suc n) (x ∷ xs) = drop n xs

  abbrev pub all : (A → Bool) → List A → Bool
  all p [] = true
  all p (x ∷ xs) = p x && all p xs

  abbrev pub any : (A → Bool) → List A → Bool
  any p [] = false
  any p (x ∷ xs) = p x || any p xs

  -- The elements that pass a test, in order.
  abbrev pub select : (A → Bool) → List A → List A
  select p [] = []
  select p (x ∷ xs) = let rest = select p xs in if p x then x ∷ rest else rest

  pub length-append : (xs ys : List A) → length (xs ++ ys) ≡ length xs + length ys
  length-append [] ys = omega arith
  length-append (x ∷ xs) ys = omega (arith, length-append xs ys)

  pub length-select-le : (p : A → Bool) (xs : List A) → length (select p xs) ≤ length xs
  length-select-le p [] = omega arith
  length-select-le p (x ∷ xs) = ground (arith, length-select-le p xs)

-- A predicate of every element, as a tuple that the tactics read.
abbrev pub All {ℓ κ} : {A : Type ℓ} → (A → Type κ) → List A → Type κ
All P [] = Unit
All P (x ∷ xs) = P x × All P xs

module _ {ℓ κ} {A : Type ℓ} (P : A → Type κ) where
  pub All-append : (xs ys : List A) → All P xs → All P ys → All P (xs ++ ys)
  All-append [] ys h k = k
  All-append (x ∷ xs) ys (p, h) k = (p, All-append xs ys h k)

  pub All-select : (t : A → Bool) (xs : List A) → All P xs → All P (select t xs)
  All-select t [] h = tt
  All-select t (x ∷ xs) (p, h) = elim (Bool-cases (t x)) [
    | inl e ↦ rw e (p, All-select t xs h)
    | inr e ↦ rw e (All-select t xs h)
  ]

module _ {ℓ} {A : Type ℓ} where
  pub All_of_all : (t : A → Bool) (xs : List A) → all t xs ≡ true → All (λ x. t x ≡ true) xs
  All_of_all t [] h = tt
  All_of_all t (x ∷ xs) h = let (a, b) = and-parts (t x) (all t xs) h in (a, All_of_all t xs b)

  pub All_of_not_any : (t : A → Bool) (xs : List A) → any t xs ≡ false → All (λ x. t x ≡ false) xs
  All_of_not_any t [] h = tt
  All_of_not_any t (x ∷ xs) h =
      let (a, b) = or-eq-false (t x) (any t xs) h in (a, All_of_not_any t xs b)

  pub not_any_of_All : (t : A → Bool) (xs : List A) → All (λ x. t x ≡ false) xs → any t xs ≡ false
  not_any_of_All t [] h = refl
  not_any_of_All t (x ∷ xs) (a, h) = rw (a, not_any_of_All t xs h)

  pub All_imp {κ μ} :
      {P : A → Type κ} {Q : A → Type μ} (f : (a : A) → P a → Q a) (xs : List A)
      → All P xs
      → All Q xs
  All_imp f [] h = tt
  All_imp f (x ∷ xs) (p, h) = (f x p, All_imp f xs h)

  pub All_zip {κ μ ν} :
      {P : A → Type κ} {Q : A → Type μ} {R : A → Type ν} (f : (a : A) → P a → Q a → R a)
      (xs : List A)
      → All P xs
      → All Q xs
      → All R xs
  All_zip f [] h k = tt
  All_zip f (x ∷ xs) (p, h) (q, k) = (f x p q, All_zip f xs h k)

pub all_imp {ℓ} :
    {A : Type ℓ} (p q : A → Bool) (xs : List A)
    → ((x : A) → p x ≡ true → q x ≡ true)
    → all p xs ≡ true
    → all q xs ≡ true
all_imp p q [] h e = refl
all_imp p q (x ∷ xs) h e =
    let (first, rest) = and-parts (p x) (all p xs) e in rw (h x first, all_imp p q xs h rest) refl
