-- ===== src/Base/Tests.antt =====
-- Boolean tests on the native numbers, the conditional, and splits on computed values.
use Prim.Native.Nat.{ℕ, compare, Ordering}
use mathlib.Core.Path.{◌≡◌, refl}
use mathlib.Core.Logic.{◌↔◌, ◌⊎◌, inl, inr}
use mathlib.Core.Bool.{Bool, true, false, ◌&&◌, ◌||◌}
use mathlib.Core.Option.{Option, none, some}
use mathlib.Core.List.{List, [], ◌∷◌}
use native.Mathlib.Omega.{arith}

abbrev pub ltb : ℕ → ℕ → Bool
ltb a b = elim (compare a b) [ Ordering.lt ↦ true | _ ↦ false ]

abbrev pub leb : ℕ → ℕ → Bool
leb a b = elim (compare a b) [ Ordering.gt ↦ false | _ ↦ true ]

infix 50 ◌==◌
abbrev pub ◌==◌ : ℕ → ℕ → Bool
a == b = elim (compare a b) [ Ordering.eq ↦ true | _ ↦ false ]

infix 1 if◌then◌else◌
abbrev pub if◌then◌else◌ {ℓ} : {A : Type ℓ} → Bool → A → A → A
if true then x else y = x
if false then x else y = y

pub ==_iff : (a b : ℕ) → ((a == b) ≡ true) ↔ (a ≡ b)
==_iff a b = ground arith

pub Bool-cases : (b : Bool) → (b ≡ true) ⊎ (b ≡ false)
Bool-cases true = inl refl
Bool-cases false = inr refl

pub Option-cases {ℓ} : {A : Type ℓ} (o : Option A) → (o ≡ none) ⊎ ((a : A) × (o ≡ some a))
Option-cases none = inl refl
Option-cases (some a) = inr (a, refl)

pub and-parts : (a b : Bool) → (a && b) ≡ true → (a ≡ true) × (b ≡ true)
and-parts a b h = ground arith

pub or-true : (a : Bool) → (a || true) ≡ true
or-true true = refl
or-true false = refl

pub or-cases : (a b : Bool) → (a || b) ≡ true → (a ≡ true) ⊎ (b ≡ true)
or-cases a b h = ground arith

pub or-eq-false : (a b : Bool) → (a || b) ≡ false → (a ≡ false) × (b ≡ false)
or-eq-false a b h = ground arith

pub List-cases {ℓ} :
    {A : Type ℓ} (xs : List A) → (xs ≡ []) ⊎ ((x : A) × (rest : List A) × (xs ≡ x ∷ rest))
List-cases [] = inl refl
List-cases (x ∷ xs) = inr (x, xs, refl)

-- What holds of both branches holds of a test.
pub if_cases {ℓ κ} :
    {A : Type ℓ} (P : A → Type κ) (b : Bool) (x y : A)
    → (b ≡ true → P x)
    → (b ≡ false → P y)
    → P (if b then x else y)
if_cases P true x y h g = h refl
if_cases P false x y h g = g refl

pub if-same {ℓ} :
    {A : Type ℓ} (b : Bool) (x x' y y' : A)
    → (b ≡ true → x ≡ x')
    → (b ≡ false → y ≡ y')
    → (if b then x else y) ≡ (if b then x' else y')
if-same true x x' y y' h g = h refl
if-same false x x' y y' h g = g refl

-- What a test decides, from what its parts decide.
module _ {ℓ κ} {X : Type ℓ} {Y : Type κ} where
  pub if_iff :
      (b x y : Bool)
      → (x ≡ true) ↔ X
      → (y ≡ true) ↔ Y
      → ((if b then x else y) ≡ true) ↔ (((b ≡ true) × X) ⊎ ((b ≡ false) × Y))
  if_iff true x y (to, from) other =
      (λ h. inl (refl, to h), λ h. elim h [ inl (e, p) ↦ from p | inr (e, p) ↦ cc ])
  if_iff false x y other (to, from) =
      (λ h. inr (refl, to h), λ h. elim h [ inl (e, p) ↦ cc | inr (e, p) ↦ from p ])

  pub and_iff : (x y : Bool) → (x ≡ true) ↔ X → (y ≡ true) ↔ Y → ((x && y) ≡ true) ↔ (X × Y)
  and_iff true y (to, from) (to', from') = (λ h. (to refl, to' h), λ p. from' p.1)
  and_iff false y (to, from) other = (λ h. cc, λ p. from p.0)

  pub or_iff : (x y : Bool) → (x ≡ true) ↔ X → (y ≡ true) ↔ Y → ((x || y) ≡ true) ↔ (X ⊎ Y)
  or_iff true y (to, from) other = (λ h. inl (to refl), λ p. refl)
  or_iff false y (to, from) (to', from') = (
    λ h. inr (to' h),
    λ h. elim h [ inl p ↦ (let no : false ≡ true = from p in cc) | inr p ↦ from' p ],
  )
