-- ===== src/Base/Maps.antt =====
-- Go maps with string keys as association lists. The order of the list stands for the order in which
-- one run of the program visits the map.
use mathlib.Core.Path.{◌≡◌, refl}
use mathlib.Core.Logic.{inl, inr}
use mathlib.Core.Bool.{false}
use mathlib.Core.Option.{Option, none, some}
use mathlib.Core.List.{List, [], ◌∷◌}
use native.Mathlib.Omega.{arith}
use gotth_scim.Base.Tests.{if◌then◌else◌, Bool-cases}
use gotth_scim.Base.Lists.{All}
use gotth_scim.Base.Text.{Str, str_eq, str_eq_iff, str_eq_refl, eq_of_str_eq}

abbrev pub Map {ℓ} : Type ℓ → Type ℓ
Map V = List (Str × V)

module _ {ℓ} {V : Type ℓ} where
  unfoldable pub lookup : Str → Map V → Option V
  lookup k [] = none
  lookup k ((j, v) ∷ m) = if str_eq j k then some v else lookup k m

  unfoldable pub insert : Str → V → Map V → Map V
  insert k v [] = (k, v) ∷ []
  insert k v ((j, w) ∷ m) = if str_eq j k then (k, v) ∷ m else (j, w) ∷ insert k v m

  -- `delete`: every entry of the key.
  unfoldable pub erase : Str → Map V → Map V
  erase k [] = []
  erase k ((j, v) ∷ m) = let rest = erase k m in if str_eq j k then rest else (j, v) ∷ rest

  pub lookup-insert :
      (k j : Str) (v : V) (m : Map V)
      → lookup j (insert k v m) ≡ (if str_eq k j then some v else lookup j m)
  unfolding lookup insert
  lookup-insert key other value [] = refl
  lookup-insert key other value ((i, w) ∷ entries) = ground (
    arith,
    str_eq_iff i key,
    str_eq_iff i other,
    str_eq_iff key other,
    lookup-insert key other value entries,
  )

  pub lookup-erase :
      (k j : Str) (m : Map V) → lookup j (erase k m) ≡ (if str_eq k j then none else lookup j m)
  unfolding lookup erase
  lookup-erase k j [] = ground arith
  lookup-erase k j ((i, w) ∷ m) =
      ground (arith, str_eq_iff k j, str_eq_iff i k, str_eq_iff i j, lookup-erase k j m)

  pub lookup-insert_self : (k : Str) (v : V) (m : Map V) → lookup k (insert k v m) ≡ some v
  lookup-insert_self k v m = simp (lookup-insert, str_eq_refl)

  pub All-insert {κ} :
      (P : Str × V → Type κ) (k : Str) (v : V) (m : Map V)
      → P (k, v)
      → All P m
      → All P (insert k v m)
  unfolding insert
  All-insert P k v [] p h = (p, tt)
  All-insert P k v ((j, w) ∷ m) p (q, h) = elim (Bool-cases (str_eq j k)) [
    | inl e ↦ rw e (p, h)
    | inr e ↦ rw e (q, All-insert P k v m p h)
  ]

  pub All-erase {κ} : (P : Str × V → Type κ) (k : Str) (m : Map V) → All P m → All P (erase k m)
  unfolding erase
  All-erase P k [] h = tt
  All-erase P k ((j, w) ∷ m) (q, h) = elim (Bool-cases (str_eq j k)) [
    | inl e ↦ rw e (All-erase P k m h)
    | inr e ↦ rw e (q, All-erase P k m h)
  ]

  -- What every entry satisfies, the entry that is found satisfies.
  pub All-lookup {κ} :
      (P : Str × V → Type κ) (k : Str) (m : Map V) {v : V}
      → All P m
      → lookup k m ≡ some v
      → P (k, v)
  unfolding lookup
  All-lookup P k [] h e = cc
  All-lookup P k ((j, w) ∷ m) {v} (q, h) e = elim (Bool-cases (str_eq j k)) [
    | inl s ↦ let p : j ≡ k = eq_of_str_eq j k s in let r : w ≡ v = ground arith in rw (← p, ← r) q
    | inr s ↦ All-lookup P k m h (rw s at e)
  ]

  pub All-erase_ne {κ} :
      (P : Str × V → Type κ) (k : Str) (m : Map V)
      → All (λ p. str_eq p.0 k ≡ false → P p) m
      → All P (erase k m)
  unfolding erase
  All-erase_ne P k [] h = tt
  All-erase_ne P k ((j, w) ∷ m) (q, h) = elim (Bool-cases (str_eq j k)) [
    | inl e ↦ rw e (All-erase_ne P k m h)
    | inr e ↦ rw e (q e, All-erase_ne P k m h)
  ]
