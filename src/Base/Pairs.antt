-- ===== src/Base/Pairs.antt =====
-- Facts that hold of every two entries of a map, under insertion and removal.
use mathlib.Core.Path.{◌≡◌}
use mathlib.Core.Bool.{true, false}
use mathlib.Core.Option.{some}
use mathlib.Core.List.{[], ◌∷◌}
use mathlib.Core.Logic.{inl, inr}
use native.Mathlib.Omega.{arith}
use gotth_scim.Base.Tests.{Bool-cases}
use gotth_scim.Base.Lists.{All, All_imp}
use gotth_scim.Base.Text.{Str, str_eq, str_eq_iff}
use gotth_scim.Base.Maps.{Map, lookup, insert, erase, All-lookup, All-insert, All-erase}

abbrev pub Mutually {ℓ} : {V : Type ℓ} → (Str × V → Str × V → Type 0) → Map V → Type 0
Mutually R [] = Unit
Mutually R (p ∷ m) = All (R p) m × Mutually R m

-- The entries of two keys, and the keys differ.
abbrev pub Apart {ℓ} : {V : Type ℓ} → (V → V → Type 0) → Str × V → Str × V → Type 0
Apart S p q = (str_eq p.0 q.0 ≡ false) × S p.1 q.1

module _ {ℓ} {V : Type ℓ} (S : V → V → Type 0) (swap : (a b : V) → S a b → S b a) where
  flip : (p q : Str × V) → Apart S p q → Apart S q p
  flip p q (a, b) = (ground (arith, str_eq_iff p.0 q.0, str_eq_iff q.0 p.0), swap p.1 q.1 b)

  pub Mutually-erase : (k : Str) (m : Map V) → Mutually (Apart S) m → Mutually (Apart S) (erase k m)
  unfolding erase
  Mutually-erase k [] h = tt
  Mutually-erase k ((j, v) ∷ m) (a, h) = elim (Bool-cases (str_eq j k)) [
    | inl e ↦ rw e (Mutually-erase k m h)
    | inr e ↦ rw e (All-erase (Apart S (j, v)) k m a, Mutually-erase k m h)
  ]

  -- The entry at a key, against those at other keys.
  pub Mutually-lookup :
      (k : Str) (m : Map V) {v : V}
      → Mutually (Apart S) m
      → lookup k m ≡ some v
      → All (λ p. str_eq p.0 k ≡ false → S v p.1) m
  unfolding lookup
  Mutually-lookup k [] h e = tt
  Mutually-lookup k ((j, w) ∷ m) {v} (a, h) e = elim (Bool-cases (str_eq j k)) [
    | inl s ↦
        let found : w ≡ v = ground arith in
        ((λ n. absurd (ground arith)), All_imp (λ q r _. rw (← found) (r.1)) m a)
    | inr s ↦
        let later : lookup k m ≡ some v = ground arith in
        ((λ n. swap w v (All-lookup (Apart S (j, w)) k m a later).1), Mutually-lookup k m h later)
  ]

  replaced :
      (j k : Str) (v w : V) (m : Map V)
      → str_eq j k ≡ true
      → All (Apart S (j, w)) m
      → All (λ p. str_eq p.0 k ≡ false → S v p.1) m
      → All (Apart S (k, v)) m
  replaced j k v w [] e a g = tt
  replaced j k v w (p ∷ m) e (a, as_) (g, gs) =
      let other : str_eq k p.0 ≡ false =
        ground (arith, str_eq_iff j k, str_eq_iff k p.0, str_eq_iff j p.0) in
      let back : str_eq p.0 k ≡ false = ground (arith, str_eq_iff k p.0, str_eq_iff p.0 k) in
      ((other, g back), replaced j k v w m e as_ gs)

  pub Mutually-insert :
      (k : Str) (v : V) (m : Map V)
      → Mutually (Apart S) m
      → All (λ p. str_eq p.0 k ≡ false → S v p.1) m
      → Mutually (Apart S) (insert k v m)
  unfolding insert
  Mutually-insert k v [] h g = (tt, tt)
  Mutually-insert k v ((j, w) ∷ m) (a, h) (g, gs) = elim (Bool-cases (str_eq j k)) [
    | inl e ↦ rw e (replaced j k v w m e a gs, h)
    | inr e ↦
        rw e (All-insert (Apart S (j, w)) k v m (e, swap v w (g e)) a, Mutually-insert k v m h gs)
  ]
