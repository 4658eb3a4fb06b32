-- ===== src/Base/Text.antt =====
-- Go strings as lists of bytes, and what Go's standard library does on them. What is decided by the
-- bytes alone is defined here; `Unicode` collects what rests on Unicode tables.
use Prim.Native.Nat.{ℕ, ◌<◌}
use Prim.Native.Char.{code}
use Prim.Native.String.{String}
use mathlib.Core.Path.{refl, ◌≡◌}
use mathlib.Core.Logic.{◌↔◌, ◌⊎◌, inl, inr}
use mathlib.Core.Bool.{Bool, true, false, ◌&&◌, ◌||◌}
use mathlib.Core.Option.{Option, none, some}
use mathlib.Core.List.{List, [], ◌∷◌}
use native.Mathlib.Omega.{arith}
use gotth_scim.Base.Tests.{◌==◌, ltb, if◌then◌else◌, and-parts, ==_iff, Bool-cases}

abbrev pub Str : Type 0
Str = List ℕ

-- A literal of ASCII characters. It stays shut, so that a name is one atom in a proof.
unfoldable pub bytes : String → Str
bytes String.[] = []
bytes (String.◌∷◌ c s) = code c ∷ bytes s

unfoldable pub str_eq : Str → Str → Bool
str_eq [] [] = true
str_eq (x ∷ xs) (y ∷ ys) = x == y && str_eq xs ys
str_eq _ _ = false

pub str_eq_refl : (s : Str) → str_eq s s ≡ true
unfolding str_eq
str_eq_refl [] = refl
str_eq_refl (x ∷ s) = ground (arith, str_eq_refl s)

pub eq_of_str_eq : (s t : Str) → str_eq s t ≡ true → s ≡ t
unfolding str_eq
eq_of_str_eq [] [] h = refl
eq_of_str_eq [] (y ∷ t) h = cc
eq_of_str_eq (x ∷ s) [] h = cc
eq_of_str_eq (x ∷ s) (y ∷ t) h =
    let (a, b) = and-parts (x == y) (str_eq s t) h in
    let p : x ≡ y = (==_iff x y).0 a in let q : s ≡ t = eq_of_str_eq s t b in cc

pub str_eq_iff : (s t : Str) → (str_eq s t ≡ true) ↔ (s ≡ t)
str_eq_iff s t = (eq_of_str_eq s t, λ e. rw e (str_eq_refl t))

-- strings.Compare: the order of bytes, negative before zero before positive.
pub data Sign : Type 0 where
  less same greater : Sign

unfoldable pub compare_bytes : Str → Str → Sign
compare_bytes [] [] = same
compare_bytes [] (y ∷ ys) = less
compare_bytes (x ∷ xs) [] = greater
compare_bytes (x ∷ xs) (y ∷ ys) =
    let rest = compare_bytes xs ys in if ltb x y then less else if ltb y x then greater else rest

-- The order of a dictionary on the bytes of two texts.
abbrev pub Precedes : Str → Str → Type 0
Precedes [] t = Unit
Precedes (x ∷ s) [] = ⊥
Precedes (x ∷ s) (y ∷ t) = (x < y) ⊎ ((x ≡ y) × Precedes s t)

pub Precedes-chain : (r s t : Str) → Precedes r s → Precedes s t → Precedes r t
Precedes-chain [] s t a b = tt
Precedes-chain (x ∷ r) [] t a b = elim a [ ]
Precedes-chain (x ∷ r) (y ∷ s) [] a b = elim b [ ]
Precedes-chain (x ∷ r) (y ∷ s) (z ∷ t) (inl a) (inl b) = inl (omega arith)
Precedes-chain (x ∷ r) (y ∷ s) (z ∷ t) (inl a) (inr (e, b)) = inl (omega arith)
Precedes-chain (x ∷ r) (y ∷ s) (z ∷ t) (inr (e, a)) (inl b) = inl (omega arith)
Precedes-chain (x ∷ r) (y ∷ s) (z ∷ t) (inr (e, a)) (inr (f, b)) =
    inr (omega arith, Precedes-chain r s t a b)

abbrev pub is_less : Sign → Bool
is_less less = true
is_less _ = false

pub compare_bytes-Precedes : (s t : Str) → is_less (compare_bytes s t) ≡ true → Precedes s t
unfolding compare_bytes
compare_bytes-Precedes [] t h = tt
compare_bytes-Precedes (x ∷ s) [] h = cc
compare_bytes-Precedes (x ∷ s) (y ∷ t) h = elim (Bool-cases (ltb x y)) [
  | inl e ↦ inl (ground arith)
  | inr e ↦ elim (Bool-cases (ltb y x)) [
    | inl f ↦ let no : false ≡ true = rw (e, f) at h in cc
    | inr f ↦
        let rest : is_less (compare_bytes s t) ≡ true = rw (e, f) at h in
        inr (ground arith, compare_bytes-Precedes s t rest)
  ]
]

pub compare_bytes-Precedes_back : (s t : Str) → is_less (compare_bytes s t) ≡ false → Precedes t s
unfolding compare_bytes
compare_bytes-Precedes_back [] [] h = tt
compare_bytes-Precedes_back [] (y ∷ t) h = cc
compare_bytes-Precedes_back (x ∷ s) [] h = tt
compare_bytes-Precedes_back (x ∷ s) (y ∷ t) h = elim (Bool-cases (ltb x y)) [
  | inl e ↦ let no : true ≡ false = rw e at h in cc
  | inr e ↦ elim (Bool-cases (ltb y x)) [
    | inl f ↦ inl (ground arith)
    | inr f ↦
        let rest : is_less (compare_bytes s t) ≡ false = rw (e, f) at h in
        inr (ground arith, compare_bytes-Precedes_back s t rest)
  ]
]

-- strings.HasPrefix, with what follows the prefix
unfoldable pub strip_prefix : Str → Str → Option Str
strip_prefix [] s = some s
strip_prefix (p ∷ ps) [] = none
strip_prefix (p ∷ ps) (x ∷ s) = let rest = strip_prefix ps s in if p == x then rest else none

unfoldable pub has_prefix : Str → Str → Bool
unfolding strip_prefix
has_prefix p s = elim (strip_prefix p s) [ none ↦ false | some _ ↦ true ]

unfoldable pub has_byte : ℕ → Str → Bool
has_byte c [] = false
has_byte c (x ∷ s) = x == c || has_byte c s

-- strings.Split on one byte: never empty.
abbrev split_more : ℕ → List Str → List Str
split_more c [] = (c ∷ []) ∷ []
split_more c (part ∷ parts) = (c ∷ part) ∷ parts

unfoldable pub split : ℕ → Str → List Str
split sep [] = [] ∷ []
split sep (c ∷ s) = let rest = split sep s in if c == sep then [] ∷ rest else split_more c rest

-- What the program takes from Go's Unicode tables: strings.ToLower, strings.EqualFold, the full case
-- folding of golang.org/x/text/cases, utf8.ValidString, unicode.IsControl in a string, and
-- strings.TrimSpace. EqualFold is simple folding, an equivalence; nothing relates it to ToLower.
-- U+0000 is a control character.
pub record Unicode : Type 0 where
  pub to_lower : Str → Str
  pub equal_fold : Str → Str → Bool
  pub fold : Str → Str
  pub valid_utf8 : Str → Bool
  pub has_control : Str → Bool
  pub trim_space : Str → Str
  pub equal_fold_refl : (s : Str) → equal_fold s s ≡ true
  pub equal_fold_sym : (s t : Str) → equal_fold s t ≡ true → equal_fold t s ≡ true
  pub equal_fold_trans :
      (s t u : Str) → equal_fold s t ≡ true → equal_fold t u ≡ true → equal_fold s u ≡ true
  pub zero_is_control : (s : Str) → has_byte 0 s ≡ true → has_control s ≡ true
