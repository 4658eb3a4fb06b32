-- ===== src/Schema/Exact.antt =====
-- `ValidateSchemas` of pkg/scim/schemas.go: the schemas of a message against the required ones.
use gotth_scim.Base.{
  ◌≤◌, ◌<◌, Bool, true, false, ◌||◌, not, ◌==◌, if◌then◌else◌, Str, str_eq, str_eq_iff, List, [],
  ◌∷◌, length, any, map, All, All_imp, All_zip, not_any_of_All, All_of_not_any, Unicode, ◌≡◌, refl,
  arith, Bool-cases, inl, inr, or-eq-false,
}
use gotth_scim.Failure.{Result, ok, fault, ◌>>◌, refuse, refuse-ok}

abbrev pub listed : Str → List Str → Bool
listed s names = any (str_eq s) names

module _ (u : Unicode) where
  -- The loop over the schemas, with those seen before.
  pub admit : List Str → List Str → List Str → Result (Unit {0})
  admit want seen [] = ok tt
  admit want seen (s ∷ names) = do
    refuse (listed (u.to_lower s) seen) fault
    refuse (not (listed (u.to_lower s) want)) fault
    admit want (u.to_lower s ∷ seen) names

  -- `ValidateSchemas`
  unfoldable pub validate_schemas : List Str → List Str → Result (Unit {0})
  unfolding admit
  validate_schemas actual expected = do
    refuse (not (length actual == length expected) || length actual == 0) fault
    refuse (any (λ s. str_eq s []) expected) fault
    admit (map u.to_lower expected) [] actual

-- No name stands twice.
abbrev pub Distinct : List Str → Type 0
Distinct [] = Unit
Distinct (s ∷ names) = (listed s names ≡ false) × Distinct names

remove : Str → List Str → List Str
remove s [] = []
remove s (t ∷ names) = let rest = remove s names in if str_eq t s then names else t ∷ rest

length-remove :
    (s : Str) (names : List Str) → listed s names ≡ true → length (remove s names) < length names
unfolding remove
length-remove s [] h = cc
length-remove s (t ∷ names) h = elim (Bool-cases (str_eq t s)) [
  | inl y ↦ rw y (omega arith)
  | inr n ↦ rw n (omega (arith, length-remove s names (later (str_eq t s) n h)))
]
  where
    later :
        (b : Bool)
        → str_eq t s ≡ false
        → (str_eq s t || listed s names) ≡ true
        → listed s names ≡ true
    later b n h = ground (arith, str_eq_iff s t, str_eq_iff t s)

listed-remove :
    (z s : Str) (names : List Str)
    → str_eq z s ≡ false
    → listed z names ≡ true
    → listed z (remove s names) ≡ true
unfolding remove
listed-remove z s [] e h = cc
listed-remove z s (t ∷ names) e h = elim (Bool-cases (str_eq t s)) [
  | inl y ↦ rw y (ground (arith, str_eq_iff z s, str_eq_iff t s, str_eq_iff z t))
  | inr n ↦ rw n (elim (Bool-cases (str_eq z t)) [
    | inl y' ↦ rw y' refl
    | inr n' ↦ rw n' (listed-remove z s names e (rw n' at h))
  ])
]

restore :
    (s : Str) (names ys : List Str)
    → All (λ y. listed y names ≡ true) (remove s ys)
    → All (λ y. listed y (s ∷ names) ≡ true) ys
unfolding remove
restore s names [] h = tt
restore s names (y ∷ ys) h = elim (Bool-cases (str_eq y s)) [
  | inl e ↦ (
    rw e refl,
    All_imp {P = λ z. listed z names ≡ true} (λ z p. rw p (ground arith)) ys (rw e at h),
  )
  | inr n ↦ let (p, q) = rw n at h in (rw (n, p) refl, restore s names ys q)
]

-- Of two lists, the second not longer: if the first holds no name twice and only names of the second,
-- it holds all of them.
exhausts :
    (xs ys : List Str)
    → Distinct xs
    → All (λ x. listed x ys ≡ true) xs
    → length ys ≤ length xs
    → All (λ y. listed y xs ≡ true) ys
exhausts [] [] d h l = tt
exhausts [] (y ∷ ys) d h l = absurd (omega arith)
exhausts (x ∷ xs) ys (n, d) (p, h) l = restore x xs ys (
    exhausts xs (remove x ys) d
      (All_zip {P = λ z. str_eq x z ≡ false} {Q = λ z. listed z ys ≡ true}
        (λ z a b. listed-remove z x ys (ground (arith, str_eq_iff x z, str_eq_iff z x)) b) xs
        (All_of_not_any (str_eq x) xs n) h)
      (omega (arith, length-remove x ys p, l)))

length-map : (f : Str → Str) (names : List Str) → length (map f names) ≡ length names
length-map f [] = refl
length-map f (s ∷ names) = omega (arith, length-map f names)

module _ (u : Unicode) where
  -- What the loop has checked when it succeeds.
  admit-parts :
      (want seen names : List Str)
      → admit u want seen names ≡ ok tt
      → Distinct (map u.to_lower names)
        × All (λ s. listed s seen ≡ false) (map u.to_lower names)
        × All (λ s. listed s want ≡ true) (map u.to_lower names)
  unfolding admit
  admit-parts want seen [] h = (tt, tt, tt)
  admit-parts want seen (s ∷ names) h =
      let (fresh, h1) = refuse-ok (listed (u.to_lower s) seen) fault _ h in
      let (wanted, h2) = refuse-ok (not (listed (u.to_lower s) want)) fault _ h1 in
      let (d, unseen, w) = admit-parts want (u.to_lower s ∷ seen) names h2 in
      let rest = map u.to_lower names in
      (
        (
          not_any_of_All (str_eq (u.to_lower s)) rest (
              All_imp {P = λ z. listed z (u.to_lower s ∷ seen) ≡ false}
                (λ z p. ground (
                  arith,
                  str_eq_iff z (u.to_lower s),
                  str_eq_iff (u.to_lower s) z,
                  or-eq-false (str_eq z (u.to_lower s)) (listed z seen) p,
                ))
                rest unseen),
          d,
        ),
        (
          fresh,
          All_imp {P = λ z. listed z (u.to_lower s ∷ seen) ≡ false}
              (λ z p. (or-eq-false (str_eq z (u.to_lower s)) (listed z seen) p).1) rest unseen,
        ),
        (ground arith, w),
      )

  -- Schemas that are admitted are the required set, without regard to case: as many as required, none
  -- twice, each of them required, and each required one among them.
  pub validate_schemas-Distinct :
      (actual expected : List Str)
      → validate_schemas u actual expected ≡ ok tt
      → (length actual ≡ length expected)
        × Distinct (map u.to_lower actual)
        × All (λ s. listed s (map u.to_lower expected) ≡ true) (map u.to_lower actual)
        × All (λ s. listed s (map u.to_lower actual) ≡ true) (map u.to_lower expected)
  unfolding validate_schemas
  validate_schemas-Distinct actual expected h =
      let (g, h1) =
        refuse-ok (not (length actual == length expected) || length actual == 0) fault _ h in
      let (_, h2) = refuse-ok (any (λ s. str_eq s []) expected) fault _ h1 in
      let (d, _, w) = admit-parts (map u.to_lower expected) [] actual h2 in
      let same : length actual ≡ length expected = ground arith in
      (
        same,
        d,
        w,
        exhausts (map u.to_lower actual) (map u.to_lower expected) d w
            (omega (arith, same, length-map u.to_lower actual, length-map u.to_lower expected)),
      )
