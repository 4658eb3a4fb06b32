-- ===== src/Search/Count.antt =====
-- `parseSearchCount`, of pkg/scim/search.go, on a machine whose `int` has 64 bits.
use gotth_scim.Base.{
  ℕ, ◌+◌, ◌-◌, ◌*◌, ◌^◌, ◌≤◌, ◌<◌, min, List-cases, Bool-cases, Bool, true, false, ◌&&◌, ◌||◌, not,
  ltb, leb, ◌==◌, if◌then◌else◌, Str, bytes, str_eq, Sign, greater, compare_bytes, length, all, [],
  ◌∷◌, ◌≡◌, ◌≢◌, refl, arith, inl, inr, and-parts,
}
use native.Mathlib.Nat.{mul-le-mul_right, pow-le-pow_right}
use gotth_scim.Failure.{Result, ok, err, fault, ◌>>◌, refuse}

unfoldable pub is_digit : ℕ → Bool
is_digit c = leb 48 c && leb c 57

-- What `strconv.Atoi` makes of digits.
unfoldable pub decimal : Str → ℕ
decimal [] = 0
decimal (c ∷ s) = (c - 48) * 10 ^ length s + decimal s

-- `strings.TrimLeft(_, "0")`
unfoldable pub trim_zeros : Str → Str
trim_zeros [] = []
trim_zeros (c ∷ s) = let rest = trim_zeros s in if c == 48 then rest else c ∷ s

abbrev pub maximum_int : ℕ
maximum_int = 9223372036854775807

unfoldable pub maximum_text : Str
unfolding bytes
maximum_text = bytes "9223372036854775807"

abbrev is_greater : Sign → Bool
is_greater greater = true
is_greater _ = false

-- The part behind the leading zeros: a number that does not fit is the largest that does.
unfoldable pub saturated : Str → ℕ
unfolding decimal maximum_text compare_bytes
saturated [] = 0
saturated (c ∷ s) =
    if ltb (length maximum_text) (length (c ∷ s))
      || (length (c ∷ s) == length maximum_text && is_greater (compare_bytes (c ∷ s) maximum_text))
    then maximum_int
    else decimal (c ∷ s)

unfoldable pub unsigned_count : Bool → Str → Result ℕ
unfolding is_digit saturated trim_zeros str_eq
unsigned_count negative digits = do
  refuse (str_eq digits []) fault
  refuse (not (all is_digit digits)) fault
  ok (if negative then 0 else saturated (trim_zeros digits))

unfoldable pub parse_search_count : Str → Result ℕ
unfolding unsigned_count
parse_search_count [] = err fault
parse_search_count (c ∷ s) =
    if c == 45 || c == 43 then unsigned_count (c == 45) s else unsigned_count false (c ∷ s)

scaled-le : (a b p : ℕ) → a ≤ b → a * p ≤ b * p
scaled-le a b p h = mul-le-mul_right p h

decimal-lt : (s : Str) → all is_digit s ≡ true → decimal s < 10 ^ length s
unfolding decimal is_digit
decimal-lt [] h = ground arith
decimal-lt (c ∷ s) h =
    let (digit, digits) = and-parts (is_digit c) (all is_digit s) h in
    ground (arith, decimal-lt s digits, scaled-le (c - 48) 9 (10 ^ length s))

decimal-trim_zeros : (s : Str) → decimal (trim_zeros s) ≡ decimal s
unfolding decimal trim_zeros
decimal-trim_zeros [] = refl
decimal-trim_zeros (c ∷ s) = ground (arith, decimal-trim_zeros s)

digits-trim_zeros : (s : Str) → all is_digit s ≡ true → all is_digit (trim_zeros s) ≡ true
unfolding trim_zeros
digits-trim_zeros [] h = h
digits-trim_zeros (c ∷ s) h = ground (arith, digits-trim_zeros s)

-- Texts of digits of one length are in the order of their numbers.
compare_bytes-decimal :
    (s t : Str)
    → length s ≡ length t
    → all is_digit s ≡ true
    → all is_digit t ≡ true
    → (is_greater (compare_bytes s t) ≡ true → decimal t < decimal s)
      × (is_greater (compare_bytes s t) ≡ false → decimal s ≤ decimal t)
unfolding decimal compare_bytes is_digit
compare_bytes-decimal [] [] e h k = (λ g. cc, λ g. ground arith)
compare_bytes-decimal (c ∷ s) [] e h k = absurd (omega arith)
compare_bytes-decimal [] (d ∷ t) e h k = absurd (omega arith)
compare_bytes-decimal (c ∷ s) (d ∷ t) e h k =
    let (c_digit, s_digits) = and-parts (is_digit c) (all is_digit s) h in
    let (d_digit, t_digits) = and-parts (is_digit d) (all is_digit t) k in
    let same_length : length s ≡ length t = omega arith in
    let (above, below) = compare_bytes-decimal s t same_length s_digits t_digits in
    let s_lt : decimal s < 10 ^ length t = rw same_length at (decimal-lt s s_digits) in
    let t_lt = decimal-lt t t_digits in
    rw same_length (
      (λ g. ground (arith, above, scaled-le (d - 48 + 1) (c - 48) (10 ^ length t))),
      (λ g. ground (arith, below, scaled-le (c - 48 + 1) (d - 48) (10 ^ length t))),
    )

decimal-ge :
    (c : ℕ) (s : Str) → is_digit c ≡ true → (c == 48) ≡ false → 10 ^ length s ≤ decimal (c ∷ s)
unfolding decimal is_digit
decimal-ge c s h k = ground (arith, scaled-le 1 (c - 48) (10 ^ length s))

-- What is left has no leading zero.
trim_zeros-head : (s : Str) (c : ℕ) (t : Str) → trim_zeros s ≡ c ∷ t → (c == 48) ≡ false
unfolding trim_zeros
trim_zeros-head [] c t h = cc
trim_zeros-head (d ∷ s) c t h = ground (arith, trim_zeros-head s c t)

power-le : (i j : ℕ) → i ≤ j → 10 ^ i ≤ 10 ^ j
power-le i j h = pow-le-pow_right (omega arith) h

saturated-min :
    (c : ℕ) (s : Str)
    → all is_digit (c ∷ s) ≡ true
    → (c == 48) ≡ false
    → saturated (c ∷ s) ≡ min maximum_int (decimal (c ∷ s))
unfolding saturated maximum_text is_digit decimal bytes compare_bytes
saturated-min c s h k =
    let (digit, _) = and-parts (is_digit c) (all is_digit s) h in
    let large = decimal-ge c s digit k in
    let small = decimal-lt (c ∷ s) h in
    elim (Bool-cases (ltb 19 (length (c ∷ s)))) [
      | inl long ↦
          let power : 10 ^ 19 ≤ 10 ^ length s = power-le 19 (length s) (ground arith) in
          let enough : 10000000000000000000 ≤ 10 ^ length s = power in ground arith
      | inr not_long ↦ elim (Bool-cases (length (c ∷ s) == 19)) [
        | inl same_length ↦
            let (above, below) = compare_bytes-decimal (c ∷ s) maximum_text (ground arith) h refl in
            let value : decimal maximum_text ≡ maximum_int = refl in
            elim (Bool-cases (is_greater (compare_bytes (c ∷ s) maximum_text))) [
              | inl g ↦ let over = above g in ground arith
              | inr g ↦ let under = below g in ground arith
            ]
        | inr other_length ↦
            let power : 10 ^ length (c ∷ s) ≤ 10 ^ 18 =
              power-le (length (c ∷ s)) 18 (ground arith) in
            let enough : 10 ^ length (c ∷ s) ≤ 1000000000000000000 = power in ground arith
      ]
    ]

trimmed-min :
    (s : Str) → all is_digit s ≡ true → saturated (trim_zeros s) ≡ min maximum_int (decimal s)
trimmed-min s h = elim (List-cases (trim_zeros s)) [
  | inl e ↦ rw (← decimal-trim_zeros s, e) (unfold saturated decimal in refl)
  | inr (c, t, e) ↦
      rw (← decimal-trim_zeros s, e)
        (saturated-min c t (rw e at (digits-trim_zeros s h)) (trim_zeros-head s c t e))
]

-- A count of digits, after a plus sign or none, is the number that they write, or the largest `int` where that
-- is less; one after a minus sign is zero. So no count is an error for its size, and none wraps around.
pub parse_search_count-min :
    (s : Str)
    → s ≢ []
    → all is_digit s ≡ true
    → (parse_search_count s ≡ ok (min maximum_int (decimal s)))
      × (parse_search_count (43 ∷ s) ≡ ok (min maximum_int (decimal s)))
      × (parse_search_count (45 ∷ s) ≡ ok 0)
unfolding parse_search_count unsigned_count str_eq is_digit
parse_search_count-min [] e h = absurd (e refl)
parse_search_count-min (c ∷ s) e h =
    let min_of = trimmed-min (c ∷ s) h in
    let head : is_digit c ≡ true = (and-parts (is_digit c) (all is_digit s) h).0 in ground arith
