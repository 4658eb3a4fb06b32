-- ===== src/Filter/Lexer/Total.antt =====
-- Lexing ends: every token takes a byte at least.
use gotth_scim.Base.{
  ℕ, zero, suc, ◌+◌, ◌≤◌, ◌<◌, Bool, true, false, ◌&&◌, not, leb, ◌==◌, if◌then◌else◌, Str, str_eq,
  length, Option, none, some, List, [], ◌∷◌, ◌++◌, Unicode, ◌≢◌, refl, ap, arith, List-cases, inl,
  inr,
}
use gotth_scim.Failure.{
  Result, ok, err, exhausted, ◌>>=◌, Settles, Settles-ok, Settles-fault, Settles-guard,
  Settles-bind,
}
use gotth_scim.Json.{str}
use gotth_scim.Schema.{valid_string, maximum_string_bytes}
use gotth_scim.Filter.{
  Token, literal, left_paren, right_paren, left_bracket, right_bracket, Literals,
}
use gotth_scim.Filter.Lexer.{
  skip_blank, scan_string, scan_word, required, quoted_token, word_token, scan_token, scan,
  lex_filter, last_byte, maximum_filter_tokens,
}

skip_blank-le : (s : Str) → length (skip_blank s) ≤ length s
unfolding skip_blank
skip_blank-le [] = omega arith
skip_blank-le (c ∷ s) = ground (arith, skip_blank-le s)

scan_string-le : (e : Bool) (s : Str) → length (scan_string e s).1 ≤ length s
unfolding scan_string
scan_string-le e [] = omega arith
scan_string-le e (c ∷ s) = ground (arith, scan_string-le (not e && c == 92) s)

scan_word-le : (s : Str) → length (scan_word s).1 ≤ length s
unfolding scan_word
scan_word-le [] = omega arith
scan_word-le (c ∷ s) = ground (arith, scan_word-le s)

-- A token was read, and no more than so many bytes are left; or an error of the program was met.
abbrev Within : ℕ → Result (Token × Str) → Type 0
Within n (ok (t, rest)) = length rest ≤ n
Within n (err f) = f ≢ exhausted

Within-if :
    (n : ℕ) (b : Bool) (x y : Result (Token × Str))
    → Within n x
    → Within n y
    → Within n (if b then x else y)
Within-if n true x y h k = h
Within-if n false x y h k = k

Within-token :
    (n : ℕ) (r : Result Token) (rest : Str)
    → Settles r
    → length rest ≤ n
    → Within n (r >>= λ t. ok (t, rest))
Within-token n (ok t) rest h k = k
Within-token n (err f) rest h k = λ e. h.settled (rw e refl)

Settles-required : {A : Type 0} (o : Option A) → Settles (required o)
unfolding required
Settles-required none = Settles-fault
Settles-required (some a) = Settles-ok a

module _ (u : Unicode) (l : Literals) where
  quoted_token-Settles : (taken rest : Str) → Settles (quoted_token u l taken rest)
  unfolding quoted_token
  quoted_token-Settles taken rest =
      Settles-guard (str_eq rest [] && not (last_byte taken == 34)) _ (
        Settles-bind (required (l.parse_string (34 ∷ taken))) _
          (Settles-required (l.parse_string (34 ∷ taken)))
          (λ value e.
            Settles-guard (not (valid_string u value maximum_string_bytes))
              (ok (literal (str value))) (Settles-ok (literal (str value)))))

  scan_token-Within : (c : ℕ) (s : Str) → Within (length s) (scan_token u l c s)
  unfolding scan_token
  scan_token-Within c s =
      let n : ℕ = length s in
      Within-if n (c == 40) (ok (left_paren, s)) _ (omega arith) (
        Within-if n (c == 41) (ok (right_paren, s)) _ (omega arith) (
          Within-if n (c == 91) (ok (left_bracket, s)) _ (omega arith) (
            Within-if n (c == 93) (ok (right_bracket, s)) _ (omega arith) (
              Within-if n (c == 34)
                (quoted_token u l (scan_string false s).0 (scan_string false s).1 >>= λ t.
                  ok (t, (scan_string false s).1))
                (ok (word_token u l (c ∷ (scan_word s).0), (scan_word s).1))
                (Within-token n _ (scan_string false s).1
                  (quoted_token-Settles (scan_string false s).0 (scan_string false s).1)
                  (scan_string-le false s))
                (scan_word-le s)))))

  after_token :
      (n : ℕ) (r : Result (Token × Str)) (f : Token × Str → Result (List Token))
      → Within n r
      → ((t : Token) (rest : Str) → length rest ≤ n → Settles (f (t, rest)))
      → Settles (r >>= f)
  after_token n (ok (t, rest)) f h k = k t rest h
  after_token n (err e) f h k = record { settled = λ q. h (cc) }

  scan-Settles :
      (fuel : ℕ) (tokens : List Token) (s : Str)
      → length s < fuel
      → Settles (scan u l fuel tokens s)
  unfolding scan
  scan-Settles zero tokens s h = absurd (omega arith)
  scan-Settles (suc fuel) tokens s h = elim (List-cases (skip_blank s)) [
    | inl e ↦ rw (e, scan) (Settles-ok tokens)
    | inr (c, rest, e) ↦
        let shorter : length rest < length s = omega (arith, skip_blank-le s, ap length e) in
        rw (e, scan)
          (Settles-guard (leb maximum_filter_tokens (length tokens)) _ (
            after_token (length rest) (scan_token u l c rest)
              (λ p. scan u l fuel (tokens ++ (p.0 ∷ [])) p.1) (scan_token-Within c rest)
              (λ t more less. scan-Settles fuel (tokens ++ (t ∷ [])) more (omega arith))))
  ]

  pub lex_filter-Settles : (raw : Str) → Settles (lex_filter u l raw)
  unfolding lex_filter
  lex_filter-Settles raw =
      Settles-guard _ (scan u l (length raw + 1) [] raw)
        (scan-Settles (length raw + 1) [] raw (omega arith))
