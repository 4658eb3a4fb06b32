-- ===== src/Filter/Lexer.antt =====
-- `lexFilter` of pkg/scim/filter_expression.go.
pub mod Total
use gotth_scim.Base.{
  ℕ, zero, suc, ◌+◌, ◌≤◌, Bool, true, false, ◌&&◌, ◌||◌, not, ltb, leb, ◌==◌, if◌then◌else◌, Str,
  bytes, str_eq, length, Option, none, some, List, [], ◌∷◌, ◌++◌, Unicode, arith,
}
use gotth_scim.Failure.{Result, ok, err, fault, exhausted, ◌>>=◌, ◌>>◌, refuse}
use gotth_scim.Json.{null, bool, num, str}
use gotth_scim.Schema.{valid_string, maximum_string_bytes}
use gotth_scim.Filter.{
  Token, word, literal, left_paren, right_paren, left_bracket, right_bracket, Literals,
}

abbrev maximum_filter_bytes : ℕ
maximum_filter_bytes = 4096

abbrev maximum_filter_tokens : ℕ
maximum_filter_tokens = 512

is_blank : ℕ → Bool
is_blank c = c == 32 || c == 9

skip_blank : Str → Str
unfolding is_blank
skip_blank [] = []
skip_blank (c ∷ s) = if is_blank c then skip_blank s else c ∷ s

-- The loop over a quoted string, from behind the opening quote: the bytes that it passes, and the rest.
scan_string : Bool → Str → Str × Str
scan_string escaped [] = ([], [])
scan_string escaped (c ∷ s) =
    let (taken, rest) = scan_string (not escaped && c == 92) s in
    if not escaped && c == 34 then (34 ∷ [], s) else (c ∷ taken, rest)

-- The last byte, and a quote for the empty text: the opening quote stands before it.
last_byte : Str → ℕ
last_byte [] = 34
last_byte (c ∷ []) = c
last_byte (c ∷ d ∷ s) = last_byte (d ∷ s)

ends_word : ℕ → Bool
unfolding is_blank
ends_word c = is_blank c || c == 40 || c == 41 || c == 91 || c == 93

scan_word : Str → Str × Str
unfolding ends_word
scan_word [] = ([], [])
scan_word (c ∷ s) =
    let (taken, rest) = scan_word s in if ends_word c then ([], c ∷ s) else (c ∷ taken, rest)

required {ℓ} : {A : Type ℓ} → Option A → Result A
required none = err fault
required (some a) = ok a

module _ (u : Unicode) (l : Literals) where
  quoted_token : Str → Str → Result Token
  unfolding last_byte required
  quoted_token taken rest = do
    refuse (str_eq rest [] && not (last_byte taken == 34)) fault
    value ← required (l.parse_string (34 ∷ taken))
    refuse (not (valid_string u value maximum_string_bytes)) fault
    ok (literal (str value))

  word_token : Str → Token
  word_token text =
      let lower = u.to_lower text in
      if str_eq lower (bytes "true")
      then literal (bool true)
      else if str_eq lower (bytes "false")
      then literal (bool false)
      else if str_eq lower (bytes "null")
      then literal null
      else if l.is_number text
      then literal (num text)
      else word text

  -- One token, from its first byte.
  scan_token : ℕ → Str → Result (Token × Str)
  unfolding quoted_token word_token scan_string scan_word
  scan_token c s =
      if c == 40
      then ok (left_paren, s)
      else if c == 41
      then ok (right_paren, s)
      else if c == 91
      then ok (left_bracket, s)
      else if c == 93
      then ok (right_bracket, s)
      else if c == 34
      then (let (taken, rest) = scan_string false s in
          do token ← quoted_token taken rest; ok (token, rest))
      else (let (taken, rest) = scan_word s in ok (word_token (c ∷ taken), rest))

  scan : ℕ → List Token → Str → Result (List Token)
  scan zero tokens s = err exhausted
  scan (suc fuel) tokens s = elim (skip_blank s) [
    | [] ↦ ok tokens
    | c ∷ rest ↦ do
      refuse (leb maximum_filter_tokens (length tokens)) fault
      (token, after) ← scan_token c rest
      scan fuel (tokens ++ (token ∷ [])) after
  ]

  pub lex_filter : Str → Result (List Token)
  lex_filter raw = do
    refuse
        (str_eq raw []
          || ltb maximum_filter_bytes (length raw)
          || not (u.valid_utf8 raw)
          || u.has_control raw)
        fault
    scan (length raw + 1) [] raw
