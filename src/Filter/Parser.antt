-- ===== src/Filter/Parser.antt =====
-- The recursive descent parser of pkg/scim/filter_expression.go. `parseOr`, `parseAnd`, `parseUnary` and
-- `parseAttribute` call one another; here the first two are built over the parser of an operand, and
-- that parser recurs on the nesting that is left. The code bounds the nesting by its depth.
pub mod Total
use gotth_scim.Base.{
  ℕ, zero, suc, ◌+◌, Bool, true, false, ltb, if◌then◌else◌, Str, bytes, str_eq, length, Option,
  none, some, List, [], ◌∷◌, Unicode,
}
use gotth_scim.Failure.{Result, ok, err, fault, exhausted, ◌>>=◌}
use gotth_scim.Filter.{
  Comparison, equal, not_equal, contains, starts_with, ends_with, greater_than, greater_equal,
  less_than, less_equal, Token, word, literal, left_paren, right_paren, left_bracket, right_bracket,
  Expression, Literals,
}
use gotth_scim.Filter.Lexer.{lex_filter}

abbrev pub maximum_filter_depth : ℕ
maximum_filter_depth = 32

abbrev pub Tokens : Type 0
Tokens = List Token

abbrev pub Parsed : Type 0
Parsed = Result (Expression × Tokens)

pub is_right_paren : Token → Bool
is_right_paren right_paren = true
is_right_paren _ = false

pub is_right_bracket : Token → Bool
is_right_bracket right_bracket = true
is_right_bracket _ = false

-- `parser.take().kind != …`, and the tokens behind it.
pub expect : (Token → Bool) → Tokens → Result Tokens
expect p [] = err fault
expect p (t ∷ ts) = if p t then ok ts else err fault

-- The token that closes a group, behind the expression in it.
pub closed : (Token → Bool) → (Expression → Expression) → Parsed → Parsed
unfolding expect
closed p wrap inner = do (child, ts) ← inner; rest ← expect p ts; ok (wrap child, rest)

module _ (u : Unicode) where
  -- `parser.word(value)`, and the tokens behind the word.
  pub after_word : Str → Tokens → Option Tokens
  after_word name (word text ∷ ts) = if u.equal_fold text name then some ts else none
  after_word name _ = none

  -- The loop over the operands that a logical word joins, with the operand before it.
  pub chain :
      Str
      → (Expression → Expression → Expression)
      → (Tokens → Parsed)
      → ℕ
      → Expression
      → Tokens
      → Parsed
  unfolding after_word
  chain name join operand zero left ts = err exhausted
  chain name join operand (suc fuel) left ts = elim (after_word name ts) [
    | none ↦ ok (left, ts)
    | some rest ↦ do
      (right, more) ← operand rest
      chain name join operand fuel (join left right) more
  ]

  pub joined : Str → (Expression → Expression → Expression) → (Tokens → Parsed) → Tokens → Parsed
  unfolding chain
  joined name join operand ts = do
    (left, rest) ← operand ts
    chain name join operand (length rest + 1) left rest

  -- `parseOr` over `parseAnd`, over the parser of an operand at a depth.
  pub parse_or_with : (ℕ → Tokens → Parsed) → ℕ → Tokens → Parsed
  unfolding joined
  parse_or_with unary depth =
      joined (bytes "or") Expression.disjunction
        (joined (bytes "and") Expression.conjunction (unary (depth + 2)))

  operator_of : Str → Result Comparison
  operator_of s =
      if str_eq s (bytes "eq")
      then ok equal
      else if str_eq s (bytes "ne")
      then ok not_equal
      else if str_eq s (bytes "co")
      then ok contains
      else if str_eq s (bytes "sw")
      then ok starts_with
      else if str_eq s (bytes "ew")
      then ok ends_with
      else if str_eq s (bytes "gt")
      then ok greater_than
      else if str_eq s (bytes "ge")
      then ok greater_equal
      else if str_eq s (bytes "lt")
      then ok less_than
      else if str_eq s (bytes "le")
      then ok less_equal
      else err fault

  -- The value behind a comparison operator.
  compared : Str → Comparison → Tokens → Parsed
  compared attribute op (literal v ∷ ts) = ok (Expression.comparison op attribute v, ts)
  compared attribute op _ = err fault

  pub operated : Str → Str → Tokens → Parsed
  unfolding operator_of compared
  operated attribute text ts =
      if str_eq (u.to_lower text) (bytes "pr")
      then ok (Expression.present attribute, ts)
      else do op ← operator_of (u.to_lower text); compared attribute op ts

  -- `parseAttribute`, behind its test of the depth.
  pub parse_attribute : (ℕ → Tokens → Parsed) → ℕ → Tokens → Parsed
  unfolding closed operated is_right_bracket
  parse_attribute or_ depth (word attribute ∷ left_bracket ∷ ts) =
      closed is_right_bracket (Expression.value_path attribute) (or_ (depth + 1) ts)
  parse_attribute or_ depth (word attribute ∷ word text ∷ ts) = operated attribute text ts
  parse_attribute or_ depth _ = err fault

  negated : (ℕ → Tokens → Parsed) → ℕ → Tokens → Parsed
  unfolding closed is_right_paren
  negated or_ depth (left_paren ∷ ts) =
      closed is_right_paren Expression.negation (or_ (depth + 1) ts)
  negated or_ depth _ = err fault

  plain_operand : (ℕ → Tokens → Parsed) → ℕ → Tokens → Parsed
  unfolding closed is_right_paren parse_attribute
  plain_operand or_ depth (left_paren ∷ ts) = closed is_right_paren (λ e. e) (or_ (depth + 1) ts)
  plain_operand or_ depth ts =
      if ltb maximum_filter_depth (depth + 1) then err fault else parse_attribute or_ (depth + 1) ts

  -- `parseUnary`, given the parser of a nested expression.
  pub operand_with : (ℕ → Tokens → Parsed) → ℕ → Tokens → Parsed
  unfolding negated plain_operand after_word
  operand_with or_ depth ts =
      if ltb maximum_filter_depth depth then err fault else elim (after_word (bytes "not") ts) [
        | none ↦ plain_operand or_ depth ts
        | some rest ↦ negated or_ depth rest
      ]

  pub parse_unary : ℕ → ℕ → Tokens → Parsed
  unfolding operand_with parse_or_with
  parse_unary zero depth ts = err exhausted
  parse_unary (suc nesting) depth ts = operand_with (parse_or_with (parse_unary nesting)) depth ts

  finished : Parsed → Result Expression
  finished (ok (e, [])) = ok e
  finished (ok (e, t ∷ ts)) = err fault
  finished (err e) = err e

  -- The parser's part of `parseFilter`. Each level of nesting is three deeper, so that twelve levels reach
  -- beyond the maximum depth.
  unfoldable pub parse_tokens : Tokens → Result Expression
  unfolding finished parse_or_with parse_unary
  parse_tokens ts = finished (parse_or_with (parse_unary 12) 0 ts)

  unfoldable pub parse_text : Literals → Str → Result Expression
  unfolding parse_tokens
  parse_text l raw = do tokens ← lex_filter u l raw; parse_tokens tokens
