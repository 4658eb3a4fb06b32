-- ===== src/Filter/Parser/Total.antt =====
-- Parsing ends: a parser of an operand consumes a token at least, so that its loops end, and the depth
-- that the code allows is reached before the nesting runs out.
use gotth_scim.Base.{
  ℕ, zero, suc, ◌+◌, ◌*◌, ◌≤◌, ◌<◌, Bool, true, false, ltb, if◌then◌else◌, Str, bytes, str_eq,
  length, none, some, [], ◌∷◌, Unicode, ◌≡◌, ◌≢◌, refl, ap, arith, Option-cases, Bool-cases, inl,
  inr,
}
use gotth_scim.Failure.{
  Settles-bind, Failure, Result, ok, err, fault, exhausted, ◌>>=◌, Settles, Settles-ok,
  Settles-fault,
}
use gotth_scim.Filter.{
  Literals, Comparison, Token, word, literal, left_paren, left_bracket, Expression,
}
use gotth_scim.Filter.Lexer.{lex_filter}
use gotth_scim.Filter.Lexer.Total.{lex_filter-Settles}
use gotth_scim.Filter.Parser.{
  parse_text, Tokens, Parsed, closed, is_right_paren, is_right_bracket, after_word, chain, joined,
  parse_or_with, operator_of, compared, operated, parse_attribute, negated, plain_operand,
  operand_with, parse_unary, finished, parse_tokens, maximum_filter_depth,
}

-- A parser's result on some number of tokens: the fuel did not run out, and fewer tokens are left.
abbrev pub Consumes : ℕ → Parsed → Type 0
Consumes n (ok (e, rest)) = length rest < n
Consumes n (err f) = f ≢ exhausted

-- A parser that does so on all tokens.
abbrev pub Advances : (Tokens → Parsed) → Type 0
Advances p = (ts : Tokens) → Consumes (length ts) (p ts)

Consumes-weaken : (n m : ℕ) (r : Parsed) → n ≤ m → Consumes n r → Consumes m r
Consumes-weaken n m (ok (e, rest)) h k = omega arith
Consumes-weaken n m (err f) h k = k

Consumes-bind :
    (n m : ℕ) (r : Parsed) (f : Expression × Tokens → Parsed)
    → Consumes n r
    → ((e : Expression) (rest : Tokens) → length rest < n → Consumes m (f (e, rest)))
    → Consumes m (r >>= f)
Consumes-bind n m (ok (e, rest)) f h k = k e rest h
Consumes-bind n m (err e) f h k = h

fault-ne : fault ≢ exhausted
fault-ne h = cc

closed-Consumes :
    (n : ℕ) (p : Token → Bool) (wrap : Expression → Expression) (inner : Parsed)
    → Consumes n inner
    → Consumes n (closed p wrap inner)
unfolding closed
closed-Consumes n p wrap (err f) h = h
closed-Consumes n p wrap (ok (e, [])) h = fault-ne
closed-Consumes n p wrap (ok (e, t ∷ rest)) h = elim (Bool-cases (p t)) [
  | inl y ↦ rw (y, closed) (omega arith)
  | inr n' ↦ rw (n', closed) fault-ne
]

kept-injective :
    (b : Bool) {ts rest : Tokens} → (if b then some ts else none) ≡ some rest → ts ≡ rest
kept-injective true h = cc
kept-injective false h = cc

module _ (u : Unicode) where
  length-after_word :
      (name : Str) (ts : Tokens) {rest : Tokens}
      → after_word u name ts ≡ some rest
      → length rest < length ts
  unfolding after_word
  length-after_word name (word text ∷ ts) h =
      let same : ts ≡ _ = kept-injective (u.equal_fold text name) h in omega (arith, ap length same)
  length-after_word name [] h = cc
  length-after_word name _ h = cc

  chain-Consumes :
      (name : Str) (join : Expression → Expression → Expression) (operand : Tokens → Parsed)
      → Advances operand
      → (fuel : ℕ) (left : Expression) (ts : Tokens) → length ts < fuel
      → Consumes (length ts + 1) (chain u name join operand fuel left ts)
  unfolding chain
  chain-Consumes name join operand h zero left ts enough = elim enough [ ]
  chain-Consumes name join operand h (suc fuel) left ts enough =
      elim (Option-cases (after_word u name ts)) [
        | inl e ↦ rw (e, chain) (omega arith)
        | inr (rest, e) ↦
            let shorter = length-after_word name ts e in
            rw (e, chain)
              (Consumes-bind (length rest) (length ts + 1) (operand rest)
                (λ p. chain u name join operand fuel (join left p.0) p.1) (h rest)
                (λ right more less.
                  Consumes-weaken (length more + 1) (length ts + 1) _ (omega arith)
                    (chain-Consumes name join operand h fuel (join left right) more (omega arith))))
      ]

  joined-Advances :
      (name : Str) (join : Expression → Expression → Expression) (operand : Tokens → Parsed)
      → Advances operand
      → Advances (joined u name join operand)
  unfolding joined
  joined-Advances name join operand h ts =
      Consumes-bind (length ts) (length ts) (operand ts)
        (λ p. chain u name join operand (length p.1 + 1) p.0 p.1) (h ts)
        (λ left rest less.
          Consumes-weaken (length rest + 1) (length ts) _ (omega arith)
            (chain-Consumes name join operand h (length rest + 1) left rest (omega arith)))

  parse_or_with-Advances :
      (unary : ℕ → Tokens → Parsed) (depth : ℕ)
      → Advances (unary (depth + 2))
      → Advances (parse_or_with u unary depth)
  unfolding parse_or_with
  parse_or_with-Advances unary depth h =
      joined-Advances (bytes "or") Expression.disjunction _
        (joined-Advances (bytes "and") Expression.conjunction (unary (depth + 2)) h)

  operator_of-fault : (s : Str) {f : Failure} → operator_of u s ≡ err f → f ≡ fault
  unfolding operator_of
  operator_of-fault s h = ground arith

  compared-Consumes :
      (a : Str) (op : Comparison) (ts : Tokens) → Consumes (length ts + 2) (compared u a op ts)
  unfolding compared
  compared-Consumes a op (literal v ∷ ts) = omega arith
  compared-Consumes a op [] = fault-ne
  compared-Consumes a op _ = fault-ne

  operated-Consumes : (a text : Str) (ts : Tokens) → Consumes (length ts + 2) (operated u a text ts)
  unfolding operated
  operated-Consumes a text ts = elim (Bool-cases (str_eq (u.to_lower text) (bytes "pr"))) [
    | inl y ↦ rw y (omega arith)
    | inr n ↦ rw n (branch (operator_of u (u.to_lower text)) refl)
  ]
    where
      branch :
          (o : Result Comparison)
          → operator_of u (u.to_lower text) ≡ o
          → Consumes (length ts + 2) (o >>= λ op. compared u a op ts)
      branch (ok op) e = compared-Consumes a op ts
      branch (err f) e = λ q. fault-ne (rw (← operator_of-fault (u.to_lower text) e) q)

  module _ (or_ : ℕ → Tokens → Parsed) (depth : ℕ) where
    parse_attribute-Consumes : Advances (or_ (depth + 1)) → Advances (parse_attribute u or_ depth)
    unfolding parse_attribute
    parse_attribute-Consumes h (word a ∷ left_bracket ∷ ts) =
        closed-Consumes (suc (suc (length ts))) is_right_bracket (Expression.value_path a)
          (or_ (depth + 1) ts)
          (Consumes-weaken (length ts) (suc (suc (length ts))) (or_ (depth + 1) ts) (omega arith)
            (h ts))
    parse_attribute-Consumes h (word a ∷ word text ∷ ts) =
        Consumes-weaken (length ts + 2) (suc (suc (length ts))) (operated u a text ts) (omega arith)
          (operated-Consumes a text ts)
    parse_attribute-Consumes h [] = fault-ne
    parse_attribute-Consumes h (word a ∷ []) = fault-ne
    parse_attribute-Consumes h (word a ∷ t ∷ ts) = fault-ne
    parse_attribute-Consumes h _ = fault-ne

    negated-Consumes : Advances (or_ (depth + 1)) → Advances (negated u or_ depth)
    unfolding negated
    negated-Consumes h (left_paren ∷ ts) =
        closed-Consumes (suc (length ts)) is_right_paren Expression.negation (or_ (depth + 1) ts)
          (Consumes-weaken (length ts) (suc (length ts)) (or_ (depth + 1) ts) (omega arith) (h ts))
    negated-Consumes h [] = fault-ne
    negated-Consumes h _ = fault-ne

  attribute_or_fault :
      (or_ : ℕ → Tokens → Parsed) (depth : ℕ) (ts : Tokens)
      → (depth + 1 ≤ maximum_filter_depth → Advances (or_ (depth + 1 + 1)))
      → Consumes (length ts) (
          if ltb maximum_filter_depth (depth + 1)
          then err fault
          else parse_attribute u or_ (depth + 1) ts)
  attribute_or_fault or_ depth ts h = elim (Bool-cases (ltb maximum_filter_depth (depth + 1))) [
    | inl deep ↦ rw deep fault-ne
    | inr fits ↦ rw fits (parse_attribute-Consumes or_ (depth + 1) (h (ground arith)) ts)
  ]

  module _ (or_ : ℕ → Tokens → Parsed) (depth : ℕ) where
    plain_operand-Consumes :
        Advances (or_ (depth + 1))
        → (depth + 1 ≤ maximum_filter_depth → Advances (or_ (depth + 1 + 1)))
        → Advances (plain_operand u or_ depth)
    unfolding plain_operand
    plain_operand-Consumes h k (left_paren ∷ ts) =
        closed-Consumes (suc (length ts)) is_right_paren (λ e. e) (or_ (depth + 1) ts)
          (Consumes-weaken (length ts) (suc (length ts)) (or_ (depth + 1) ts) (omega arith) (h ts))
    plain_operand-Consumes h k [] = attribute_or_fault or_ depth [] k
    plain_operand-Consumes h k (t ∷ ts) = attribute_or_fault or_ depth (t ∷ ts) k

    operand_with-Advances :
        (depth ≤ maximum_filter_depth → Advances (or_ (depth + 1)))
        → (depth + 1 ≤ maximum_filter_depth → Advances (or_ (depth + 1 + 1)))
        → Advances (operand_with u or_ depth)
    unfolding operand_with
    operand_with-Advances h k ts = elim (Bool-cases (ltb maximum_filter_depth depth)) [
      | inl deep ↦ rw deep fault-ne
      | inr fits ↦ rw fits (elim (Option-cases (after_word u (bytes "not") ts)) [
        | inl e ↦ rw (e, operand_with) (plain_operand-Consumes (h (ground arith)) k ts)
        | inr (rest, e) ↦
            rw (e, operand_with)
              (Consumes-weaken (length rest) (length ts) (negated u or_ depth rest)
                (omega (arith, length-after_word (bytes "not") ts e))
                (negated-Consumes or_ depth (h (ground arith)) rest))
      ])
    ]

  pub parse_unary-Advances :
      (nesting depth : ℕ)
      → depth ≤ maximum_filter_depth + 3
      → maximum_filter_depth + 3 < depth + 3 * nesting
      → Advances (parse_unary u nesting depth)
  unfolding parse_unary
  parse_unary-Advances zero depth h k ts = absurd (omega arith)
  parse_unary-Advances (suc nesting) depth h k ts =
      operand_with-Advances (parse_or_with u (parse_unary u nesting)) depth
        (λ fits.
          parse_or_with-Advances (parse_unary u nesting) (depth + 1)
            (parse_unary-Advances nesting (depth + 1 + 2) (omega arith) (omega arith)))
        (λ fits.
          parse_or_with-Advances (parse_unary u nesting) (depth + 1 + 1)
            (parse_unary-Advances nesting (depth + 1 + 1 + 2) (omega arith) (omega arith)))
        ts

  parse_tokens-Settles : (ts : Tokens) → Settles (parse_tokens u ts)
  unfolding parse_tokens finished
  parse_tokens-Settles ts = whole (parse_or_with u (parse_unary u 12) 0 ts) (
      parse_or_with-Advances (parse_unary u 12) 0
        (parse_unary-Advances 12 (0 + 2) (omega arith) (omega arith)) ts)
    where
      whole : (r : Parsed) → Consumes (length ts) r → Settles (finished u r)
      whole (ok (e, [])) h = Settles-ok e
      whole (ok (e, t ∷ more)) h = Settles-fault
      whole (err f) h = record { settled = λ q. h (cc) }

  -- Reading a filter always ends, whatever its text: each token takes a byte at least, each round of the
  -- parser's loops takes a token, and the bound that the code sets on the depth is reached within
  -- twelve levels of nesting.
  pub parse_text-Settles : (l : Literals) (raw : Str) → Settles (parse_text u l raw)
  unfolding parse_text
  parse_text-Settles l raw =
      Settles-bind (lex_filter u l raw) (parse_tokens u) (lex_filter-Settles u l raw)
        (λ ts e. parse_tokens-Settles ts)
