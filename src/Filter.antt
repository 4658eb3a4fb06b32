-- ===== src/Filter.antt =====
-- Filter expressions: their tokens and their syntax tree, of pkg/scim/filter_expression.go.
pub mod Lexer
pub mod Parser
pub mod Check
pub mod Match
mod Examples
use gotth_scim.Base.{Bool, Str, String, List, Option, Sign}
use gotth_scim.Json.{Value}
use gotth_scim.Schema.{SchemaAttribute}

pub data Comparison : Type 0 where
  equal not_equal contains starts_with ends_with : Comparison
  greater_than greater_equal less_than less_equal : Comparison

-- A string and a number carry their text; the token for the end of the input is the end of the list.
pub data Token : Type 0 where
  word : Str → Token
  literal : Value → Token
  left_paren right_paren left_bracket right_bracket : Token

pub data Expression : Type 0 where
  conjunction disjunction : Expression → Expression → Expression
  negation : Expression → Expression
  value_path : Str → Expression → Expression
  present : Str → Expression
  comparison : Comparison → Str → Value → Expression

-- An expression with the path and the schema that `validateFilterExpression` writes into its nodes.
pub data Checked : Type 0 where
  conjunction disjunction : Checked → Checked → Checked
  negation : Checked → Checked
  value_path : List Str → Checked → Checked
  present : List Str → Checked
  comparison : Comparison → List Str → SchemaAttribute → Value → Checked

-- What the standard library decides of literals: `parse_string` is `json.Unmarshal` into a string,
-- `is_number` is `strconv.ParseFloat` and `validJSONNumber`, and the rest are `time.Parse` and `big.Rat`.
-- An order is negative, zero or positive, or missing where a text is not a literal.
pub record Literals : Type 0 where
  pub parse_string : Str → Option Str
  pub is_number : Str → Bool
  pub is_time : Str → Bool
  pub is_rational : Str → Bool
  pub is_integer : Str → Bool
  pub compare_times : Str → Str → Option Sign
  pub compare_numbers : Str → Str → Option Sign

abbrev pub operator_text : Comparison → String
operator_text equal = "eq"
operator_text not_equal = "ne"
operator_text contains = "co"
operator_text starts_with = "sw"
operator_text ends_with = "ew"
operator_text greater_than = "gt"
operator_text greater_equal = "ge"
operator_text less_than = "lt"
operator_text less_equal = "le"
