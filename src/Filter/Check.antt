-- ===== src/Filter/Check.antt =====
-- `validateFilterExpression` and `compatibleFilterValue`, of pkg/scim/filter_expression.go. The code
-- writes the path and the schema that it resolves into the node; here the check returns a new tree.
use gotth_scim.Base.{
  Bool, true, false, ◌&&◌, ◌||◌, not, if◌then◌else◌, Str, bytes, str_eq, Option, none, some, List,
  Unicode,
}
use gotth_scim.Failure.{Result, ok, err, fault, ◌>>=◌, ◌>>◌, refuse}
use gotth_scim.Json.{Value, null, bool, num, str}
use gotth_scim.Schema.{
  Contract, SchemaAttribute, Attributes, none_left, more, contract, sub_attributes, attribute_list,
  Definition,
}
use gotth_scim.Schema.Resolve.{Resolved, resolve_attribute_contract}
use gotth_scim.Filter.Parser.{parse_text}
use gotth_scim.Filter.{
  Comparison, equal, not_equal, contains, starts_with, ends_with, Expression, Checked, Literals,
}

pub is_equality : Comparison → Bool
is_equality equal = true
is_equality not_equal = true
is_equality _ = false

unfoldable pub is_text_comparison : Comparison → Bool
is_text_comparison contains = true
is_text_comparison starts_with = true
is_text_comparison ends_with = true
is_text_comparison _ = false

module _ (l : Literals) where
  compatible_text : Str → Comparison → Value → Bool
  compatible_text kind op (str s) =
      not (str_eq kind (bytes "binary") && not (is_equality op))
      && (if str_eq kind (bytes "dateTime") then l.is_time s else true)
  compatible_text kind op _ = false

  compatible_number : Str → Value → Bool
  compatible_number kind (num s) =
      l.is_rational s && (not (str_eq kind (bytes "integer")) || l.is_integer s)
  compatible_number kind _ = false

  compatible_kind : Str → Comparison → Value → Bool
  unfolding is_equality compatible_text compatible_number
  compatible_kind kind op v =
      if str_eq kind (bytes "boolean")
      then (elim v [ bool b ↦ is_equality op | _ ↦ false ])
      else if str_eq kind (bytes "integer") || str_eq kind (bytes "decimal")
      then compatible_number kind v
      else if str_eq kind (bytes "dateTime")
          || str_eq kind (bytes "string")
          || str_eq kind (bytes "reference")
          || str_eq kind (bytes "binary")
      then compatible_text kind op v
      else false

  -- `compatibleFilterValue`
  unfoldable pub compatible_filter_value : Contract → Comparison → Value → Bool
  unfolding compatible_kind is_text_comparison is_equality
  compatible_filter_value c op null = is_equality op
  compatible_filter_value c op v =
      if is_text_comparison op
      then (elim v [
        | str s ↦ str_eq c.kind (bytes "string") || str_eq c.kind (bytes "reference")
        | _ ↦ false
      ])
      else compatible_kind c.kind op v

-- The sub-attributes as the schema of a value path. A complex attribute without any has a nil slice,
-- and the code takes nil for the absence of a value path.
unfoldable pub relative_to : Attributes → Option (List SchemaAttribute)
relative_to none_left = none
relative_to (more a as_) = some (attribute_list (more a as_))

unfoldable pub is_complex_list : Contract → Bool
is_complex_list c = c.multi_valued && str_eq c.kind (bytes "complex")

module _ (u : Unicode) (l : Literals) (d : Definition) where
  resolve : Option (List SchemaAttribute) → Str → Result Resolved
  unfolding resolve_attribute_contract
  resolve relative name = elim (resolve_attribute_contract u d relative name) [
    | none ↦ err fault
    | some r ↦ ok r
  ]

  -- `validateFilterExpression`
  unfoldable pub validate_filter_expression :
      Option (List SchemaAttribute) → Expression → Result Checked
  unfolding resolve compatible_filter_value relative_to is_complex_list
  validate_filter_expression relative (Expression.conjunction e f) = do
    left ← validate_filter_expression relative e
    right ← validate_filter_expression relative f
    ok (Checked.conjunction left right)
  validate_filter_expression relative (Expression.disjunction e f) = do
    left ← validate_filter_expression relative e
    right ← validate_filter_expression relative f
    ok (Checked.disjunction left right)
  validate_filter_expression relative (Expression.negation e) = do
    child ← validate_filter_expression relative e
    ok (Checked.negation child)
  validate_filter_expression relative (Expression.value_path name e) = do
    r ← resolve relative name
    refuse (not (is_complex_list (contract r.found))) fault
    child ← validate_filter_expression (relative_to (sub_attributes r.found)) e
    ok (Checked.value_path r.path child)
  validate_filter_expression relative (Expression.present name) = do
    r ← resolve relative name
    ok (Checked.present r.path)
  validate_filter_expression relative (Expression.comparison op name v) = do
    r ← resolve relative name
    refuse (not (compatible_filter_value l (contract r.found) op v)) fault
    ok (Checked.comparison op r.path r.found v)

  -- `parseFilter`: on the value filter of a value path, `relative` is there and `d` is not looked at.
  unfoldable pub parse_filter : Option (List SchemaAttribute) → Str → Result Checked
  unfolding parse_text validate_filter_expression
  parse_filter relative raw = do e ← parse_text u l raw; validate_filter_expression relative e
