-- ===== src/Sql/RowFilter/Rules.antt =====
-- The rules of a row filter group as a condition of SQL. Filter groups are JSON objects that an
-- administrator has stored, so every field may have any value.
use multi_tenant_data_chat_p.Shared.{
  ℕ, Bool, true, false, not, ◌||◌, ◌&&◌, Option, none, some, List, [], ◌∷◌, map, contains, Result,
  ok, err, ◌>>=◌, ◌>>◌, raise_if, or_raise, or_default, ◌==◌, if◌then◌else◌,
}
use multi_tenant_data_chat_p.Shared.Text.{Text, text, text_eq}
use multi_tenant_data_chat_p.Shared.Dict.{values}
use multi_tenant_data_chat_p.Values.{
  Value, str, list, dict, tuple, Values, nil, cons, Fields, field_value, items, str_uuid,
}
use multi_tenant_data_chat_p.Permissions.{AllowedColumn, AllowedTable}
use multi_tenant_data_chat_p.Sql.Sqlglot.{Sqlglot, Comparison, eq, neq, gt, gte, lt, lte}

-- The messages of `RowFilterError`.
pub data RowFilterError : Type 0 where
  column_unavailable value_source_unsupported value_missing : RowFilterError
  operator_unsupported list_required group_empty match_unsupported : RowFilterError
  rules_missing rule_not_object column_id_missing operator_missing : RowFilterError
  table_ambiguous : Text → RowFilterError
  sql_empty not_parsed : RowFilterError

-- A `TypeError` is what `in` raises on a value that has no hash; a `TokenError` is sqlglot's.
pub data Fault : Type 0 where
  filter_error : RowFilterError → Fault
  type_error token_failure : Fault

-- Lists and dicts have no hash, nor has a tuple that holds one.
unfoldable mutual
  pub has_hash : Value → Bool
  has_hash (list vs) = false
  has_hash (dict fs) = false
  has_hash (tuple vs) = have_hash vs
  has_hash _ = true

  pub have_hash : Values → Bool
  have_hash nil = true
  have_hash (cons v vs) = has_hash v && have_hash vs

-- `value in {…}` for a set of texts.
unfoldable pub is_among : List Text → Value → Result Fault Bool
is_among texts (str t) = ok (contains texts t)
is_among texts v = if has_hash v then ok false else err type_error

-- `value == "…"`
unfoldable pub is_text : Text → Value → Bool
is_text t (str s) = s == t
is_text t _ = false

abbrev pub supported_operators : List Text
supported_operators =
    text "eq"
    ∷ text "ne"
    ∷ text "gt"
    ∷ text "gte"
    ∷ text "lt"
    ∷ text "lte"
    ∷ text "in"
    ∷ text "not_in"
    ∷ []

abbrev pub supported_value_sources : List Text
supported_value_sources = text "literal" ∷ text "tenant_id" ∷ text "user_id" ∷ []

unfoldable pub is_supported_operator : Text → Bool
unfolding text_eq
is_supported_operator operator = contains supported_operators operator

unfoldable pub column_with_id : List AllowedColumn → Text → Option AllowedColumn
column_with_id [] column_id = none
column_with_id (c ∷ cs) column_id =
    let rest = column_with_id cs column_id in if c.column_id == column_id then some c else rest

unfoldable pub resolve_filter_column : AllowedTable → Text → Result Fault AllowedColumn
unfolding column_with_id
resolve_filter_column t column_id =
    or_raise (column_with_id (values t.columns) column_id) (filter_error column_unavailable)

module _ (tenant_id user_id : ℕ) where
  unfoldable pub resolve_filter_value : Fields → Result Fault Value
  resolve_filter_value rule = do
    let value_source = or_default (field_value rule (text "value_source")) (str (text "literal"))
    supported ← is_among supported_value_sources value_source
    raise_if (not supported) (filter_error value_source_unsupported)
    if is_text (text "tenant_id") value_source
        then ok (str (str_uuid tenant_id))
        else if is_text (text "user_id") value_source
        then ok (str (str_uuid user_id))
        else or_raise (field_value rule (text "value")) (filter_error value_missing)

-- The class of an operator that is no membership test.
unfoldable pub comparison_of : Text → Comparison
unfolding text_eq
comparison_of operator =
    if operator == text "eq"
    then eq
    else if operator == text "ne"
    then neq
    else if operator == text "gt"
    then gt
    else if operator == text "gte"
    then gte
    else if operator == text "lt"
    then lt
    else lte

module _ {Statement Node Condition : Type 0} (g : Sqlglot Statement Node Condition) where
  -- The operators `in` and `not_in`.
  unfoldable pub membership : Condition → Text → Value → Result Fault Condition
  membership column operator (list (cons v vs)) =
      let in_expression = g.in_list column (map g.convert (v ∷ items vs)) in
      ok (if operator == text "not_in" then g.negate in_expression else in_expression)
  membership column operator _ = err (filter_error list_required)

  unfoldable pub build_comparison_expression : Condition → Text → Value → Result Fault Condition
  unfolding membership
  build_comparison_expression column operator value = do
    raise_if (not (is_supported_operator operator)) (filter_error operator_unsupported)
    if operator == text "in" || operator == text "not_in"
        then membership column operator value
        else ok (g.compare (comparison_of operator) column (g.convert value))

  -- The loop of `combine_expressions`, from the first expression on.
  unfoldable pub combine_from : Bool → Condition → List Condition → Condition
  combine_from all combined [] = combined
  combine_from all combined (e ∷ es) =
      combine_from all (if all then g.and_ combined e else g.or_ combined e) es

  unfoldable pub combine_expressions : List Condition → Value → Result Fault Condition
  unfolding combine_from
  combine_expressions [] match = err (filter_error group_empty)
  combine_expressions (e ∷ es) match = do
    supported ← is_among (text "all" ∷ text "any" ∷ []) match
    raise_if (not supported) (filter_error match_unsupported)
    ok (combine_from (is_text (text "all") match) e es)

  module _ (allowed_table : AllowedTable) (table_reference : Text) (tenant_id user_id : ℕ) where
    -- `rule.get(name)`, which has to be a text.
    abbrev text_field : Fields → Text → RowFilterError → Result Fault Text
    text_field rule name e = elim (field_value rule name) [
      | none ↦ err (filter_error e)
      | some v ↦ elim v [ str t ↦ ok t | _ ↦ err (filter_error e) ]
    ]

    unfoldable pub build_rule_expression : Fields → Result Fault Condition
    build_rule_expression rule = do
      column_id ← text_field rule (text "column_id") column_id_missing
      operator ← text_field rule (text "operator") operator_missing
      c ← resolve_filter_column allowed_table column_id
      value ← resolve_filter_value tenant_id user_id rule
      build_comparison_expression (g.column_expression c.name table_reference) operator value

    unfoldable pub build_rules : List Value → Result Fault (List Condition)
    unfolding build_rule_expression
    build_rules [] = ok []
    build_rules (dict rule ∷ rules) = do
      e ← build_rule_expression rule
      es ← build_rules rules
      ok (e ∷ es)
    build_rules (_ ∷ rules) = err (filter_error rule_not_object)

    -- The rules of a group: `filter_group.get("rules")` has to be a list that is not empty.
    unfoldable pub group_rules : Option Value → Result Fault (List Value)
    group_rules (some (list (cons v vs))) = ok (v ∷ items vs)
    group_rules _ = err (filter_error rules_missing)

    unfoldable pub build_filter_group_expression : Fields → Result Fault Condition
    unfolding build_rules group_rules
    build_filter_group_expression filter_group = do
      let match = or_default (field_value filter_group (text "match")) (str (text "all"))
      rules ← group_rules (field_value filter_group (text "rules"))
      expressions ← build_rules rules
      combine_expressions expressions match
