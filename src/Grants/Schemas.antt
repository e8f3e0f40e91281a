-- ===== src/Grants/Schemas.antt =====
-- schemas/permission.py: the request for a permission with its validators, and the JSON document
-- that its row filter is stored as. Of several errors that pydantic collects, the first stands for
-- the `ValidationError`. JSON's `null`, Python's `None`, is the value `null`.
use multi_tenant_data_chat_p.Shared.{
  ℕ, Bool, true, false, not, ◌&&◌, ◌||◌, Option, List, [], ◌∷◌, length, ltb, is_some, Result, ok,
  ◌>>◌, raise_if, ◌==◌, if◌then◌else◌,
}
use multi_tenant_data_chat_p.Shared.Text.{Text, text, text_eq}
use multi_tenant_data_chat_p.Values.{
  Value, null, str, list, dict, Values, nil, cons, Fields, end, field, str_uuid,
}

pub data RowFilterOperator : Type 0 where
  equals not_equals greater_than greater_than_or_equal : RowFilterOperator
  less_than less_than_or_equal in_ not_in : RowFilterOperator

pub data RowFilterValueSource : Type 0 where
  literal tenant_id_source user_id_source : RowFilterValueSource

pub data ColumnMaskType : Type 0 where
  full partial email hash : ColumnMaskType

unfoldable pub operator_value : RowFilterOperator → Text
operator_value equals = text "eq"
operator_value not_equals = text "ne"
operator_value greater_than = text "gt"
operator_value greater_than_or_equal = text "gte"
operator_value less_than = text "lt"
operator_value less_than_or_equal = text "lte"
operator_value in_ = text "in"
operator_value not_in = text "not_in"

unfoldable pub value_source_value : RowFilterValueSource → Text
value_source_value literal = text "literal"
value_source_value tenant_id_source = text "tenant_id"
value_source_value user_id_source = text "user_id"

unfoldable pub mask_type_value : ColumnMaskType → Text
mask_type_value full = text "full"
mask_type_value partial = text "partial"
mask_type_value email = text "email"
mask_type_value hash = text "hash"

pub record RowFilterRule : Type 0 where
  pub column_id : ℕ
  pub operator : RowFilterOperator
  pub value_source : RowFilterValueSource
  pub value : Value

pub record RowFilterGroup : Type 0 where
  pub match : Text
  pub rules : List RowFilterRule

pub record ColumnPermissionInput : Type 0 where
  pub column_id : ℕ
  pub can_read : Bool
  pub can_filter : Bool
  pub can_aggregate : Bool
  pub mask_type : Option ColumnMaskType

pub record TablePermissionCreate : Type 0 where
  pub role_id : Option ℕ
  pub user_id : Option ℕ
  pub connection_id : ℕ
  pub table_id : ℕ
  pub can_read : Bool
  pub can_insert : Bool
  pub can_update : Bool
  pub can_delete : Bool
  pub row_filter : RowFilterGroup
  pub columns : List ColumnPermissionInput

pub data SchemaError : Type 0 where
  literal_without_value context_with_value membership_without_list : SchemaError
  match_invalid too_many_rules hidden_with_mask too_many_columns : SchemaError
  subject_not_single : SchemaError

abbrev pub is_literal : RowFilterValueSource → Bool
is_literal literal = true
is_literal tenant_id_source = false
is_literal user_id_source = false

abbrev pub is_membership : RowFilterOperator → Bool
is_membership in_ = true
is_membership not_in = true
is_membership _ = false

-- `value is None` and `isinstance(value, list)`
abbrev pub is_null : Value → Bool
is_null null = true
is_null _ = false

abbrev pub is_list : Value → Bool
is_list (list vs) = true
is_list _ = false

unfoldable pub validate_filter_value : RowFilterRule → Result SchemaError (Unit {0})
validate_filter_value rule = do
  raise_if (is_literal rule.value_source && is_null rule.value) literal_without_value
  raise_if (not (is_literal rule.value_source) && not (is_null rule.value)) context_with_value
  raise_if (is_membership rule.operator && is_literal rule.value_source && not (is_list rule.value))
      membership_without_list

unfoldable pub validate_rules : List RowFilterRule → Result SchemaError (Unit {0})
unfolding validate_filter_value
validate_rules [] = ok tt
validate_rules (rule ∷ rules) = validate_filter_value rule >> validate_rules rules

-- `pattern="^(all|any)$"` and `max_length=20`
unfoldable pub validate_group : RowFilterGroup → Result SchemaError (Unit {0})
unfolding validate_rules text_eq
validate_group group = do
  raise_if (not (group.match == text "all" || group.match == text "any")) match_invalid
  raise_if (ltb 20 (length group.rules)) too_many_rules
  validate_rules group.rules

unfoldable pub validate_column_rules : ColumnPermissionInput → Result SchemaError (Unit {0})
validate_column_rules column =
    raise_if (not column.can_read && is_some column.mask_type) hidden_with_mask

unfoldable pub validate_columns : List ColumnPermissionInput → Result SchemaError (Unit {0})
unfolding validate_column_rules
validate_columns [] = ok tt
validate_columns (column ∷ columns) = validate_column_rules column >> validate_columns columns

-- `has_role == has_user`
unfoldable pub validate_subject : TablePermissionCreate → Result SchemaError (Unit {0})
validate_subject request =
    raise_if
      (if is_some request.role_id then is_some request.user_id else not (is_some request.user_id))
      subject_not_single

-- A request that FastAPI hands to the service.
unfoldable pub validate_request : TablePermissionCreate → Result SchemaError (Unit {0})
unfolding validate_group validate_columns validate_subject
validate_request request = do
  validate_group request.row_filter
  raise_if (ltb 500 (length request.columns)) too_many_columns
  validate_columns request.columns
  validate_subject request

-- `model_dump(mode="json")` of a rule and of a group.
unfoldable pub dump_rule : RowFilterRule → Fields
unfolding operator_value value_source_value
dump_rule rule = field (text "column_id") (str (str_uuid rule.column_id)) (
    field (text "operator") (str (operator_value rule.operator)) (
      field (text "value_source") (str (value_source_value rule.value_source))
        (field (text "value") rule.value end)))

unfoldable pub dump_rules : List RowFilterRule → Values
unfolding dump_rule
dump_rules [] = nil
dump_rules (rule ∷ rules) = cons (dict (dump_rule rule)) (dump_rules rules)

unfoldable pub dump_group : RowFilterGroup → Fields
unfolding dump_rules
dump_group group =
    field (text "match") (str group.match)
      (field (text "rules") (list (dump_rules group.rules)) end)
