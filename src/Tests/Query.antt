-- ===== src/Tests/Query.antt =====
-- The sample query in the validator, the row filters and the pipeline.
use multi_tenant_data_chat_p.Shared.{
  ◌⊎◌, err, ◌≡◌, refl, true, false, Bool, some, none, Option, ok, In, here, there, [], ◌∷◌, inl,
  for_each, ◌&&◌, ◌⊎◌, List,
}
use multi_tenant_data_chat_p.Shared.Text.{
  Text, text, text_eq, same_text, qualify, lower, lower_char, strip, lstrip, is_space, has_text,
  starts_with,
}
use multi_tenant_data_chat_p.Tests.Sample.{
  sample_parser, query_text, sample_allowed, filtered_allowed, plain_query, OneQuery, QueryNode,
  the_select, the_column, the_table,
}
use multi_tenant_data_chat_p.Shared.{nat_eq}
use multi_tenant_data_chat_p.Shared.Dict.{get, put, values}
use multi_tenant_data_chat_p.Sql.Validator.{
  SqlValidationResult, token_uncaught, catch_invalid, check_sql, validate_sql,
}
use multi_tenant_data_chat_p.Sql.Validator.Statement.{
  catch_parse_error, has_comment, reject_sql_comments, is_blocked_key, present, single,
  parse_single_statement, validate_read_only_statement,
}
use multi_tenant_data_chat_p.Sql.Validator.Tables.{
  is_system_schema, resolve_name, add_alias, add_table, get_cte_names, resolve_allowed_table,
  visit_table, collect_referenced_tables,
}
use multi_tenant_data_chat_p.Sql.Validator.Columns.{
  column_matches, only_column, resolve_unqualified_column, resolve_column, column_reference,
  reject_star_selection, in_filter, is_filter_column, in_aggregate, is_aggregate_column,
  validate_column_access, check_column, visit_column, collect_referenced_columns,
}
use multi_tenant_data_chat_p.Sql.Validator.Limit.{bounded_limit, apply_row_limit}
use multi_tenant_data_chat_p.Sql.Validator.Soundness.{IsSafe, validate_sql-IsSafe}
use multi_tenant_data_chat_p.Sql.Validator.Total.{validate_sql-total}
use multi_tenant_data_chat_p.Values.{Fields, str, field_value}
use multi_tenant_data_chat_p.Permissions.{AllowedTable}
use multi_tenant_data_chat_p.Sql.Sqlglot.{token_error, Sqlglot, NodeClass, select, cte}
use multi_tenant_data_chat_p.Sql.RowFilter.Rules.{
  is_among, is_text, is_supported_operator, column_with_id, resolve_filter_column,
  resolve_filter_value, comparison_of, build_comparison_expression, combine_from,
  combine_expressions, build_rule_expression, build_rules, group_rules,
  build_filter_group_expression,
}
use multi_tenant_data_chat_p.Sql.RowFilter.Selects.{
  find_allowed_table, get_direct_tables, table_reference, resolve_select_table, table_filters,
  filters_of, security_expressions, combine_security, build_select_security_expression,
}
use multi_tenant_data_chat_p.Sql.RowFilter.{
  catch_unparsed, inject_filter_into_select, first_of_each, unique_selects, secure_select,
  inject_mandatory_row_filters,
}
use multi_tenant_data_chat_p.Sql.RowFilter.Combination.{
  keeps_all, IsTruth, combine_expressions-keeps,
}
use multi_tenant_data_chat_p.Sql.RowFilter.Injection.{
  keeps_where, secure_select-keeps, inject-keeps_filters,
}
use multi_tenant_data_chat_p.Sql.RowFilter.CommonTables.{IsExempt, inject-common_tables}
use multi_tenant_data_chat_p.Sql.Pipeline.{
  SecureQueryResult, IsPrepared, require_valid_result, key_errors, catch_filter,
  has_mandatory_filters, validated, prepare_validated_sql, prepare_validated_sql-IsPrepared,
}

-- What the validator says of the query.
abbrev pub checked : SqlValidationResult
checked = record {
  is_valid = true;
  normalized_sql = some query_text;
  errors = [];
  referenced_tables = text "public.orders" ∷ [];
  referenced_columns = text "public.orders.id" ∷ [];
  applied_limit = some 100;
}

pub validated_query :
    validate_sql sample_parser query_text sample_allowed (text "postgres") 100 ≡ ok checked
unfolding validate_sql catch_invalid check_sql parse_single_statement reject_sql_comments
    catch_parse_error has_comment has_text starts_with present single validate_read_only_statement
    is_blocked_key collect_referenced_tables get_cte_names visit_table resolve_allowed_table
    resolve_name is_system_schema add_table add_alias collect_referenced_columns
    reject_star_selection visit_column check_column resolve_column resolve_unqualified_column
    column_matches only_column column_reference validate_column_access is_filter_column in_filter
    is_aggregate_column in_aggregate apply_row_limit bounded_limit for_each get put strip lstrip
    is_space nat_eq text_eq same_text qualify lower lower_char
validated_query = refl

validate_sql-IsSafe_example :
    IsSafe sample_parser query_text sample_allowed (text "postgres") 100 checked
validate_sql-IsSafe_example =
    validate_sql-IsSafe sample_parser (λ st n. refl) query_text sample_allowed (text "postgres") 100
      checked validated_query refl

validate_sql-total_example :
    ((r : SqlValidationResult) × (validate_sql sample_parser query_text sample_allowed
          (text "postgres")
          100
        ≡ ok r))
    ⊎ ((validate_sql sample_parser query_text sample_allowed (text "postgres") 100
          ≡ err token_uncaught)
        × (sample_parser.parse query_text (text "postgres") ≡ err token_error))
validate_sql-total_example =
    validate_sql-total sample_parser query_text sample_allowed (text "postgres") 100

-- A condition is its truth on the row.
is_truth : IsTruth sample_parser (λ c. c)
is_truth = record { keeps-and = λ a b. refl; keeps-or = λ a b. refl }

combined : combine_expressions sample_parser (true ∷ false ∷ []) (str (text "any")) ≡ ok true
unfolding combine_expressions combine_from is_among is_text text_eq same_text nat_eq
combined = refl

combine_expressions-keeps_example :
    ((str (text "any") ≡ str (text "all")) × (true ≡ false))
    ⊎ ((str (text "any") ≡ str (text "any")) × (true ≡ true))
combine_expressions-keeps_example =
    combine_expressions-keeps sample_parser (λ c. c) is_truth (true ∷ false ∷ []) (str (text "any"))
      true combined

-- The SELECT of the query gets the filter on the tenant.
secured_select :
    secure_select sample_parser filtered_allowed 7 1 the_select plain_query
    ≡ ok (record plain_query { condition = some true })
unfolding secure_select build_select_security_expression security_expressions get_direct_tables
    resolve_select_table find_allowed_table table_reference filters_of table_filters
    build_filter_group_expression group_rules build_rules build_rule_expression
    resolve_filter_column column_with_id resolve_filter_value build_comparison_expression
    is_supported_operator comparison_of combine_security combine_expressions combine_from is_among
    is_text inject_filter_into_select field_value get values qualify lower lower_char nat_eq text_eq
    same_text
secured_select = refl

secure_select-keeps_example :
    (es : List Bool) × (security_expressions sample_parser plain_query filtered_allowed 7 1
        (get_direct_tables sample_parser plain_query the_select)
      ≡ ok es)
    × (true ≡ (true && keeps_all (λ c. c) es))
secure_select-keeps_example =
    secure_select-keeps sample_parser (λ c. c) is_truth (λ st n c. refl) filtered_allowed 7 1
      the_select plain_query (record plain_query { condition = some true }) secured_select

injected :
    inject_mandatory_row_filters sample_parser filtered_allowed 7 1 query_text (text "postgres")
    ≡ ok query_text
unfolding inject_mandatory_row_filters catch_unparsed unique_selects first_of_each for_each strip
    lstrip is_space secure_select build_select_security_expression security_expressions
    get_direct_tables resolve_select_table find_allowed_table table_reference filters_of
    table_filters build_filter_group_expression group_rules build_rules build_rule_expression
    resolve_filter_column column_with_id resolve_filter_value build_comparison_expression
    is_supported_operator comparison_of combine_security combine_expressions combine_from is_among
    is_text inject_filter_into_select field_value get values qualify lower lower_char nat_eq text_eq
    same_text
injected = refl

one_select : unique_selects sample_parser plain_query ≡ the_select ∷ []
unfolding unique_selects first_of_each
one_select = refl

-- The row filter of the table that the query reads is applied.
inject-keeps_filters_example :
    (st : OneQuery) × (query_text ≡ sample_parser.to_sql st (text "postgres"))
    × (keeps_where sample_parser (λ c. c) st the_select ≡ true
        → (true ≡ true)
          × ((x : QueryNode) (t : AllowedTable) (reference : Text) (group : Fields)
              → In x (get_direct_tables sample_parser plain_query the_select)
              → resolve_select_table sample_parser plain_query filtered_allowed x
                ≡ ok (some (t, reference))
              → In group t.row_filters
              → (e : Bool) × (build_filter_group_expression sample_parser t reference 7 1 group
                  ≡ ok e)
                × (e ≡ true)))
inject-keeps_filters_example =
    inject-keeps_filters sample_parser (λ c. c) is_truth (λ st n c. refl) filtered_allowed 7 1
      query_text (text "postgres") plain_query the_select query_text refl one_select injected

-- A parser that places the table of the query in a common table expression.
abbrev table_in_cte : QueryNode → NodeClass → Option QueryNode
table_in_cte the_table cte = some the_select
table_in_cte the_table select = some the_select
table_in_cte _ _ = none

abbrev cte_parser : Sqlglot OneQuery QueryNode Bool
cte_parser = record sample_parser { find_ancestor = λ st n c. table_in_cte n c }

nothing_filtered :
    (node x : QueryNode)
    → In x (get_direct_tables cte_parser plain_query node)
    → IsExempt cte_parser filtered_allowed 7 1 plain_query x
unfolding get_direct_tables
nothing_filtered the_select x (here e) = inl (rw e refl)
nothing_filtered the_select x (there i) = elim i [ ]
nothing_filtered the_column x i = elim i [ ]
nothing_filtered the_table x i = elim i [ ]

-- There the filter is not applied: the text stays as it is.
inject-common_tables_example :
    inject_mandatory_row_filters cte_parser filtered_allowed 7 1 query_text (text "postgres")
    ≡ ok query_text
unfolding strip lstrip is_space nat_eq
inject-common_tables_example =
    inject-common_tables cte_parser filtered_allowed 7 1 query_text (text "postgres") plain_query
      refl refl refl (λ node i. nothing_filtered node)

-- The prepared query.
abbrev prepared : SecureQueryResult
prepared = record {
  sql = query_text;
  referenced_tables = text "public.orders" ∷ [];
  referenced_columns = text "public.orders.id" ∷ [];
  applied_limit = 100;
  row_filters_applied = true;
}

validated_filtered :
    validate_sql sample_parser query_text filtered_allowed (text "postgres") 100 ≡ ok checked
unfolding validate_sql catch_invalid check_sql parse_single_statement reject_sql_comments
    catch_parse_error has_comment has_text starts_with present single validate_read_only_statement
    is_blocked_key collect_referenced_tables get_cte_names visit_table resolve_allowed_table
    resolve_name is_system_schema add_table add_alias collect_referenced_columns
    reject_star_selection visit_column check_column resolve_column resolve_unqualified_column
    column_matches only_column column_reference validate_column_access is_filter_column in_filter
    is_aggregate_column in_aggregate apply_row_limit bounded_limit for_each get put strip lstrip
    is_space nat_eq text_eq same_text qualify lower lower_char
validated_filtered = refl

prepared_query :
    prepare_validated_sql sample_parser query_text filtered_allowed 7 1 (text "postgres") 100
    ≡ ok prepared
unfolding prepare_validated_sql validated key_errors require_valid_result catch_filter
    has_mandatory_filters values
prepared_query = rw (validated_filtered, injected, validated_filtered) refl

prepare_validated_sql-IsPrepared_example :
    IsPrepared sample_parser query_text filtered_allowed 7 1 (text "postgres") 100 prepared
prepare_validated_sql-IsPrepared_example =
    prepare_validated_sql-IsPrepared sample_parser (λ st n. refl) query_text filtered_allowed 7 1
      (text "postgres") 100 prepared prepared_query
