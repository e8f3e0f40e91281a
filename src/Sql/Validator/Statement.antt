-- ===== src/Sql/Validator/Statement.antt =====
-- The stages of query_validator.py that look at the statement as a whole: one statement, no
-- comment, a query, nothing in it that writes.
use multi_tenant_data_chat_p.Shared.{
  Bool, not, ◌||◌, Option, none, some, List, [], ◌∷◌, any, is_empty, contains, Result, ok, err,
  ◌>>=◌, ◌>>◌, raise_if,
}
use multi_tenant_data_chat_p.Shared.Text.{Text, text, text_eq, lower, strip, has_text}
use multi_tenant_data_chat_p.Sql.Sqlglot.{
  Sqlglot, SyntaxError, parse_error, token_error, query, select,
}
use multi_tenant_data_chat_p.Sql.Validator.Errors.{
  Fault, invalid, token_fault, comments_not_allowed, sql_empty, not_parsed, not_one_statement,
  only_queries, only_read_only, no_select_statement,
}

abbrev pub comment_markers : List Text
comment_markers = text "--" ∷ text "/*" ∷ text "*/" ∷ []

-- `any(marker in sql for marker in COMMENT_MARKERS)`
unfoldable pub has_comment : Text → Bool
unfolding has_text
has_comment sql = any (has_text sql) comment_markers

unfoldable pub reject_sql_comments : Text → Result Fault (Unit {0})
reject_sql_comments sql = raise_if (has_comment sql) (invalid comments_not_allowed)

-- `BLOCKED_EXPRESSION_KEYS`
abbrev pub blocked_expression_keys : List Text
blocked_expression_keys =
    text "alter"
    ∷ text "command"
    ∷ text "copy"
    ∷ text "create"
    ∷ text "delete"
    ∷ text "drop"
    ∷ text "grant"
    ∷ text "insert"
    ∷ text "load"
    ∷ text "merge"
    ∷ text "revoke"
    ∷ text "truncate"
    ∷ text "truncatetable"
    ∷ text "update"
    ∷ []

-- `key.lower() in BLOCKED_EXPRESSION_KEYS`
unfoldable pub is_blocked_key : Text → Bool
unfolding text_eq lower
is_blocked_key key = contains blocked_expression_keys (lower key)

-- The statements of a parse that are not `None`.
unfoldable pub present : {A : Type 0} → List (Option A) → List A
present [] = []
present (none ∷ xs) = present xs
present (some x ∷ xs) = x ∷ present xs

-- `except ParseError`: a `TokenError` passes.
unfoldable pub catch_parse_error : {A : Type 0} → Result SyntaxError A → Result Fault A
catch_parse_error (ok a) = ok a
catch_parse_error (err parse_error) = err (invalid not_parsed)
catch_parse_error (err token_error) = err token_fault

unfoldable pub single : {A : Type 0} → List A → Result Fault A
single (x ∷ []) = ok x
single _ = err (invalid not_one_statement)

module _ {Statement Node Condition : Type 0} (g : Sqlglot Statement Node Condition) where
  unfoldable pub parse_single_statement : Text → Text → Result Fault Statement
  unfolding reject_sql_comments catch_parse_error
  parse_single_statement sql dialect = do
    raise_if (is_empty sql || is_empty (strip sql)) (invalid sql_empty)
    reject_sql_comments sql
    statements ← catch_parse_error (g.parse sql dialect)
    single (present statements)

  unfoldable pub validate_read_only_statement : Statement → Result Fault (Unit {0})
  validate_read_only_statement st = do
    raise_if (not (g.is_instance st (g.root st) query)) (invalid only_queries)
    raise_if (any (λ node. is_blocked_key (g.key st node)) (g.walk st)) (invalid only_read_only)
    raise_if (is_empty (g.find_all st (g.root st) select)) (invalid no_select_statement)
