-- ===== src/Sql/Validator/Limit.antt =====
-- The stage of query_validator.py that bounds the number of rows.
use multi_tenant_data_chat_p.Shared.{
  ℕ, ◌≡◌, Option, none, some, Result, ok, ◌>>◌, raise_if, leb, ltb, ◌&&◌, if◌then◌else◌,
}
use multi_tenant_data_chat_p.Sql.Sqlglot.{Sqlglot}
use multi_tenant_data_chat_p.Sql.Validator.Errors.{Fault, invalid, row_limit_not_positive}

module _ {Statement Node Condition : Type 0} (g : Sqlglot Statement Node Condition) where
  -- An integer limit of the statement that lies within bounds stays; any other is replaced. The
  -- result is the limit that applies and the statement.
  unfoldable pub bounded_limit : Statement → ℕ → Option (Option ℕ) → ℕ × Statement
  bounded_limit st maximum_rows (some (some existing)) =
      if leb 1 existing && leb existing maximum_rows
      then (existing, st)
      else (maximum_rows, g.set_limit st maximum_rows)
  bounded_limit st maximum_rows (some none) = (maximum_rows, g.set_limit st maximum_rows)
  bounded_limit st maximum_rows none = (maximum_rows, g.set_limit st maximum_rows)

  unfoldable pub apply_row_limit : Statement → ℕ → Result Fault (ℕ × Statement)
  unfolding bounded_limit
  apply_row_limit st maximum_rows = do
    raise_if (ltb maximum_rows 1) (invalid row_limit_not_positive)
    ok (bounded_limit st maximum_rows (g.limit st))

  -- What sqlglot promises of `statement.set("limit", …)`.
  abbrev pub SetsLimit : Type 0
  SetsLimit = (st : Statement) (n : ℕ) → g.limit (g.set_limit st n) ≡ some (some n)
