-- ===== src/Sql/RowFilter.antt =====
-- services/database/row_filter_service.py. `Rules` turns the rules of a filter group into a
-- condition, `Selects` finds the filters of one SELECT; this file writes them into the statement.
pub mod Rules
pub mod Selects
pub mod Combination
pub mod Injection
pub mod CommonTables
use multi_tenant_data_chat_p.Shared.{
  ℕ, ap, ok_inj, ◌≡◌, Bool, true, false, ◌||◌, any, Option, none, some, List, [], ◌∷◌, is_empty,
  for_each, Result, ok, err, ◌>>=◌, ◌>>◌, raise_if, or_raise, if◌then◌else◌,
}
use multi_tenant_data_chat_p.Shared.Text.{Text, strip}
use multi_tenant_data_chat_p.Permissions.{AllowedSchema}
use multi_tenant_data_chat_p.Sql.Sqlglot.{Sqlglot, SyntaxError, parse_error, token_error, select}
use Rules.{Fault, filter_error, token_failure, sql_empty, not_parsed}
use Selects.{build_select_security_expression}

-- `except ParseError`: a `TokenError` passes.
unfoldable pub catch_unparsed : {A : Type 0} → Result SyntaxError A → Result Fault A
catch_unparsed (ok a) = ok a
catch_unparsed (err parse_error) = err (filter_error not_parsed)
catch_unparsed (err token_error) = err token_failure

pub catch_unparsed-eq-ok :
    {A : Type 0} (r : Result SyntaxError A) {a : A} → catch_unparsed r ≡ ok a → r ≡ ok a
unfolding catch_unparsed
catch_unparsed-eq-ok (ok x) h = ap ok (ok_inj h)
catch_unparsed-eq-ok (err parse_error) h = cc
catch_unparsed-eq-ok (err token_error) h = cc

module _ {Statement Node Condition : Type 0} (g : Sqlglot Statement Node Condition) where
  unfoldable pub inject_filter_into_select : Statement → Node → Condition → Statement
  inject_filter_into_select st node security = elim (g.where_condition st node) [
    | none ↦ g.set_where st node security
    | some existing ↦ g.set_where st node (g.and_ existing security)
  ]

  -- The loop over `select_expressions` that keeps the first of each identity.
  unfoldable pub first_of_each : List Node → List Node → List Node
  first_of_each seen [] = []
  first_of_each seen (n ∷ ns) =
      let again = first_of_each seen ns in
      let fresh = first_of_each (n ∷ seen) ns in
      if any (g.same_node n) seen then again else n ∷ fresh

  unfoldable pub unique_selects : Statement → List Node
  unfolding first_of_each
  unique_selects st =
      let selects = g.find_all st (g.root st) select in
      first_of_each []
        (if g.is_instance st (g.root st) select then g.root st ∷ selects else selects)

  module _ (allowed_schema : AllowedSchema) (tenant_id user_id : ℕ) where
    -- The body of the last loop, which mutates the statement.
    unfoldable pub secure_select : Node → Statement → Result Fault Statement
    secure_select node st = do
      security ← build_select_security_expression g st allowed_schema tenant_id user_id node
      elim security [ none ↦ ok st | some c ↦ ok (inject_filter_into_select st node c) ]

    unfoldable pub inject_mandatory_row_filters : Text → Text → Result Fault Text
    unfolding catch_unparsed
    inject_mandatory_row_filters sql dialect = do
      raise_if (is_empty sql || is_empty (strip sql)) (filter_error sql_empty)
      st ← catch_unparsed (g.parse_one sql dialect)
      secured ← for_each (unique_selects st) st secure_select
      ok (g.to_sql secured dialect)
