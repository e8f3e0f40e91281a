-- ===== src/Sql/Sqlglot.antt =====
-- What the pipeline uses of the library sqlglot. A `Statement` is the present state of a parsed
-- statement, whose nodes the code mutates; a `Node` is the identity of a node in it; a
-- `Condition` is a free-standing expression that the code builds. All three and the operations
-- are parameters of the model.
use multi_tenant_data_chat_p.Shared.{ℕ, Bool, Option, List, Result}
use multi_tenant_data_chat_p.Shared.Text.{Text}
use multi_tenant_data_chat_p.Values.{Value}

-- The expression classes that the code tests for.
pub data NodeClass : Type 0 where
  query select cte table star column where_clause having join agg_func : NodeClass

-- The classes of comparison that the code constructs.
pub data Comparison : Type 0 where
  eq neq gt gte lt lte : Comparison

-- What `parse` and `parse_one` raise: a `ParseError`, or the `TokenError` of the tokenizer, which is
-- no `ParseError`.
pub data SyntaxError : Type 0 where
  parse_error token_error : SyntaxError

pub record Sqlglot (Statement Node Condition : Type 0) : Type 0 where
  -- `parse(sql, read=dialect)`; an item may be `None`.
  pub parse : Text → Text → Result SyntaxError (List (Option Statement))
  -- `parse_one(sql, read=dialect)`
  pub parse_one : Text → Text → Result SyntaxError Statement
  -- `statement.sql(dialect=dialect, pretty=False)`
  pub to_sql : Statement → Text → Text
  -- The node that the statement itself is.
  pub root : Statement → Node
  -- Object identity of nodes.
  pub same_node : Node → Node → Bool
  pub is_instance : Statement → Node → NodeClass → Bool
  -- `statement.walk()` and `node.find_all(cls)`
  pub walk : Statement → List Node
  pub find_all : Statement → Node → NodeClass → List Node
  -- `node.parent`, `node.parent.parent` and so on; a tree has finitely many.
  pub parents : Statement → Node → List Node
  -- `node.find_ancestor(cls)`
  pub find_ancestor : Statement → Node → NodeClass → Option Node
  -- Text properties of nodes; an absent one is the empty text. `table_of` is `column.table`.
  pub key : Statement → Node → Text
  pub name : Statement → Node → Text
  pub db : Statement → Node → Text
  pub alias : Statement → Node → Text
  pub alias_or_name : Statement → Node → Text
  pub table_of : Statement → Node → Text
  -- `statement.args.get("limit")`: `none` if there is none, else its expression if that is an
  -- integer literal.
  pub limit : Statement → Option (Option ℕ)
  -- `statement.set("limit", Limit(expression=Literal.number(n)))`
  pub set_limit : Statement → ℕ → Statement
  -- `select.args.get("where")`, its condition, and `select.set("where", Where(this=c))`
  pub where_condition : Statement → Node → Option Condition
  pub set_where : Statement → Node → Condition → Statement
  -- `exp.column(name, table=reference)`, `exp.convert(value)`, and the classes that take them.
  pub column_expression : Text → Text → Condition
  pub convert : Value → Condition
  pub compare : Comparison → Condition → Condition → Condition
  pub in_list : Condition → List Condition → Condition
  pub negate : Condition → Condition
  pub and_ : Condition → Condition → Condition
  pub or_ : Condition → Condition → Condition
