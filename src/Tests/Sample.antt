-- ===== src/Tests/Sample.antt =====
-- A user with one grant, and a parser that reads every text as the query
-- `SELECT id FROM public.orders`.
use multi_tenant_data_chat_p.Shared.{
  ℕ, Bool, true, false, ◌&&◌, ◌||◌, not, Option, none, some, ok, List, [], ◌∷◌, nat_eq,
}
use multi_tenant_data_chat_p.Shared.Text.{Text, text}
use multi_tenant_data_chat_p.Values.{str, list, dict, nil, cons, Fields, end, field, str_uuid}
use multi_tenant_data_chat_p.Models.{
  User, DatabaseConnection, DatabaseSchema, DatabaseTable, TablePermission, Store,
}
use multi_tenant_data_chat_p.Permissions.{AllowedColumn, AllowedTable, AllowedSchema}
use multi_tenant_data_chat_p.Permissions.Repository.{PermissionRow, ColumnRow, IsOrdering}
use multi_tenant_data_chat_p.Sql.Sqlglot.{Sqlglot, NodeClass, query, select, table, column}

-- What the one query may be changed in: its limit and its condition. A condition is its truth.
pub record OneQuery : Type 0 where
  pub row_limit : Option (Option ℕ)
  pub condition : Option Bool

abbrev pub plain_query : OneQuery
plain_query = record { row_limit = none; condition = none }

pub data QueryNode : Type 0 where
  the_select the_column the_table : QueryNode

abbrev is_same : QueryNode → QueryNode → Bool
is_same the_select the_select = true
is_same the_column the_column = true
is_same the_table the_table = true
is_same _ _ = false

abbrev is_class : QueryNode → NodeClass → Bool
is_class the_select query = true
is_class the_select select = true
is_class the_column column = true
is_class the_table table = true
is_class _ _ = false

abbrev nodes_of : NodeClass → List QueryNode
nodes_of query = the_select ∷ []
nodes_of select = the_select ∷ []
nodes_of column = the_column ∷ []
nodes_of table = the_table ∷ []
nodes_of _ = []

abbrev name_of_node : QueryNode → Text
name_of_node the_select = []
name_of_node the_column = text "id"
name_of_node the_table = text "orders"

abbrev key_of_node : QueryNode → Text
key_of_node the_select = text "select"
key_of_node the_column = text "column"
key_of_node the_table = text "table"

abbrev schema_of_node : QueryNode → Text
schema_of_node the_table = text "public"
schema_of_node _ = []

abbrev select_above : QueryNode → NodeClass → Option QueryNode
select_above the_column select = some the_select
select_above the_table select = some the_select
select_above _ _ = none

abbrev parents_of_node : QueryNode → List QueryNode
parents_of_node the_select = []
parents_of_node _ = the_select ∷ []

abbrev pub query_text : Text
query_text = text "SELECT id FROM public.orders"

abbrev pub sample_parser : Sqlglot OneQuery QueryNode Bool
sample_parser = record {
  parse = λ sql dialect. ok (some plain_query ∷ []);
  parse_one = λ sql dialect. ok plain_query;
  to_sql = λ st dialect. query_text;
  root = λ st. the_select;
  same_node = is_same;
  is_instance = λ st n c. is_class n c;
  walk = λ st. the_select ∷ the_column ∷ the_table ∷ [];
  find_all = λ st n c. nodes_of c;
  parents = λ st n. parents_of_node n;
  find_ancestor = λ st n c. select_above n c;
  key = λ st n. key_of_node n;
  name = λ st n. name_of_node n;
  db = λ st n. schema_of_node n;
  alias = λ st n. [];
  alias_or_name = λ st n. name_of_node n;
  table_of = λ st n. [];
  limit = λ st. st.row_limit;
  set_limit = λ st n. record st { row_limit = some (some n) };
  where_condition = λ st n. st.condition;
  set_where = λ st n c. record st { condition = some c };
  column_expression = λ name reference. true;
  convert = λ v. true;
  compare = λ c a b. a && b;
  in_list = λ a bs. a;
  negate = λ a. not a;
  and_ = λ a b. a && b;
  or_ = λ a b. a || b;
}

abbrev pub sample_user : User
sample_user = record { id = 1; tenant_id = 7; is_tenant_admin = false }

abbrev pub sample_connection : DatabaseConnection
sample_connection = record {
  id = 5;
  tenant_id = 7;
  created_by = none;
  name = text "shop";
  database_type = text "postgresql";
  host = some (text "db");
  port = some 5432;
  database_name = some (text "shop");
  username = some (text "reader");
  encrypted_password = some (text "token");
  encrypted_connection_string = none;
  ssl_enabled = true;
  status = text "connected";
  last_tested_at = none;
  last_test_message = none;
  schema_sync_status = text "synchronized";
  last_schema_sync_at = none;
  is_active = true;
}

-- `{"rules": [{"column_id": …, "operator": "eq", "value_source": "tenant_id"}]}`
abbrev pub tenant_rule : Fields
tenant_rule = field (text "column_id") (str (text "c")) (
    field (text "operator") (str (text "eq"))
      (field (text "value_source") (str (text "tenant_id")) end))

abbrev pub tenant_filter : Fields
tenant_filter = field (text "rules") (list (cons (dict tenant_rule) nil)) end

abbrev pub sample_permission : TablePermission
sample_permission = record {
  id = 9;
  tenant_id = 7;
  role_id = none;
  user_id = some 1;
  connection_id = 5;
  table_id = 4;
  can_read = true;
  can_insert = false;
  can_update = false;
  can_delete = false;
  row_filter = end;
}

abbrev pub sample_table : DatabaseTable
sample_table = record {
  id = 4;
  tenant_id = 7;
  connection_id = 5;
  schema_id = 3;
  table_name = text "orders";
  table_type = text "table";
  estimated_row_count = some 12;
  primary_key_columns = text "id" ∷ [];
  is_enabled = true;
  is_sensitive = false;
}

abbrev pub sample_schema : DatabaseSchema
sample_schema = record { id = 3; tenant_id = 7; connection_id = 5; schema_name = text "public" }

abbrev pub sample_row : PermissionRow
sample_row = (sample_permission, sample_table, sample_schema)

abbrev pub sample_column : ColumnRow
sample_column = (
  record {
    table_permission_id = 9;
    column_id = 8;
    can_read = true;
    can_filter = true;
    can_aggregate = false;
    mask_type = some (text "full");
  },
  record {
    id = 8;
    tenant_id = 7;
    table_id = 4;
    column_name = text "id";
    data_type = text "integer";
    ordinal_position = some 1;
    is_nullable = some false;
    is_primary_key = true;
    is_foreign_key = false;
    is_sensitive = false;
    referenced_schema = none;
    referenced_table = none;
    referenced_column = none;
  },
)

abbrev pub sample_store : Store
sample_store = record {
  users = sample_user ∷ [];
  roles = record { id = 2; tenant_id = 7 } ∷ [];
  user_roles = record { user_id = 1; role_id = 2 } ∷ [];
  connections = sample_connection ∷ [];
  schemas = sample_schema ∷ [];
  tables = sample_table ∷ [];
  columns = sample_column.1 ∷ [];
  table_permissions = sample_permission ∷ [];
  column_permissions = sample_column.0 ∷ [];
}

abbrev pub allowed_id : AllowedColumn
allowed_id = record {
  column_id = str_uuid 8;
  name = text "id";
  data_type = text "integer";
  can_read = true;
  can_filter = true;
  can_aggregate = false;
  mask_type = some (text "full");
}

abbrev pub allowed_orders : AllowedTable
allowed_orders = record {
  table_id = str_uuid 4;
  schema_name = text "public";
  table_name = text "orders";
  can_read = true;
  can_insert = false;
  can_update = false;
  can_delete = false;
  columns = (text "id", allowed_id) ∷ [];
  row_filters = [];
}

abbrev pub sample_allowed : AllowedSchema
sample_allowed = record {
  connection_id = str_uuid 5;
  tables = (text "public.orders", allowed_orders) ∷ [];
}

-- The schema of a grant with a row filter.
abbrev pub filtered_orders : AllowedTable
filtered_orders = record allowed_orders {
  columns = (text "id", record allowed_id { column_id = text "c" }) ∷ [];
  row_filters = tenant_filter ∷ [];
}

abbrev pub filtered_allowed : AllowedSchema
filtered_allowed = record sample_allowed { tables = (text "public.orders", filtered_orders) ∷ [] }

-- The database returns the rows as they are stored.
pub stored_order : {A : Type 0} → IsOrdering {A = A} (λ xs. xs)
stored_order = record { from_ordered = λ a xs i. i; to_ordered = λ a xs i. i }
