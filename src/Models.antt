-- ===== src/Models.antt =====
-- models/user.py, role.py, database_connection.py, database_schema.py and table_permission.py: the
-- rows of the platform's own database, with the columns that the modelled code reads or writes.
-- A UUID is its number, a timestamp a number of some unit.
use multi_tenant_data_chat_p.Shared.{ℕ, Bool, Option, List}
use multi_tenant_data_chat_p.Shared.Text.{Text}
use multi_tenant_data_chat_p.Values.{Fields}

pub record User : Type 0 where
  pub id : ℕ
  pub tenant_id : ℕ
  pub is_tenant_admin : Bool

pub record Role : Type 0 where
  pub id : ℕ
  pub tenant_id : ℕ

pub record UserRole : Type 0 where
  pub user_id : ℕ
  pub role_id : ℕ

pub record DatabaseConnection : Type 0 where
  pub id : ℕ
  pub tenant_id : ℕ
  pub created_by : Option ℕ
  pub name : Text
  pub database_type : Text
  pub host : Option Text
  pub port : Option ℕ
  pub database_name : Option Text
  pub username : Option Text
  pub encrypted_password : Option Text
  pub encrypted_connection_string : Option Text
  pub ssl_enabled : Bool
  pub status : Text
  pub last_tested_at : Option ℕ
  pub last_test_message : Option Text
  pub schema_sync_status : Text
  pub last_schema_sync_at : Option ℕ
  pub is_active : Bool

pub record DatabaseSchema : Type 0 where
  pub id : ℕ
  pub tenant_id : ℕ
  pub connection_id : ℕ
  pub schema_name : Text

pub record DatabaseTable : Type 0 where
  pub id : ℕ
  pub tenant_id : ℕ
  pub connection_id : ℕ
  pub schema_id : ℕ
  pub table_name : Text
  pub table_type : Text
  pub estimated_row_count : Option ℕ
  pub primary_key_columns : List Text
  pub is_enabled : Bool
  pub is_sensitive : Bool

pub record DatabaseColumn : Type 0 where
  pub id : ℕ
  pub tenant_id : ℕ
  pub table_id : ℕ
  pub column_name : Text
  pub data_type : Text
  pub ordinal_position : Option ℕ
  pub is_nullable : Option Bool
  pub is_primary_key : Bool
  pub is_foreign_key : Bool
  pub is_sensitive : Bool
  pub referenced_schema : Option Text
  pub referenced_table : Option Text
  pub referenced_column : Option Text

pub record TablePermission : Type 0 where
  pub id : ℕ
  pub tenant_id : ℕ
  pub role_id : Option ℕ
  pub user_id : Option ℕ
  pub connection_id : ℕ
  pub table_id : ℕ
  pub can_read : Bool
  pub can_insert : Bool
  pub can_update : Bool
  pub can_delete : Bool
  pub row_filter : Fields

pub record ColumnPermission : Type 0 where
  pub table_permission_id : ℕ
  pub column_id : ℕ
  pub can_read : Bool
  pub can_filter : Bool
  pub can_aggregate : Bool
  pub mask_type : Option Text

-- The tables of the platform's database that the modelled code uses.
pub record Store : Type 0 where
  pub users : List User
  pub roles : List Role
  pub user_roles : List UserRole
  pub connections : List DatabaseConnection
  pub schemas : List DatabaseSchema
  pub tables : List DatabaseTable
  pub columns : List DatabaseColumn
  pub table_permissions : List TablePermission
  pub column_permissions : List ColumnPermission
