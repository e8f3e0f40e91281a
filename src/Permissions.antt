-- ===== src/Permissions.antt =====
-- core/permissions.py: the tables and columns that a user may reach on one connection.
pub mod Repository
pub mod Effective
use multi_tenant_data_chat_p.Shared.{Bool, Option, List}
use multi_tenant_data_chat_p.Shared.Text.{Text}
use multi_tenant_data_chat_p.Shared.Dict.{Dict}
use multi_tenant_data_chat_p.Values.{Fields}

pub record AllowedColumn : Type 0 where
  pub column_id : Text
  pub name : Text
  pub data_type : Text
  pub can_read : Bool
  pub can_filter : Bool
  pub can_aggregate : Bool
  pub mask_type : Option Text

pub record AllowedTable : Type 0 where
  pub table_id : Text
  pub schema_name : Text
  pub table_name : Text
  pub can_read : Bool
  pub can_insert : Bool
  pub can_update : Bool
  pub can_delete : Bool
  pub columns : Dict Text AllowedColumn
  pub row_filters : List Fields

pub record AllowedSchema : Type 0 where
  pub connection_id : Text
  pub tables : Dict Text AllowedTable
