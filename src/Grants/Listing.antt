-- ===== src/Grants/Listing.antt =====
-- `get_permissions`, with the ORDER BY clauses as parameters: the permissions of the tenant, each
-- with its column permissions, and their number.
use multi_tenant_data_chat_p.Shared.{
  ℕ, Bool, true, ◌&&◌, Option, none, some, List, [], ◌∷◌, map, length, contains, filter_by, Result,
  ok, ◌>>=◌, ◌>>◌, or_raise, ◌==◌, nat_eq,
}
use multi_tenant_data_chat_p.Shared.Dict.{Dict, get_or, group_by}
use multi_tenant_data_chat_p.Models.{User, TablePermission, ColumnPermission, Store}
use multi_tenant_data_chat_p.Permissions.Effective.{find_connection}
use multi_tenant_data_chat_p.Grants.{PermissionError, connection_not_found}

-- A condition that is added to the query only if the value is given.
abbrev pub is_given : Option ℕ → ℕ → Bool
is_given none n = true
is_given (some m) n = n == m

module _ (tenant_id : ℕ) (connection_id table_id : Option ℕ) where
  unfoldable pub is_listed : TablePermission → Bool
  is_listed p =
      p.tenant_id == tenant_id
      && is_given connection_id p.connection_id
      && is_given table_id p.table_id

-- The rows of the query, and the count of a second query under the same conditions.
unfoldable pub list_table_permissions :
    (List TablePermission → List TablePermission)
    → Store
    → ℕ
    → Option ℕ
    → Option ℕ
    → List TablePermission × ℕ
unfolding is_listed
list_table_permissions order st tenant_id connection_id table_id =
    let rows = filter_by (is_listed tenant_id connection_id table_id) st.table_permissions in
    (order rows, length rows)

unfoldable pub list_column_permissions :
    (List ColumnPermission → List ColumnPermission)
    → Store
    → List ℕ
    → Dict ℕ (List ColumnPermission)
unfolding group_by
list_column_permissions order st [] = []
list_column_permissions order st (n ∷ ids) =
    group_by (λ (c : ColumnPermission). c.table_permission_id)
      (order (
        filter_by (λ (c : ColumnPermission). contains (n ∷ ids) c.table_permission_id)
          st.column_permissions))
      []

-- A `TablePermissionResponse` repeats the permission's fields.
pub record TablePermissionResponse : Type 0 where
  pub permission : TablePermission
  pub columns : List ColumnPermission

-- `if connection_id is not None:` and the lookup under it.
unfoldable pub check_connection : Store → User → Option ℕ → Result PermissionError (Unit {0})
unfolding find_connection
check_connection st current_user none = ok tt
check_connection st current_user (some connection_id) =
    or_raise (find_connection st.connections current_user.tenant_id connection_id)
      connection_not_found
    >>= λ c. ok tt

module _ (order : List TablePermission → List TablePermission)
    (order_columns : List ColumnPermission → List ColumnPermission) where
  unfoldable pub get_permissions :
      Store → User → Option ℕ → Option ℕ → Result PermissionError (List TablePermissionResponse × ℕ)
  unfolding check_connection list_table_permissions list_column_permissions
  get_permissions st current_user connection_id table_id = do
    check_connection st current_user connection_id
    let listed = list_table_permissions order st current_user.tenant_id connection_id table_id
    let columns_by_permission =
        list_column_permissions order_columns st (map (λ (p : TablePermission). p.id) listed.0)
    let items : List TablePermissionResponse =
        map
          (λ (p : TablePermission). record {
            permission = p;
            columns = get_or columns_by_permission p.id [];
          })
          listed.0
    ok (items, listed.1)
