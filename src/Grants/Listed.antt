-- ===== src/Grants/Listed.antt =====
-- What `get_permissions` returns.
use multi_tenant_data_chat_p.Shared.{
  ℕ, Bool, ◌≡◌, refl, sym, ap, subst, ◌∙◌, true, &&-true, Option, none, some, some_inj, List, [],
  ◌∷◌, length, length-map, map, contains, filter_by, In, In-filter_by, In-filter_by_of, In-map,
  In-map_of, In-contains, ok, ok_inj, >>=-eq-ok, ◌==◌, ==_iff, nat_eq,
}
use multi_tenant_data_chat_p.Shared.Dict.{get, get_or, get_or-group_by}
use multi_tenant_data_chat_p.Models.{User, TablePermission, ColumnPermission, Store}
use multi_tenant_data_chat_p.Permissions.Repository.{IsOrdering}
use multi_tenant_data_chat_p.Grants.Listing.{
  is_given, is_listed, list_table_permissions, list_column_permissions, TablePermissionResponse,
  check_connection, get_permissions,
}

abbrev of_permission : ℕ → ColumnPermission → Bool
of_permission n c = n == c.table_permission_id

module _ (order_columns : List ColumnPermission → List ColumnPermission)
    (columns_kept : IsOrdering order_columns) (st : Store) where
  -- The columns found for a permission that was asked for are its column permissions.
  columns_of_permission :
      (ids : List ℕ) (n : ℕ) (c : ColumnPermission)
      → In n ids
      → (In c (get_or (list_column_permissions order_columns st ids) n [])
          → In c st.column_permissions × (c.table_permission_id ≡ n))
        × (In c st.column_permissions
            → c.table_permission_id ≡ n
            → In c (get_or (list_column_permissions order_columns st ids) n []))
  unfolding list_column_permissions get
  columns_of_permission [] n c i = elim i [ ]
  columns_of_permission (m ∷ ids) n c i =
      let asked = λ (c : ColumnPermission). contains (m ∷ ids) c.table_permission_id in
      let rows = order_columns (filter_by asked st.column_permissions) in
      let same = get_or-group_by (λ (c : ColumnPermission). c.table_permission_id) rows [] n in
      (
        λ j.
            let (k, own) = In-filter_by (of_permission n) c rows (subst (In c) same j) in
            (
              (In-filter_by asked c st.column_permissions
                  (columns_kept.from_ordered c (filter_by asked st.column_permissions) k)).0,
              sym ((==_iff n c.table_permission_id).0 own),
            ),
        λ j own.
            let wanted : contains (m ∷ ids) c.table_permission_id ≡ true =
              ap (contains (m ∷ ids)) own ∙ In-contains n (m ∷ ids) i in
            subst (In c) (sym same) (
              In-filter_by_of (of_permission n) c rows
                (columns_kept.to_ordered c (filter_by asked st.column_permissions)
                  (In-filter_by_of asked c st.column_permissions j wanted))
                ((==_iff n c.table_permission_id).1 (sym own))),
      )

-- The id is the given one, if one is given.
abbrev pub Agrees : Option ℕ → ℕ → Type 0
Agrees o n = (m : ℕ) → o ≡ some m → n ≡ m

is_given-Agrees : (o : Option ℕ) (n : ℕ) → is_given o n ≡ true → Agrees o n
is_given-Agrees none n h m e = cc
is_given-Agrees (some k) n h m e = (==_iff n k).0 h ∙ some_inj e

Agrees-is_given : (o : Option ℕ) (n : ℕ) → Agrees o n → is_given o n ≡ true
Agrees-is_given none n h = refl
Agrees-is_given (some k) n h = (==_iff n k).1 (h k refl)

-- A permission of the tenant, for the connection and for the table that are given.
pub record IsChosen (tenant_id : ℕ) (connection_id table_id : Option ℕ) (p : TablePermission)
    : Type 0 where
  pub own_tenant : p.tenant_id ≡ tenant_id
  pub for_connection : Agrees connection_id p.connection_id
  pub for_table : Agrees table_id p.table_id

is_listed-IsChosen :
    (tenant_id : ℕ) (connection_id table_id : Option ℕ) (p : TablePermission)
    → is_listed tenant_id connection_id table_id p ≡ true
    → IsChosen tenant_id connection_id table_id p
unfolding is_listed
is_listed-IsChosen tenant_id connection_id table_id p h =
    let (first, table) = &&-true h in
    let (tenant, connection) = &&-true first in
    record {
      own_tenant = (==_iff p.tenant_id tenant_id).0 tenant;
      for_connection = is_given-Agrees connection_id p.connection_id connection;
      for_table = is_given-Agrees table_id p.table_id table;
    }

IsChosen-is_listed :
    (tenant_id : ℕ) (connection_id table_id : Option ℕ) (p : TablePermission)
    → IsChosen tenant_id connection_id table_id p
    → is_listed tenant_id connection_id table_id p ≡ true
unfolding is_listed
IsChosen-is_listed tenant_id connection_id table_id p c =
    rw ((==_iff p.tenant_id tenant_id).1 c.own_tenant) (
      rw (Agrees-is_given connection_id p.connection_id c.for_connection)
        (Agrees-is_given table_id p.table_id c.for_table))

-- A response is one stored permission that is chosen, with exactly its column permissions.
pub record IsListed (st : Store) (user : User) (connection_id table_id : Option ℕ)
    (r : TablePermissionResponse) : Type 0 where
  pub stored : In r.permission st.table_permissions
  pub chosen : IsChosen user.tenant_id connection_id table_id r.permission
  pub its_columns :
      (c : ColumnPermission)
      → In c r.columns
      → In c st.column_permissions × (c.table_permission_id ≡ r.permission.id)
  pub all_columns :
      (c : ColumnPermission)
      → In c st.column_permissions
      → c.table_permission_id ≡ r.permission.id
      → In c r.columns

module _ (order : List TablePermission → List TablePermission)
    (order_columns : List ColumnPermission → List ColumnPermission) (kept : IsOrdering order)
    (same_length : (ps : List TablePermission) → length (order ps) ≡ length ps)
    (columns_kept : IsOrdering order_columns) (st : Store) (user : User)
    (connection_id table_id : Option ℕ) where
  listed_permissions : List TablePermission
  listed_permissions = (list_table_permissions order st user.tenant_id connection_id table_id).0

  response : TablePermission → TablePermissionResponse
  unfolding listed_permissions
  response p = record {
    permission = p;
    columns =
        get_or
          (list_column_permissions order_columns st
            (map (λ (p : TablePermission). p.id) listed_permissions))
          p.id [];
  }

  response-IsListed :
      (p : TablePermission)
      → In p listed_permissions
      → IsListed st user connection_id table_id (response p)
  unfolding response list_table_permissions
  response-IsListed p i =
      let test = is_listed user.tenant_id connection_id table_id in
      let (j, q) =
        In-filter_by test p st.table_permissions
          (kept.from_ordered p (filter_by test st.table_permissions) i) in
      let found = λ (c : ColumnPermission).
        columns_of_permission order_columns columns_kept st
          (map (λ (p : TablePermission). p.id) listed_permissions) p.id c
          (In-map_of (λ (p : TablePermission). p.id) listed_permissions p i) in
      record {
        stored = j;
        chosen = is_listed-IsChosen user.tenant_id connection_id table_id p q;
        its_columns = λ c k. (found c).0 k;
        all_columns = λ c k e. (found c).1 k e;
      }

  -- For orders of the database that keep the rows and their number: every response of a successful
  -- listing is a stored permission of the user's tenant that is for the given connection and the
  -- given table, if any is given, with exactly its column permissions; every such stored permission
  -- is listed; and the total is the number of the responses.
  pub get_permissions_lists :
      (items : List TablePermissionResponse) (total : ℕ)
      → get_permissions order order_columns st user connection_id table_id ≡ ok (items, total)
      → ((r : TablePermissionResponse) → In r items → IsListed st user connection_id table_id r)
        × ((p : TablePermission)
            → In p st.table_permissions
            → IsChosen user.tenant_id connection_id table_id p
            → (r : TablePermissionResponse) × In r items × (r.permission ≡ p))
        × (total ≡ length items)
  unfolding get_permissions response list_table_permissions
  get_permissions_lists items total h =
      let (t, checked, last) = >>=-eq-ok (check_connection st user connection_id) _ h in
      let same = ap (λ (x : List TablePermissionResponse × ℕ). x.0) (ok_inj last) in
      (
        λ r i.
            let (p, j, e) = In-map response listed_permissions r (subst (In r) (sym same) i) in
            subst (IsListed st user connection_id table_id) (sym e) (response-IsListed p j),
        λ p i c. (
          response p,
          subst (In (response p)) same (In-map_of response listed_permissions p (found p i c)),
          refl,
        ),
        sym (ap (λ (x : List TablePermissionResponse × ℕ). x.1) (ok_inj last))
            ∙ sym (
                same_length (
                  filter_by (is_listed user.tenant_id connection_id table_id) st.table_permissions))
            ∙ sym (length-map response listed_permissions)
            ∙ ap length same,
      )
    where
      found :
          (p : TablePermission)
          → In p st.table_permissions
          → IsChosen user.tenant_id connection_id table_id p
          → In p listed_permissions
      found p i c =
          let test = is_listed user.tenant_id connection_id table_id in
          kept.to_ordered p (filter_by test st.table_permissions) (
            In-filter_by_of test p st.table_permissions i
              (IsChosen-is_listed user.tenant_id connection_id table_id p c))
