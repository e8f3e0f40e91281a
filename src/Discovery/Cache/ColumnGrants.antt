-- ===== src/Discovery/Cache/ColumnGrants.antt =====
-- What the deletes of metadata_cache.py leave of the column permissions, which fall with their column
-- and with their table permission.
use multi_tenant_data_chat_p.Shared.{
  ℕ, ◌≡◌, refl, sym, ◌≢◌, inl, inr, Bool, true, not, List, map, contains, filter_by, In,
  In-filter_by_of, Bool-cases, nat_eq,
}
use multi_tenant_data_chat_p.Models.{
  DatabaseTable, DatabaseColumn, TablePermission, ColumnPermission, Store,
}
use multi_tenant_data_chat_p.Discovery.Cache.{
  delete_columns, delete_table_permissions, delete_tables,
}
use multi_tenant_data_chat_p.Discovery.Cache.Kept.{contains-keys}

-- A key that no selected row has is not among the keys of the selected rows.
not_a_key :
    {A : Type 0} (key : A → ℕ) (p : A → Bool) (xs : List A) (n : ℕ)
    → ((a : A) → In a xs → p a ≡ true → n ≢ key a)
    → not (contains (map key (filter_by p xs)) n) ≡ true
not_a_key key p xs n h = elim (Bool-cases (contains (map key (filter_by p xs)) n)) [
  | inl listed ↦ let (a, i, q, e) = contains-keys key p xs n listed in absurd (h a i q (sym e))
  | inr missing ↦ rw missing refl
]

pub column_grant-delete_columns :
    (p : DatabaseColumn → Bool) (st : Store) (g : ColumnPermission)
    → In g st.column_permissions
    → ((c : DatabaseColumn) → In c st.columns → p c ≡ true → g.column_id ≢ c.id)
    → In g (delete_columns p st).column_permissions
unfolding delete_columns
column_grant-delete_columns p st g i h =
    In-filter_by_of _ g st.column_permissions i
      (not_a_key (λ (c : DatabaseColumn). c.id) p st.columns g.column_id h)

column_grant-delete_table_permissions :
    (p : TablePermission → Bool) (st : Store) (g : ColumnPermission)
    → In g st.column_permissions
    → ((q : TablePermission)
        → In q st.table_permissions
        → p q ≡ true
        → g.table_permission_id ≢ q.id)
    → In g (delete_table_permissions p st).column_permissions
unfolding delete_table_permissions
column_grant-delete_table_permissions p st g i h =
    In-filter_by_of _ g st.column_permissions i
      (not_a_key (λ (q : TablePermission). q.id) p st.table_permissions g.table_permission_id h)

-- The column and the table permission of `g` are for no selected table.
pub record IsApart (p : DatabaseTable → Bool) (st : Store) (g : ColumnPermission) : Type 0 where
  pub by_column :
      (c : DatabaseColumn)
      → In c st.columns
      → g.column_id ≡ c.id
      → (t : DatabaseTable) → In t st.tables
      → p t ≡ true
      → c.table_id ≢ t.id
  pub by_permission :
      (q : TablePermission)
      → In q st.table_permissions
      → g.table_permission_id ≡ q.id
      → (t : DatabaseTable) → In t st.tables
      → p t ≡ true
      → q.table_id ≢ t.id

pub column_grant-delete_tables :
    (p : DatabaseTable → Bool) (st : Store) (g : ColumnPermission)
    → In g st.column_permissions
    → IsApart p st g
    → In g (delete_tables p st).column_permissions
unfolding delete_tables delete_table_permissions
column_grant-delete_tables p st g i apart =
    let key = λ (t : DatabaseTable). t.id in
    let of_grant = λ (q : TablePermission). contains (map key (filter_by p st.tables)) q.table_id in
    column_grant-delete_columns _ (delete_table_permissions of_grant st) g
      (column_grant-delete_table_permissions of_grant st g i (λ q j listed e.
        let (t, k, chosen, same) = contains-keys key p st.tables q.table_id listed in
        apart.by_permission q j e t k chosen (sym same)))
      (λ c j listed e.
        let (t, k, chosen, same) = contains-keys key p st.tables c.table_id listed in
        apart.by_column c j e t k chosen (sym same))
