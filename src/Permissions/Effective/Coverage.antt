-- ===== src/Permissions/Effective/Coverage.antt =====
-- Nothing is lost in the merged schema: every readable column that a permission grants is there,
-- with the use that it grants, masked if the grant masks it, and under the row filter that the
-- permission demands.
pub mod Columns
use multi_tenant_data_chat_p.Shared.{
  ℕ, ◌≡◌, refl, sym, ap, subst, ◌∙◌, ◌≢◌, Bool, true, false, not, Option, none, some, List, [], ◌∷◌,
  ◌++◌, In, here, there, In-append_left, In-append_right, is_empty, is_some, or_default, nat_eq,
  if_pos, if_neg, if◌then◌else◌, arith,
}
use multi_tenant_data_chat_p.Shared.Text.{Text, text, text_eq}
use multi_tenant_data_chat_p.Shared.Dict.{
  Dict, get, put, get_or, get_or-put, get-put_self, get-put_ne, get-filter_by,
}
use multi_tenant_data_chat_p.Values.{Fields, list, nil, field_value, truthy}
use multi_tenant_data_chat_p.Models.{DatabaseColumn, ColumnPermission}
use multi_tenant_data_chat_p.Permissions.{AllowedColumn, AllowedTable}
use multi_tenant_data_chat_p.Permissions.Repository.{PermissionRow, ColumnRow}
use multi_tenant_data_chat_p.Permissions.Effective.{
  merge_row_filter, group_columns, new_column, widen_column, add_column, merge_columns, new_table,
  widen_table, entry_of, name_of, merge_permission, merge_permissions, drop_empty_tables,
  build_schema,
}
use Columns.{
  HasColumn, group_columns-adds, merge_columns-keeps, merge_columns-HasColumn, HasColumn-nonempty,
}

module _ (c : ColumnRow) where
  module _ (row : PermissionRow) where
    -- A row filter that has rules is kept.
    abbrev pub IsFiltered : List Fields → Type 0
    IsFiltered filters =
        truthy (or_default (field_value row.0.row_filter (text "rules")) (list nil)) ≡ true
        → In row.0.row_filter filters

    -- The table of the permission is there, under the filter that the permission demands, with
    -- the column.
    abbrev pub Covers : Dict Text AllowedTable → Type 0
    Covers tables =
        (t : AllowedTable) × (get tables (name_of row) ≡ some t)
        × IsFiltered t.row_filters
        × HasColumn c t.columns

    merge_row_filter-adds :
        (filters : List Fields) → IsFiltered (merge_row_filter filters row.0.row_filter)
    unfolding merge_row_filter
    merge_row_filter-adds filters h = guarded _ h
      where
        guarded :
            (b : Bool)
            → b ≡ true
            → In row.0.row_filter (if b then filters ++ (row.0.row_filter ∷ []) else filters)
        guarded true e = In-append_right filters (here refl)
        guarded false e = cc

    merge_row_filter-keeps :
        (filters : List Fields) (f : Fields)
        → IsFiltered filters
        → IsFiltered (merge_row_filter filters f)
    unfolding merge_row_filter
    merge_row_filter-keeps filters f h rules = guarded _
      where
        guarded : (b : Bool) → In row.0.row_filter (if b then filters ++ (f ∷ []) else filters)
        guarded true = In-append_left (f ∷ []) (h rules)
        guarded false = h rules

    -- The entry that another permission starts from has what its table had.
    entry_of-keeps :
        (other : PermissionRow) (tables : Dict Text AllowedTable) (t : AllowedTable)
        → get tables (name_of other) ≡ some t
        → IsFiltered t.row_filters
        → HasColumn c t.columns
        → IsFiltered (entry_of other tables).row_filters
          × HasColumn c (entry_of other tables).columns
    unfolding entry_of widen_table
    entry_of-keeps other tables t found filtered has = kept (get tables (name_of other)) found
      where
        kept :
            (o : Option AllowedTable)
            → o ≡ some t
            → (let x : AllowedTable = elim o [
              | none ↦ new_table other.0 other.1 other.2
              | some old ↦ widen_table other.0 old
            ] in
                IsFiltered x.row_filters × HasColumn c x.columns)
        kept none e = absurd (cc e)
        kept (some old) e =
            let same : old ≡ t = cc in
            (
              subst (λ (x : AllowedTable). IsFiltered x.row_filters) (sym same) filtered,
              subst (λ (x : AllowedTable). HasColumn c x.columns) (sym same) has,
            )

    module _ (columns_of : ℕ → List ColumnRow) where
      merge_permission-Covers :
          (tables : Dict Text AllowedTable)
          → In c (columns_of row.0.id)
          → c.0.can_read ≡ true
          → Covers (merge_permission columns_of row tables)
      unfolding merge_permission
      merge_permission-Covers tables i readable = (
        _,
        get-put_self tables (name_of row) _,
        merge_row_filter-adds (entry_of row tables).row_filters,
        merge_columns-HasColumn c (columns_of row.0.id) (entry_of row tables).columns i readable,
      )

      merge_permission-keeps :
          (other : PermissionRow) (tables : Dict Text AllowedTable)
          → Covers tables
          → Covers (merge_permission columns_of other tables)
      unfolding merge_permission
      merge_permission-keeps other tables (t, found, filtered, has) =
          elim (text_eq.dec (name_of row) (name_of other)) [
            | yes same ↦
                let (filtered', has') =
                  entry_of-keeps other tables t (ap (get tables) (sym same) ∙ found) filtered has in
                (
                  _,
                  ap (get (merge_permission columns_of other tables)) same
                      ∙ get-put_self tables (name_of other) _,
                  merge_row_filter-keeps (entry_of other tables).row_filters other.0.row_filter
                      filtered',
                  merge_columns-keeps c (columns_of other.0.id) (entry_of other tables).columns
                      has',
                )
            | no differ ↦
                (t, get-put_ne tables (name_of other) _ (name_of row) differ ∙ found, filtered, has)
          ]

      merge_permissions-keeps :
          (rows : List PermissionRow) (tables : Dict Text AllowedTable)
          → Covers tables
          → Covers (merge_permissions columns_of rows tables)
      unfolding merge_permissions
      merge_permissions-keeps [] tables h = h
      merge_permissions-keeps (r ∷ rs) tables h =
          merge_permissions-keeps rs _ (merge_permission-keeps r tables h)

module _ (columns_of : ℕ → List ColumnRow) (c : ColumnRow) (row : PermissionRow)
    (i : In c (columns_of row.0.id)) (readable : c.0.can_read ≡ true) where
  merge_permissions-Covers :
      (rows : List PermissionRow) (tables : Dict Text AllowedTable)
      → In row rows
      → Covers c row (merge_permissions columns_of rows tables)
  unfolding merge_permissions
  merge_permissions-Covers [] tables j = elim j [ ]
  merge_permissions-Covers (r ∷ rs) tables (there j) = merge_permissions-Covers rs _ j
  merge_permissions-Covers (r ∷ rs) tables (here e) =
      merge_permissions-keeps c row columns_of rs _ (
        subst (λ (r : PermissionRow). Covers c row (merge_permission columns_of r tables)) e
          (merge_permission-Covers c row columns_of tables i readable))

-- Every readable column that a permission of the user grants is in the merged schema, under the
-- name of the permission's table: with the use that the grant allows, masked if the grant masks it,
-- and the table carries the permission's row filter if that has rules.
pub build_schema-Covers :
    (connection_id : ℕ) (rows : List PermissionRow) (cols : List ColumnRow) (row : PermissionRow)
    (c : ColumnRow)
    → In row rows
    → In c cols
    → c.0.table_permission_id ≡ row.0.id
    → c.0.can_read ≡ true
    → Covers c row (build_schema connection_id rows cols).tables
unfolding build_schema drop_empty_tables
build_schema-Covers connection_id rows cols row c i j owner readable =
    let columns_of : ℕ → List ColumnRow = λ id. get_or (group_columns cols []) id [] in
    let listed : In c (columns_of row.0.id) =
      subst (λ id. In c (columns_of id)) owner (group_columns-adds c cols [] j) in
    let (t, found, filtered, has) =
      merge_permissions-Covers columns_of c row listed readable rows [] i in
    (
      t,
      get-filter_by (λ (x : Text × AllowedTable). not (is_empty x.1.columns)) _ (name_of row) t
          found (HasColumn-nonempty c t.columns has),
      filtered,
      has,
    )
