-- ===== src/Permissions/Effective/Provenance.antt =====
-- Nothing in the merged schema is made up: every allowed column, each of its flags and its mask
-- come from grants of the user.
use multi_tenant_data_chat_p.Shared.{
  ℕ, ◌≡◌, refl, sym, ap, subst, ◌∙◌, inl, inr, Bool, true, false, not, Option, none, some, List, [],
  ◌∷◌, ◌++◌, In, here, there, In-append, In-filter_by, is_empty, is_some, Bool-cases, nat_eq,
  if_pos, if_neg, if◌then◌else◌, arith,
}
use multi_tenant_data_chat_p.Shared.Text.{Text, text_eq}
use multi_tenant_data_chat_p.Shared.Dict.{Dict, get, put, get_or, get_or-put, In-put, In-of_get}
use multi_tenant_data_chat_p.Values.{str_uuid}
use multi_tenant_data_chat_p.Models.{DatabaseColumn, ColumnPermission}
use multi_tenant_data_chat_p.Permissions.{AllowedColumn, AllowedTable}
use multi_tenant_data_chat_p.Permissions.Repository.{PermissionRow, ColumnRow}
use multi_tenant_data_chat_p.Permissions.Effective.{
  group_columns, new_column, widen_column, add_column, merge_columns, new_table, widen_table,
  entry_of, name_of, merge_permission, merge_permissions, drop_empty_tables, build_schema,
}

module _ (cols : List ColumnRow) where
  IsGrouped : Dict ℕ (List ColumnRow) → Type 0
  IsGrouped d =
      (id : ℕ) (r : ColumnRow) → In r (get_or d id []) → In r cols × (r.0.table_permission_id ≡ id)

  put-IsGrouped :
      (d : Dict ℕ (List ColumnRow)) (x : ColumnRow)
      → In x cols
      → IsGrouped d
      → IsGrouped (put d x.0.table_permission_id (get_or d x.0.table_permission_id [] ++ (x ∷ [])))
  unfolding IsGrouped
  put-IsGrouped d x listed h id r i = elim (nat_eq.dec id x.0.table_permission_id) [
    | yes p ↦ added p (rw (get_or-put, if_pos _ p) at i)
    | no n ↦ h id r (rw (get_or-put, if_neg _ n) at i)
  ]
    where
      added :
          id ≡ x.0.table_permission_id
          → In r (get_or d x.0.table_permission_id [] ++ (x ∷ []))
          → In r cols × (r.0.table_permission_id ≡ id)
      added p j = elim (In-append (get_or d x.0.table_permission_id []) (x ∷ []) j) [
        | inl old ↦ let (l, q) = h _ r old in (l, q ∙ sym p)
        | inr new ↦ last p new
      ]
        where
          last :
              id ≡ x.0.table_permission_id
              → In r (x ∷ [])
              → In r cols × (r.0.table_permission_id ≡ id)
          last p (here q) = (rw q listed, ap (λ (y : ColumnRow). y.0.table_permission_id) q ∙ sym p)
          last p (there k) = elim k [ ]

  group_columns-IsGrouped :
      (rs : List ColumnRow) (d : Dict ℕ (List ColumnRow))
      → ((r : ColumnRow) → In r rs → In r cols)
      → IsGrouped d
      → IsGrouped (group_columns rs d)
  unfolding group_columns
  group_columns-IsGrouped [] d l h = h
  group_columns-IsGrouped (x ∷ rs) d l h =
      group_columns-IsGrouped rs _ (λ r i. l r (there i)) (put-IsGrouped d x (l x (here refl)) h)

  -- The columns of a permission are those with its id.
  pub columns_of_sound :
      (id : ℕ) (r : ColumnRow)
      → In r (get_or (group_columns cols []) id [])
      → In r cols × (r.0.table_permission_id ≡ id)
  unfolding IsGrouped get
  columns_of_sound = group_columns-IsGrouped cols [] (λ r i. i) (λ id r i. elim i [ ])

module _ (rows : List PermissionRow) (cols : List ColumnRow) where
  -- A readable column of that name that one of the permissions grants on that table.
  abbrev pub IsGrant : Text → Text → PermissionRow → ColumnRow → Type 0
  IsGrant q name row c =
      In row rows
      × In c cols
      × (q ≡ name_of row)
      × (c.1.column_name ≡ name)
      × (c.0.table_permission_id ≡ row.0.id)
      × (c.0.can_read ≡ true)

  -- Some grant has this property of its column permission and column.
  abbrev pub SomeGrant : Text → Text → (ColumnRow → Type 0) → Type 0
  SomeGrant q name P = (row : PermissionRow) × (c : ColumnRow) × IsGrant q name row c × P c

  pub record IsBacked (q name : Text) (column : AllowedColumn) : Type 0 where
    pub named : column.name ≡ name
    pub readable : column.can_read ≡ true
    pub granted : SomeGrant q name (λ c. column.column_id ≡ str_uuid c.1.id)
    pub filterable : column.can_filter ≡ true → SomeGrant q name (λ c. c.0.can_filter ≡ true)
    pub aggregable : column.can_aggregate ≡ true → SomeGrant q name (λ c. c.0.can_aggregate ≡ true)
    pub masked :
        (m : Text) → column.mask_type ≡ some m → SomeGrant q name (λ c. c.0.mask_type ≡ some m)

  AreBacked : Text → Dict Text AllowedColumn → Type 0
  AreBacked q columns =
      (name : Text) (column : AllowedColumn) → In (name, column) columns → IsBacked q name column

  module _ (q : Text) (row : PermissionRow) (p : ColumnPermission) (c : DatabaseColumn)
      (grant : IsGrant q c.column_name row (p, c)) where
    new_column-IsBacked : IsBacked q c.column_name (new_column p c)
    unfolding new_column
    new_column-IsBacked = record {
      named = refl;
      readable = refl;
      granted = (row, (p, c), grant, refl);
      filterable = λ h. (row, (p, c), grant, h);
      aggregable = λ h. (row, (p, c), grant, h);
      masked = λ m h. (row, (p, c), grant, h);
    }

    widen_column-IsBacked :
        (old : AllowedColumn)
        → IsBacked q c.column_name old
        → IsBacked q c.column_name (widen_column p old)
    unfolding widen_column
    widen_column-IsBacked old b = record {
      named = b.named;
      readable = b.readable;
      granted = b.granted;
      filterable = λ h. elim (Bool-cases old.can_filter) [
        | inl t ↦ b.filterable t
        | inr f ↦ (row, (p, c), grant, ground arith)
      ];
      aggregable = λ h. elim (Bool-cases old.can_aggregate) [
        | inl t ↦ b.aggregable t
        | inr f ↦ (row, (p, c), grant, ground arith)
      ];
      masked = λ m h. elim (Bool-cases (is_some old.mask_type)) [
        | inl t ↦ b.masked m (ground arith)
        | inr f ↦ (row, (p, c), grant, ground arith)
      ];
    }

    add_column-AreBacked :
        (columns : Dict Text AllowedColumn)
        → AreBacked q columns
        → AreBacked q (add_column p c columns)
    unfolding add_column AreBacked
    add_column-AreBacked columns b name column i = step (get columns c.column_name) refl i
      where
        written :
            (v : AllowedColumn)
            → IsBacked q c.column_name v
            → In (name, column) (put columns c.column_name v)
            → IsBacked q name column
        written v bv j = elim (In-put columns c.column_name v (name, column) j) [
          | inl e ↦ subst (λ (x : Text × AllowedColumn). IsBacked q x.0 x.1) (sym e) bv
          | inr old ↦ b name column old
        ]

        step :
            (o : Option AllowedColumn)
            → get columns c.column_name ≡ o
            → In
                (name, column)
                (elim o [
                  | none ↦ put columns c.column_name (new_column p c)
                  | some old ↦ put columns c.column_name (widen_column p old)
                ])
            → IsBacked q name column
        step none e j = written (new_column p c) new_column-IsBacked j
        step (some old) e j =
            written (widen_column p old)
              (widen_column-IsBacked old (b c.column_name old (In-of_get columns c.column_name e)))
              j

  -- The columns that are merged for a row are grants of its table.
  merge_columns-AreBacked :
      (q : Text) (row : PermissionRow) (cs : List ColumnRow) (columns : Dict Text AllowedColumn)
      → In row rows
      → q ≡ name_of row
      → ((c : ColumnRow) → In c cs → In c cols × (c.0.table_permission_id ≡ row.0.id))
      → AreBacked q columns
      → AreBacked q (merge_columns cs columns)
  unfolding merge_columns
  merge_columns-AreBacked q row [] columns i e l b = b
  merge_columns-AreBacked q row ((p, c) ∷ cs) columns i e l b =
      merge_columns-AreBacked q row cs _ i e (λ x j. l x (there j)) (added p.can_read refl)
    where
      added :
          (readable : Bool)
          → p.can_read ≡ readable
          → AreBacked q (if readable then add_column p c columns else columns)
      added false h = b
      added true h =
          let (listed, owner) = l (p, c) (here refl) in
          add_column-AreBacked q row p c (i, listed, e, refl, owner, h) columns b

  AllBacked : Dict Text AllowedTable → Type 0
  AllBacked tables = (q : Text) (t : AllowedTable) → In (q, t) tables → AreBacked q t.columns

  entry_of-AreBacked :
      (row : PermissionRow) (tables : Dict Text AllowedTable)
      → AllBacked tables
      → AreBacked (name_of row) (entry_of row tables).columns
  unfolding entry_of AllBacked
  entry_of-AreBacked row tables h = found (get tables (name_of row)) refl
    where
      found :
          (o : Option AllowedTable)
          → get tables (name_of row) ≡ o
          → AreBacked (name_of row) (
              let x : AllowedTable = elim o [
                | none ↦ new_table row.0 row.1 row.2
                | some old ↦ widen_table row.0 old
              ] in
              x.columns)
      found none e = unfold AreBacked in λ name column i. elim i [ ]
      found (some old) e = h (name_of row) old (In-of_get tables (name_of row) e)

  module _ (columns_of : ℕ → List ColumnRow)
      (owned : (id : ℕ) (c : ColumnRow)
        → In c (columns_of id)
        → In c cols × (c.0.table_permission_id ≡ id)) where
    merge_permission-AllBacked :
        (row : PermissionRow) (tables : Dict Text AllowedTable)
        → In row rows
        → AllBacked tables
        → AllBacked (merge_permission columns_of row tables)
    unfolding merge_permission AllBacked
    merge_permission-AllBacked row tables i h q t j =
        elim (In-put tables (name_of row) _ (q, t) j) [
          | inl e ↦
              subst (λ (x : Text × AllowedTable). AreBacked x.0 x.1.columns) (sym e)
                (merge_columns-AreBacked (name_of row) row (columns_of row.0.id) _ i refl
                  (owned row.0.id) (entry_of-AreBacked row tables h))
          | inr old ↦ h q t old
        ]

    merge_permissions-AllBacked :
        (rs : List PermissionRow) (tables : Dict Text AllowedTable)
        → ((r : PermissionRow) → In r rs → In r rows)
        → AllBacked tables
        → AllBacked (merge_permissions columns_of rs tables)
    unfolding merge_permissions
    merge_permissions-AllBacked [] tables l h = h
    merge_permissions-AllBacked (r ∷ rs) tables l h =
        merge_permissions-AllBacked rs _ (λ x i. l x (there i))
          (merge_permission-AllBacked r tables (l r (here refl)) h)

  -- Every column of every table of the merged schema is backed by the grants.
  pub build_schema-IsBacked :
      (connection_id : ℕ) (q name : Text) (t : AllowedTable) (column : AllowedColumn)
      → In (q, t) (build_schema connection_id rows cols).tables
      → In (name, column) t.columns
      → IsBacked q name column
  unfolding build_schema drop_empty_tables AllBacked AreBacked
  build_schema-IsBacked connection_id q name t column i j =
      merge_permissions-AllBacked (λ id. get_or (group_columns cols []) id [])
        (columns_of_sound cols) rows [] (λ r k. k) (λ _ _ k. elim k [ ]) q t
        (In-filter_by (λ (x : Text × AllowedTable). not (is_empty x.1.columns)) (q, t) _ i).0 name
        column j
