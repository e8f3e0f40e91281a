-- ===== src/Permissions/Effective/Coverage/Columns.antt =====
-- The columns of one table: no granted column is lost when they are grouped and merged.
use multi_tenant_data_chat_p.Shared.{
  ℕ, ◌≡◌, refl, sym, ap, subst, ◌∙◌, ◌≢◌, Bool, true, false, not, Option, none, some, List, [], ◌∷◌,
  ◌++◌, In, here, there, In-append_left, In-append_right, is_empty, is_some, nat_eq, if_pos, if_neg,
  if◌then◌else◌, arith,
}
use multi_tenant_data_chat_p.Shared.Text.{Text, text_eq}
use multi_tenant_data_chat_p.Shared.Dict.{
  Dict, get, put, get_or, get_or-put, get-put_self, get-put_ne,
}
use multi_tenant_data_chat_p.Models.{DatabaseColumn, ColumnPermission}
use multi_tenant_data_chat_p.Permissions.{AllowedColumn}
use multi_tenant_data_chat_p.Permissions.Repository.{ColumnRow}
use multi_tenant_data_chat_p.Permissions.Effective.{
  group_columns, new_column, widen_column, add_column, merge_columns,
}

-- Grouping loses no column.
module _ (r : ColumnRow) where
  group_columns-keeps :
      (rs : List ColumnRow) (d : Dict ℕ (List ColumnRow))
      → In r (get_or d r.0.table_permission_id [])
      → In r (get_or (group_columns rs d) r.0.table_permission_id [])
  unfolding group_columns
  group_columns-keeps [] d i = i
  group_columns-keeps (x ∷ rs) d i =
      group_columns-keeps rs _ (elim (nat_eq.dec r.0.table_permission_id x.0.table_permission_id) [
        | yes p ↦
            rw (get_or-put, if_pos _ p)
              (In-append_left (x ∷ []) (subst (λ k. In r (get_or d k [])) p i))
        | no n ↦ rw (get_or-put, if_neg _ n) i
      ])

  pub group_columns-adds :
      (rs : List ColumnRow) (d : Dict ℕ (List ColumnRow))
      → In r rs
      → In r (get_or (group_columns rs d) r.0.table_permission_id [])
  unfolding group_columns
  group_columns-adds [] d i = elim i [ ]
  group_columns-adds (x ∷ rs) d (there i) = group_columns-adds rs _ i
  group_columns-adds (x ∷ rs) d (here p) = group_columns-keeps rs _ (
      subst
        (λ (y : ColumnRow). In r (
          get_or (put d y.0.table_permission_id (get_or d y.0.table_permission_id [] ++ (y ∷ [])))
            r.0.table_permission_id []))
        p
        (let same : r.0.table_permission_id ≡ r.0.table_permission_id = refl in
          rw (get_or-put, if_pos _ same)
            (In-append_right (get_or d r.0.table_permission_id []) (here refl))))

module _ (c : ColumnRow) where
  -- The column is there, with all uses that the grant allows, and masked if the grant masks it.
  abbrev pub Grants : AllowedColumn → Type 0
  Grants column =
      (c.0.can_filter ≡ true → column.can_filter ≡ true)
      × (c.0.can_aggregate ≡ true → column.can_aggregate ≡ true)
      × (is_some c.0.mask_type ≡ true → is_some column.mask_type ≡ true)

  abbrev pub HasColumn : Dict Text AllowedColumn → Type 0
  HasColumn columns =
      (column : AllowedColumn) × (get columns c.1.column_name ≡ some column) × Grants column

  widen_column-Grants :
      (p : ColumnPermission) (old : AllowedColumn) → Grants old → Grants (widen_column p old)
  unfolding widen_column
  widen_column-Grants p old h = ground arith

  -- Adding the grant puts the column there.
  add_column-HasColumn :
      (columns : Dict Text AllowedColumn) → HasColumn (add_column c.0 c.1 columns)
  unfolding add_column
  add_column-HasColumn columns = step (get columns c.1.column_name)
    where
      step :
          (o : Option AllowedColumn)
          → HasColumn (elim o [
            | none ↦ put columns c.1.column_name (new_column c.0 c.1)
            | some old ↦ put columns c.1.column_name (widen_column c.0 old)
          ])
      step none = (
        new_column c.0 c.1,
        get-put_self columns c.1.column_name (new_column c.0 c.1),
        unfold new_column in (λ h. h, λ h. h, λ h. h),
      )
      step (some old) = (
        widen_column c.0 old,
        get-put_self columns c.1.column_name (widen_column c.0 old),
        unfold widen_column in (ground arith, ground arith, ground arith),
      )

  -- Adding another grant leaves it there.
  add_column-keeps :
      (p : ColumnPermission) (d : DatabaseColumn) (columns : Dict Text AllowedColumn)
      → HasColumn columns
      → HasColumn (add_column p d columns)
  unfolding add_column
  add_column-keeps p d columns (column, found, h) =
      elim (text_eq.dec c.1.column_name d.column_name) [
        | yes same ↦ widened same (get columns d.column_name) (ap (get columns) (sym same) ∙ found)
        | no differ ↦ (column, untouched differ (get columns d.column_name) ∙ found, h)
      ]
    where
      widened :
          c.1.column_name ≡ d.column_name
          → (o : Option AllowedColumn) → o ≡ some column
          → HasColumn (elim o [
            | none ↦ put columns d.column_name (new_column p d)
            | some old ↦ put columns d.column_name (widen_column p old)
          ])
      widened same none e = absurd (cc e)
      widened same (some old) e = (
        widen_column p old,
        ap (get (put columns d.column_name (widen_column p old))) same
            ∙ get-put_self columns d.column_name (widen_column p old),
        widen_column-Grants p old (subst Grants (some_inj (sym e)) h),
      )
        where
          some_inj : {a b : AllowedColumn} → some a ≡ some b → a ≡ b
          some_inj q = cc

      untouched :
          c.1.column_name ≢ d.column_name
          → (o : Option AllowedColumn)
          → get
              (elim o [
                | none ↦ put columns d.column_name (new_column p d)
                | some old ↦ put columns d.column_name (widen_column p old)
              ])
              c.1.column_name
            ≡ get columns c.1.column_name
      untouched differ none =
          get-put_ne columns d.column_name (new_column p d) c.1.column_name differ
      untouched differ (some old) =
          get-put_ne columns d.column_name (widen_column p old) c.1.column_name differ

  pub merge_columns-keeps :
      (cs : List ColumnRow) (columns : Dict Text AllowedColumn)
      → HasColumn columns
      → HasColumn (merge_columns cs columns)
  unfolding merge_columns
  merge_columns-keeps [] columns h = h
  merge_columns-keeps ((p, d) ∷ cs) columns h = merge_columns-keeps cs _ (guarded p.can_read)
    where
      guarded : (b : Bool) → HasColumn (if b then add_column p d columns else columns)
      guarded true = add_column-keeps p d columns h
      guarded false = h

  pub merge_columns-HasColumn :
      (cs : List ColumnRow) (columns : Dict Text AllowedColumn)
      → In c cs
      → c.0.can_read ≡ true
      → HasColumn (merge_columns cs columns)
  unfolding merge_columns
  merge_columns-HasColumn [] columns i readable = elim i [ ]
  merge_columns-HasColumn ((p, d) ∷ cs) columns (there i) readable =
      merge_columns-HasColumn cs _ i readable
  merge_columns-HasColumn (x ∷ cs) columns (here e) readable = merge_columns-keeps cs _ (
      subst
        (λ (y : ColumnRow).
          HasColumn (if y.0.can_read then add_column y.0 y.1 columns else columns))
        e (guarded c.0.can_read readable))
    where
      guarded :
          (b : Bool) → b ≡ true → HasColumn (if b then add_column c.0 c.1 columns else columns)
      guarded true e' = add_column-HasColumn columns
      guarded false e' = cc

  pub HasColumn-nonempty :
      (columns : Dict Text AllowedColumn) → HasColumn columns → not (is_empty columns) ≡ true
  unfolding get
  HasColumn-nonempty [] (column, found, _) = cc
  HasColumn-nonempty (x ∷ xs) h = refl
