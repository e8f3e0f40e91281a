-- ===== src/Discovery/Cache/Others.antt =====
-- What `clear_connection_metadata` does to the rows that are not of the connection, and to the
-- permissions.
use multi_tenant_data_chat_p.Shared.{
  ℕ, ◌≡◌, refl, sym, subst, ◌≢◌, inl, inr, Bool, true, false, not, ◌&&◌, List, [], ◌∷◌, map,
  contains, filter_by, is_empty, In, In-filter_by, In-filter_by_of, Bool-cases, &&-true, ◌==◌,
  nat_eq, if◌then◌else◌,
}
use multi_tenant_data_chat_p.Models.{
  DatabaseSchema, DatabaseTable, DatabaseColumn, TablePermission, ColumnPermission, Store,
}
use multi_tenant_data_chat_p.Discovery.Cache.{
  delete_cached_columns, delete_columns, clear_tables, clear_connection_metadata, is_schema_of,
  is_table_of,
}
use multi_tenant_data_chat_p.Discovery.Cache.ColumnGrants.{IsApart, column_grant-delete_columns}
use multi_tenant_data_chat_p.Discovery.Cache.Kept.{contains-keys}
use multi_tenant_data_chat_p.Discovery.Cache.Deletes.{AreConsistent, without_schemas, others_kept}

not_and : (b : Bool) → not (b && false) ≡ true
not_and true = refl
not_and false = refl

module _ (tenant_id connection_id : ℕ) where
  -- `n` is the id of none of the connection's tables.
  abbrev pub IsUnused : Store → ℕ → Type 0
  IsUnused st n =
      (t : DatabaseTable) → In t st.tables → is_table_of tenant_id connection_id t ≡ true → n ≢ t.id

  -- Every row of the first store that is not of the connection is in the second.
  pub record Keeps (st after : Store) : Type 0 where
    pub schemas :
        (s : DatabaseSchema)
        → In s st.schemas
        → is_schema_of tenant_id connection_id s ≡ false
        → In s after.schemas
    pub tables :
        (t : DatabaseTable)
        → In t st.tables
        → is_table_of tenant_id connection_id t ≡ false
        → In t after.tables
    pub columns :
        (c : DatabaseColumn) → In c st.columns → IsUnused st c.table_id → In c after.columns
    pub grants :
        (g : TablePermission)
        → In g st.table_permissions
        → IsUnused st g.table_id
        → In g after.table_permissions
    pub column_grants :
        (g : ColumnPermission)
        → In g st.column_permissions
        → IsApart (is_table_of tenant_id connection_id) st g
        → In g after.column_permissions

  -- What the first delete leaves alone.
  delete_cached_columns_frame :
      (table_ids : List ℕ) (st : Store)
      → let first = delete_cached_columns tenant_id connection_id table_ids st in
        (first.schemas ≡ st.schemas)
        × (first.tables ≡ st.tables)
        × (first.table_permissions ≡ st.table_permissions)
        × ((c : DatabaseColumn)
            → In c st.columns
            → contains table_ids c.table_id ≡ false
            → In c first.columns)
        × ((c : DatabaseColumn) → In c first.columns → In c st.columns)
        × ((g : ColumnPermission)
            → In g st.column_permissions
            → ((c : DatabaseColumn)
                → In c st.columns
                → contains table_ids c.table_id ≡ true
                → g.column_id ≢ c.id)
            → In g first.column_permissions)
  unfolding delete_cached_columns delete_columns
  delete_cached_columns_frame [] st = (refl, refl, refl, λ c i h. i, λ c i. i, λ g i h. i)
  delete_cached_columns_frame (n ∷ table_ids) st = (
    refl,
    refl,
    refl,
    λ c i h.
        In-filter_by_of
          (λ (c : DatabaseColumn).
            not (c.tenant_id == tenant_id && contains (n ∷ table_ids) c.table_id))
          c st.columns i (rw h (not_and (c.tenant_id == tenant_id))),
    λ c i.
        (In-filter_by
          (λ (c : DatabaseColumn).
            not (c.tenant_id == tenant_id && contains (n ∷ table_ids) c.table_id))
          c st.columns i).0,
    λ g i h.
        column_grant-delete_columns
          (λ (c : DatabaseColumn). c.tenant_id == tenant_id && contains (n ∷ table_ids) c.table_id)
          st g i (λ c j q. h c j (&&-true {a = c.tenant_id == tenant_id} q).1),
  )

  -- The permissions that are left are for none of the connection's tables.
  abbrev pub Drops : Store → Store → Type 0
  Drops st after = (g : TablePermission) → In g after.table_permissions → IsUnused st g.table_id

  unlisted :
      (schema_ids : List ℕ) (st : Store) (n : ℕ)
      → IsUnused st n
      → contains
          (map
            (λ (t : DatabaseTable). t.id)
            (filter_by
              (λ (t : DatabaseTable).
                is_table_of tenant_id connection_id t && contains schema_ids t.schema_id)
              st.tables))
          n
        ≡ false
  unlisted schema_ids st n h =
      let chosen = λ (t : DatabaseTable).
        is_table_of tenant_id connection_id t && contains schema_ids t.schema_id in
      elim (Bool-cases
        (contains (map (λ (t : DatabaseTable). t.id) (filter_by chosen st.tables)) n)) [
          | inl listed ↦
              let (t, i, q, e) =
                contains-keys (λ (t : DatabaseTable). t.id) chosen st.tables n listed in
              absurd (h t i (&&-true q).0 (sym e))
          | inr missing ↦ missing
        ]

  clear_tables_lem :
      (schema_ids : List ℕ) (st : Store)
      → AreConsistent tenant_id connection_id st
      → Keeps st (clear_tables tenant_id connection_id schema_ids st)
        × Drops st (clear_tables tenant_id connection_id schema_ids st)
  unfolding clear_tables without_schemas
  clear_tables_lem schema_ids st fits =
      let chosen = λ (t : DatabaseTable).
        is_table_of tenant_id connection_id t && contains schema_ids t.schema_id in
      let table_ids = map (λ (t : DatabaseTable). t.id) (filter_by chosen st.tables) in
      let first = delete_cached_columns tenant_id connection_id table_ids st in
      let (same_schemas, same_tables, same_grants, columns, old_columns, column_grants) =
        delete_cached_columns_frame table_ids st in
      let back = λ (t : DatabaseTable) (i : In t first.tables). subst (In t) same_tables i in
      let (a, b, c, d, d', e) =
        others_kept tenant_id connection_id first
          (λ t i s j. fits t (back t i) s (subst (In s) same_schemas j)) in
      (
        record {
          schemas = λ s i. a s (subst (In s) (sym same_schemas) i);
          tables = λ t i. b t (subst (In t) (sym same_tables) i);
          columns = λ x i h.
              c x (columns x i (unlisted schema_ids st x.table_id h)) (λ t j. h t (back t j));
          column_grants = λ g i apart.
              d' g
                (column_grants g i (λ x j listed same.
                  let (t, k, mine, own) =
                    contains-keys (λ (t : DatabaseTable). t.id) chosen st.tables x.table_id
                      listed in
                  apart.by_column x j same t k (&&-true mine).0 (sym own)))
                (record {
                  by_column = λ x j same t k. apart.by_column x (old_columns x j) same t (back t k);
                  by_permission = λ q j same t k.
                      apart.by_permission q (subst (In q) same_grants j) same t (back t k);
                });
          grants = λ g i h. d g (subst (In g) (sym same_grants) i) (λ t j. h t (back t j));
        },
        λ g i t j. e g t i (subst (In t) (sym same_tables) j),
      )

  pub clear_lem :
      (st : Store)
      → AreConsistent tenant_id connection_id st
      → Keeps st (clear_connection_metadata tenant_id connection_id st)
        × ((s : DatabaseSchema)
            → In s st.schemas
            → is_schema_of tenant_id connection_id s ≡ true
            → Drops st (clear_connection_metadata tenant_id connection_id st))
  unfolding clear_connection_metadata
  clear_lem st fits = go (filter_by (is_schema_of tenant_id connection_id) st.schemas) refl
    where
      go :
          (mine : List DatabaseSchema)
          → filter_by (is_schema_of tenant_id connection_id) st.schemas ≡ mine
          → let ids = map (λ (s : DatabaseSchema). s.id) mine in
            let cleared =
              if is_empty ids then st else clear_tables tenant_id connection_id ids st in
            Keeps st cleared
            × ((s : DatabaseSchema)
                → In s st.schemas
                → is_schema_of tenant_id connection_id s ≡ true
                → Drops st cleared)
      go [] e = (
        record {
          schemas = λ s i h. i;
          tables = λ t i h. i;
          columns = λ c i h. i;
          grants = λ g i h. i;
          column_grants = λ g i h. i;
        },
        λ s i h.
            elim (subst (In s) e
              (In-filter_by_of (is_schema_of tenant_id connection_id) s st.schemas i h)) [ ],
      )
      go (s ∷ mine) e =
          let (keeps, drops) =
            clear_tables_lem (s.id ∷ map (λ (s : DatabaseSchema). s.id) mine) st fits in
          (keeps, λ s i h. drops)
