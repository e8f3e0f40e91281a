-- ===== src/Discovery/Catalog/Listed.antt =====
-- What `get_cached_tables` returns.
use multi_tenant_data_chat_p.Shared.{
  ℕ, ◌≡◌, length, length-map, none, some, some_inj, refl, sym, ap, subst, ◌∙◌, true, ◌&&◌, &&-true,
  Option, List, [], ◌∷◌, map, contains, filter_by, flat_map, In, In-filter_by, In-filter_by_of,
  In-flat_map, In-flat_map_of, In-map, In-map_of, In-contains, ok, ok_inj, >>=-eq-ok, ◌==◌, ==_iff,
  nat_eq,
}
use multi_tenant_data_chat_p.Shared.Text.{Text, text_eq}
use multi_tenant_data_chat_p.Shared.Dict.{get, get_or, get_or-group_by}
use multi_tenant_data_chat_p.Models.{User, DatabaseSchema, DatabaseTable, DatabaseColumn, Store}
use multi_tenant_data_chat_p.Permissions.Effective.{get_database_connection}
use multi_tenant_data_chat_p.Permissions.Repository.{IsOrdering}
use multi_tenant_data_chat_p.Discovery.Cache.{is_schema_of}
use multi_tenant_data_chat_p.Discovery.Catalog.{
  CachedRow, has_name, is_cached, cached_rows, columns_by_table, DatabaseTableResponse,
  table_response, get_cached_tables,
}

module _ (tenant_id connection_id : ℕ) where
  -- A table and a schema of the tenant and of the connection, and the table is in the schema.
  pub record IsCached (t : DatabaseTable) (s : DatabaseSchema) : Type 0 where
    pub in_schema : t.schema_id ≡ s.id
    pub table_tenant : t.tenant_id ≡ tenant_id
    pub table_connection : t.connection_id ≡ connection_id
    pub schema_tenant : s.tenant_id ≡ tenant_id
    pub schema_connection : s.connection_id ≡ connection_id

  is_cached-IsCached :
      (name : Option Text) (t : DatabaseTable) (s : DatabaseSchema)
      → is_cached tenant_id connection_id name (t, s) ≡ true
      → IsCached t s × (has_name name s ≡ true)
  unfolding is_cached
  is_cached-IsCached name t s h =
      let (placed, named) = &&-true h in
      let (joined, own) = &&-true {a = t.schema_id == s.id} placed in
      let (own_schema, same_name) = &&-true {a = is_schema_of tenant_id connection_id s} named in
      (
        record {
          in_schema = (==_iff t.schema_id s.id).0 joined;
          table_tenant = (==_iff t.tenant_id tenant_id).0 (&&-true own).0;
          table_connection =
              (==_iff t.connection_id connection_id).0
                (&&-true {a = t.tenant_id == tenant_id} own).1;
          schema_tenant = (==_iff s.tenant_id tenant_id).0 (&&-true own_schema).0;
          schema_connection =
              (==_iff s.connection_id connection_id).0
                (&&-true {a = s.tenant_id == tenant_id} own_schema).1;
        },
        same_name,
      )

  IsCached-is_cached :
      (name : Option Text) (t : DatabaseTable) (s : DatabaseSchema)
      → IsCached t s
      → has_name name s ≡ true
      → is_cached tenant_id connection_id name (t, s) ≡ true
  unfolding is_cached
  IsCached-is_cached name t s c h = rw ((==_iff t.schema_id s.id).1 c.in_schema) (
      rw ((==_iff t.tenant_id tenant_id).1 c.table_tenant) (
        rw ((==_iff t.connection_id connection_id).1 c.table_connection) (
          rw ((==_iff s.tenant_id tenant_id).1 c.schema_tenant)
            (rw ((==_iff s.connection_id connection_id).1 c.schema_connection) (rw h refl)))))

  In-cached_rows :
      (name : Option Text) (st : Store) (t : DatabaseTable) (s : DatabaseSchema)
      → In (t, s) (cached_rows tenant_id connection_id name st)
      → In t st.tables × In s st.schemas × IsCached t s × (has_name name s ≡ true)
  unfolding cached_rows
  In-cached_rows name st t s i =
      let pairs = λ (t : DatabaseTable). map (λ (s : DatabaseSchema). (t, s)) st.schemas in
      let (j, q) =
        In-filter_by (is_cached tenant_id connection_id name) (t, s) (flat_map pairs st.tables) i in
      let (u, k, l) = In-flat_map pairs (t, s) st.tables j in
      let (v, m, e) = In-map (λ (s : DatabaseSchema). (u, s)) st.schemas (t, s) l in
      let (c, named) = is_cached-IsCached name t s q in
      (
        subst (λ x. In x st.tables) (sym (ap (λ (x : CachedRow). x.0) e)) k,
        subst (λ x. In x st.schemas) (sym (ap (λ (x : CachedRow). x.1) e)) m,
        c,
        named,
      )

  In-cached_rows_of :
      (name : Option Text) (st : Store) (t : DatabaseTable) (s : DatabaseSchema)
      → In t st.tables
      → In s st.schemas
      → IsCached t s
      → has_name name s ≡ true
      → In (t, s) (cached_rows tenant_id connection_id name st)
  unfolding cached_rows
  In-cached_rows_of name st t s i j c named =
      let pairs = λ (t : DatabaseTable). map (λ (s : DatabaseSchema). (t, s)) st.schemas in
      In-filter_by_of (is_cached tenant_id connection_id name) (t, s) (flat_map pairs st.tables)
        (In-flat_map_of pairs st.tables t (t, s) i
          (In-map_of (λ (s : DatabaseSchema). (t, s)) st.schemas s j))
        (IsCached-is_cached name t s c named)

  -- The columns of a table that was asked for.
  columns_by_table_lem :
      (order_columns : List DatabaseColumn → List DatabaseColumn)
      → IsOrdering order_columns
      → (st : Store) (ids : List ℕ) (n : ℕ) (c : DatabaseColumn) → In n ids
      → (In c (get_or (columns_by_table order_columns st tenant_id ids) n [])
          → In c st.columns × (c.tenant_id ≡ tenant_id) × (c.table_id ≡ n))
        × (In c st.columns
            → c.tenant_id ≡ tenant_id
            → c.table_id ≡ n
            → In c (get_or (columns_by_table order_columns st tenant_id ids) n []))
  unfolding columns_by_table get
  columns_by_table_lem order_columns kept st [] n c i = elim i [ ]
  columns_by_table_lem order_columns kept st (m ∷ ids) n c i =
      let asked =
        λ (c : DatabaseColumn). c.tenant_id == tenant_id && contains (m ∷ ids) c.table_id in
      let of_table = λ (c : DatabaseColumn). n == c.table_id in
      let rows = order_columns (filter_by asked st.columns) in
      let same = get_or-group_by (λ (c : DatabaseColumn). c.table_id) rows [] n in
      (
        λ j.
            let (k, own) = In-filter_by of_table c rows (subst (In c) same j) in
            let (l, q) =
              In-filter_by asked c st.columns
                (kept.from_ordered c (filter_by asked st.columns) k) in
            (l, (==_iff c.tenant_id tenant_id).0 (&&-true q).0, sym ((==_iff n c.table_id).0 own)),
        λ j tenant own.
            let wanted : contains (m ∷ ids) c.table_id ≡ true =
              ap (contains (m ∷ ids)) own ∙ In-contains n (m ∷ ids) i in
            subst (In c) (sym same) (
              In-filter_by_of of_table c rows
                (kept.to_ordered c (filter_by asked st.columns) (
                  In-filter_by_of asked c st.columns j
                    (rw ((==_iff c.tenant_id tenant_id).1 tenant) wanted)))
                ((==_iff n c.table_id).1 (sym own))),
      )

-- A schema has the given name, if one is given.
abbrev pub Named : Option Text → DatabaseSchema → Type 0
Named o s = (name : Text) → o ≡ some name → s.schema_name ≡ name

has_name-Named : (o : Option Text) (s : DatabaseSchema) → has_name o s ≡ true → Named o s
has_name-Named none s h name e = cc
has_name-Named (some k) s h name e = (==_iff s.schema_name k).0 h ∙ some_inj e

Named-has_name : (o : Option Text) (s : DatabaseSchema) → Named o s → has_name o s ≡ true
Named-has_name none s h = refl
Named-has_name (some k) s h = (==_iff s.schema_name k).1 (h k refl)

-- A response is a cached table with the name of its schema, which is the given one if one is given,
-- and with exactly its columns.
pub record IsListed (st : Store) (tenant_id connection_id : ℕ) (schema_name : Option Text)
    (r : DatabaseTableResponse) : Type 0 where
  pub schema : DatabaseSchema
  pub stored_table : In r.table st.tables
  pub stored_schema : In schema st.schemas
  pub cached : IsCached tenant_id connection_id r.table schema
  pub wanted : Named schema_name schema
  pub named : r.schema_name ≡ schema.schema_name
  pub its_columns :
      (c : DatabaseColumn)
      → In c r.columns
      → In c st.columns × (c.tenant_id ≡ tenant_id) × (c.table_id ≡ r.table.id)
  pub all_columns :
      (c : DatabaseColumn)
      → In c st.columns
      → c.tenant_id ≡ tenant_id
      → c.table_id ≡ r.table.id
      → In c r.columns

module _ (order : List CachedRow → List CachedRow)
    (order_columns : List DatabaseColumn → List DatabaseColumn) (kept : IsOrdering order)
    (same_length : (rs : List CachedRow) → length (order rs) ≡ length rs)
    (columns_kept : IsOrdering order_columns) (st : Store) (user : User) (connection_id : ℕ)
    (schema_name : Option Text) where
  listed : List CachedRow
  listed = order (cached_rows user.tenant_id connection_id schema_name st)

  response : CachedRow → DatabaseTableResponse
  unfolding listed table_response
  response =
      table_response order order_columns
        (columns_by_table order_columns st user.tenant_id (map (λ (r : CachedRow). r.0.id) listed))

  response-IsListed :
      (t : DatabaseTable) (s : DatabaseSchema)
      → In (t, s) listed
      → IsListed st user.tenant_id connection_id schema_name (response (t, s))
  unfolding response
  response-IsListed t s i =
      let (j, k, c, q) =
        In-cached_rows user.tenant_id connection_id schema_name st t s
          (kept.from_ordered (t, s) (cached_rows user.tenant_id connection_id schema_name st) i) in
      let found = λ (c : DatabaseColumn).
        columns_by_table_lem user.tenant_id connection_id order_columns columns_kept st
          (map (λ (r : CachedRow). r.0.id) listed) t.id c
          (In-map_of (λ (r : CachedRow). r.0.id) listed (t, s) i) in
      record {
        schema = s;
        stored_table = j;
        stored_schema = k;
        cached = c;
        wanted = has_name-Named schema_name s q;
        named = refl;
        its_columns = λ c k. (found c).0 k;
        all_columns = λ c k e f. (found c).1 k e f;
      }

  -- For orders of the database that keep the rows and their number: every response of a successful
  -- listing is a cached table of the user's tenant and of the connection whose schema has the given
  -- name, if one is given, with the name of its schema and exactly its columns; every such cached
  -- table is listed; and the total is the number of the responses.
  pub get_cached_tables_lists :
      (items : List DatabaseTableResponse) (total : ℕ)
      → get_cached_tables order order_columns st user connection_id schema_name ≡ ok (items, total)
      → ((r : DatabaseTableResponse)
          → In r items
          → IsListed st user.tenant_id connection_id schema_name r)
        × ((t : DatabaseTable) (s : DatabaseSchema)
            → In t st.tables
            → In s st.schemas
            → IsCached user.tenant_id connection_id t s
            → Named schema_name s
            → (r : DatabaseTableResponse) × In r items × (r.table ≡ t))
        × (total ≡ length items)
  unfolding get_cached_tables response
  get_cached_tables_lists items total h =
      let (c, found, last) = >>=-eq-ok (get_database_connection st user connection_id) _ h in
      let same = ap (λ (x : List DatabaseTableResponse × ℕ). x.0) (ok_inj last) in
      (
        λ r i.
            let (p, j, e) = In-map response listed r (subst (In r) (sym same) i) in
            subst (IsListed st user.tenant_id connection_id schema_name) (sym e)
              (response-IsListed p.0 p.1 j),
        λ t s i j cached named. (
          response (t, s),
          subst (In (response (t, s))) same (
              In-map_of response listed (t, s)
                (kept.to_ordered (t, s) (cached_rows user.tenant_id connection_id schema_name st)
                  (In-cached_rows_of user.tenant_id connection_id schema_name st t s i j cached
                    (Named-has_name schema_name s named)))),
          refl,
        ),
        sym (ap (λ (x : List DatabaseTableResponse × ℕ). x.1) (ok_inj last))
            ∙ sym (same_length (cached_rows user.tenant_id connection_id schema_name st))
            ∙ sym (length-map response listed)
            ∙ ap length same,
      )
