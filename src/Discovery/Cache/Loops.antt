-- ===== src/Discovery/Cache/Loops.antt =====
-- The loops over the tables and over the schemas: each schema is added to the view as it was
-- discovered.
use multi_tenant_data_chat_p.Shared.{
  ℕ, ◌≤◌, ◌≡◌, refl, sym, ap, ◌∙◌, ◌≢◌, inl, inr, false, ◌&&◌, List, [], ◌∷◌, ◌++◌, map, filter_by,
  In, here, there, In-filter_by, Bool-cases, ◌==◌, ==_iff, ==_self, nat_eq, append-nil,
  append_assoc, if◌then◌else◌, arith,
}
use multi_tenant_data_chat_p.Models.{DatabaseSchema, DatabaseTable, Store}
use multi_tenant_data_chat_p.Discovery.{DiscoveredTable, DiscoveredSchema}
use multi_tenant_data_chat_p.Discovery.Cache.{
  Caching, schema_row, add_schema, add_table, cache_table, cache_tables, cache_schema,
  cache_schemas, is_schema_of, is_table_of,
}
use multi_tenant_data_chat_p.Discovery.Cache.View.{table_view, tables_in, schema_view, cached_view}
use multi_tenant_data_chat_p.Discovery.Cache.Fresh.{
  IsFresh, drawn_before, IsFresh-add_schema, IsFresh-cache_table, IsFresh-cache_schema,
}
use multi_tenant_data_chat_p.Discovery.Cache.Reading.{
  map-filter_by_snoc, filter_by-none, map_congr, append_if, cache_columns_frame,
  tables_in-cache_table,
}

-- The tables of a discovered schema bear its name.
abbrev pub IsNamed : DiscoveredSchema → Type 0
IsNamed d = (t : DiscoveredTable) → In t d.tables → t.schema_name ≡ d.schema_name

module _ (ids : ℕ → ℕ) (distinct : (i j : ℕ) → ids i ≡ ids j → i ≡ j)
    (tenant_id connection_id : ℕ) where
  tables_in-cache_tables :
      (schema_id : ℕ) (tables : List DiscoveredTable) (s : Caching) (σ : DatabaseSchema)
      → IsFresh ids s.store s.drawn
      → ((j : ℕ) → s.drawn ≤ j → schema_id ≢ ids j)
      → (σ.id ≡ schema_id → (t : DiscoveredTable) → In t tables → σ.schema_name ≡ t.schema_name)
      → tables_in tenant_id connection_id
          (cache_tables ids tenant_id connection_id schema_id tables s).store
          σ
        ≡ tables_in tenant_id connection_id s.store σ ++ (if σ.id == schema_id then tables else [])
  unfolding cache_tables
  tables_in-cache_tables schema_id [] s σ f later named = elim (Bool-cases (σ.id == schema_id)) [
    | inl t ↦ rw t (sym (append-nil _))
    | inr n ↦ rw n (sym (append-nil _))
  ]
  tables_in-cache_tables schema_id (t ∷ tables) s σ f later named =
      let s' = cache_table ids tenant_id connection_id schema_id t s in
      let (g, le) =
        IsFresh-cache_table ids distinct tenant_id connection_id schema_id t s f later in
      tables_in-cache_tables schema_id tables s' σ g (λ j k. later j (omega arith))
        (λ e u i. named e u (there i))
      ∙ ap (λ l. l ++ (if σ.id == schema_id then tables else []))
          (tables_in-cache_table ids tenant_id connection_id schema_id t s σ f
            (λ e. named e t (here refl)))
      ∙ append_if (σ.id == schema_id) (tables_in tenant_id connection_id s.store σ) (t ∷ []) tables

  cache_table_frame :
      (schema_id : ℕ) (t : DiscoveredTable) (s : Caching)
      → (cache_table ids tenant_id connection_id schema_id t s).store.schemas ≡ s.store.schemas
  unfolding cache_table add_table
  cache_table_frame schema_id t s =
      (cache_columns_frame ids tenant_id connection_id (ids s.drawn) t.columns
        (add_table ids tenant_id connection_id schema_id t s)).1

  cache_tables_frame :
      (schema_id : ℕ) (tables : List DiscoveredTable) (s : Caching)
      → (cache_tables ids tenant_id connection_id schema_id tables s).store.schemas
        ≡ s.store.schemas
  unfolding cache_tables
  cache_tables_frame schema_id [] s = refl
  cache_tables_frame schema_id (t ∷ tables) s =
      cache_tables_frame schema_id tables (cache_table ids tenant_id connection_id schema_id t s)
      ∙ cache_table_frame schema_id t s

  schema_view_old :
      (d : DiscoveredSchema) (s : Caching) (σ : DatabaseSchema)
      → IsFresh ids s.store s.drawn
      → In σ s.store.schemas
      → schema_view tenant_id connection_id (cache_schema ids tenant_id connection_id d s).store σ
        ≡ schema_view tenant_id connection_id s.store σ
  unfolding schema_view cache_schema add_schema
  schema_view_old d s σ f i =
      let other : (σ.id == ids s.drawn) ≡ false =
        ground (arith, f.schema_id σ i s.drawn (omega arith), ==_iff σ.id (ids s.drawn)) in
      ap
        (λ (tables : List DiscoveredTable). record { schema_name = σ.schema_name; tables = tables })
        (tables_in-cache_tables (ids s.drawn) d.tables (add_schema ids tenant_id connection_id d s)
            σ (IsFresh-add_schema ids distinct tenant_id connection_id d s f)
            (drawn_before ids distinct tenant_id connection_id s.drawn)
            (λ e. absurd (f.schema_id σ i s.drawn (omega arith) e))
          ∙ ap (λ b. tables_in tenant_id connection_id s.store σ ++ (if b then d.tables else []))
              other
          ∙ append-nil (tables_in tenant_id connection_id s.store σ))

  tables_in-fresh :
      (st : Store) (drawn : ℕ) (σ : DatabaseSchema)
      → IsFresh ids st drawn
      → σ.id ≡ ids drawn
      → tables_in tenant_id connection_id st σ ≡ []
  unfolding tables_in
  tables_in-fresh st drawn σ f e = ap (map (table_view tenant_id connection_id st σ)) (
      filter_by-none
        (λ (t : DatabaseTable). is_table_of tenant_id connection_id t && t.schema_id == σ.id)
        st.tables
        (λ t i. ground (arith, f.table_schema t i drawn (omega arith), ==_iff t.schema_id σ.id)))

  schema_view_new :
      (d : DiscoveredSchema) (s : Caching)
      → IsFresh ids s.store s.drawn
      → IsNamed d
      → schema_view tenant_id connection_id
          (cache_schema ids tenant_id connection_id d s).store
          (schema_row ids tenant_id connection_id (ids s.drawn) d)
        ≡ d
  unfolding schema_view cache_schema add_schema
  schema_view_new d s f named =
      let σ = schema_row ids tenant_id connection_id (ids s.drawn) d in
      ap
        (λ (tables : List DiscoveredTable). record { schema_name = d.schema_name; tables = tables })
        (tables_in-cache_tables (ids s.drawn) d.tables (add_schema ids tenant_id connection_id d s)
            σ (IsFresh-add_schema ids distinct tenant_id connection_id d s f)
            (drawn_before ids distinct tenant_id connection_id s.drawn) (λ e t i. sym (named t i))
          ∙ ap (λ b. tables_in tenant_id connection_id s.store σ ++ (if b then d.tables else []))
              (==_self (ids s.drawn))
          ∙ ap (λ l. l ++ d.tables) (tables_in-fresh s.store s.drawn σ f refl))

  schemas_of_cache_schema :
      (d : DiscoveredSchema) (s : Caching)
      → (cache_schema ids tenant_id connection_id d s).store.schemas
        ≡ s.store.schemas ++ (schema_row ids tenant_id connection_id (ids s.drawn) d ∷ [])
  unfolding cache_schema add_schema
  schemas_of_cache_schema d s =
      cache_tables_frame (ids s.drawn) d.tables (add_schema ids tenant_id connection_id d s)

  seen :
      (d : DiscoveredSchema) (s : Caching)
      → IsFresh ids s.store s.drawn
      → IsNamed d
      → let row = schema_row ids tenant_id connection_id (ids s.drawn) d in
        (if is_schema_of tenant_id connection_id row
          then schema_view tenant_id connection_id
              (cache_schema ids tenant_id connection_id d s).store
              row
            ∷ []
          else [])
        ≡ d ∷ []
  unfolding schema_row
  seen d s f named = ground (
    arith,
    schema_view_new d s f named,
    ==_iff tenant_id tenant_id,
    ==_iff connection_id connection_id,
  )

  cached_view-cache_schema :
      (d : DiscoveredSchema) (s : Caching)
      → IsFresh ids s.store s.drawn
      → IsNamed d
      → cached_view tenant_id connection_id (cache_schema ids tenant_id connection_id d s).store
        ≡ cached_view tenant_id connection_id s.store ++ (d ∷ [])
  unfolding cached_view
  cached_view-cache_schema d s f named =
      let s' = cache_schema ids tenant_id connection_id d s in
      let row = schema_row ids tenant_id connection_id (ids s.drawn) d in
      let view = schema_view tenant_id connection_id s'.store in
      let mine = is_schema_of tenant_id connection_id in
      ap (λ ss. map view (filter_by mine ss)) (schemas_of_cache_schema d s)
      ∙ map-filter_by_snoc view mine s.store.schemas row
      ∙ ap (λ l. l ++ (if mine row then view row ∷ [] else []))
          (map_congr view (schema_view tenant_id connection_id s.store)
            (filter_by mine s.store.schemas)
            (λ old i. schema_view_old d s old f (In-filter_by mine old s.store.schemas i).0))
      ∙ ap (λ l. cached_view tenant_id connection_id s.store ++ l) (seen d s f named)

  -- The whole loop.
  pub cached_view-cache_schemas :
      (schemas : List DiscoveredSchema) (s : Caching)
      → IsFresh ids s.store s.drawn
      → ((d : DiscoveredSchema) → In d schemas → IsNamed d)
      → cached_view tenant_id connection_id
          (cache_schemas ids tenant_id connection_id schemas s).store
        ≡ cached_view tenant_id connection_id s.store ++ schemas
  unfolding cache_schemas
  cached_view-cache_schemas [] s f named =
      sym (append-nil (cached_view tenant_id connection_id s.store))
  cached_view-cache_schemas (d ∷ schemas) s f named =
      cached_view-cache_schemas schemas (cache_schema ids tenant_id connection_id d s)
        (IsFresh-cache_schema ids distinct tenant_id connection_id d s f) (λ e i. named e (there i))
      ∙ ap (λ l. l ++ schemas) (cached_view-cache_schema d s f (named d (here refl)))
      ∙ append_assoc (cached_view tenant_id connection_id s.store) (d ∷ []) schemas
