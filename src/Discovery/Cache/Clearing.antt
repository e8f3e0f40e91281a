-- ===== src/Discovery/Cache/Clearing.antt =====
-- What `clear_connection_metadata` leaves.
use multi_tenant_data_chat_p.Shared.{
  ℕ, ◌≡◌, refl, ap, inl, inr, Bool, not, ◌&&◌, List, [], ◌∷◌, map, contains, filter_by, is_empty,
  In, In-filter_by, Bool-cases, ◌==◌, nat_eq, if◌then◌else◌,
}
use multi_tenant_data_chat_p.Models.{
  DatabaseSchema, DatabaseTable, DatabaseColumn, TablePermission, Store,
}
use multi_tenant_data_chat_p.Discovery.Cache.{
  delete_columns, delete_cached_columns, delete_table_permissions, delete_tables, delete_schemas,
  clear_tables, clear_connection_metadata, is_schema_of, is_table_of,
}
use multi_tenant_data_chat_p.Discovery.Cache.View.{cached_view, schema_view}
use multi_tenant_data_chat_p.Discovery.Cache.Fresh.{IsFresh}

-- Every row of the first store is a row of the second.
pub record IsPart (part st : Store) : Type 0 where
  pub schemas : (s : DatabaseSchema) → In s part.schemas → In s st.schemas
  pub tables : (t : DatabaseTable) → In t part.tables → In t st.tables
  pub columns : (c : DatabaseColumn) → In c part.columns → In c st.columns
  pub grants : (g : TablePermission) → In g part.table_permissions → In g st.table_permissions

pub IsPart-refl : (st : Store) → IsPart st st
IsPart-refl st = record {
  schemas = λ s i. i;
  tables = λ t i. i;
  columns = λ c i. i;
  grants = λ g i. i;
}

pub IsPart-trans : (a b c : Store) → IsPart a b → IsPart b c → IsPart a c
IsPart-trans a b c p q = record {
  schemas = λ s i. q.schemas s (p.schemas s i);
  tables = λ t i. q.tables t (p.tables t i);
  columns = λ x i. q.columns x (p.columns x i);
  grants = λ g i. q.grants g (p.grants g i);
}

IsPart-delete_columns : (p : DatabaseColumn → Bool) (st : Store) → IsPart (delete_columns p st) st
unfolding delete_columns
IsPart-delete_columns p st = record {
  schemas = λ s i. i;
  tables = λ t i. i;
  columns = λ c i. (In-filter_by (λ (c : DatabaseColumn). not (p c)) c st.columns i).0;
  grants = λ g i. i;
}

IsPart-delete_table_permissions :
    (p : TablePermission → Bool) (st : Store) → IsPart (delete_table_permissions p st) st
unfolding delete_table_permissions
IsPart-delete_table_permissions p st = record {
  schemas = λ s i. i;
  tables = λ t i. i;
  columns = λ c i. i;
  grants = λ g i. (In-filter_by (λ (g : TablePermission). not (p g)) g st.table_permissions i).0;
}

pub IsPart-delete_tables : (p : DatabaseTable → Bool) (st : Store) → IsPart (delete_tables p st) st
unfolding delete_tables
IsPart-delete_tables p st =
    let ids = map (λ (t : DatabaseTable). t.id) (filter_by p st.tables) in
    let granted = delete_table_permissions (λ (g : TablePermission). contains ids g.table_id) st in
    let q = IsPart-delete_columns (λ (c : DatabaseColumn). contains ids c.table_id) granted in
    let r = IsPart-delete_table_permissions (λ (g : TablePermission). contains ids g.table_id) st in
    record {
      schemas = λ s i. r.schemas s (q.schemas s i);
      tables = λ t i. (In-filter_by (λ (t : DatabaseTable). not (p t)) t st.tables i).0;
      columns = λ c i. r.columns c (q.columns c i);
      grants = λ g i. r.grants g (q.grants g i);
    }

IsPart-delete_schemas : (p : DatabaseSchema → Bool) (st : Store) → IsPart (delete_schemas p st) st
unfolding delete_schemas
IsPart-delete_schemas p st =
    let ids = map (λ (s : DatabaseSchema). s.id) (filter_by p st.schemas) in
    let q = IsPart-delete_tables (λ (t : DatabaseTable). contains ids t.schema_id) st in
    record {
      schemas = λ s i. (In-filter_by (λ (s : DatabaseSchema). not (p s)) s st.schemas i).0;
      tables = q.tables;
      columns = q.columns;
      grants = q.grants;
    }

IsFresh-part :
    (ids : ℕ → ℕ) (part st : Store) (drawn : ℕ)
    → IsPart part st
    → IsFresh ids st drawn
    → IsFresh ids part drawn
IsFresh-part ids part st drawn p f = record {
  schema_id = λ s i. f.schema_id s (p.schemas s i);
  table_id = λ t i. f.table_id t (p.tables t i);
  table_schema = λ t i. f.table_schema t (p.tables t i);
  column_table = λ c i. f.column_table c (p.columns c i);
}

module _ (tenant_id connection_id : ℕ) where
  IsPart-delete_cached_columns :
      (table_ids : List ℕ) (st : Store)
      → IsPart (delete_cached_columns tenant_id connection_id table_ids st) st
  unfolding delete_cached_columns
  IsPart-delete_cached_columns [] st = IsPart-refl st
  IsPart-delete_cached_columns (n ∷ table_ids) st =
      IsPart-delete_columns
        (λ (c : DatabaseColumn). c.tenant_id == tenant_id && contains (n ∷ table_ids) c.table_id) st

  IsPart-clear_tables :
      (schema_ids : List ℕ) (st : Store)
      → IsPart (clear_tables tenant_id connection_id schema_ids st) st
  unfolding clear_tables
  IsPart-clear_tables schema_ids st =
      let table_ids =
        map (λ (t : DatabaseTable). t.id)
          (filter_by
            (λ (t : DatabaseTable).
              is_table_of tenant_id connection_id t && contains schema_ids t.schema_id)
            st.tables) in
      let first = delete_cached_columns tenant_id connection_id table_ids st in
      let second = delete_tables (is_table_of tenant_id connection_id) first in
      IsPart-trans _ second st (IsPart-delete_schemas (is_schema_of tenant_id connection_id) second)
        (IsPart-trans second first st
          (IsPart-delete_tables (is_table_of tenant_id connection_id) first)
          (IsPart-delete_cached_columns table_ids st))

  pub IsPart-clear : (st : Store) → IsPart (clear_connection_metadata tenant_id connection_id st) st
  unfolding clear_connection_metadata
  IsPart-clear st = go (
      map (λ (s : DatabaseSchema). s.id)
        (filter_by (is_schema_of tenant_id connection_id) st.schemas))
    where
      go :
          (schema_ids : List ℕ)
          → IsPart
              (if is_empty schema_ids
                then st
                else clear_tables tenant_id connection_id schema_ids st)
              st
      go [] = IsPart-refl st
      go (n ∷ schema_ids) = IsPart-clear_tables (n ∷ schema_ids) st

  pub IsFresh-clear :
      (ids : ℕ → ℕ) (st : Store) (drawn : ℕ)
      → IsFresh ids st drawn
      → IsFresh ids (clear_connection_metadata tenant_id connection_id st) drawn
  IsFresh-clear ids st drawn f =
      IsFresh-part ids (clear_connection_metadata tenant_id connection_id st) st drawn
        (IsPart-clear st) f

  filter_by-complement :
      {A : Type 0} (p : A → Bool) (xs : List A) → filter_by p (filter_by (λ x. not (p x)) xs) ≡ []
  filter_by-complement p [] = refl
  filter_by-complement p (x ∷ xs) = elim (Bool-cases (p x)) [
    | inl t ↦ rw t (filter_by-complement p xs)
    | inr n ↦ rw n (rw n (filter_by-complement p xs))
  ]

  cleared :
      (schema_ids : List ℕ) (st : Store)
      → filter_by
          (is_schema_of tenant_id connection_id)
          (clear_tables tenant_id connection_id schema_ids st).schemas
        ≡ []
  unfolding clear_tables delete_schemas delete_tables
  cleared schema_ids st = filter_by-complement (is_schema_of tenant_id connection_id) _

  no_schemas :
      (st : Store)
      → filter_by
          (is_schema_of tenant_id connection_id)
          (clear_connection_metadata tenant_id connection_id st).schemas
        ≡ []
  unfolding clear_connection_metadata
  no_schemas st = go (filter_by (is_schema_of tenant_id connection_id) st.schemas) refl
    where
      go :
          (mine : List DatabaseSchema)
          → filter_by (is_schema_of tenant_id connection_id) st.schemas ≡ mine
          → filter_by
              (is_schema_of tenant_id connection_id)
              (if is_empty (map (λ (s : DatabaseSchema). s.id) mine)
                then st
                else clear_tables tenant_id connection_id
                    (map (λ (s : DatabaseSchema). s.id) mine)
                    st).schemas
            ≡ []
      go [] e = e
      go (s ∷ mine) e = cleared (s.id ∷ map (λ (s : DatabaseSchema). s.id) mine) st

  pub cached_view-clear :
      (st : Store)
      → cached_view tenant_id connection_id (clear_connection_metadata tenant_id connection_id st)
        ≡ []
  unfolding cached_view
  cached_view-clear st =
      ap
        (map (
          schema_view tenant_id connection_id
            (clear_connection_metadata tenant_id connection_id st)))
        (no_schemas st)
