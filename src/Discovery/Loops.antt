-- ===== src/Discovery/Loops.antt =====
-- Each loop of `build_discovery_result`: what a key of the dict that it fills finds.
use multi_tenant_data_chat_p.Shared.{
  ℕ, ◌≡◌, refl, sym, ap, ◌∙◌, Bool, true, false, Option, none, some, List, [], ◌∷◌, ◌++◌, ◌==◌,
  append_assoc, append-nil, if◌then◌else◌,
}
use multi_tenant_data_chat_p.Shared.Text.{Text, text_eq}
use multi_tenant_data_chat_p.Shared.Dict.{
  Dict, get, put, get_or, get-put, append_at, get_or-append_at,
}
use multi_tenant_data_chat_p.Discovery.{
  TableRow, SourceColumn, PrimaryKeyRow, ForeignKeyRow, RowCountRow, DiscoveredColumn,
  DiscoveredTable, TableKey, ColumnKey, table_key_eq, column_key_eq, record_key, column_key,
  collect_primary_keys, collect_foreign_keys, collect_row_counts, discovered_column,
  collect_columns, discovered_table, collect_tables,
}
use multi_tenant_data_chat_p.Discovery.Meaning.{or_else, last_of, select, of_table}

pub or_else-none {ℓ} : {A : Type ℓ} (o : Option A) → or_else o none ≡ o
or_else-none none = refl
or_else-none (some a) = refl

append_eq {ℓ} :
    {A : Type ℓ} {xs : List A} (ys zs rest : List A)
    → xs ≡ ys ++ zs
    → xs ++ rest ≡ ys ++ (zs ++ rest)
append_eq ys zs rest h = ap (λ l. l ++ rest) h ∙ append_assoc ys zs rest

or_else-if {ℓ} :
    {A : Type ℓ} (o : Option A) (b : Bool) (a : A) (other : Option A)
    → or_else o (if b then some a else other)
      ≡ or_else (or_else o (if b then some a else none)) other
or_else-if none true a other = refl
or_else-if none false a other = refl
or_else-if (some x) b a other = refl

-- Each loop, at every dict that it starts from.
pub get-collect_foreign_keys :
    (rows : List ForeignKeyRow) (d : Dict ColumnKey (Text × Text × Text)) (k : ColumnKey)
    → get (collect_foreign_keys rows d) k
      ≡ or_else
          (last_of
            (λ (r : ForeignKeyRow). k == column_key r.table_schema r.table_name r.column_name)
            (λ (r : ForeignKeyRow). (r.referenced_schema, r.referenced_table, r.referenced_column))
            rows)
          (get d k)
unfolding collect_foreign_keys
get-collect_foreign_keys [] d k = refl
get-collect_foreign_keys (row ∷ rows) d k =
    let j = column_key row.table_schema row.table_name row.column_name in
    let target : Text × Text × Text =
      (row.referenced_schema, row.referenced_table, row.referenced_column) in
    rw (get-collect_foreign_keys rows (put d j target) k) (
      rw (get-put d j target k) (
        or_else-if
          (last_of
            (λ (r : ForeignKeyRow). k == column_key r.table_schema r.table_name r.column_name)
            (λ (r : ForeignKeyRow). (r.referenced_schema, r.referenced_table, r.referenced_column))
            rows)
          (k == j) target (get d k)))

pub get-collect_row_counts :
    (rows : List RowCountRow) (d : Dict TableKey ℕ) (k : TableKey)
    → get (collect_row_counts rows d) k
      ≡ or_else
          (last_of
            (λ (r : RowCountRow). of_table k r.table_schema r.table_name)
            (λ (r : RowCountRow). r.estimated_row_count)
            rows)
          (get d k)
unfolding collect_row_counts
get-collect_row_counts [] d k = refl
get-collect_row_counts (row ∷ rows) d k =
    let j = record_key row.table_schema row.table_name in
    rw (get-collect_row_counts rows (put d j row.estimated_row_count) k) (
      rw (get-put d j row.estimated_row_count k)
        (or_else-if _ (k == j) row.estimated_row_count (get d k)))

pub get_or-collect_primary_keys :
    (rows : List PrimaryKeyRow) (d : Dict TableKey (List Text)) (k : TableKey)
    → get_or (collect_primary_keys rows d) k []
      ≡ get_or d k []
        ++ select
            (λ (r : PrimaryKeyRow). of_table k r.table_schema r.table_name)
            (λ (r : PrimaryKeyRow). r.column_name)
            rows
unfolding collect_primary_keys
get_or-collect_primary_keys [] d k = sym (append-nil (get_or d k []))
get_or-collect_primary_keys (row ∷ rows) d k =
    let j = record_key row.table_schema row.table_name in
    get_or-collect_primary_keys rows (append_at d j row.column_name) k
    ∙ append_eq _ _ _ (get_or-append_at d j row.column_name k)

pub get_or-collect_columns :
    (primary_keys : Dict TableKey (List Text)) (foreign_keys : Dict ColumnKey (Text × Text × Text))
    (rows : List SourceColumn) (d : Dict TableKey (List DiscoveredColumn)) (k : TableKey)
    → get_or (collect_columns primary_keys foreign_keys rows d) k []
      ≡ get_or d k []
        ++ select
            (λ (r : SourceColumn). of_table k r.table_schema r.table_name)
            (discovered_column primary_keys foreign_keys)
            rows
unfolding collect_columns
get_or-collect_columns primary_keys foreign_keys [] d k = sym (append-nil (get_or d k []))
get_or-collect_columns primary_keys foreign_keys (row ∷ rows) d k =
    let j = record_key row.table_schema row.table_name in
    let column = discovered_column primary_keys foreign_keys row in
    get_or-collect_columns primary_keys foreign_keys rows (append_at d j column) k
    ∙ append_eq _ _ _ (get_or-append_at d j column k)

pub get_or-collect_tables :
    (row_counts : Dict TableKey ℕ) (primary_keys : Dict TableKey (List Text))
    (columns : Dict TableKey (List DiscoveredColumn)) (rows : List TableRow)
    (d : Dict Text (List DiscoveredTable)) (k : Text)
    → get_or (collect_tables row_counts primary_keys columns rows d) k []
      ≡ get_or d k []
        ++ select
            (λ (r : TableRow). k == r.table_schema)
            (discovered_table row_counts primary_keys columns)
            rows
unfolding collect_tables
get_or-collect_tables row_counts primary_keys columns [] d k = sym (append-nil (get_or d k []))
get_or-collect_tables row_counts primary_keys columns (row ∷ rows) d k =
    let table = discovered_table row_counts primary_keys columns row in
    get_or-collect_tables row_counts primary_keys columns rows (append_at d row.table_schema table)
      k
    ∙ append_eq _ _ _ (get_or-append_at d row.table_schema table k)
