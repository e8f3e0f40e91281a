-- ===== src/Tests/Discoveries.antt =====
-- An administrator synchronises the metadata of the sample connection twice.
use multi_tenant_data_chat_p.Shared.{
  ℕ, ◌+◌, ◌<◌, ◌≡◌, ◌≢◌, refl, sym, ap, subst, true, Bool, none, some, Option, In, here, there, [],
  ◌∷◌, err, map, length, filter_by, contains, nat_eq, arith,
}
use multi_tenant_data_chat_p.Shared.Text.{Text, text, text_eq}
use multi_tenant_data_chat_p.Shared.Dict.{get, put}
use multi_tenant_data_chat_p.Models.{
  User, DatabaseConnection, DatabaseSchema, DatabaseTable, DatabaseColumn, Store,
}
use multi_tenant_data_chat_p.Encryption.{Fernet}
use multi_tenant_data_chat_p.Permissions.Effective.{find_connection}
use multi_tenant_data_chat_p.Execution.Connect.{
  Url, Parameters, details_incomplete, build_postgresql_parameters,
}
use multi_tenant_data_chat_p.Discovery.{TableRow, SourceRows, table_key_eq, build_discovery_result}
use multi_tenant_data_chat_p.Discovery.Meaning.{schema_of}
use multi_tenant_data_chat_p.Discovery.Reference.{build_discovery_result_reference}
use multi_tenant_data_chat_p.Discovery.Cache.{cache_discovered_metadata}
use multi_tenant_data_chat_p.Discovery.Cache.Fresh.{IsFresh}
use multi_tenant_data_chat_p.Discovery.Cache.Scope.{
  IsOwn, FitSchemas, KeepsOthers, DropsGrants, cache_discovered_metadata_scope,
}
use multi_tenant_data_chat_p.Discovery.Sync.{
  Answer, fetched, details_raised, raised, discover_database_schema, synchronize_database_schema,
}
use multi_tenant_data_chat_p.Discovery.Sync.Completes.{
  IsComplete, synchronize_database_schema_completes,
}
use multi_tenant_data_chat_p.Discovery.Sync.Failures.{
  IsFailure, synchronize_database_schema_failure,
}
use multi_tenant_data_chat_p.Tests.Sample.{
  sample_connection, sample_schema, sample_table, sample_column, sample_store,
}

abbrev administrator : User
administrator = record { id = 1; tenant_id = 7; is_tenant_admin = true }

abbrev shop_rows : SourceRows
shop_rows = record {
  schema_rows = text "audit" ∷ text "public" ∷ [];
  table_rows =
      record { table_schema = text "public"; table_name = text "orders"; table_type = text "table" }
      ∷ record {
        table_schema = text "public";
        table_name = text "people";
        table_type = text "table";
      }
      ∷ [];
  column_rows =
      record {
        table_schema = text "public";
        table_name = text "orders";
        column_name = text "person";
        data_type = text "integer";
        ordinal_position = 1;
        is_nullable = text "NO";
      }
      ∷ record {
        table_schema = text "public";
        table_name = text "people";
        column_name = text "id";
        data_type = text "integer";
        ordinal_position = 1;
        is_nullable = text "NO";
      }
      ∷ [];
  primary_key_rows =
      record { table_schema = text "public"; table_name = text "people"; column_name = text "id" }
      ∷ [];
  foreign_key_rows =
      record {
        table_schema = text "public";
        table_name = text "orders";
        column_name = text "person";
        referenced_schema = text "public";
        referenced_table = text "people";
        referenced_column = text "id";
      }
      ∷ [];
  row_count_rows =
      record { table_schema = text "public"; table_name = text "orders"; estimated_row_count = 12 }
      ∷ [];
}

build_discovery_result_reference_example :
    ((build_discovery_result shop_rows).schemas ≡ map (schema_of shop_rows) shop_rows.schema_rows)
    × ((build_discovery_result shop_rows).schema_count ≡ 2)
    × ((build_discovery_result shop_rows).table_count
        ≡ length (
            filter_by
              (λ (t : TableRow). contains shop_rows.schema_rows t.table_schema)
              shop_rows.table_rows))
unfolding text_eq
build_discovery_result_reference_example =
    build_discovery_result_reference shop_rows (refl, (refl, tt))

-- The ids of the sample are below those that are drawn.
earlier :
    {A : Type 0} (key : A → ℕ) (a : A)
    → key a < 100
    → (x : A) → In x (a ∷ [])
    → (j : ℕ) → key x ≢ j + 100
earlier key a low x (here p) j e = absurd (omega (arith, ap key p, e, low))
earlier key a low x (there i) j e = elim i [ ]

abbrev next_ids : ℕ → ℕ
next_ids n = n + 100

ids_differ : (i j : ℕ) → next_ids i ≡ next_ids j → i ≡ j
ids_differ i j h = omega arith

only_table : FitSchemas 7 5 sample_store
only_table t (here p) s j e m =
    subst (λ (x : DatabaseTable). IsOwn 7 5 x.tenant_id x.connection_id) (sym p) (refl, refl)
only_table t (there i) s j e m = elim i [ ]

cache_discovered_metadata_scope_example :
    let after =
      (cache_discovered_metadata next_ids 7 5
        (build_discovery_result shop_rows)
        sample_store
        0).store in
    KeepsOthers 7 5 sample_store after
    × ((s : DatabaseSchema)
        → In s sample_store.schemas
        → IsOwn 7 5 s.tenant_id s.connection_id
        → DropsGrants 7 5 sample_store after)
cache_discovered_metadata_scope_example =
    cache_discovered_metadata_scope next_ids 7 5 (build_discovery_result shop_rows) sample_store 0
      only_table

-- The one grant of the sample is gone although the source has not changed.
no_grants :
    (cache_discovered_metadata next_ids 7 5
      (build_discovery_result shop_rows)
      sample_store
      0).store.table_permissions
    ≡ []
unfolding cache_discovered_metadata nat_eq build_discovery_result get put table_key_eq
no_grants = refl

drawn_later : IsFresh next_ids sample_store 0
drawn_later = record {
  schema_id = λ s i j le. earlier (λ (s : DatabaseSchema). s.id) sample_schema (omega arith) s i j;
  table_id = λ t i j le. earlier (λ (t : DatabaseTable). t.id) sample_table (omega arith) t i j;
  table_schema =
      λ t i j le. earlier (λ (t : DatabaseTable). t.schema_id) sample_table (omega arith) t i j;
  column_table =
      λ c i j le. earlier (λ (c : DatabaseColumn). c.table_id) sample_column.1 (omega arith) c i j;
}

abbrev reading : Fernet
reading = record { encrypt = λ t. some t; decrypt = λ t. some t }

abbrev no_urls : Text → Option Url
no_urls t = none

abbrev answering : Parameters → Bool → Answer
answering parameters ssl = fetched shop_rows

abbrev shop_parameters : Parameters
shop_parameters = record {
  host = text "db";
  port = 5432;
  database = text "shop";
  user = text "reader";
  password = text "token";
}

synchronize_database_schema_completes_example :
    let (after, result) =
      synchronize_database_schema reading no_urls answering next_ids sample_store administrator 5 0
        9 in
    IsComplete reading no_urls answering administrator 5 sample_connection shop_rows 9 after result
unfolding text_eq nat_eq find_connection build_postgresql_parameters
synchronize_database_schema_completes_example =
    synchronize_database_schema_completes reading no_urls answering next_ids ids_differ sample_store
      administrator 5 0 9 sample_connection shop_parameters shop_rows drawn_later refl refl refl
      refl refl

-- A connection whose details have no host.
abbrev hostless : DatabaseConnection
hostless = record sample_connection { host = none }

abbrev hostless_store : Store
hostless_store = record sample_store { connections = hostless ∷ [] }

synchronize_database_schema_failure_example :
    let (after, result) =
      synchronize_database_schema reading no_urls answering next_ids hostless_store administrator 5
        0 9 in
    IsFailure reading no_urls answering hostless_store administrator 5 hostless
      (details_raised details_incomplete)
      after
    × (result ≡ err (raised (details_raised details_incomplete)))
unfolding nat_eq find_connection discover_database_schema
synchronize_database_schema_failure_example =
    synchronize_database_schema_failure reading no_urls answering next_ids hostless_store
      administrator 5 0 9 hostless (details_raised details_incomplete) refl refl refl
