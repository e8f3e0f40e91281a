-- ===== src/Tests/Catalog.antt =====
-- The listing of the cached tables of the sample connection.
use multi_tenant_data_chat_p.Shared.{◌≡◌, refl, none, In, [], ◌∷◌, length, nat_eq}
use multi_tenant_data_chat_p.Shared.Text.{text}
use multi_tenant_data_chat_p.Shared.Dict.{get, put}
use multi_tenant_data_chat_p.Models.{DatabaseSchema, DatabaseTable}
use multi_tenant_data_chat_p.Permissions.Effective.{find_connection}
use multi_tenant_data_chat_p.Discovery.Catalog.{
  columns_by_table, DatabaseTableResponse, get_cached_tables,
}
use multi_tenant_data_chat_p.Discovery.Catalog.Listed.{
  IsCached, Named, IsListed, get_cached_tables_lists,
}
use multi_tenant_data_chat_p.Tests.Sample.{
  sample_user, sample_table, sample_column, sample_store, stored_order,
}

abbrev sample_response : DatabaseTableResponse
sample_response = record {
  table = sample_table;
  schema_name = text "public";
  columns = sample_column.1 ∷ [];
}

get_cached_tables_lists_example :
    ((r : DatabaseTableResponse) → In r (sample_response ∷ []) → IsListed sample_store 7 5 none r)
    × ((t : DatabaseTable) (s : DatabaseSchema)
        → In t sample_store.tables
        → In s sample_store.schemas
        → IsCached 7 5 t s
        → Named none s
        → (r : DatabaseTableResponse) × In r (sample_response ∷ []) × (r.table ≡ t))
    × (1 ≡ length (sample_response ∷ []))
unfolding get_cached_tables columns_by_table get put nat_eq find_connection
get_cached_tables_lists_example =
    get_cached_tables_lists (λ rs. rs) (λ cs. cs) stored_order (λ rs. refl) stored_order
      sample_store sample_user 5 none (sample_response ∷ []) 1 refl
