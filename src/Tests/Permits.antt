-- ===== src/Tests/Permits.antt =====
-- An administrator grants a role what the sample user has, and row filters that the schema accepts.
use multi_tenant_data_chat_p.Shared.{
  length, ℕ, ◌≡◌, ◌⊎◌, refl, sym, ◌∙◌, subst, inr, true, false, Bool, none, some, In, here, there,
  [], ◌∷◌, ok, err, All, nat_eq,
}
use multi_tenant_data_chat_p.Shared.Text.{text, text_eq}
use multi_tenant_data_chat_p.Shared.Dict.{values, get, put}
use multi_tenant_data_chat_p.Values.{null, int, pos, list, nil, cons, str_uuid, field_value}
use multi_tenant_data_chat_p.Models.{User, TablePermission, ColumnPermission}
use multi_tenant_data_chat_p.Sql.RowFilter.Rules.{
  Fault, filter_error, list_required, column_with_id, resolve_filter_column, build_rule_expression,
  resolve_filter_value, is_among, is_text, build_filter_group_expression,
  build_comparison_expression, is_supported_operator,
}
use multi_tenant_data_chat_p.Grants.Schemas.{
  RowFilterGroup, RowFilterRule, TablePermissionCreate, in_, literal, tenant_id_source,
  validate_group, validate_request, dump_group,
}
use multi_tenant_data_chat_p.Grants.{new_permission, check_permission, create_permission}
use multi_tenant_data_chat_p.Grants.Guards.{IsTableOf, IsColumnOf}
use multi_tenant_data_chat_p.Grants.Filters.{IsKnown, IsUsable}
use multi_tenant_data_chat_p.Grants.Groups.{build_filter_group_expression-dump_group}
use multi_tenant_data_chat_p.Grants.Invariant.{IsWellFormed, create_permission-IsWellFormed}
use multi_tenant_data_chat_p.Grants.Listing.{TablePermissionResponse, get_permissions}
use multi_tenant_data_chat_p.Grants.Listed.{IsChosen, IsListed, get_permissions_lists}
use multi_tenant_data_chat_p.Tests.Sample.{
  sample_parser, sample_permission, sample_table, sample_column, sample_store, allowed_id,
  allowed_orders, stored_order,
}

abbrev one_id : RowFilterRule
one_id = record {
  column_id = 8;
  operator = in_;
  value_source = literal;
  value = list (cons (int (pos 3)) nil);
}

abbrev id_filter : RowFilterGroup
id_filter = record { match = text "all"; rules = one_id ∷ [] }

build_filter_group_expression-dump_group_example :
    (All (IsUsable sample_parser allowed_orders (text "orders") 7 1) (one_id ∷ [])
      → (c : Bool) × (build_filter_group_expression sample_parser allowed_orders
            (text "orders")
            7
            1
            (dump_group id_filter)
          ≡ ok c))
    × ((e : Fault)
        → build_filter_group_expression sample_parser allowed_orders
            (text "orders")
            7
            1
            (dump_group id_filter)
          ≡ err e
        → IsKnown sample_parser allowed_orders (text "orders") 7 1 e)
unfolding validate_group
build_filter_group_expression-dump_group_example =
    build_filter_group_expression-dump_group sample_parser allowed_orders (text "orders") 7 1
      id_filter one_id [] refl refl

one_id-IsUsable : IsUsable sample_parser allowed_orders (text "orders") 7 1 one_id
unfolding column_with_id text_eq str_uuid values
one_id-IsUsable = record {
  column = allowed_id;
  found = refl;
  listed = λ m. (int (pos 3), nil, refl, refl);
}

-- The schema accepts a membership test with the id of the tenant, on which every query fails.
abbrev tenant_membership : RowFilterGroup
tenant_membership = record {
  match = text "all";
  rules =
      record { column_id = 8; operator = in_; value_source = tenant_id_source; value = null } ∷ [];
}

tenant_membership_accepted : validate_group tenant_membership ≡ ok tt
unfolding validate_group
tenant_membership_accepted = refl

tenant_membership_fails :
    build_filter_group_expression sample_parser allowed_orders
      (text "orders")
      7
      1
      (dump_group tenant_membership)
    ≡ err (filter_error list_required)
unfolding build_filter_group_expression build_rule_expression resolve_filter_column column_with_id
    dump_group field_value text_eq str_uuid values resolve_filter_value is_among is_text
    build_comparison_expression is_supported_operator
tenant_membership_fails = refl

abbrev administrator : User
administrator = record { id = 1; tenant_id = 7; is_tenant_admin = true }

abbrev role_request : TablePermissionCreate
role_request = record {
  role_id = some 2;
  user_id = none;
  connection_id = 5;
  table_id = 4;
  can_read = true;
  can_insert = false;
  can_update = false;
  can_delete = false;
  row_filter = id_filter;
  columns =
      record {
        column_id = 8;
        can_read = true;
        can_filter = true;
        can_aggregate = true;
        mask_type = none;
      }
      ∷ [];
}

only_item : {A : Type 0} (P : A → Type 0) (a : A) → P a → (x : A) → In x (a ∷ []) → P x
only_item P a p x (here e) = subst P (sym e) p
only_item P a p x (there i) = elim i [ ]

the_one : (p : TablePermission) → In p (sample_permission ∷ []) → p ≡ sample_permission
the_one p (here e) = e
the_one p (there i) = elim i [ ]

sample_IsWellFormed : IsWellFormed sample_store
sample_IsWellFormed = record {
  one_subject =
      only_item
        (λ (p : TablePermission).
          ((n : ℕ) × (p.role_id ≡ some n) × (p.user_id ≡ none))
          ⊎ ((n : ℕ) × (p.user_id ≡ some n) × (p.role_id ≡ none)))
        sample_permission (inr (1, refl, refl));
  own_table =
      only_item
        (λ (p : TablePermission).
          IsTableOf sample_store.tables p.tenant_id p.connection_id p.table_id)
        sample_permission
        (record {
          table = sample_table;
          stored = here refl;
          same_id = refl;
          same_tenant = refl;
          same_connection = refl;
        });
  one_grant = λ p q i j e f s. the_one p i ∙ sym (the_one q j);
  own_column =
      only_item
        (λ (c : ColumnPermission).
          (p : TablePermission) × In p sample_store.table_permissions
          × (p.id ≡ c.table_permission_id)
          × IsColumnOf sample_store.columns p.tenant_id p.table_id c.column_id)
        sample_column.0
        (
          sample_permission,
          here refl,
          refl,
          record {
            column = sample_column.1;
            stored = here refl;
            same_id = refl;
            same_tenant = refl;
            same_table = refl;
          },
        );
}

create_permission-IsWellFormed_example : IsWellFormed (record sample_store {
  table_permissions = sample_permission ∷ new_permission 30 administrator role_request ∷ [];
  column_permissions =
      sample_column.0
      ∷ record {
        table_permission_id = 30;
        column_id = 8;
        can_read = true;
        can_filter = true;
        can_aggregate = true;
        mask_type = none;
      }
      ∷ [];
})
unfolding create_permission check_permission validate_request nat_eq
create_permission-IsWellFormed_example =
    create_permission-IsWellFormed sample_store administrator role_request 30 sample_IsWellFormed
      refl refl

abbrev sample_response : TablePermissionResponse
sample_response = record { permission = sample_permission; columns = sample_column.0 ∷ [] }

get_permissions_lists_example :
    ((r : TablePermissionResponse)
      → In r (sample_response ∷ [])
      → IsListed sample_store administrator none (some 4) r)
    × ((p : TablePermission)
        → In p sample_store.table_permissions
        → IsChosen 7 none (some 4) p
        → (r : TablePermissionResponse) × In r (sample_response ∷ []) × (r.permission ≡ p))
    × (1 ≡ length (sample_response ∷ []))
unfolding get_permissions get put nat_eq
get_permissions_lists_example =
    get_permissions_lists (λ ps. ps) (λ cs. cs) stored_order (λ ps. refl) stored_order sample_store
      administrator none (some 4) (sample_response ∷ []) 1 refl
