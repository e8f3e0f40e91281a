-- ===== src/Tests/Administration.antt =====
-- An administrator creates a connection and tests it.
use multi_tenant_data_chat_p.Shared.{
  ℕ, some_inj, ◌≡◌, refl, true, Bool, none, some, Option, In, here, [], ◌∷◌, ok, nat_eq, subst,
  arith,
}
use multi_tenant_data_chat_p.Shared.Text.{Text, text, text_eq, same_text, strip, lstrip, is_space}
use multi_tenant_data_chat_p.Models.{User, DatabaseConnection}
use multi_tenant_data_chat_p.Encryption.{Fernet, encrypt_secret, decrypt_secret}
use multi_tenant_data_chat_p.Permissions.Effective.{find_connection}
use multi_tenant_data_chat_p.Execution.Connect.{
  Url, Parameters, given_text, given_port, secret, detail_parameters, build_postgresql_parameters,
}
use multi_tenant_data_chat_p.Connections.{
  DatabaseConnectionCreate, Probe, answered, get_connection_by_name, save_connection, new_secret,
  create_database_connection, stored_connection, test_result, test_database_connection, marked,
  record_test, test_stored_database_connection, require_tenant_administrator,
}
use multi_tenant_data_chat_p.Connections.RoundTrip.{
  IsDetailed, build_postgresql_parameters-create_database_connection,
}
use multi_tenant_data_chat_p.Connections.Steps.{created, tested, IsProbed, IsWellFormed}
use multi_tenant_data_chat_p.Connections.Invariants.{
  Reachable, no_connections, after, Reachable-IsWellFormed, Reachable-IsProbed, Step-keeps_tenants,
}

abbrev administrator : User
administrator = record { id = 1; tenant_id = 7; is_tenant_admin = true }

abbrev marking : Fernet
marking = record {
  encrypt = λ t. some (b'!' ∷ t);
  decrypt = λ t. elim t [ [] ↦ none | c ∷ s ↦ some s ];
}

abbrev no_urls : Text → Option Url
no_urls t = none

abbrev always_up : ℕ → Parameters → Bool → Probe
always_up t parameters ssl = answered

abbrev shop_request : DatabaseConnectionCreate
shop_request = record {
  name = text " shop ";
  database_type = text "postgresql";
  host = some (text "db");
  port = some 5432;
  database_name = some (text "shop");
  username = some (text "reader");
  password = some (text "key");
  connection_string = none;
  ssl_enabled = true;
}

abbrev pending_shop : DatabaseConnection
pending_shop = record {
  id = 5;
  tenant_id = 7;
  created_by = some 1;
  name = text "shop";
  database_type = text "postgresql";
  host = some (text "db");
  port = some 5432;
  database_name = some (text "shop");
  username = some (text "reader");
  encrypted_password = some (text "!key");
  encrypted_connection_string = none;
  ssl_enabled = true;
  status = text "pending";
  last_tested_at = none;
  last_test_message = none;
  schema_sync_status = text "pending";
  last_schema_sync_at = none;
  is_active = true;
}

abbrev connected_shop : DatabaseConnection
connected_shop = record pending_shop {
  status = text "connected";
  last_tested_at = some 60;
  last_test_message = some (text "Database connection tested successfully.");
}

created_shop :
    create_database_connection marking no_urls always_up [] administrator shop_request 5
    ≡ ok (pending_shop, pending_shop ∷ [])
unfolding create_database_connection require_tenant_administrator get_connection_by_name new_secret
    encrypt_secret strip lstrip is_space nat_eq text_eq same_text
created_shop = refl

abbrev shop_parameters : Parameters
shop_parameters = record {
  host = text "db";
  port = 5432;
  database = text "shop";
  user = text "reader";
  password = text "key";
}

shop_request-IsDetailed : IsDetailed shop_request shop_parameters
shop_request-IsDetailed = record {
  host = refl;
  host_given = refl;
  port = refl;
  port_positive = omega arith;
  database = refl;
  database_given = refl;
  user = refl;
  user_given = refl;
  password = refl;
  no_string = refl;
}

build_postgresql_parameters-create_database_connection_example :
    (build_postgresql_parameters marking no_urls pending_shop ≡ ok shop_parameters)
    × In pending_shop (pending_shop ∷ [])
build_postgresql_parameters-create_database_connection_example =
    build_postgresql_parameters-create_database_connection marking no_urls always_up
      (λ value token h. rw (← some_inj h) (refl, refl)) [] administrator shop_request 5
      shop_parameters pending_shop (pending_shop ∷ []) shop_request-IsDetailed created_shop

tested_shop :
    (test_stored_database_connection marking no_urls always_up
      (pending_shop ∷ [])
      administrator
      5
      60).0
    ≡ connected_shop ∷ []
unfolding test_stored_database_connection require_tenant_administrator stored_connection
    find_connection test_database_connection build_postgresql_parameters given_text given_port
    detail_parameters secret decrypt_secret test_result record_test marked save_connection nat_eq
    text_eq same_text
tested_shop = refl

shop_reached : Reachable marking no_urls always_up (connected_shop ∷ [])
shop_reached = subst (Reachable marking no_urls always_up) tested_shop (
    after {user = administrator}
      (after {user = administrator} no_connections
        (created shop_request 5 (λ d i. elim i [ ]) created_shop))
      (tested 5 60))

Reachable-IsWellFormed_example : IsWellFormed marking no_urls always_up (connected_shop ∷ [])
Reachable-IsWellFormed_example =
    Reachable-IsWellFormed marking no_urls always_up (connected_shop ∷ []) shop_reached

Reachable-IsProbed_example : IsProbed marking no_urls always_up connected_shop
Reachable-IsProbed_example =
    Reachable-IsProbed marking no_urls always_up (connected_shop ∷ []) connected_shop shop_reached
      (here refl)

abbrev stranger : DatabaseConnection
stranger = record pending_shop { tenant_id = 8 }

Step-keeps_tenants_example :
    (In stranger (connected_shop ∷ [])
      → In stranger
          (test_stored_database_connection marking no_urls always_up
            (connected_shop ∷ [])
            administrator
            5
            70).0)
    × (In stranger
          (test_stored_database_connection marking no_urls always_up
            (connected_shop ∷ [])
            administrator
            5
            70).0
        → In stranger (connected_shop ∷ []))
Step-keeps_tenants_example =
    Step-keeps_tenants marking no_urls always_up administrator (connected_shop ∷ [])
      (test_stored_database_connection marking no_urls always_up (connected_shop ∷ []) administrator
        5 70).0
      stranger shop_reached (tested 5 70) (λ e. omega (arith, e))
