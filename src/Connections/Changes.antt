-- ===== src/Connections/Changes.antt =====
-- Every step of connection_service.py is a change that keeps names apart and marks a connection as
-- connected only after a test.
use multi_tenant_data_chat_p.Shared.{
  ℕ, ◌≡◌, refl, ap, ◌∙◌, ◌≢◌, Bool, true, false, not, Option, none, List, In, is_some, Result, ok,
  err, ok_inj, >>=-eq-ok, raise_if-then, or_raise-eq-ok, ◌==◌, ==_iff, nat_eq, if◌then◌else◌, arith,
}
use multi_tenant_data_chat_p.Shared.Text.{Text, text, text_eq, strip}
use multi_tenant_data_chat_p.Models.{User, DatabaseConnection}
use multi_tenant_data_chat_p.Encryption.{Fernet}
use multi_tenant_data_chat_p.Permissions.Effective.{find_connection}
use multi_tenant_data_chat_p.Permissions.Effective.Isolation.{find_connection-tenant}
use multi_tenant_data_chat_p.Execution.Connect.{
  Url, Parameters, ConnectError, build_postgresql_parameters,
}
use multi_tenant_data_chat_p.Connections.{
  DatabaseConnectionCreate, DatabaseConnectionUpdate, ServiceError, ConnectionTestResult, Probe,
  answered, timed_out, refused, not_found, unsupported_type, details_rejected,
  get_connection_by_name, new_secret, test_result, create_database_connection, stored_connection,
  updated_name, update_database_connection, remove_database_connection, test_database_connection,
  set_required, require_tenant_administrator,
}
use multi_tenant_data_chat_p.Connections.Steps.{
  Change, added, changed, deleted, IsWellFormed, get_connection_by_name-none, updated_name_lem,
}

pending-ne-connected : text "pending" ≢ text "connected"
pending-ne-connected e = cc

pub failed-ne-connected : text "failed" ≢ text "connected"
failed-ne-connected e = cc

pair_inj : {A B : Type 0} {a c : A} {b d : B} → ◌≡◌ {A = A × B} (a, b) (c, d) → (a ≡ c) × (b ≡ d)
pair_inj e = (ap (λ (x : _ × _). x.0) e, ap (λ (x : _ × _). x.1) e)

module _ (fernet : Fernet) (make_url : Text → Option Url) (probe : ℕ → Parameters → Bool → Probe)
    (user : User) (cs : List DatabaseConnection) where
  pub stored_connection-tenant :
      (id : ℕ) (c : DatabaseConnection)
      → stored_connection fernet make_url probe cs user id ≡ ok c
      → In c cs × (c.id ≡ id) × (c.tenant_id ≡ user.tenant_id)
  unfolding stored_connection
  stored_connection-tenant id c h =
      find_connection-tenant cs user.tenant_id id c
        (or_raise-eq-ok (find_connection cs user.tenant_id id) not_found h)

  pub create-Change :
      (request : DatabaseConnectionCreate) (new_id : ℕ) (c : DatabaseConnection)
      (cs' : List DatabaseConnection)
      → ((d : DatabaseConnection) → In d cs → d.id ≢ new_id)
      → create_database_connection fernet make_url probe cs user request new_id ≡ ok (c, cs')
      → Change fernet make_url probe user cs cs'
  unfolding create_database_connection require_tenant_administrator
  create-Change request new_id c cs' fresh h =
      let (_, h₁) = raise_if-then (not user.is_tenant_admin) _ _ h in
      let (free, h₂) =
        raise_if-then (is_some (get_connection_by_name cs user.tenant_id (strip request.name))) _ _
          h₁ in
      let (_, _, h₃) = >>=-eq-ok (new_secret fernet make_url probe request.password none) _ h₂ in
      let (_, _, h₄) =
        >>=-eq-ok (new_secret fernet make_url probe request.connection_string none) _ h₃ in
      let (_, e) = pair_inj (ok_inj h₄) in
      rw (← e) (
        added _ refl fresh
          (λ d i p.
            get_connection_by_name-none fernet make_url probe cs user.tenant_id (strip request.name)
              d (ground arith) i p)
          (λ q. absurd (pending-ne-connected q)))

  pub update-Change :
      (id : ℕ) (request : DatabaseConnectionUpdate) (c : DatabaseConnection)
      (cs' : List DatabaseConnection)
      → IsWellFormed fernet make_url probe cs
      → update_database_connection fernet make_url probe cs user id request ≡ ok (c, cs')
      → Change fernet make_url probe user cs cs'
  unfolding update_database_connection require_tenant_administrator
  update-Change id request c cs' w h =
      let (_, h₁) = raise_if-then (not user.is_tenant_admin) _ _ h in
      let (old, found, h₂) = >>=-eq-ok (stored_connection fernet make_url probe cs user id) _ h₁ in
      let (name, named, h₃) =
        >>=-eq-ok (updated_name fernet make_url probe cs user old request.name) _ h₂ in
      let (_, _, h₄) =
        >>=-eq-ok (new_secret fernet make_url probe request.password old.encrypted_password) _ h₃ in
      let (_, _, h₅) =
        >>=-eq-ok
          (new_secret fernet make_url probe request.connection_string
            old.encrypted_connection_string)
          _ h₄ in
      let (_, _, h₆) = >>=-eq-ok (set_required request.ssl_enabled old.ssl_enabled) _ h₅ in
      let (_, _, h₇) = >>=-eq-ok (set_required request.is_active old.is_active) _ h₆ in
      let (_, e) = pair_inj (ok_inj h₇) in
      let (i, _, own) = stored_connection-tenant id old found in
      rw (← e) (
        changed old _ i refl refl own
          (updated_name_lem fernet make_url probe cs user old request.name name w i own named)
          (λ q. absurd (pending-ne-connected q)))

  pub remove-Change :
      (id : ℕ) (cs' : List DatabaseConnection)
      → remove_database_connection fernet make_url probe cs user id ≡ ok cs'
      → Change fernet make_url probe user cs cs'
  unfolding remove_database_connection require_tenant_administrator
  remove-Change id cs' h =
      let (_, h₁) = raise_if-then (not user.is_tenant_admin) _ _ h in
      let (old, found, h₂) = >>=-eq-ok (stored_connection fernet make_url probe cs user id) _ h₁ in
      let (i, _, own) = stored_connection-tenant id old found in
      rw (← ok_inj h₂) (deleted old i own)

  -- A test that succeeds has been answered.
  pub test_database_connection-success :
      (c : DatabaseConnection) (t : ℕ) (r : ConnectionTestResult)
      → test_database_connection fernet make_url probe c t ≡ ok r
      → r.success ≡ true
      → (parameters : Parameters) × (c.database_type ≡ text "postgresql")
        × (build_postgresql_parameters fernet make_url c ≡ ok parameters)
        × (probe t parameters c.ssl_enabled ≡ answered)
  unfolding test_database_connection test_result
  test_database_connection-success c t r h s = typed (c.database_type == text "postgresql") refl h
    where
      typed :
          (b : Bool)
          → (c.database_type == text "postgresql") ≡ b
          → ◌≡◌ {A = Result ServiceError ConnectionTestResult}
              (if b
                then elim (build_postgresql_parameters fernet make_url c) [
                  | err e ↦ err (details_rejected e)
                  | ok parameters ↦
                      ok (test_result fernet make_url probe (probe t parameters c.ssl_enabled))
                ]
                else err unsupported_type)
              (ok r)
          → (parameters : Parameters) × (c.database_type ≡ text "postgresql")
            × (build_postgresql_parameters fernet make_url c ≡ ok parameters)
            × (probe t parameters c.ssl_enabled ≡ answered)
      typed false e h = cc
      typed true e h = built (build_postgresql_parameters fernet make_url c) refl h
        where
          built :
              (p : Result ConnectError Parameters)
              → build_postgresql_parameters fernet make_url c ≡ p
              → ◌≡◌ {A = Result ServiceError ConnectionTestResult}
                  (elim p [
                    | err e ↦ err (details_rejected e)
                    | ok parameters ↦
                        ok (test_result fernet make_url probe (probe t parameters c.ssl_enabled))
                  ])
                  (ok r)
              → (parameters : Parameters) × (c.database_type ≡ text "postgresql")
                × (build_postgresql_parameters fernet make_url c ≡ ok parameters)
                × (probe t parameters c.ssl_enabled ≡ answered)
          built (err x) q h = cc
          built (ok parameters) q h = (
            parameters,
            (==_iff c.database_type (text "postgresql")).0 e,
            q,
            reached (probe t parameters c.ssl_enabled)
                (ap (λ (x : ConnectionTestResult). x.success) (ok_inj h) ∙ s),
          )
            where
              reached :
                  (a : Probe) → (test_result fernet make_url probe a).success ≡ true → a ≡ answered
              reached answered g = refl
              reached timed_out g = cc
              reached refused g = cc
