-- ===== src/Connections/RoundTrip.antt =====
-- The details of a connection from connection_service.py to `build_postgresql_parameters` of
-- services/database/connection_tester.py, through the stored secrets.
use multi_tenant_data_chat_p.Shared.{
  ℕ, zero, suc, ◌≤◌, ◌≡◌, refl, sym, ap, ◌∙◌, false, subst, Bool, In, here, In-append_right, Option,
  none, some, List, [], ◌∷◌, is_some, is_empty, Result, ok, err, ok_inj, >>=-eq-ok, raise_if-then,
  arith,
}
use multi_tenant_data_chat_p.Shared.Text.{Text, strip}
use multi_tenant_data_chat_p.Models.{User, DatabaseConnection}
use multi_tenant_data_chat_p.Encryption.{
  Fernet, EncryptionError, IsInverse, encrypt_secret, decrypt_secret-encrypt_secret,
}
use multi_tenant_data_chat_p.Execution.Connect.{
  Url, Parameters, given_text, given_port, secret, detail_parameters, build_postgresql_parameters,
}
use multi_tenant_data_chat_p.Connections.{
  DatabaseConnectionCreate, ServiceError, secret_rejected, Probe, get_connection_by_name,
  require_tenant_administrator, new_secret, create_database_connection,
}

-- A request that has all the details, and no connection string.
pub record IsDetailed (request : DatabaseConnectionCreate) (p : Parameters) : Type 0 where
  pub host : request.host ≡ some p.host
  pub host_given : is_empty p.host ≡ false
  pub port : request.port ≡ some p.port
  pub port_positive : 1 ≤ p.port
  pub database : request.database_name ≡ some p.database
  pub database_given : is_empty p.database ≡ false
  pub user : request.username ≡ some p.user
  pub user_given : is_empty p.user ≡ false
  pub password : request.password ≡ some p.password
  pub no_string : request.connection_string ≡ none

given_text-some : (t : Text) → is_empty t ≡ false → given_text (some t) ≡ some t
unfolding given_text
given_text-some [] h = cc
given_text-some (c ∷ s) h = refl

given_port-some : (n : ℕ) → 1 ≤ n → given_port (some n) ≡ some n
unfolding given_port
given_port-some zero h = absurd (omega arith)
given_port-some (suc n) h = refl

module _ (fernet : Fernet) (make_url : Text → Option Url)
    (probe : ℕ → Parameters → Bool → Probe) where
  -- The token that is stored for a secret.
  new_secret-token :
      (value : Text) (stored : Option Text)
      → new_secret fernet make_url probe (some value) none ≡ ok stored
      → (token : Text) × (stored ≡ some token) × (encrypt_secret fernet value ≡ ok token)
  unfolding new_secret
  new_secret-token value stored h = encrypted (encrypt_secret fernet value) refl h
    where
      encrypted :
          (m : Result EncryptionError Text)
          → encrypt_secret fernet value ≡ m
          → ◌≡◌ {A = Result ServiceError (Option Text)}
              (elim m [ ok token ↦ ok (some token) | err e ↦ err (secret_rejected e) ])
              (ok stored)
          → (token : Text) × (stored ≡ some token) × (encrypt_secret fernet value ≡ ok token)
      encrypted (ok token) e h = (token, sym (ok_inj h), e)
      encrypted (err x) e h = cc

  -- A row with the details and with a token of the password, but without a connection string.
  detail_parameters-stored :
      IsInverse fernet
      → (c : DatabaseConnection) (p : Parameters) (token : Text) → c.host ≡ some p.host
      → is_empty p.host ≡ false
      → c.port ≡ some p.port
      → 1 ≤ p.port
      → c.database_name ≡ some p.database
      → is_empty p.database ≡ false
      → c.username ≡ some p.user
      → is_empty p.user ≡ false
      → c.encrypted_password ≡ some token
      → encrypt_secret fernet p.password ≡ ok token
      → detail_parameters fernet make_url c ≡ ok p
  unfolding detail_parameters secret
  detail_parameters-stored inverse c p token host h port n database d user u stored encrypted =
      let (nonempty, back) =
        decrypt_secret-encrypt_secret fernet inverse p.password token encrypted in
      rw (host, given_text-some p.host h, port, given_port-some p.port n, database)
        (rw (given_text-some p.database d, user, given_text-some p.user u, stored)
          (rw (given_text-some token nonempty, back) refl))

  -- For a Fernet that decrypts its own tokens, which are not empty: a connection that is created
  -- from a request with a host, a positive port, a database, a user and a password, and without a
  -- connection string, is stored with a row whose connection parameters are exactly these.
  pub build_postgresql_parameters-create_database_connection :
      IsInverse fernet
      → (cs : List DatabaseConnection) (current_user : User) (request : DatabaseConnectionCreate)
        (new_id : ℕ) (p : Parameters) (c : DatabaseConnection) (cs' : List DatabaseConnection)
      → IsDetailed request p
      → create_database_connection fernet make_url probe cs current_user request new_id
        ≡ ok (c, cs')
      → (build_postgresql_parameters fernet make_url c ≡ ok p) × In c cs'
  unfolding create_database_connection build_postgresql_parameters new_secret given_text
  build_postgresql_parameters-create_database_connection inverse cs current_user request new_id p c
        cs' detailed h =
      let (_, _, h₁) = >>=-eq-ok (require_tenant_administrator current_user) _ h in
      let (_, h₂) =
        raise_if-then
          (is_some (get_connection_by_name cs current_user.tenant_id (strip request.name))) _ _
          h₁ in
      let (password, kept, h₃) =
        >>=-eq-ok (new_secret fernet make_url probe request.password none) _ h₂ in
      let (string, no_token, done) =
        >>=-eq-ok (new_secret fernet make_url probe request.connection_string none) _ h₃ in
      let (token, stored, encrypted) =
        new_secret-token p.password password
          (ap (λ s. new_secret fernet make_url probe s none) (sym detailed.password) ∙ kept) in
      let no_string : string ≡ none = sym (
        ok_inj (
          ap (λ s. new_secret fernet make_url probe s none) (sym detailed.no_string) ∙ no_token)) in
      let same = ok_inj done in
      let back = sym same in
      (
        rw
            (ap
                (λ (x : DatabaseConnection × List DatabaseConnection).
                  x.0.encrypted_connection_string)
                back
              ∙ no_string)
            (detail_parameters-stored inverse c p token
              (ap (λ (x : DatabaseConnection × List DatabaseConnection). x.0.host) back
                ∙ detailed.host)
              detailed.host_given
              (ap (λ (x : DatabaseConnection × List DatabaseConnection). x.0.port) back
                ∙ detailed.port)
              detailed.port_positive
              (ap (λ (x : DatabaseConnection × List DatabaseConnection). x.0.database_name) back
                ∙ detailed.database)
              detailed.database_given
              (ap (λ (x : DatabaseConnection × List DatabaseConnection). x.0.username) back
                ∙ detailed.user)
              detailed.user_given
              (ap (λ (x : DatabaseConnection × List DatabaseConnection). x.0.encrypted_password)
                  back
                ∙ stored)
              encrypted),
        subst (λ (x : DatabaseConnection × List DatabaseConnection). In x.0 x.1) same
            (In-append_right cs (here refl)),
      )
