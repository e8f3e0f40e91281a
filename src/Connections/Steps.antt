-- ===== src/Connections/Steps.antt =====
-- The operations of connection_service.py as steps of the list of stored connections, and what
-- each step changes.
use multi_tenant_data_chat_p.Shared.{
  ℕ, ◌≡◌, refl, sym, ap, ◌∙◌, ◌≢◌, inl, inr, Bool, ◌&&◌, Option, none, some, List, [], ◌∷◌, ◌++◌,
  In, here, there, Result, ok, err, ok_inj, Bool-cases, ◌==◌, ==_iff, nat_eq, if◌then◌else◌, arith,
}
use multi_tenant_data_chat_p.Shared.Text.{Text, text, text_eq, strip}
use multi_tenant_data_chat_p.Models.{User, DatabaseConnection}
use multi_tenant_data_chat_p.Encryption.{Fernet}
use multi_tenant_data_chat_p.Execution.Connect.{Url, Parameters, build_postgresql_parameters}
use multi_tenant_data_chat_p.Connections.{
  DatabaseConnectionCreate, DatabaseConnectionUpdate, ServiceError, Probe, answered, duplicate_name,
  get_connection_by_name, save_connection, delete_connection, create_database_connection,
  updated_name, update_database_connection, remove_database_connection,
  test_stored_database_connection,
}

module _ (fernet : Fernet) (make_url : Text → Option Url)
    (probe : ℕ → Parameters → Bool → Probe) where
  -- One operation that ends and changes the stored connections, or leaves them; the id of a new
  -- connection is fresh.
  pub data Step (user : User) (cs : List DatabaseConnection)
      : List DatabaseConnection → Type 0 where
    created :
        (request : DatabaseConnectionCreate) (new_id : ℕ) {c : DatabaseConnection}
        {cs' : List DatabaseConnection}
        → ((d : DatabaseConnection) → In d cs → d.id ≢ new_id)
        → create_database_connection fernet make_url probe cs user request new_id ≡ ok (c, cs')
        → Step user cs cs'
    updated :
        (id : ℕ) (request : DatabaseConnectionUpdate) {c : DatabaseConnection}
        {cs' : List DatabaseConnection}
        → update_database_connection fernet make_url probe cs user id request ≡ ok (c, cs')
        → Step user cs cs'
    removed :
        (id : ℕ) {cs' : List DatabaseConnection}
        → remove_database_connection fernet make_url probe cs user id ≡ ok cs'
        → Step user cs cs'
    tested :
        (id tested_at : ℕ)
        → Step user cs
            (test_stored_database_connection fernet make_url probe cs user id tested_at).0

  -- A connection that counts as connected is of PostgreSQL, and at the time that it bears the
  -- source database has answered to exactly the parameters that its stored details give.
  abbrev pub IsProbed : DatabaseConnection → Type 0
  IsProbed c =
      c.status ≡ text "connected"
      → (t : ℕ) × (parameters : Parameters) × (c.last_tested_at ≡ some t)
        × (c.database_type ≡ text "postgresql")
        × (build_postgresql_parameters fernet make_url c ≡ ok parameters)
        × (probe t parameters c.ssl_enabled ≡ answered)

  -- What a step does to the list.
  pub data Change (user : User) (cs : List DatabaseConnection)
      : List DatabaseConnection → Type 0 where
    added :
        (c : DatabaseConnection)
        → c.tenant_id ≡ user.tenant_id
        → ((d : DatabaseConnection) → In d cs → d.id ≢ c.id)
        → ((d : DatabaseConnection) → In d cs → d.tenant_id ≡ c.tenant_id → d.name ≢ c.name)
        → IsProbed c
        → Change user cs (cs ++ (c ∷ []))
    changed :
        (old c : DatabaseConnection)
        → In old cs
        → old.id ≡ c.id
        → old.tenant_id ≡ c.tenant_id
        → c.tenant_id ≡ user.tenant_id
        → ((d : DatabaseConnection)
            → In d cs
            → d.tenant_id ≡ c.tenant_id
            → d.name ≡ c.name
            → d.id ≡ c.id)
        → IsProbed c
        → Change user cs (save_connection cs c)
    deleted :
        (old : DatabaseConnection)
        → In old cs
        → old.tenant_id ≡ user.tenant_id
        → Change user cs (delete_connection cs old.id)
    unchanged : Change user cs cs

  -- No two connections have one id, nor one tenant and name.
  pub record IsWellFormed (cs : List DatabaseConnection) : Type 0 where
    pub one_id : (c d : DatabaseConnection) → In c cs → In d cs → c.id ≡ d.id → c ≡ d
    pub one_name :
        (c d : DatabaseConnection)
        → In c cs
        → In d cs
        → c.tenant_id ≡ d.tenant_id
        → c.name ≡ d.name
        → c.id ≡ d.id

  pub get_connection_by_name-none :
      (cs : List DatabaseConnection) (tenant_id : ℕ) (name : Text) (d : DatabaseConnection)
      → get_connection_by_name cs tenant_id name ≡ none
      → In d cs
      → d.tenant_id ≡ tenant_id
      → d.name ≢ name
  unfolding get_connection_by_name
  get_connection_by_name-none [] tenant_id name d h i e f = elim i [ ]
  get_connection_by_name-none (c ∷ cs) tenant_id name d h (here p) e f = absurd (
      ground (
        arith,
        ap (λ (x : DatabaseConnection). x.tenant_id) p,
        ap (λ (x : DatabaseConnection). x.name) p,
      ))
  get_connection_by_name-none (c ∷ cs) tenant_id name d h (there i) e f =
      get_connection_by_name-none cs tenant_id name d (ground arith) i e f

  get_connection_by_name-some :
      (cs : List DatabaseConnection) (tenant_id : ℕ) (name : Text) (d : DatabaseConnection)
      → get_connection_by_name cs tenant_id name ≡ some d
      → In d cs × (d.tenant_id ≡ tenant_id) × (d.name ≡ name)
  unfolding get_connection_by_name
  get_connection_by_name-some [] tenant_id name d h = cc
  get_connection_by_name-some (c ∷ cs) tenant_id name d h =
      elim (Bool-cases (c.tenant_id == tenant_id && c.name == name)) [
        | inl this ↦
            let same : c ≡ d = ground arith in
            (
              here (sym same),
              ground (arith, ap (λ (x : DatabaseConnection). x.tenant_id) same),
              ground (arith, ap (λ (x : DatabaseConnection). x.name) same),
            )
        | inr other ↦
            let (i, e, f) = get_connection_by_name-some cs tenant_id name d (ground arith) in
            (there i, e, f)
      ]

  -- A name that an update takes is free, or the connection's own.
  pub updated_name_lem :
      (cs : List DatabaseConnection) (user : User) (c : DatabaseConnection)
      (o : Option (Option Text)) (name : Text)
      → IsWellFormed cs
      → In c cs
      → c.tenant_id ≡ user.tenant_id
      → updated_name fernet make_url probe cs user c o ≡ ok name
      → (d : DatabaseConnection) → In d cs
      → d.tenant_id ≡ c.tenant_id
      → d.name ≡ name
      → d.id ≡ c.id
  unfolding updated_name
  updated_name_lem cs user c none name w i own h d j e f = w.one_name d c j i e (f ∙ sym (ok_inj h))
  updated_name_lem cs user c (some none) name w i own h d j e f = cc
  updated_name_lem cs user c (some (some n)) name w i own h d j e f =
      taken (get_connection_by_name cs user.tenant_id (strip n)) refl h
    where
      taken :
          (o : Option DatabaseConnection)
          → get_connection_by_name cs user.tenant_id (strip n) ≡ o
          → ◌≡◌ {A = Result ServiceError Text}
              (elim o [
                | none ↦ ok (strip n)
                | some existing ↦ if existing.id == c.id then ok (strip n) else err duplicate_name
              ])
              (ok name)
          → d.id ≡ c.id
      taken none q h = absurd (
          get_connection_by_name-none cs user.tenant_id (strip n) d q j (e ∙ own)
            (f ∙ sym (ok_inj h)))
      taken (some existing) q h =
          let (k, t, m) = get_connection_by_name-some cs user.tenant_id (strip n) existing q in
          elim (Bool-cases (existing.id == c.id)) [
            | inl same ↦
                let named : strip n ≡ name = ok_inj (rw same at h) in
                w.one_name d existing j k (e ∙ own ∙ sym t) (f ∙ sym named ∙ sym m)
                ∙ (==_iff existing.id c.id).0 same
            | inr other ↦ absurd (cc (rw other at h))
          ]
