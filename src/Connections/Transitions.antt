-- ===== src/Connections/Transitions.antt =====
-- Every step of connection_service.py is a change; here the test of a connection, whose outcome may
-- be an exception that is recorded.
use multi_tenant_data_chat_p.Shared.{
  ℕ, ◌≡◌, refl, sym, ap, ◌∙◌, ◌≢◌, ◌⊎◌, inl, inr, Bool, true, false, Option, List, [], ◌∷◌, In,
  here, there, Result, ok, err, ◌>>◌, >>=-eq-ok, Bool-cases, ◌==◌, ==_iff, nat_eq, if_neg,
  if◌then◌else◌,
}
use multi_tenant_data_chat_p.Shared.Text.{Text, text, text_eq}
use multi_tenant_data_chat_p.Models.{User, DatabaseConnection}
use multi_tenant_data_chat_p.Encryption.{Fernet}
use multi_tenant_data_chat_p.Execution.Connect.{
  Url, Parameters, build_postgresql_parameters, url_parameters, detail_parameters,
}
use multi_tenant_data_chat_p.Connections.{
  ServiceError, ConnectionTestResult, Probe, administrator_required, duplicate_name, not_found,
  name_is_null, not_null_violated, secret_rejected, unsupported_type, details_rejected,
  save_connection, marked, stored_connection, record_test, test_database_connection,
  test_stored_database_connection, require_tenant_administrator,
}
use multi_tenant_data_chat_p.Connections.Steps.{
  Step, created, updated, removed, tested, IsProbed, Change, changed, unchanged, IsWellFormed,
}
use multi_tenant_data_chat_p.Connections.Changes.{
  failed-ne-connected, stored_connection-tenant, create-Change, update-Change, remove-Change,
  test_database_connection-success,
}

-- The tests of `save_connection` on ids that agree and that differ.
saved_at : (c d : DatabaseConnection) → d.id ≡ c.id → (if d.id == c.id then c else d) ≡ c
saved_at c d p = ap (λ b. if b then c else d) ((==_iff d.id c.id).1 p)

kept_at : (c d : DatabaseConnection) → d.id ≢ c.id → (if d.id == c.id then c else d) ≡ d
kept_at c d n = ap (λ b. if b then c else d) (if_neg (nat_eq.dec d.id c.id) n true false)

pub In-save_connection :
    (cs : List DatabaseConnection) (c x : DatabaseConnection)
    → In x (save_connection cs c)
    → (x ≡ c) ⊎ (In x cs × (x.id ≢ c.id))
unfolding save_connection
In-save_connection [] c x i = elim i [ ]
In-save_connection (d ∷ cs) c x (there i) = elim (In-save_connection cs c x i) [
  | inl e ↦ inl e
  | inr (j, n) ↦ inr (there j, n)
]
In-save_connection (d ∷ cs) c x (here e) = elim (nat_eq.dec d.id c.id) [
  | yes p ↦ inl (e ∙ saved_at c d p)
  | no n ↦
      let same : x ≡ d = e ∙ kept_at c d n in
      inr (here same, λ q. n (ap (λ (y : DatabaseConnection). y.id) (sym same) ∙ q))
]

-- A stored connection other than the saved one stays.
pub In-save_connection_of :
    (cs : List DatabaseConnection) (c x : DatabaseConnection)
    → In x cs
    → x.id ≢ c.id
    → In x (save_connection cs c)
unfolding save_connection
In-save_connection_of [] c x i n = elim i [ ]
In-save_connection_of (d ∷ cs) c x (there i) n = there (In-save_connection_of cs c x i n)
In-save_connection_of (d ∷ cs) c x (here e) n =
    here (e ∙ sym (kept_at c d (λ p. n (ap (λ (y : DatabaseConnection). y.id) e ∙ p))))

module _ (fernet : Fernet) (make_url : Text → Option Url)
    (probe : ℕ → Parameters → Bool → Probe) where
  record_test-Change :
      (user : User) (cs : List DatabaseConnection) (c : DatabaseConnection) (t : ℕ)
      (m : Result ServiceError ConnectionTestResult)
      → IsWellFormed fernet make_url probe cs
      → In c cs
      → c.tenant_id ≡ user.tenant_id
      → test_database_connection fernet make_url probe c t ≡ m
      → Change fernet make_url probe user cs (record_test fernet make_url probe cs c t m).0
  unfolding record_test marked build_postgresql_parameters url_parameters detail_parameters
  record_test-Change user cs c t (ok r) w i own h =
      changed c _ i refl refl own (λ d j e f. w.one_name d c j i e f) (probed r h)
    where
      probed :
          (r : ConnectionTestResult)
          → test_database_connection fernet make_url probe c t ≡ ok r
          → IsProbed fernet make_url probe (
              marked fernet make_url probe c
                (if r.success then text "connected" else text "failed")
                t
                r.message)
      probed r h e = elim (Bool-cases r.success) [
        | inl s ↦
            let (parameters, typed, built, reached) =
              test_database_connection-success fernet make_url probe user cs c t r h s in
            (t, parameters, refl, typed, built, reached)
        | inr f ↦ absurd (failed-ne-connected (rw f at e))
      ]
  record_test-Change user cs c t (err unsupported_type) w i own h =
      changed c _ i refl refl own (λ d j e f. w.one_name d c j i e f)
        (λ e. absurd (failed-ne-connected e))
  record_test-Change user cs c t (err administrator_required) w i own h = unchanged
  record_test-Change user cs c t (err duplicate_name) w i own h = unchanged
  record_test-Change user cs c t (err not_found) w i own h = unchanged
  record_test-Change user cs c t (err name_is_null) w i own h = unchanged
  record_test-Change user cs c t (err not_null_violated) w i own h = unchanged
  record_test-Change user cs c t (err (secret_rejected e)) w i own h = unchanged
  record_test-Change user cs c t (err (details_rejected e)) w i own h = unchanged

  test-Change :
      (user : User) (cs : List DatabaseConnection) (id t : ℕ)
      → IsWellFormed fernet make_url probe cs
      → Change fernet make_url probe user cs
          (test_stored_database_connection fernet make_url probe cs user id t).0
  unfolding test_stored_database_connection
  test-Change user cs id t w =
      found
        (require_tenant_administrator user >> stored_connection fernet make_url probe cs user id)
        refl
    where
      found :
          (m : Result ServiceError DatabaseConnection)
          → (require_tenant_administrator user
              >> stored_connection fernet make_url probe cs user id)
            ≡ m
          → Change fernet make_url probe user cs (
              let outcome : List DatabaseConnection
                  × Result ServiceError (DatabaseConnection × ConnectionTestResult) =
                elim m [
                  | err e ↦ (cs, err e)
                  | ok c ↦
                      record_test fernet make_url probe cs c t
                        (test_database_connection fernet make_url probe c t)
                ] in
              outcome.0)
      found (err e) h = unchanged
      found (ok c) h =
          let (_, _, h₁) = >>=-eq-ok (require_tenant_administrator user) _ h in
          let (i, _, own) = stored_connection-tenant fernet make_url probe user cs id c h₁ in
          record_test-Change user cs c t _ w i own refl

  pub Step-Change :
      (user : User) (cs cs' : List DatabaseConnection)
      → IsWellFormed fernet make_url probe cs
      → Step fernet make_url probe user cs cs'
      → Change fernet make_url probe user cs cs'
  Step-Change user cs cs' w (created request new_id {c} fresh h) =
      create-Change fernet make_url probe user cs request new_id c cs' fresh h
  Step-Change user cs cs' w (updated id request {c} h) =
      update-Change fernet make_url probe user cs id request c cs' w h
  Step-Change user cs cs' w (removed id h) = remove-Change fernet make_url probe user cs id cs' h
  Step-Change user cs cs' w (tested id t) = test-Change user cs id t w
