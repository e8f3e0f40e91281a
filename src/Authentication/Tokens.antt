-- ===== src/Authentication/Tokens.antt =====
-- What a token that was created is worth.
use multi_tenant_data_chat_p.Shared.{
  ℕ, ◌≢◌, ◌⊎◌, ◌+◌, ◌≤◌, ◌<◌, ◌≡◌, refl, sym, ap, ◌∙◌, ◌&&◌, Bool, true, false, not, Option, none,
  some, some_inj, List, [], ◌∷◌, In, here, there, inl, inr, is_empty, Result, ok, err, ok_inj, ◌>>◌,
  >>=-eq-ok, raise_if, raise_if-then, or_raise, or_raise-eq-ok, ◌==◌, ==_iff, nat_eq, Bool-cases,
  &&-true, any-true, if◌then◌else◌,
}
use multi_tenant_data_chat_p.Shared.Text.{Text, text, text_eq}
use multi_tenant_data_chat_p.Values.{Fields, end, field, str, int, pos, str_uuid}
use multi_tenant_data_chat_p.Models.{User}
use multi_tenant_data_chat_p.Authentication.{
  TokenType, access, refresh, TokenPayload, TokenError, token_invalid, type_invalid, TokenLibrary,
  type_value, claims_of, same_type, overrides_protected, update_claims, create_token, is_unexpected,
  decode_token, Tenant, Account, is_active_in, find_active, AuthenticationError, bad_token,
  user_unavailable, get_current_user,
}

module _ (lib : TokenLibrary) where
  -- The claims of a token, as RFC 7519 and the names of the payload's fields have them.
  abbrev pub claims_for : Text → ℕ → ℕ → ℕ → ℕ → Fields
  claims_for type_text user_id tenant_id issued expiry =
      field (text "sub") (str (str_uuid user_id)) (
        field (text "tenant_id") (str (str_uuid tenant_id)) (
          field (text "type") (str type_text)
            (field (text "iat") (int (pos issued)) (field (text "exp") (int (pos expiry)) end))))

  -- The texts of the two types.
  abbrev pub text_of : TokenType → Text
  text_of access = text "access"
  text_of refresh = text "refresh"

  -- What the libraries promise of these claims: their token is not empty, decodes to them until the
  -- time of `exp` and not after, and they validate to the payload with each field's value.
  pub record IsFaithful (type : TokenType) (user_id tenant_id issued expiry : ℕ) : Type 0 where
    pub nonempty :
        is_empty (lib.encode (claims_for (text_of type) user_id tenant_id issued expiry)) ≡ false
    pub decodes :
        (now : ℕ)
        → now ≤ expiry
        → lib.decode now (lib.encode (claims_for (text_of type) user_id tenant_id issued expiry))
          ≡ some (claims_for (text_of type) user_id tenant_id issued expiry)
    pub expires :
        (now : ℕ)
        → expiry < now
        → lib.decode now (lib.encode (claims_for (text_of type) user_id tenant_id issued expiry))
          ≡ none
    pub validates :
        lib.validate (claims_for (text_of type) user_id tenant_id issued expiry)
        ≡ some (record {
          sub = user_id;
          tenant_id = tenant_id;
          type = type;
          iat = issued;
          exp = expiry;
        })

  abbrev pub payload_of : ℕ → ℕ → ℕ → ℕ → TokenType → TokenPayload
  payload_of created user_id tenant_id expires_delta token_type = record {
    sub = user_id;
    tenant_id = tenant_id;
    type = token_type;
    iat = created;
    exp = created + expires_delta;
  }

  -- What a type that may be expected says of a token's type.
  same_type_iff :
      (s t : TokenType) → ((same_type s t ≡ true) × (s ≡ t)) ⊎ ((same_type s t ≡ false) × (s ≢ t))
  unfolding same_type
  same_type_iff access access = inl (refl, refl)
  same_type_iff refresh refresh = inl (refl, refl)
  same_type_iff access refresh = inr (refl, λ e. cc)
  same_type_iff refresh access = inr (refl, λ e. cc)

  -- A token of these claims, decoded before it expires.
  decoded :
      (now : ℕ) (claims : Fields) (payload : TokenPayload) (expected : Option TokenType)
      → is_empty (lib.encode claims) ≡ false
      → lib.decode now (lib.encode claims) ≡ some claims
      → lib.validate claims ≡ some payload
      → decode_token lib now (lib.encode claims) expected
        ≡ (raise_if (is_unexpected lib expected payload.type) type_invalid >> ok payload)
  unfolding decode_token
  decoded now claims payload expected nonempty decodes validates =
      rw (nonempty, decodes, validates) refl

  refused :
      (now : ℕ) (claims : Fields) (expected : Option TokenType)
      → lib.decode now (lib.encode claims) ≡ none
      → is_empty (lib.encode claims) ≡ false
      → decode_token lib now (lib.encode claims) expected ≡ err token_invalid
  unfolding decode_token
  refused now claims expected e nonempty = rw (nonempty, e) refl

  create_token-claims :
      (created user_id tenant_id expires_delta : ℕ) (token_type : TokenType) (token : Text)
      → create_token lib created user_id tenant_id token_type expires_delta end ≡ ok token
      → token
        ≡ lib.encode
            (claims_for (text_of token_type) user_id tenant_id created (created + expires_delta))
  unfolding create_token overrides_protected update_claims claims_of type_value
  create_token-claims created user_id tenant_id expires_delta access token h = sym (ok_inj h)
  create_token-claims created user_id tenant_id expires_delta refresh token h = sym (ok_inj h)

  -- A token created without additional claims decodes, until it expires, to the user, the tenant,
  -- the type and the times that it was created with, if no type or that type is expected; where the
  -- other type is expected it is refused as of the wrong type, and after its expiry as invalid. It is
  -- assumed that the libraries encode, decode until `exp`, and validate the five claims `sub`,
  -- `tenant_id`, `type`, `iat` and `exp` with these values.
  pub decode_token-create_token :
      (created now user_id tenant_id expires_delta : ℕ) (token_type : TokenType) (token : Text)
      → IsFaithful token_type user_id tenant_id created (created + expires_delta)
      → create_token lib created user_id tenant_id token_type expires_delta end ≡ ok token
      → (now ≤ created + expires_delta
          → (decode_token lib now token none
              ≡ ok (payload_of created user_id tenant_id expires_delta token_type))
            × (decode_token lib now token (some token_type)
                ≡ ok (payload_of created user_id tenant_id expires_delta token_type))
            × ((other : TokenType)
                → other ≢ token_type
                → decode_token lib now token (some other) ≡ err type_invalid))
        × ((expected : Option TokenType)
            → created + expires_delta < now
            → decode_token lib now token expected ≡ err token_invalid)
  unfolding is_unexpected
  decode_token-create_token created now user_id tenant_id expires_delta token_type token faithful
        h =
      let claims =
        claims_for (text_of token_type) user_id tenant_id created (created + expires_delta) in
      let payload = payload_of created user_id tenant_id expires_delta token_type in
      rw (create_token-claims created user_id tenant_id expires_delta token_type token h) (
        λ early.
            let read = λ (expected : Option TokenType).
              decoded now claims payload expected faithful.nonempty (faithful.decodes now early)
                faithful.validates in
            (
              read none,
              elim (same_type_iff token_type token_type) [
                | inl (e, _) ↦ read (some token_type) ∙ checked payload token_type true e
                | inr (_, differ) ↦ absurd (differ refl)
              ],
              λ other differ. elim (same_type_iff token_type other) [
                | inl (_, same) ↦ absurd (differ (sym same))
                | inr (e, _) ↦ read (some other) ∙ checked payload other false e
              ],
            ),
        λ expected late. refused now claims expected (faithful.expires now late) faithful.nonempty,
      )
    where
      checked :
          (payload : TokenPayload) (other : TokenType) (b : Bool)
          → same_type payload.type other ≡ b
          → ◌≡◌ {A = Result TokenError TokenPayload}
              (raise_if (not (same_type payload.type other)) type_invalid >> ok payload)
              (if b then ok payload else err type_invalid)
      checked payload other true e = rw e refl
      checked payload other false e = rw e refl

  -- An active account whose tenant, with the same id, is stored and active.
  abbrev pub IsActive : List Tenant → Account → Type 0
  IsActive tenants a =
      (a.status ≡ text "active")
      × (t : Tenant) × In t tenants
      × (t.id ≡ a.user.tenant_id)
      × (t.status ≡ text "active")

  is_active_in-IsActive :
      (tenants : List Tenant) (a : Account) → is_active_in tenants a ≡ true → IsActive tenants a
  unfolding is_active_in
  is_active_in-IsActive tenants a h =
      let (status, found) = &&-true h in
      let (t, i, q) =
        any-true (λ (t : Tenant). t.id == a.user.tenant_id && t.status == text "active") tenants
          found in
      let (id, active) = &&-true q in
      (
        (==_iff a.status (text "active")).0 status,
        t,
        i,
        (==_iff t.id a.user.tenant_id).0 id,
        (==_iff t.status (text "active")).0 active,
      )

  find_active-IsActive :
      (tenants : List Tenant) (accounts : List Account) (user_id tenant_id : ℕ) (u : User)
      → find_active tenants accounts user_id tenant_id ≡ some u
      → (a : Account) × In a accounts
        × (a.user ≡ u)
        × (u.id ≡ user_id)
        × (u.tenant_id ≡ tenant_id)
        × IsActive tenants a
  unfolding find_active is_active_in
  find_active-IsActive tenants [] user_id tenant_id u h = cc
  find_active-IsActive tenants (a ∷ accounts) user_id tenant_id u h =
      elim (Bool-cases
        ((a.user.id == user_id && a.user.tenant_id == tenant_id) && is_active_in tenants a)) [
          | inl this ↦
              let (ids, active) = &&-true this in
              let (id, tenant) = &&-true ids in
              let same : a.user ≡ u = some_inj (rw this at h) in
              (
                a,
                here refl,
                same,
                sym (ap (λ (x : User). x.id) same) ∙ (==_iff a.user.id user_id).0 id,
                sym (ap (λ (x : User). x.tenant_id) same)
                    ∙ (==_iff a.user.tenant_id tenant_id).0 tenant,
                is_active_in-IsActive tenants a active,
              )
          | inr other ↦
              let (b, i, p, q, r, active) =
                find_active-IsActive tenants accounts user_id tenant_id u (rw other at h) in
              (b, there i, p, q, r, active)
        ]

  -- Who is authenticated: the user of an access token that decodes, with the id and the tenant of
  -- the token, from an active account of an active tenant.
  pub record IsAuthenticated (now : ℕ) (tenants : List Tenant) (accounts : List Account)
      (token : Text) (u : User) : Type 0 where
    pub payload : TokenPayload
    pub decoded : decode_token lib now token (some access) ≡ ok payload
    pub is_access : payload.type ≡ access
    pub same_user : u.id ≡ payload.sub
    pub same_tenant : u.tenant_id ≡ payload.tenant_id
    pub account : Account
    pub stored : In account accounts
    pub of_account : account.user ≡ u
    pub active : IsActive tenants account

  decode_token-type :
      (now : ℕ) (token : Text) (p : TokenPayload)
      → decode_token lib now token (some access) ≡ ok p
      → p.type ≡ access
  unfolding decode_token is_unexpected same_type
  decode_token-type now token p h =
      let (_, h₁) = raise_if-then (is_empty token) _ _ h in
      let (claims, _, h₂) = >>=-eq-ok (or_raise (lib.decode now token) token_invalid) _ h₁ in
      let (q, _, h₃) = >>=-eq-ok (or_raise (lib.validate claims) token_invalid) _ h₂ in
      let (typed, done) = raise_if-then (not (same_type q.type access)) _ _ h₃ in
      rw (← ok_inj done) (is_access q.type typed)
    where
      is_access : (t : TokenType) → not (same_type t access) ≡ false → t ≡ access
      is_access access e = refl
      is_access refresh e = cc

  -- A user whom `get_current_user` returns is the one whom a token names that decodes and is an access
  -- token, with the tenant that the token names, from a stored account whose status is `active`; the
  -- tenant of the user is stored too and its status is `active`.
  pub get_current_user-IsAuthenticated :
      (now : ℕ) (tenants : List Tenant) (accounts : List Account) (token : Text) (u : User)
      → get_current_user lib now tenants accounts token ≡ ok u
      → IsAuthenticated now tenants accounts token u
  unfolding get_current_user
  get_current_user-IsAuthenticated now tenants accounts token u h =
      from_decoded (decode_token lib now token (some access)) refl h
    where
      from_decoded :
          (m : Result TokenError TokenPayload)
          → decode_token lib now token (some access) ≡ m
          → ◌≡◌ {A = Result AuthenticationError User}
              (elim m [
                | err e ↦ err (bad_token e)
                | ok payload ↦
                    or_raise
                      (find_active tenants accounts payload.sub payload.tenant_id)
                      user_unavailable
              ])
              (ok u)
          → IsAuthenticated now tenants accounts token u
      from_decoded (err e) q h = cc
      from_decoded (ok p) q h =
          let (a, i, same, id, tenant, active) =
            find_active-IsActive tenants accounts p.sub p.tenant_id u
              (or_raise-eq-ok (find_active tenants accounts p.sub p.tenant_id) _ h) in
          record {
            payload = p;
            decoded = q;
            is_access = decode_token-type now token p q;
            same_user = id;
            same_tenant = tenant;
            account = a;
            stored = i;
            of_account = same;
            active = active;
          }
