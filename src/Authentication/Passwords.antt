-- ===== src/Authentication/Passwords.antt =====
-- The passwords of core/security.py, and `authenticate_user` of services/auth_service.py. The hash
-- function is a parameter: `verify` is `none` where it raises.
use multi_tenant_data_chat_p.Shared.{
  ◌≡◌, refl, sym, ap, ◌∙◌, Bool, true, false, ◌&&◌, ◌||◌, Option, none, some, some_inj, List, [],
  ◌∷◌, In, here, there, inl, inr, Bool-cases, is_empty, any, Result, ok, err, ok_inj, ◌==◌, nat_eq,
  or_default, ==_iff, &&-true, any-true, if◌then◌else◌,
}
use multi_tenant_data_chat_p.Shared.Text.{Text, text, text_eq, strip, lower}
use multi_tenant_data_chat_p.Models.{User}
use multi_tenant_data_chat_p.Authentication.{Tenant, Account}

pub record PasswordContext : Type 0 where
  pub hash : Text → Text
  pub verify : Text → Text → Option Bool

-- The `ValueError` of `hash_password`.
pub data PasswordError : Type 0 where
  password_empty : PasswordError

pub data CredentialsError : Type 0 where
  invalid_credentials : CredentialsError

module _ (context : PasswordContext) where
  unfoldable pub hash_password : Text → Result PasswordError Text
  hash_password password =
      if is_empty password then err password_empty else ok (context.hash password)

  unfoldable pub verify_password : Text → Text → Bool
  verify_password plain_password password_hash =
      if is_empty plain_password || is_empty password_hash
      then false
      else or_default (context.verify plain_password password_hash) false

  -- The account of an active tenant of that code, active and of that address.
  unfoldable pub matches_login : List Tenant → Text → Text → Account → Bool
  unfolding nat_eq text_eq
  matches_login tenants code email a =
      any
        (λ (t : Tenant). t.id == a.user.tenant_id && (t.code == code && t.status == text "active"))
        tenants
      && (a.email == email && a.status == text "active")

  unfoldable pub find_login : List Tenant → List Account → Text → Text → Option Account
  unfolding matches_login
  find_login tenants [] code email = none
  find_login tenants (a ∷ accounts) code email =
      let rest = find_login tenants accounts code email in
      if matches_login tenants code email a then some a else rest

  -- `user.password_hash is None or not verify_password(…)`
  unfoldable pub has_password : Account → Text → Bool
  unfolding verify_password
  has_password a password = elim a.password_hash [
    | none ↦ false
    | some hash ↦ verify_password password hash
  ]

  unfoldable pub authenticate_user :
      List Tenant → List Account → Text → Text → Text → Result CredentialsError User
  unfolding find_login has_password
  authenticate_user tenants accounts tenant_code email password =
      elim (find_login tenants accounts (lower (strip tenant_code)) (lower (strip email))) [
        | none ↦ err invalid_credentials
        | some a ↦ if has_password a password then ok a.user else err invalid_credentials
      ]

  -- An active account of that address, whose tenant has that code and is active.
  abbrev pub MayLogin : List Tenant → Text → Text → Account → Type 0
  MayLogin tenants code email a =
      (a.email ≡ email)
      × (a.status ≡ text "active")
      × (t : Tenant) × In t tenants
      × (t.id ≡ a.user.tenant_id)
      × (t.code ≡ code)
      × (t.status ≡ text "active")

  matches_login-MayLogin :
      (tenants : List Tenant) (code email : Text) (a : Account)
      → matches_login tenants code email a ≡ true
      → MayLogin tenants code email a
  unfolding matches_login
  matches_login-MayLogin tenants code email a h =
      let (found, own) = &&-true h in
      let (address, status) = &&-true own in
      let (t, i, q) =
        any-true
          (λ (t : Tenant).
            t.id == a.user.tenant_id && (t.code == code && t.status == text "active"))
          tenants found in
      let (id, rest) = &&-true q in
      let (same_code, active) = &&-true rest in
      (
        (==_iff a.email email).0 address,
        (==_iff a.status (text "active")).0 status,
        t,
        i,
        (==_iff t.id a.user.tenant_id).0 id,
        (==_iff t.code code).0 same_code,
        (==_iff t.status (text "active")).0 active,
      )

  find_login-In :
      (tenants : List Tenant) (accounts : List Account) (code email : Text) (a : Account)
      → find_login tenants accounts code email ≡ some a
      → In a accounts × (matches_login tenants code email a ≡ true)
  unfolding find_login
  find_login-In tenants [] code email a h = cc
  find_login-In tenants (b ∷ accounts) code email a h =
      elim (Bool-cases (matches_login tenants code email b)) [
        | inl this ↦
            let same : b ≡ a = some_inj (rw this at h) in
            (here (sym same), ap (matches_login tenants code email) (sym same) ∙ this)
        | inr other ↦
            let (i, m) = find_login-In tenants accounts code email a (rw other at h) in (there i, m)
      ]

  verify_password-true :
      (password hash : Text)
      → verify_password password hash ≡ true
      → (is_empty password ≡ false) × (context.verify password hash ≡ some true)
  unfolding verify_password
  verify_password-true [] hash h = cc
  verify_password-true (c ∷ s) [] h = cc
  verify_password-true (c ∷ s) (d ∷ t) h = (refl, verified (context.verify (c ∷ s) (d ∷ t)) h)
    where
      verified : (o : Option Bool) → or_default o false ≡ true → o ≡ some true
      verified none e = cc
      verified (some true) e = refl
      verified (some false) e = cc

  -- A user who is authenticated has an account that is active, of an active tenant with the
  -- normalized code and with the normalized address, and the password, which is not empty, was
  -- verified against the hash of that account.
  pub authenticate_user-has_password :
      (tenants : List Tenant) (accounts : List Account) (tenant_code email password : Text)
      (u : User)
      → authenticate_user tenants accounts tenant_code email password ≡ ok u
      → (a : Account) × (hash : Text) × In a accounts
        × (a.user ≡ u)
        × MayLogin tenants (lower (strip tenant_code)) (lower (strip email)) a
        × (a.password_hash ≡ some hash)
        × (is_empty password ≡ false)
        × (context.verify password hash ≡ some true)
  unfolding authenticate_user
  authenticate_user-has_password tenants accounts tenant_code email password u h =
      from_login (find_login tenants accounts (lower (strip tenant_code)) (lower (strip email)))
        refl h
    where
      code : Text
      code = lower (strip tenant_code)

      address : Text
      address = lower (strip email)

      from_login :
          (o : Option Account)
          → find_login tenants accounts code address ≡ o
          → ◌≡◌ {A = Result CredentialsError User}
              (elim o [
                | none ↦ err invalid_credentials
                | some a ↦ if has_password a password then ok a.user else err invalid_credentials
              ])
              (ok u)
          → (a : Account) × (hash : Text) × In a accounts
            × (a.user ≡ u)
            × MayLogin tenants code address a
            × (a.password_hash ≡ some hash)
            × (is_empty password ≡ false)
            × (context.verify password hash ≡ some true)
      from_login none q h = cc
      from_login (some a) q h = elim (Bool-cases (has_password a password)) [
        | inr wrong ↦ absurd (cc (rw wrong at h))
        | inl right ↦
            let (i, m) = find_login-In tenants accounts code address a q in
            let (hash, e, nonempty, verified) =
              hashed a.password_hash refl (unfold has_password in right) in
            (
              a,
              hash,
              i,
              ok_inj (rw right at h),
              matches_login-MayLogin tenants code address a m,
              e,
              nonempty,
              verified,
            )
      ]
        where
          hashed :
              (o : Option Text)
              → a.password_hash ≡ o
              → elim o [ none ↦ false | some hash ↦ verify_password password hash ] ≡ true
              → (hash : Text) × (a.password_hash ≡ some hash)
                × (is_empty password ≡ false)
                × (context.verify password hash ≡ some true)
          hashed none e r = cc
          hashed (some hash) e r =
              let (nonempty, verified) = verify_password-true password hash r in
              (hash, e, nonempty, verified)
