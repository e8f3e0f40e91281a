-- ===== src/Authentication.antt =====
-- core/security.py (tokens), services/auth_service.py and `get_current_user` of app/dependencies.py.
-- The hashing of passwords, the token library and the validation of claims are parameters.
pub mod Tokens
pub mod Passwords
use multi_tenant_data_chat_p.Shared.{
  ℕ, ◌+◌, ◌*◌, ◌&&◌, ◌||◌, Bool, true, false, not, Option, none, some, List, [], ◌∷◌, is_empty, any,
  contains, Result, ok, err, ◌>>=◌, ◌>>◌, raise_if, or_raise, ◌==◌, nat_eq, if◌then◌else◌,
}
use multi_tenant_data_chat_p.Shared.Text.{Text, text, text_eq, strip, lower}
use multi_tenant_data_chat_p.Values.{Fields, end, field, put_field, str, int, pos, str_uuid}
use multi_tenant_data_chat_p.Models.{User}

pub data TokenType : Type 0 where
  access refresh : TokenType

-- Times are seconds.
pub record TokenPayload : Type 0 where
  pub sub : ℕ
  pub tenant_id : ℕ
  pub type : TokenType
  pub iat : ℕ
  pub exp : ℕ

-- The messages of `InvalidTokenError`, and the `ValueError` on protected claims.
pub data TokenError : Type 0 where
  token_required token_invalid type_invalid claims_protected : TokenError

-- `jwt.encode` and `jwt.decode` with the key and the algorithm of the settings, and the validation
-- of claims by pydantic; `none` is an exception.
pub record TokenLibrary : Type 0 where
  pub encode : Fields → Text
  pub decode : ℕ → Text → Option Fields
  pub validate : Fields → Option TokenPayload

unfoldable pub type_value : TokenType → Text
type_value access = text "access"
type_value refresh = text "refresh"

unfoldable pub same_type : TokenType → TokenType → Bool
same_type access access = true
same_type refresh refresh = true
same_type _ _ = false

-- The payload without additional claims.
unfoldable pub claims_of : TokenPayload → Fields
unfolding type_value
claims_of p = field (text "sub") (str (str_uuid p.sub)) (
    field (text "tenant_id") (str (str_uuid p.tenant_id)) (
      field (text "type") (str (type_value p.type))
        (field (text "iat") (int (pos p.iat)) (field (text "exp") (int (pos p.exp)) end))))

abbrev pub protected_claims : List Text
protected_claims = text "sub" ∷ text "tenant_id" ∷ text "type" ∷ text "iat" ∷ text "exp" ∷ []

-- Some key of the additional claims is protected.
unfoldable pub overrides_protected : Fields → Bool
unfolding text_eq
overrides_protected end = false
overrides_protected (field k v fs) = contains protected_claims k || overrides_protected fs

-- `payload.update(additional_claims)`
unfoldable pub update_claims : Fields → Fields → Fields
unfolding put_field
update_claims payload end = payload
update_claims payload (field k v fs) = update_claims (put_field payload k v) fs

module _ (lib : TokenLibrary) where
  -- `now` is the clock. Empty additional claims are as none.
  unfoldable pub create_token : ℕ → ℕ → ℕ → TokenType → ℕ → Fields → Result TokenError Text
  unfolding claims_of overrides_protected update_claims
  create_token now user_id tenant_id token_type expires_delta additional_claims = do
    raise_if (overrides_protected additional_claims) claims_protected
    ok (
        lib.encode (
          update_claims
            (claims_of (record {
              sub = user_id;
              tenant_id = tenant_id;
              type = token_type;
              iat = now;
              exp = now + expires_delta;
            }))
            additional_claims))

  -- The lifetimes are settings, in minutes and in days.
  unfoldable pub create_access_token : ℕ → ℕ → ℕ → ℕ → Result TokenError Text
  unfolding create_token
  create_access_token now minutes user_id tenant_id =
      create_token now user_id tenant_id access (minutes * 60) end

  unfoldable pub create_refresh_token : ℕ → ℕ → ℕ → ℕ → Result TokenError Text
  unfolding create_token
  create_refresh_token now days user_id tenant_id =
      create_token now user_id tenant_id refresh (days * 86400) end

  unfoldable pub is_unexpected : Option TokenType → TokenType → Bool
  unfolding same_type
  is_unexpected none t = false
  is_unexpected (some expected) t = not (same_type t expected)

  unfoldable pub decode_token : ℕ → Text → Option TokenType → Result TokenError TokenPayload
  unfolding is_unexpected
  decode_token now token expected_type = do
    raise_if (is_empty token) token_required
    claims ← or_raise (lib.decode now token) token_invalid
    payload ← or_raise (lib.validate claims) token_invalid
    raise_if (is_unexpected expected_type payload.type) type_invalid
    ok payload

-- models/tenant.py and models/user.py, with the columns that authentication reads.
pub record Tenant : Type 0 where
  pub id : ℕ
  pub code : Text
  pub status : Text

pub record Account : Type 0 where
  pub user : User
  pub email : Text
  pub password_hash : Option Text
  pub status : Text

-- `User.status == "active"` and the join with an active tenant.
unfoldable pub is_active_in : List Tenant → Account → Bool
unfolding text_eq nat_eq
is_active_in tenants a =
    a.status == text "active"
    && any (λ (t : Tenant). t.id == a.user.tenant_id && t.status == text "active") tenants

unfoldable pub find_active : List Tenant → List Account → ℕ → ℕ → Option User
unfolding is_active_in nat_eq
find_active tenants [] user_id tenant_id = none
find_active tenants (a ∷ accounts) user_id tenant_id =
    let rest = find_active tenants accounts user_id tenant_id in
    if (a.user.id == user_id && a.user.tenant_id == tenant_id) && is_active_in tenants a
    then some a.user
    else rest

-- Both are answered with status 401.
pub data AuthenticationError : Type 0 where
  bad_token : TokenError → AuthenticationError
  user_unavailable : AuthenticationError

module _ (lib : TokenLibrary) where
  unfoldable pub get_current_user :
      ℕ → List Tenant → List Account → Text → Result AuthenticationError User
  unfolding decode_token find_active
  get_current_user now tenants accounts token = elim (decode_token lib now token (some access)) [
    | err e ↦ err (bad_token e)
    | ok payload ↦
        or_raise (find_active tenants accounts payload.sub payload.tenant_id) user_unavailable
  ]
