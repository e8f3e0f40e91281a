-- ===== src/Tests/Logins.antt =====
-- A token that is created, decoded and used.
use multi_tenant_data_chat_p.Shared.{
  ◌≤◌, ◌<◌, ◌≡◌, ◌≢◌, Option, refl, false, none, some, List, [], ◌∷◌, ok, err, leb, nat_eq, arith,
  if◌then◌else◌,
}
use multi_tenant_data_chat_p.Authentication.Passwords.{
  PasswordContext, verify_password, matches_login, find_login, has_password, authenticate_user,
  MayLogin, authenticate_user-has_password,
}
use multi_tenant_data_chat_p.Shared.{true, In, ◌==◌, is_empty}
use multi_tenant_data_chat_p.Shared.Text.{Text, lower, lower_char, strip, lstrip, is_space}
use multi_tenant_data_chat_p.Shared.Text.{text, text_eq, same_text}
use multi_tenant_data_chat_p.Values.{Fields, end, field, str, int, pos, str_uuid}
use multi_tenant_data_chat_p.Models.{User}
use multi_tenant_data_chat_p.Authentication.{
  TokenType, access, TokenPayload, type_invalid, token_invalid, TokenLibrary, same_type,
  overrides_protected, create_token, is_unexpected, decode_token, Tenant, Account, is_active_in,
  find_active, get_current_user,
}
use multi_tenant_data_chat_p.Authentication.Tokens.{
  IsFaithful, IsAuthenticated, decode_token-create_token, get_current_user-IsAuthenticated,
}

-- Libraries that know one payload.
abbrev one_payload : TokenPayload
one_payload = record { sub = 1; tenant_id = 7; type = access; iat = 100; exp = 160 }

abbrev one_claims : Fields
one_claims = field (text "sub") (str (str_uuid 1)) (
    field (text "tenant_id") (str (str_uuid 7)) (
      field (text "type") (str (text "access"))
        (field (text "iat") (int (pos 100)) (field (text "exp") (int (pos 160)) end))))

abbrev one_token : TokenLibrary
one_token = record {
  encode = λ claims. text "token";
  decode = λ now token. if leb now 160 then some one_claims else none;
  validate = λ claims. some one_payload;
}

one_token-IsFaithful : IsFaithful one_token access 1 7 100 160
one_token-IsFaithful = record {
  nonempty = refl;
  decodes = λ now h. ground arith;
  expires = λ now h. ground arith;
  validates = refl;
}

created : create_token one_token 100 1 7 access 60 end ≡ ok (text "token")
unfolding create_token overrides_protected
created = refl

decode_token-create_token_example :
    (150 ≤ 160
      → (decode_token one_token 150 (text "token") none ≡ ok one_payload)
        × (decode_token one_token 150 (text "token") (some access) ≡ ok one_payload)
        × ((other : TokenType)
            → other ≢ access
            → decode_token one_token 150 (text "token") (some other) ≡ err type_invalid))
    × ((expected : Option TokenType)
        → 160 < 150
        → decode_token one_token 150 (text "token") expected ≡ err token_invalid)
decode_token-create_token_example =
    decode_token-create_token one_token 100 150 1 7 60 access (text "token") one_token-IsFaithful
      created

abbrev reader : User
reader = record { id = 1; tenant_id = 7; is_tenant_admin = false }

abbrev tenants : List Tenant
tenants = record { id = 7; code = text "shop"; status = text "active" } ∷ []

abbrev accounts : List Account
accounts =
    record { user = reader; email = text "a@b"; password_hash = none; status = text "active" } ∷ []

logged_in : get_current_user one_token 150 tenants accounts (text "token") ≡ ok reader
unfolding get_current_user decode_token is_unexpected same_type find_active is_active_in nat_eq
    text_eq same_text
logged_in = refl

get_current_user-IsAuthenticated_example :
    IsAuthenticated one_token 150 tenants accounts (text "token") reader
get_current_user-IsAuthenticated_example =
    get_current_user-IsAuthenticated one_token 150 tenants accounts (text "token") reader logged_in

-- A hash that is the password itself.
abbrev plain : PasswordContext
plain = record { hash = λ p. p; verify = λ p h. some (p == h) }

abbrev reader_account : Account
reader_account = record {
  user = reader;
  email = text "a@b";
  password_hash = some (text "pw");
  status = text "active";
}

verified_login :
    authenticate_user plain tenants (reader_account ∷ []) (text " Shop ") (text "A@b") (text "pw")
    ≡ ok reader
unfolding authenticate_user find_login matches_login has_password verify_password strip lstrip
    is_space lower lower_char nat_eq text_eq same_text
verified_login = refl

authenticate_user-has_password_example :
    (a : Account) × (hash : Text) × In a (reader_account ∷ [])
    × (a.user ≡ reader)
    × MayLogin plain tenants (lower (strip (text " Shop "))) (lower (strip (text "A@b"))) a
    × (a.password_hash ≡ some hash)
    × (is_empty (text "pw") ≡ false)
    × (plain.verify (text "pw") hash ≡ some true)
authenticate_user-has_password_example =
    authenticate_user-has_password plain tenants (reader_account ∷ []) (text " Shop ") (text "A@b")
      (text "pw") reader verified_login
