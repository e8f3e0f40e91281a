-- ===== src/Encryption.antt =====
-- core/encryption.py: the secrets of connections. Fernet is a parameter; `none` is an exception
-- that it raises.
use multi_tenant_data_chat_p.Shared.{
  ◌≡◌, refl, false, Option, some, is_empty, Result, ok, ◌>>◌, raise_if, raise_if-then, or_raise,
  or_raise-eq-ok,
}
use multi_tenant_data_chat_p.Shared.Text.{Text}

pub record Fernet : Type 0 where
  pub encrypt : Text → Option Text
  pub decrypt : Text → Option Text

-- The messages of `EncryptionError`.
pub data EncryptionError : Type 0 where
  secret_empty not_encrypted encrypted_empty not_decrypted : EncryptionError

module _ (fernet : Fernet) where
  unfoldable pub encrypt_secret : Text → Result EncryptionError Text
  encrypt_secret value = do
    raise_if (is_empty value) secret_empty
    or_raise (fernet.encrypt value) not_encrypted

  unfoldable pub decrypt_secret : Text → Result EncryptionError Text
  decrypt_secret encrypted_value = do
    raise_if (is_empty encrypted_value) encrypted_empty
    or_raise (fernet.decrypt encrypted_value) not_decrypted

  -- What Fernet promises: a token is not empty and decrypts to what was encrypted.
  abbrev pub IsInverse : Type 0
  IsInverse =
      (value token : Text)
      → fernet.encrypt value ≡ some token
      → (is_empty token ≡ false) × (fernet.decrypt token ≡ some value)

  -- The token of a secret is not empty, and decrypts to it.
  pub decrypt_secret-encrypt_secret :
      IsInverse
      → (value token : Text) → encrypt_secret value ≡ ok token
      → (is_empty token ≡ false) × (decrypt_secret token ≡ ok value)
  unfolding encrypt_secret decrypt_secret
  decrypt_secret-encrypt_secret inverse value token h =
      let (_, h₁) = raise_if-then (is_empty value) _ _ h in
      let (nonempty, back) = inverse value token (or_raise-eq-ok (fernet.encrypt value) _ h₁) in
      (nonempty, rw (nonempty, back) refl)
