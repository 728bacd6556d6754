-- ===== src/E2ee/Prekeys.antt =====
-- upload_identity_key.go and upload_signed_prekey.go
use tentserv_chat_server.Prelude.{ℕ, true, none, List, length, ◌==◌}
use tentserv_chat_server.Rows.{SignedPreKey}
use tentserv_chat_server.Db.{M, pure, ◌>>=◌, ◌>>◌, require, map_err}
use tentserv_chat_server.Repo.Keys
use tentserv_chat_server.E2ee.{
  Crypto, E2eeError, invalid_signature, identity_not_found, invalid_device, database, given,
}

pub record UploadIdentityKeyInput : Type 0 where
  pub device_id : List ℕ
  pub public_key : List ℕ
  pub sign_public_key : List ℕ

pub record UploadSignedPreKeyInput : Type 0 where
  pub device_id : List ℕ
  pub key_id : ℕ
  pub public_key : List ℕ
  pub signature : List ℕ

abbrev pub new_prekey : ℕ → ℕ → ℕ → List ℕ → List ℕ → SignedPreKey
new_prekey user device n public signature = record {
  id = 0;
  user_id = user;
  device_id = device;
  key_id = n;
  public_key = public;
  signature = signature;
  is_active = true;
  created_at = 0;
  expires_at = none;
}

module _ (crypto : Crypto) where
  -- a decoded key of a length
  unfoldable pub decoded : ℕ → List ℕ → M E2eeError (List ℕ)
  unfolding given
  decoded n text = do
    bytes ← given (crypto.decode text) invalid_signature
    require (length bytes == n) invalid_signature
    pure bytes

  -- UploadIdentityKeyUseCase.Execute; the caller's user id comes first
  unfoldable pub upload_identity_key : ℕ → UploadIdentityKeyInput → M E2eeError (List ℕ)
  unfolding decoded given Keys.upsert_identity
  upload_identity_key user input = do
    public ← decoded 32 input.public_key
    sign_public ← decoded 32 input.sign_public_key
    device ← given (crypto.parse_device input.device_id) invalid_device
    map_err (λ _. database)
        (Keys.upsert_identity (record {
          id = 0;
          user_id = user;
          device_id = device;
          public_key = public;
          sign_public_key = sign_public;
          fingerprint = crypto.fingerprint_key public;
          uploaded_at = 0;
        }))
    pure (crypto.fingerprint_key public)

  -- UploadSignedPreKeyUseCase.Execute
  unfoldable pub upload_signed_prekey : ℕ → UploadSignedPreKeyInput → M E2eeError Unit
  unfolding decoded given Keys.find_by_user_and_device Keys.deactivate_all Keys.add_signed_prekey
  upload_signed_prekey user input = do
    device ← given (crypto.parse_device input.device_id) invalid_device
    public ← decoded 32 input.public_key
    signature ← decoded 64 input.signature
    identity ← map_err (λ _. identity_not_found) (Keys.find_by_user_and_device user device)
    require (crypto.verify_signed_prekey identity.sign_public_key public signature)
        invalid_signature
    map_err (λ _. database) (Keys.deactivate_all user device)
    map_err (λ _. database)
        (Keys.add_signed_prekey (new_prekey user device input.key_id public signature))
