-- ===== src/Repo/Keys.antt =====
-- The identity keys and signed prekeys of internal/infrastructure/persistence/postgres/e2ee. A row whose key has not
-- the length of its type is an error of the mappers. The tables have the unique columns of
-- dev-doc/sql/postgres_e2ee.sql.
use tentserv_chat_server.Prelude.{
  ℕ, ◌+◌, Bool, false, ◌&&◌, [], ◌∷◌, ◌++◌, if◌then◌else◌, ◌==◌, select, update, any, length,
}
use tentserv_chat_server.Rows.{IdentityKey, SignedPreKey}
use tentserv_chat_server.Db.{
  State, DbError, duplicate_key, failed, ok, err, M, pure, ◌>>=◌, ◌>>◌, require, statement,
  scan_one, exec,
}

abbrev pub of_device : ℕ → ℕ → IdentityKey → Bool
of_device u d k = k.user_id == u && k.device_id == d

-- toIdentityKeyDomain
abbrev pub is_identity_key : IdentityKey → Bool
is_identity_key k = length k.public_key == 32 && length k.sign_public_key == 32

-- FindByUserAndDevice
unfoldable pub find_by_user_and_device : ℕ → ℕ → M DbError IdentityKey
find_by_user_and_device u d = do
  k ← scan_one (λ t. select (of_device u d) t.identity_keys)
  require (is_identity_key k) failed
  pure k

-- Upsert
abbrev pub renewed : IdentityKey → ℕ → IdentityKey → IdentityKey
renewed k now old = record old {
  public_key = k.public_key;
  sign_public_key = k.sign_public_key;
  fingerprint = k.fingerprint;
  uploaded_at = now;
}

unfoldable pub upsert_identity : IdentityKey → M DbError Unit
upsert_identity k = statement λ n s.
    if any (of_device k.user_id k.device_id) s.tables.identity_keys
    then ok (
      tt,
      record s {
        tables = record s.tables {
          identity_keys =
              update (of_device k.user_id k.device_id) (renewed k s.now) s.tables.identity_keys;
        };
      },
    )
    else ok (
      tt,
      record s {
        tables = record s.tables {
          identity_keys =
              s.tables.identity_keys
              ++ record k { id = s.next.identity_key; uploaded_at = s.now } ∷ [];
        };
        next = record s.next { identity_key = s.next.identity_key + 1 };
      },
    )

abbrev pub is_of : ℕ → ℕ → SignedPreKey → Bool
is_of u d k = k.user_id == u && k.device_id == d

abbrev pub is_active_of : ℕ → ℕ → SignedPreKey → Bool
is_active_of u d k = if is_of u d k then k.is_active else false

abbrev pub has_key_id : ℕ → ℕ → ℕ → SignedPreKey → Bool
has_key_id u d n k = if is_of u d k then k.key_id == n else false

-- toSignedPreKeyDomain
abbrev pub is_signed_prekey : SignedPreKey → Bool
is_signed_prekey k = length k.public_key == 32 && length k.signature == 64

-- FindActive
unfoldable pub find_active : ℕ → ℕ → M DbError SignedPreKey
find_active u d = do
  k ← scan_one (λ t. select (is_active_of u d) t.signed_prekeys)
  require (is_signed_prekey k) failed
  pure k

-- FindByKeyID
unfoldable pub find_by_key_id : ℕ → ℕ → ℕ → M DbError SignedPreKey
find_by_key_id u d n = do
  k ← scan_one (λ t. select (has_key_id u d n) t.signed_prekeys)
  require (is_signed_prekey k) failed
  pure k

-- Add: (user_id, device_id, key_id) is unique
abbrev pub stored_prekey : SignedPreKey → State → SignedPreKey
stored_prekey k s = record k { id = s.next.signed_prekey; created_at = s.now }

unfoldable pub add_signed_prekey : SignedPreKey → M DbError Unit
add_signed_prekey k = statement λ n s.
    if any (has_key_id k.user_id k.device_id k.key_id) s.tables.signed_prekeys
    then err duplicate_key
    else ok (
      tt,
      record s {
        tables = record s.tables {
          signed_prekeys = s.tables.signed_prekeys ++ stored_prekey k s ∷ [];
        };
        next = record s.next { signed_prekey = s.next.signed_prekey + 1 };
      },
    )

abbrev pub deactivated : SignedPreKey → SignedPreKey
deactivated k = record k { is_active = false }

-- DeactivateAll
unfoldable pub deactivate_all : ℕ → ℕ → M DbError Unit
deactivate_all u d =
    exec (λ now t. record t {
      signed_prekeys = update (is_active_of u d) deactivated t.signed_prekeys;
    })
