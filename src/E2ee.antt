-- ===== src/E2ee.antt =====
-- End-to-end encryption: internal/application/e2ee/usecase. Texts and keys are their bytes. A goroutine
-- that a use case starts runs at its end here.
pub mod Prekeys
pub mod SenderKeys
pub mod Active
pub mod Rekey
pub mod Fetched
use tentserv_chat_server.Prelude.{ℕ, Bool, Option, none, some, List}
use tentserv_chat_server.Db.{M, pure, raise}

-- Code from elsewhere: base64, uuid.Parse, and the KeyVerifier over Ed25519 and SHA-256.
pub record Crypto : Type 0 where
  pub decode : List ℕ → Option (List ℕ)
  pub encode : List ℕ → List ℕ
  pub parse_device : List ℕ → Option ℕ
  pub verify_signed_prekey : List ℕ → List ℕ → List ℕ → Bool
  pub fingerprint_key : List ℕ → List ℕ

-- ErrInvalidSignature, ErrIdentityNotFound, ErrNotRoomMember, an unreadable device id, and what the
-- repositories report
pub data E2eeError : Type 0 where
  invalid_signature identity_not_found not_room_member invalid_device database : E2eeError

-- `if err != nil { return ..., e }`
unfoldable pub given : {A : Type 0} → Option A → E2eeError → M E2eeError A
unfolding pure raise
given none e = raise e
given (some a) e = pure a
