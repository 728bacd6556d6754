-- ===== src/E2ee/Active.antt =====
-- The signed prekey of a device.
use tentserv_chat_server.Prelude.{
  ℕ, ◌≡◌, refl, ◌∙◌, Bool, true, Option, none, some, inl, inr, ◌⊎◌, List, [], ◌∷◌, ◌++◌, arith, any,
  ◌==◌, length, select, update, Row, Row-select, ==_iff,
}
use tentserv_chat_server.Rows.{IdentityKey, SignedPreKey}
use tentserv_chat_server.Db.{State, DbError, failed, duplicate_key, pure, ◌>>=◌, require, map_err}
use tentserv_chat_server.Db.Rules.{
  Ends, Ends-pure, Ends-raise, Ends-bind, Ends-call, Ends-guard, Ends-lookup, Ends-statement,
  Ends-exec, Ends-map_err, Answered-if,
}
use tentserv_chat_server.Repo.Keys
use tentserv_chat_server.E2ee.{
  Crypto, E2eeError, invalid_signature, invalid_device, database, given,
}
use tentserv_chat_server.E2ee.Prekeys.{
  UploadSignedPreKeyInput, decoded, new_prekey, upload_signed_prekey,
}

module _ {A : Type 0} {Q : A → State → Type 0} {R : E2eeError → State → Type 0} where
  pub Ends-given :
      (o : Option A) (e : E2eeError) (s : State)
      → ((a : A) → o ≡ some a → Q a s)
      → R e s
      → Ends Q R (given o e) s
  unfolding given
  Ends-given none e s h broken = Ends-raise e s broken
  Ends-given (some a) e s h broken = Ends-pure a s (h a refl)

module _ (crypto : Crypto) {Q : List ℕ → State → Type 0} {R : E2eeError → State → Type 0} where
  pub Ends-decoded :
      (n : ℕ) (text : List ℕ) (s : State)
      → ((bytes : List ℕ) → crypto.decode text ≡ some bytes → length bytes ≡ n → Q bytes s)
      → ((e : E2eeError) → R e s)
      → Ends Q R (decoded crypto n text) s
  unfolding decoded
  Ends-decoded n text s h broken =
      Ends-bind (given (crypto.decode text) invalid_signature)
        (λ bytes. require (length bytes == n) invalid_signature >>= λ _. pure bytes) s
        (Ends-given (crypto.decode text) invalid_signature s
          (λ bytes e.
            Ends-guard (length bytes == n) invalid_signature (pure bytes) s
              (broken invalid_signature)
              (λ same. Ends-pure bytes s (h bytes e ((==_iff (length bytes) n).0 same))))
          (broken invalid_signature))

module _ {Q : IdentityKey → State → Type 0} {R : DbError → State → Type 0} where
  Ends-find_identity :
      (u d : ℕ) (s : State)
      → ((k : IdentityKey) → Row k s.tables.identity_keys → Keys.of_device u d k ≡ true → Q k s)
      → ((e : DbError) → R e s)
      → Ends Q R (Keys.find_by_user_and_device u d) s
  unfolding Keys.find_by_user_and_device
  Ends-find_identity u d s h broken =
      Ends-bind _ (λ k. require (Keys.is_identity_key k) failed >>= λ _. pure k) s
        (Ends-lookup _ s
          (λ k at.
            let (known, own) = Row-select (Keys.of_device u d) k s.tables.identity_keys at in
            Ends-guard (Keys.is_identity_key k) failed (pure k) s (broken failed)
              (λ _. Ends-pure k s (h k known own)))
          (λ _. broken _) (broken failed))

-- No prekey of the device is active after DeactivateAll.
none_active :
    (u d : ℕ) (ks : List SignedPreKey)
    → select (Keys.is_active_of u d) (update (Keys.is_active_of u d) Keys.deactivated ks) ≡ []
none_active u d [] = refl
none_active u d (k ∷ ks) = ground (arith, none_active u d ks)

new_active :
    (u d : ℕ) (t : State) (n : ℕ) (public signature : List ℕ)
    → select (Keys.is_active_of u d) (Keys.stored_prekey (new_prekey u d n public signature) t ∷ [])
      ≡ Keys.stored_prekey (new_prekey u d n public signature) t ∷ []
new_active u d t n public signature = ground arith

select-append :
    {A : Type 0} (p : A → Bool) (xs ys : List A)
    → select p xs ≡ []
    → select p (xs ++ ys) ≡ select p ys
select-append p [] ys h = refl
select-append p (x ∷ xs) ys h = ground (arith, select-append p xs ys)

-- What an upload that succeeds leaves: one active key of the device, the uploaded one, whose signature the
-- identity key on file verifies.
pub record Verified (crypto : Crypto) (user : ℕ) (input : UploadSignedPreKeyInput) (s t : State)
    : Type 0 where
  pub device : ℕ
  pub public : List ℕ
  pub signature : List ℕ
  pub identity : IdentityKey
  pub active : SignedPreKey
  pub parsed : crypto.parse_device input.device_id ≡ some device
  pub public_read : crypto.decode input.public_key ≡ some public
  pub public_length : length public ≡ 32
  pub signature_read : crypto.decode input.signature ≡ some signature
  pub signature_length : length signature ≡ 64
  pub on_file : Row identity s.tables.identity_keys
  pub own : Keys.of_device user device identity ≡ true
  pub verified : crypto.verify_signed_prekey identity.sign_public_key public signature ≡ true
  pub only : select (Keys.is_active_of user device) t.tables.signed_prekeys ≡ active ∷ []
  pub same_id : active.key_id ≡ input.key_id
  pub same_public : active.public_key ≡ public
  pub same_signature : active.signature ≡ signature

-- What one that fails leaves: the keys as they were, or no active key of the device.
abbrev pub Inactive : Crypto → ℕ → UploadSignedPreKeyInput → State → State → Type 0
Inactive crypto user input s t =
    (t.tables.signed_prekeys ≡ s.tables.signed_prekeys)
    ⊎ ((device : ℕ) × (crypto.parse_device input.device_id ≡ some device)
        × (select (Keys.is_active_of user device) t.tables.signed_prekeys ≡ []))

module _ {Q : Unit → State → Type 0} {R : DbError → State → Type 0} where
  Ends-add_signed_prekey :
      (k : SignedPreKey) (s : State)
      → ((t : State)
          → t.tables.signed_prekeys ≡ s.tables.signed_prekeys ++ Keys.stored_prekey k s ∷ []
          → Q tt t)
      → ((e : DbError) → R e s)
      → Ends Q R (Keys.add_signed_prekey k) s
  unfolding Keys.add_signed_prekey
  Ends-add_signed_prekey k s h broken =
      Ends-statement _ s
        (λ n.
          Answered-if Q R s
            (any (Keys.has_key_id k.user_id k.device_id k.key_id) s.tables.signed_prekeys) _ _
            (λ _. broken duplicate_key) (λ _. h _ refl))
        (broken failed)

module _ (crypto : Crypto) (user : ℕ) (input : UploadSignedPreKeyInput) where
  replaced-Ends :
      (s : State) (device : ℕ) (public signature : List ℕ) (identity : IdentityKey)
      → crypto.parse_device input.device_id ≡ some device
      → crypto.decode input.public_key ≡ some public
      → length public ≡ 32
      → crypto.decode input.signature ≡ some signature
      → length signature ≡ 64
      → Row identity s.tables.identity_keys
      → Keys.of_device user device identity ≡ true
      → crypto.verify_signed_prekey identity.sign_public_key public signature ≡ true
      → Ends
          (λ _ t.
            Ends
              (λ _ u. Verified crypto user input s u)
              (λ _ u. Inactive crypto user input s u)
              (map_err
                (λ _. database)
                (Keys.add_signed_prekey (new_prekey user device input.key_id public signature)))
              t)
          (λ _ t. Inactive crypto user input s t)
          (Keys.deactivate_all user device)
          s
  unfolding Keys.deactivate_all
  replaced-Ends s device public signature identity parsed pr pl sr sl on_file own verified =
      let k = new_prekey user device input.key_id public signature in
      let t = record s {
        tables = record s.tables {
          signed_prekeys =
              update (Keys.is_active_of user device) Keys.deactivated s.tables.signed_prekeys;
        };
      } in
      Ends-exec _ s
        (Ends-map_err _ (Keys.add_signed_prekey k) t (
          Ends-add_signed_prekey k t
            (λ u e. record {
              device = device;
              public = public;
              signature = signature;
              identity = identity;
              active = Keys.stored_prekey k t;
              parsed = parsed;
              public_read = pr;
              public_length = pl;
              signature_read = sr;
              signature_length = sl;
              on_file = on_file;
              own = own;
              verified = verified;
              only = rw e (
                  select-append (Keys.is_active_of user device) t.tables.signed_prekeys
                    (Keys.stored_prekey k t ∷ []) (none_active user device s.tables.signed_prekeys)
                  ∙ new_active user device t input.key_id public signature);
              same_id = refl;
              same_public = refl;
              same_signature = refl;
            })
            (λ _. inr (device, parsed, none_active user device s.tables.signed_prekeys))))
        (inl refl)

  -- A signed prekey that is uploaded was verified against the identity key on file for the caller and the
  -- device, and is then the one active signed prekey of the device. An upload that fails leaves the signed
  -- prekeys as they were, or the device without an active one.
  pub upload_signed_prekey_lem :
      (s : State)
      → Ends
          (λ _ t. Verified crypto user input s t)
          (λ _ t. Inactive crypto user input s t)
          (upload_signed_prekey crypto user input)
          s
  unfolding upload_signed_prekey Keys.deactivate_all
  upload_signed_prekey_lem s =
      Ends-bind (given (crypto.parse_device input.device_id) invalid_device) _ s (
        Ends-given _ invalid_device s
          (λ device parsed. Ends-bind (decoded crypto 32 input.public_key) _ s (
            Ends-decoded crypto 32 input.public_key s
              (λ public public_read public_length.
                Ends-bind (decoded crypto 64 input.signature) _ s (
                  Ends-decoded crypto 64 input.signature s
                    (λ signature signature_read signature_length.
                      Ends-call _ (Keys.find_by_user_and_device user device) _ s (
                        Ends-find_identity user device s
                          (λ identity on_file own.
                            Ends-guard _ invalid_signature _ s (inl refl) (λ verified.
                              Ends-call _ (Keys.deactivate_all user device) _ s (
                                replaced-Ends s device public signature identity parsed public_read
                                  public_length signature_read signature_length on_file own
                                  verified)))
                          (λ _. inl refl)))
                    (λ _. inl refl)))
              (λ _. inl refl)))
          (inl refl))
