-- ===== src/Tests/E2eeRuns.antt =====
-- Keys on a small database, and the theorems at them.
use tentserv_chat_server.Prelude.{
  ℕ, ◌≡◌, refl, Bool, true, false, none, some, List, [], ◌∷◌, ◌++◌, ◌+◌, ◌==◌, length,
}
use tentserv_chat_server.Rows.{
  ParticipantType, Role, Participant, ChatMember, IdentityKey, SignedPreKey,
}
use tentserv_chat_server.Db.{State, Connection, Outcome, Result, ok, err, ◌>>=◌}
use tentserv_chat_server.Db
use tentserv_chat_server.Db.Rules.{Ends}
use tentserv_chat_server.Repo.Participants
use tentserv_chat_server.Repo.Members
use tentserv_chat_server.Repo.Keys
use tentserv_chat_server.Repo.GroupKeys
use tentserv_chat_server.E2ee
use tentserv_chat_server.E2ee.{Crypto}
use tentserv_chat_server.E2ee.Prekeys.{UploadSignedPreKeyInput, decoded, upload_signed_prekey}
use tentserv_chat_server.E2ee.SenderKeys.{
  UploadSenderKeyInput, caller_member, notify_each, notify_requesters, store_sender_key,
  upload_sender_key, get_sender_keys,
}
use tentserv_chat_server.E2ee.Active.{Verified, Inactive, upload_signed_prekey_lem}
use tentserv_chat_server.E2ee.Rekey.{Uploaded, upload_sender_key_lem}
use tentserv_chat_server.E2ee.Fetched.{SameKeys, Fetched, get_sender_keys_lem}

abbrev bytes : List ℕ
bytes =
    1 ∷ 2 ∷ 3 ∷ 4 ∷ 5 ∷ 6 ∷ 7 ∷ 8 ∷ 1 ∷ 2 ∷ 3 ∷ 4 ∷ 5 ∷ 6 ∷ 7 ∷ 8 ∷ 1 ∷ 2 ∷ 3 ∷ 4 ∷ 5 ∷ 6 ∷ 7 ∷ 8
    ∷ 1 ∷ 2 ∷ 3 ∷ 4 ∷ 5 ∷ 6 ∷ 7 ∷ 8 ∷ []

-- texts that are the bytes, and a verifier that looks at lengths only
abbrev plain : Crypto
plain = record {
  decode = λ text. some text;
  encode = λ bytes. bytes;
  parse_device = λ text. some 7;
  verify_signed_prekey = λ sign public signature. length signature == length public + length sign;
  fingerprint_key = λ bytes. bytes;
}

abbrev identity : IdentityKey
identity = record {
  id = 1;
  user_id = 11;
  device_id = 7;
  public_key = bytes;
  sign_public_key = bytes;
  fingerprint = bytes;
  uploaded_at = 2;
}

abbrev old_prekey : SignedPreKey
old_prekey = record {
  id = 1;
  user_id = 11;
  device_id = 7;
  key_id = 1;
  public_key = bytes;
  signature = bytes ++ bytes;
  is_active = true;
  created_at = 2;
  expires_at = none;
}

abbrev ann : Participant
ann = record {
  id = 1;
  kind = ParticipantType.user;
  user_id = some 11;
  agent_id = none;
  system_type = none;
  created_at = 1;
}

abbrev ann_in_room : ChatMember
ann_in_room = record {
  id = 4;
  room_id = 5;
  participant_id = 1;
  role = Role.member;
  is_muted = false;
  is_deleted = false;
  last_read_at = none;
  joined_at = 2;
  updated_at = 2;
  deleted_at = none;
}

abbrev key_store : State
key_store = record {
  tables = record {
    participants = ann ∷ [];
    rooms = [];
    members = ann_in_room ∷ record ann_in_room { id = 6; participant_id = 2 } ∷ [];
    invitations = [];
    friendships = [];
    messages = [];
    identity_keys = identity ∷ [];
    signed_prekeys = old_prekey ∷ [];
    sender_keys =
        record {
          id = 1;
          chat_member_id = 6;
          chain_id = 0;
          sender_key_public = bytes;
          distribution_message = bytes;
          created_at = 3;
        }
        ∷ [];
    distributions = [];
    key_requests =
        record {
          id = 1;
          requester_member_id = 4;
          provider_member_id = 4;
          created_at = 3;
          fulfilled_at = none;
        }
        ∷ [];
    users = [];
    user_roles = [];
    agents = [];
  };
  saved = none;
  next = record {
    participant = 3;
    room = 6;
    member = 7;
    invitation = 1;
    friendship = 1;
    message = 1;
    identity_key = 2;
    signed_prekey = 2;
    sender_key = 2;
    distribution = 1;
    key_request = 2;
  };
  now = 9;
  started = 1;
}

abbrev steady : Connection
steady = record { service = λ k. Outcome.answers 0; step = 0; aborted = false }

abbrev ends_well : {E A : Type 0} → Result E A × State × Connection → Bool
ends_well (ok a, s, c) = true
ends_well (err e, s, c) = false

abbrev prekey_input : UploadSignedPreKeyInput
prekey_input = record {
  device_id = 7 ∷ [];
  key_id = 2;
  public_key = bytes;
  signature = bytes ++ bytes;
}

abbrev key_input : UploadSenderKeyInput
key_input = record { room_id = 5; sender_key_public = bytes; distribution_message = bytes }

prekey_runs : ends_well (upload_signed_prekey plain 11 prekey_input key_store steady) ≡ true
unfolding upload_signed_prekey decoded E2ee.given Db.pure Db.raise Db.gets Db.◌>>=◌ Db.map_err
    Db.attempt Db.require Db.statement Db.scan_all Db.present Db.scan_one Db.exec
    Keys.find_by_user_and_device Keys.deactivate_all Keys.add_signed_prekey
prekey_runs = refl

first_key_runs : ends_well (upload_sender_key plain 11 key_input key_store steady) ≡ true
unfolding upload_sender_key caller_member store_sender_key notify_requesters notify_each decoded
    E2ee.given Db.pure Db.raise Db.gets Db.◌>>=◌ Db.map_err Db.attempt Db.require Db.statement
    Db.scan_all Db.present Db.scan_one Db.exec GroupKeys.add_sender_key
    GroupKeys.find_pending_by_provider GroupKeys.mark_fulfilled Members.find_by_id
    Members.find_by_room_and_participant Participants.find_by_user_id Participants.find_by_id
first_key_runs = refl

-- a second upload of the same member
second_key_fails :
    ends_well (
      (upload_sender_key plain 11 key_input >>= λ _. upload_sender_key plain 11 key_input) key_store
        steady)
    ≡ false
unfolding upload_sender_key caller_member store_sender_key notify_requesters notify_each decoded
    E2ee.given Db.pure Db.raise Db.gets Db.◌>>=◌ Db.map_err Db.attempt Db.require Db.statement
    Db.scan_all Db.present Db.scan_one Db.exec GroupKeys.add_sender_key
    GroupKeys.find_pending_by_provider GroupKeys.mark_fulfilled Members.find_by_id
    Members.find_by_room_and_participant Participants.find_by_user_id Participants.find_by_id
second_key_fails = refl

fetch_runs : ends_well (get_sender_keys plain 11 5 key_store steady) ≡ true
unfolding get_sender_keys caller_member Db.pure Db.raise Db.gets Db.◌>>=◌ Db.map_err Db.attempt
    Db.require Db.statement Db.scan_all Db.present Db.scan_one Db.exec GroupKeys.find_all_by_members
    GroupKeys.upsert_batch Members.find_by_room Members.find_by_room_and_participant
    Participants.find_by_user_id
fetch_runs = refl

upload_signed_prekey_lem_example :
    Ends
      (λ _ t. Verified plain 11 prekey_input key_store t)
      (λ _ t. Inactive plain 11 prekey_input key_store t)
      (upload_signed_prekey plain 11 prekey_input)
      key_store
upload_signed_prekey_lem_example = upload_signed_prekey_lem plain 11 prekey_input key_store

upload_sender_key_lem_example :
    Ends
      (λ _ t. Uploaded plain 11 key_input key_store t)
      (λ _ t. t.tables ≡ key_store.tables)
      (upload_sender_key plain 11 key_input)
      key_store
upload_sender_key_lem_example = upload_sender_key_lem plain 11 key_input key_store

get_sender_keys_lem_example :
    Ends
      (λ items t. Fetched plain 11 5 key_store items t)
      (λ _ t. SameKeys key_store t)
      (get_sender_keys plain 11 5)
      key_store
get_sender_keys_lem_example = get_sender_keys_lem plain 11 5 key_store
