-- ===== src/E2ee/SenderKeys.antt =====
-- upload_sender_key.go, get_sender_keys.go, create_sender_key_request.go and
-- get_sender_key_distribution_status.go
use tentserv_chat_server.Prelude.{
  ℕ, not, Option, none, some, List, [], ◌∷◌, ◌++◌, map, ◌==◌, any, if◌then◌else◌,
}
use tentserv_chat_server.Rows.{Participant, ChatMember, SenderKey, Distribution, KeyRequest}
use tentserv_chat_server.Db.{
  M, DbError, Result, ok, err, pure, ◌>>=◌, ◌>>◌, require, map_err, attempt, optional,
}
use tentserv_chat_server.Repo.Participants
use tentserv_chat_server.Repo.Members
use tentserv_chat_server.Repo.GroupKeys
use tentserv_chat_server.E2ee.{
  Crypto, E2eeError, invalid_signature, not_room_member, database, given,
}
use tentserv_chat_server.E2ee.Prekeys.{decoded}

pub record UploadSenderKeyInput : Type 0 where
  pub room_id : ℕ
  pub sender_key_public : List ℕ
  pub distribution_message : List ℕ

-- the membership of the caller
unfoldable pub caller_member : ℕ → ℕ → M E2eeError ChatMember
caller_member user room = do
  p ← map_err (λ _. not_room_member) (Participants.find_by_user_id user)
  map_err (λ _. not_room_member) (Members.find_by_room_and_participant room p.id)

-- UploadSenderKeyUseCase.notifyRequesters: the users to whom direct_key_ready is sent. A request whose
-- user is not found stays open.
abbrev pub told : ℕ → ℕ → Option ℕ → M E2eeError (List ℕ)
told requester provider none = pure []
told requester provider (some u) =
    attempt (GroupKeys.mark_fulfilled requester provider) >>= λ _. pure (u ∷ [])

abbrev pub notified : ℕ → ℕ → Result DbError Participant → M E2eeError (List ℕ)
notified requester provider (err e) = pure []
notified requester provider (ok p) = told requester provider p.user_id

abbrev pub looked_up : ℕ → ℕ → Result DbError ChatMember → M E2eeError (List ℕ)
looked_up requester provider (err e) = pure []
looked_up requester provider (ok m) =
    attempt (Participants.find_by_id m.participant_id) >>= λ p. notified requester provider p

unfoldable pub notify_each : ℕ → List KeyRequest → M E2eeError (List ℕ)
notify_each provider [] = pure []
notify_each provider (r ∷ rs) = do
  m ← attempt (Members.find_by_id r.requester_member_id)
  us ← looked_up r.requester_member_id provider m
  vs ← notify_each provider rs
  pure (us ++ vs)

abbrev pub requests_of : Result DbError (List KeyRequest) → List KeyRequest
requests_of (ok rs) = rs
requests_of (err e) = []

unfoldable pub notify_requesters : ℕ → M E2eeError (List ℕ)
unfolding notify_each
notify_requesters provider = do
  rs ← attempt (GroupKeys.find_pending_by_provider provider)
  notify_each provider (requests_of rs)

-- the message that upload_sender_key.go stores: ChainID is left at its zero value
abbrev pub new_sender_key : ℕ → List ℕ → List ℕ → SenderKey
new_sender_key m public message = record {
  id = 0;
  chat_member_id = m;
  chain_id = 0;
  sender_key_public = public;
  distribution_message = message;
  created_at = 0;
}

pub record SenderKeyItem : Type 0 where
  pub chat_member_id : ℕ
  pub sender_key_public : List ℕ
  pub distribution_message : List ℕ

-- recordDistributions, without the receiver's own keys
abbrev pub distributions_to : ℕ → List SenderKey → List Distribution
distributions_to receiver [] = []
distributions_to receiver (k ∷ ks) =
    if k.chat_member_id == receiver
    then distributions_to receiver ks
    else record {
      id = 0;
      sender_member_id = k.chat_member_id;
      receiver_member_id = receiver;
      chain_id = k.chain_id;
      distributed_at = 0;
    }
      ∷ distributions_to receiver ks

module _ (crypto : Crypto) where
  unfoldable pub store_sender_key : UploadSenderKeyInput → ChatMember → M E2eeError Unit
  unfolding decoded given GroupKeys.add_sender_key
  store_sender_key input m = do
    public ← decoded crypto 32 input.sender_key_public
    message ← given (crypto.decode input.distribution_message) invalid_signature
    map_err (λ _. database) (GroupKeys.add_sender_key (new_sender_key m.id public message))

  -- UploadSenderKeyUseCase.Execute
  unfoldable pub upload_sender_key : ℕ → UploadSenderKeyInput → M E2eeError Unit
  unfolding caller_member store_sender_key notify_requesters
  upload_sender_key user input = do
    m ← caller_member user input.room_id
    store_sender_key input m
    attempt (notify_requesters m.id) >>= λ _. pure tt

  abbrev pub item_of : SenderKey → SenderKeyItem
  item_of k = record {
    chat_member_id = k.chat_member_id;
    sender_key_public = crypto.encode k.sender_key_public;
    distribution_message = crypto.encode k.distribution_message;
  }

  -- GetSenderKeysUseCase.Execute
  unfoldable pub get_sender_keys : ℕ → ℕ → M E2eeError (List SenderKeyItem)
  unfolding caller_member GroupKeys.find_all_by_members GroupKeys.upsert_batch
  get_sender_keys user room = do
    m ← caller_member user room
    members ← map_err (λ _. database) (Members.find_by_room room)
    keys ← map_err (λ _. database) (GroupKeys.find_all_by_members (map (λ m. m.id) members))
    _ ← attempt (GroupKeys.upsert_batch (distributions_to m.id keys))
    pure (map item_of keys)

-- CreateSenderKeyRequestUseCase.Execute, without the notification, which changes no table
unfoldable pub create_sender_key_request : ℕ → ℕ → ℕ → M E2eeError Unit
unfolding caller_member GroupKeys.upsert_request
create_sender_key_request user room provider = do
  m ← caller_member user room
  require (not m.is_deleted) not_room_member
  q ← map_err (λ _. not_room_member) (Members.find_by_id provider)
  require (not q.is_deleted) not_room_member
  map_err (λ _. database) (GroupKeys.upsert_request m.id q.id)

-- pendingReceivers
abbrev pub awaiting : ℕ → Option SenderKey → M E2eeError (List ℕ)
awaiting m none = pure []
awaiting m (some k) = map_err (λ _. database) (GroupKeys.find_pending_receivers m k.chain_id)

unfoldable pub pending_receivers : ℕ → M E2eeError (List ℕ)
unfolding GroupKeys.find_latest GroupKeys.find_pending_receivers
pending_receivers m = do k ← optional (λ _. database) (GroupKeys.find_latest m); awaiting m k

-- the loop of pendingFromMembers
unfoldable pub pending_from : ℕ → List ChatMember → M E2eeError (List ℕ)
unfolding pending_receivers
pending_from caller [] = pure []
pending_from caller (m ∷ ms) = do
  waiting ←
      if m.id == caller then pure [] else if m.is_deleted then pure [] else pending_receivers m.id
  rest ← pending_from caller ms
  pure (if any (λ r. r == caller) waiting then m.id ∷ rest else rest)

-- GetSenderKeyDistributionStatusUseCase.Execute
unfoldable pub get_sender_key_distribution_status : ℕ → ℕ → M E2eeError (List ℕ × List ℕ)
unfolding caller_member pending_receivers pending_from
get_sender_key_distribution_status user room = do
  m ← caller_member user room
  receivers ← pending_receivers m.id
  members ← map_err (λ _. database) (Members.find_by_room room)
  senders ← pending_from m.id members
  pure (receivers, senders)
