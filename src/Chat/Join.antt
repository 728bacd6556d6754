-- ===== src/Chat/Join.antt =====
-- internal/application/chat/usecase/join_chat_room.go
pub mod Outcome
use tentserv_chat_server.Prelude.{ℕ, Bool, true, false, Option, none, some, if◌then◌else◌, not}
use tentserv_chat_server.Rows.{
  ParticipantType, user, Role, member, InvitationStatus, pending, join_request, ChatInvitation,
}
use tentserv_chat_server.Db.{
  M, pure, raise, ◌>>=◌, ◌>>◌, map_err, optional, require, when_missing, begin_tx, commit,
  deferring_rollback,
}
use tentserv_chat_server.Repo.Participants
use tentserv_chat_server.Repo.Rooms
use tentserv_chat_server.Repo.Members
use tentserv_chat_server.Repo.Invitations
use tentserv_chat_server.Chat.Errors.{
  ChatError, chat_room_create, chat_room_not_found, participant_not_found, already_member,
  invitation_already_exists, invitation_create, is_active,
}

-- JoinChatRoomOutput
pub record JoinOutput : Type 0 where
  pub member_id : Option ℕ
  pub role : Option Role
  pub joined_at : Option ℕ
  pub invitation_id : Option ℕ
  pub status : Option InvitationStatus

-- `p.Type == AgentType || p.Type == SystemType`
abbrev pub joins_directly : ParticipantType → Bool
joins_directly user = false
joins_directly _ = true

unfoldable pub join_now : ℕ → ℕ → M ChatError JoinOutput
join_now room p = do
  (id, joined_at) ← map_err (λ _. chat_room_create) (Members.add room p member)
  map_err (λ _. chat_room_create) commit
  pure (record {
    member_id = some id;
    role = some member;
    joined_at = some joined_at;
    invitation_id = none;
    status = none;
  })

-- The lookup must miss: a pending request is an error, and so is any error but ErrNotFound.
abbrev pub no_request : Option ChatInvitation → M ChatError Unit
no_request none = pure tt
no_request (some i) = raise invitation_already_exists

abbrev pub request_of : ℕ → ℕ → ChatInvitation
request_of room p = record {
  id = 0;
  room_id = room;
  inviter_id = p;
  invitee_id = p;
  status = pending;
  kind = join_request;
  expires_at = none;
  created_at = 0;
  updated_at = 0;
}

unfoldable pub request_to_join : ℕ → ℕ → M ChatError JoinOutput
request_to_join room p = do
  found ← optional (λ _. invitation_create) (Invitations.find_by_room_and_invitee room p)
  no_request found
  inv ← map_err (λ _. invitation_create) (Invitations.create (request_of room p))
  map_err (λ _. invitation_create) commit
  pure (record {
    member_id = none;
    role = none;
    joined_at = none;
    invitation_id = some inv.id;
    status = some inv.status;
  })

unfoldable pub join_in_tx : ℕ → ℕ → M ChatError JoinOutput
join_in_tx user_id room = do
  map_err (when_missing chat_room_not_found chat_room_create) (Rooms.find_by_id room)
  p ←
      map_err (when_missing participant_not_found chat_room_create)
        (Participants.find_by_user_id user_id)
  existing ← optional (λ _. chat_room_create) (Members.find_by_room_and_participant room p.id)
  require (not (is_active existing)) already_member
  if joins_directly p.kind then join_now room p.id else request_to_join room p.id

-- JoinChatRoomUseCase.Execute
unfoldable pub join : ℕ → ℕ → M ChatError JoinOutput
unfolding join_in_tx
join user_id room = do
  map_err (λ _. chat_room_create) begin_tx
  deferring_rollback (join_in_tx user_id room)
