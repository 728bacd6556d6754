-- ===== src/Chat/Participation.antt =====
-- internal/application/chat/usecase/create_user_participant.go, get_user_participant.go and
-- update_member_status.go
use tentserv_chat_server.Prelude.{ℕ, Option, none, some, List, not, map, select}
use tentserv_chat_server.Rows.{Participant, user, ChatMember}
use tentserv_chat_server.Db.{
  M, DbError, already_exists, pure, raise, gets, ◌>>=◌, ◌>>◌, map_err, optional, when_missing,
  begin_tx, commit, deferring_rollback,
}
use tentserv_chat_server.Repo.Participants
use tentserv_chat_server.Repo.Members
use tentserv_chat_server.Chat.Errors.{
  ChatError, create_participant, get_participant, participant_already_exists, participant_not_found,
  database,
}
use tentserv_chat_server.Chat.Send.{active_membership}

-- CreateUserParticipantOutput, GetUserParticipantOutput
pub record ParticipantOutput : Type 0 where
  pub id : ℕ
  pub user_id : ℕ
  pub created_at : ℕ

abbrev pub participant_output : ℕ → Participant → ParticipantOutput
participant_output u p = record { id = p.id; user_id = u; created_at = p.created_at }

-- the lookup must miss
abbrev pub unregistered : Option Participant → M ChatError Unit
unregistered none = pure tt
unregistered (some p) = raise participant_already_exists

abbrev pub user_participant : ℕ → Participant
user_participant u = record {
  id = 0;
  kind = user;
  user_id = some u;
  agent_id = none;
  system_type = none;
  created_at = 0;
}

abbrev pub when_taken : DbError → ChatError
when_taken already_exists = participant_already_exists
when_taken _ = create_participant

unfoldable pub register_in_tx : ℕ → M ChatError ParticipantOutput
register_in_tx user_id = do
  found ← optional (λ _. create_participant) (Participants.find_by_user_id user_id)
  unregistered found
  p ← map_err when_taken (Participants.create (user_participant user_id))
  map_err (λ _. create_participant) commit
  pure (participant_output user_id p)

-- CreateUserParticipantUseCase.Execute
unfoldable pub create_user_participant : ℕ → M ChatError ParticipantOutput
unfolding register_in_tx
create_user_participant user_id = do
  map_err (λ _. create_participant) begin_tx
  deferring_rollback (register_in_tx user_id)

-- GetUserParticipantUseCase.Execute
unfoldable pub get_user_participant : ℕ → M ChatError ParticipantOutput
get_user_participant user_id = do
  p ←
      map_err (when_missing participant_not_found get_participant)
        (Participants.find_by_user_id user_id)
  pure (participant_output user_id p)

-- MemberStatusInfo
pub record MemberStatus : Type 0 where
  pub member_id : ℕ
  pub last_read_at : Option ℕ

abbrev pub status_of : ChatMember → MemberStatus
status_of m = record { member_id = m.id; last_read_at = m.last_read_at }

-- UpdateMemberStatusUseCase.Execute: the caller's read mark is set to the clock, and the marks of the
-- active members come back.
unfoldable pub update_member_status : ℕ → ℕ → M ChatError (List MemberStatus)
update_member_status user_id room = do
  membership ← active_membership user_id room
  now ← gets (λ s. s.now)
  map_err database (Members.update_member (record membership { last_read_at = some now }))
  members ← map_err database (Members.find_by_room room)
  pure (map status_of (select (λ m. not m.is_deleted) members))
