-- ===== src/Chat/Respond.antt =====
-- internal/application/chat/usecase/respond_to_invitation.go, with the friendship repository that
-- internal/bootstrap/usecases.go gives it.
pub mod Consent
use text.Mathlib.Text.{◌==◌ as str_eq}
use tentserv_chat_server.Prelude.{
  ℕ, String, Bool, Option, none, some, if◌then◌else◌, not, ◌==◌, ◌||◌,
}
use tentserv_chat_server.Rows.{
  ChatInvitation, Participant, Friendship, rejected, blocked, is_pending, is_join_request,
}
use tentserv_chat_server.Db.{
  M, DbError, not_found, Result, ok, err, pure, ◌>>=◌, ◌>>◌, map_err, attempt, require,
  when_missing, begin_tx, deferring_rollback,
}
use tentserv_chat_server.Repo.Participants
use tentserv_chat_server.Repo.Invitations
use tentserv_chat_server.Repo.Friendships
use tentserv_chat_server.Chat.Errors.{
  ChatError, invalid_invitation_action, invitation_create, invitation_not_found,
  invitation_already_resolved, invalid_invitation_type, participant_not_found, not_invitee,
}
use tentserv_chat_server.Chat.Admission.{Resolution, close_with, admit}

-- The block is written over the row between the two users, or as a row of its own; what the write
-- reports is dropped.
unfoldable pub block_row : ℕ → ℕ → Result DbError Friendship → M ChatError Unit
block_row user_id inviter (ok f) = attempt (Friendships.update_status f.id blocked) >>= λ _. pure tt
block_row user_id inviter (err not_found) =
    attempt (Friendships.create_blocked user_id inviter) >>= λ _. pure tt
block_row user_id inviter (err _) = pure tt

unfoldable pub block_user_of : ℕ → Option ℕ → M ChatError Unit
unfolding block_row
block_user_of user_id none = pure tt
block_user_of user_id (some inviter) = do
  found ← attempt (Friendships.find_between_users user_id inviter)
  block_row user_id inviter found

unfoldable pub block_inviter : ℕ → Result DbError Participant → M ChatError Unit
unfolding block_user_of
block_inviter user_id (err e) = pure tt
block_inviter user_id (ok inviter) = block_user_of user_id inviter.user_id

-- "Sync block to friendship record so CreateChatRoom also sees it"
unfoldable pub sync_block : ℕ → ChatInvitation → M ChatError Unit
unfolding block_inviter
sync_block user_id inv = do
  inviter ← attempt (Participants.find_by_id inv.inviter_id)
  block_inviter user_id inviter

unfoldable pub respond_in_tx : ℕ → ℕ → String → M ChatError Resolution
unfolding sync_block
respond_in_tx user_id invitation_id action = do
  inv ←
      map_err (when_missing invitation_not_found invitation_create)
        (Invitations.find_by_id invitation_id)
  require (is_pending inv.status) invitation_already_resolved
  require (not (is_join_request inv.kind)) invalid_invitation_type
  caller ←
      map_err (when_missing participant_not_found invitation_create)
        (Participants.find_by_user_id user_id)
  require (inv.invitee_id == caller.id) not_invitee
  if str_eq action "reject"
      then close_with inv rejected
      else if str_eq action "block"
      then (sync_block user_id inv >> close_with inv blocked)
      else admit inv

unfoldable pub is_action : String → Bool
is_action action = str_eq action "accept" || str_eq action "reject" || str_eq action "block"

-- RespondToInvitationUseCase.Execute
unfoldable pub respond : ℕ → ℕ → String → M ChatError Resolution
unfolding respond_in_tx
respond user_id invitation_id action = do
  require (is_action action) invalid_invitation_action
  map_err (λ _. invitation_create) begin_tx
  deferring_rollback (respond_in_tx user_id invitation_id action)
