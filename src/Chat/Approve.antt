-- ===== src/Chat/Approve.antt =====
-- internal/application/chat/usecase/approve_join_request.go
pub mod Authority
use tentserv_chat_server.Prelude.{ℕ, Bool, if◌then◌else◌}
use tentserv_chat_server.Rows.{rejected, is_pending, is_join_request}
use tentserv_chat_server.Db.{
  M, ◌>>=◌, ◌>>◌, map_err, require, when_missing, begin_tx, deferring_rollback,
}
use tentserv_chat_server.Repo.Participants
use tentserv_chat_server.Repo.Members
use tentserv_chat_server.Repo.Invitations
use tentserv_chat_server.Chat.Errors.{
  ChatError, invitation_create, invitation_not_found, invitation_already_resolved,
  invalid_invitation_type, participant_not_found, not_room_admin, is_admin,
}
use tentserv_chat_server.Chat.Admission.{Resolution, close_with, admit}

unfoldable pub approve_in_tx : ℕ → ℕ → Bool → M ChatError Resolution
approve_in_tx user_id invitation_id approved = do
  inv ←
      map_err (when_missing invitation_not_found invitation_create)
        (Invitations.find_by_id invitation_id)
  require (is_pending inv.status) invitation_already_resolved
  require (is_join_request inv.kind) invalid_invitation_type
  caller ←
      map_err (when_missing participant_not_found invitation_create)
        (Participants.find_by_user_id user_id)
  membership ←
      map_err (when_missing not_room_admin invitation_create)
        (Members.find_by_room_and_participant inv.room_id caller.id)
  require (is_admin membership.role) not_room_admin
  if approved then admit inv else close_with inv rejected

-- ApproveJoinRequestUseCase.Execute
unfoldable pub approve : ℕ → ℕ → Bool → M ChatError Resolution
unfolding approve_in_tx
approve user_id invitation_id approved = do
  map_err (λ _. invitation_create) begin_tx
  deferring_rollback (approve_in_tx user_id invitation_id approved)
