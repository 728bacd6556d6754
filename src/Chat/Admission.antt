-- ===== src/Chat/Admission.antt =====
-- What ApproveJoinRequestUseCase and RespondToInvitationUseCase do alike: close an invitation, with a
-- new membership or without.
pub mod Rules
use tentserv_chat_server.Prelude.{ℕ, Option, none, some, not}
use tentserv_chat_server.Rows.{ChatInvitation, InvitationStatus, accepted, Role, member}
use tentserv_chat_server.Db.{M, pure, ◌>>=◌, ◌>>◌, map_err, attempt, require, commit}
use tentserv_chat_server.Repo.Members
use tentserv_chat_server.Repo.Invitations
use tentserv_chat_server.Chat.Errors.{ChatError, already_member, invitation_create, found_active}

-- ApproveJoinRequestOutput, RespondToInvitationOutput
pub record Resolution : Type 0 where
  pub invitation_id : ℕ
  pub status : InvitationStatus
  pub member_id : Option ℕ
  pub role : Option Role
  pub joined_at : Option ℕ

abbrev pub without_member : ℕ → InvitationStatus → Resolution
without_member id status = record {
  invitation_id = id;
  status = status;
  member_id = none;
  role = none;
  joined_at = none;
}

-- The branches that reject or block.
unfoldable pub close_with : ChatInvitation → InvitationStatus → M ChatError Resolution
close_with inv status = do
  map_err (λ _. invitation_create) (Invitations.update_status inv.id status)
  map_err (λ _. invitation_create) commit
  pure (without_member inv.id status)

-- The branch that approves or accepts. An error of the lookup is not looked at.
unfoldable pub admit : ChatInvitation → M ChatError Resolution
admit inv = do
  existing ← attempt (Members.find_by_room_and_participant inv.room_id inv.invitee_id)
  require (not (found_active existing)) already_member
  (id, joined_at) ← map_err (λ _. invitation_create) (Members.add inv.room_id inv.invitee_id member)
  map_err (λ _. invitation_create) (Invitations.update_status inv.id accepted)
  map_err (λ _. invitation_create) commit
  pure (record {
    invitation_id = inv.id;
    status = accepted;
    member_id = some id;
    role = some member;
    joined_at = some joined_at;
  })
