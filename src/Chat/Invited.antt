-- ===== src/Chat/Invited.antt =====
-- internal/application/chat/usecase/get_my_room_invitation.go
pub mod Told
use tentserv_chat_server.Prelude.{
  ℕ, String, List, Bool, true, false, Option, none, some, ◌==◌, if◌then◌else◌,
}
use tentserv_chat_server.Rows.{Participant, ChatInvitation, User}
use tentserv_chat_server.Db.{
  M, DbError, Result, ok, err, pure, ◌>>=◌, map_err, attempt, optional, when_missing,
}
use tentserv_chat_server.Repo.Participants
use tentserv_chat_server.Repo.Invitations
use tentserv_chat_server.Repo.Users
use tentserv_chat_server.Chat.Errors.{ChatError, participant_not_found, invitation_query}
use tentserv_chat_server.Chat.Overview.{unless_empty}

-- GetMyRoomInvitationOutput
pub record RoomInvitation : Type 0 where
  pub found : Bool
  pub invitation_id : ℕ
  pub role : String
  pub inviter_name : String
  pub inviter_avatar : Option String
  pub inviter_user_id : Option ℕ

abbrev pub nothing_found : RoomInvitation
nothing_found = record {
  found = false;
  invitation_id = 0;
  role = "";
  inviter_name = "";
  inviter_avatar = none;
  inviter_user_id = none;
}

abbrev pub found_as : String → ChatInvitation → RoomInvitation
found_as role i = record nothing_found { found = true; invitation_id = i.id; role = role }

-- resolveInviterInfo
abbrev pub with_inviter : RoomInvitation → Result DbError (User × List String) → RoomInvitation
with_inviter o (err e) = o
with_inviter o (ok (u, codes)) = record o {
  inviter_name = u.name;
  inviter_avatar = unless_empty u.avatar;
}

abbrev pub inviter_of : RoomInvitation → Option ℕ → M ChatError RoomInvitation
inviter_of o none = pure o
inviter_of o (some u) = attempt (Users.find_by_id u) >>= λ r.
    pure (with_inviter (record o { inviter_user_id = some u }) r)

abbrev pub looked_up : RoomInvitation → Result DbError Participant → M ChatError RoomInvitation
looked_up o (err e) = pure o
looked_up o (ok p) = inviter_of o p.user_id

unfoldable pub resolve_inviter_info : ℕ → RoomInvitation → M ChatError RoomInvitation
resolve_inviter_info inviter o = attempt (Participants.find_by_id inviter) >>= λ r. looked_up o r

-- a join request of the caller's own is no invitation to someone else
abbrev pub as_inviter : Option ChatInvitation → RoomInvitation
as_inviter none = nothing_found
as_inviter (some i) = if i.inviter_id == i.invitee_id then nothing_found else found_as "inviter" i

abbrev pub as_invitee : ℕ → ℕ → Option ChatInvitation → M ChatError RoomInvitation
as_invitee room p (some i) = resolve_inviter_info i.inviter_id (found_as "invitee" i)
as_invitee room p none =
    optional (λ _. invitation_query) (Invitations.find_pending_by_room_and_inviter room p) >>= λ i.
    pure (as_inviter i)

-- GetMyRoomInvitationUseCase.Execute
unfoldable pub get_my_room_invitation : ℕ → ℕ → M ChatError RoomInvitation
unfolding resolve_inviter_info
get_my_room_invitation user room = do
  p ←
      map_err (when_missing participant_not_found invitation_query)
        (Participants.find_by_user_id user)
  i ← optional (λ _. invitation_query) (Invitations.find_by_room_and_invitee room p.id)
  as_invitee room p.id i
