-- ===== src/Tests/OverviewRuns.antt =====
-- The detail of a room and the caller's invitation on a small database, and the theorems at it.
use tentserv_chat_server.Prelude.{
  String, ◌≡◌, refl, true, false, none, not, [], ◌∷◌, ◌==◌, ◌≤◌, All, length, map, select,
}
use tentserv_chat_server.Rows.{ChatMember, Participant}
use tentserv_chat_server.Db.{State, Connection, Result, ok, err}
use tentserv_chat_server.Db
use tentserv_chat_server.Db.Rules.{Ends}
use tentserv_chat_server.Repo.Participants
use tentserv_chat_server.Repo.Members
use tentserv_chat_server.Repo.Rooms
use tentserv_chat_server.Repo.Messages
use tentserv_chat_server.Repo.Users
use tentserv_chat_server.Repo.Invitations
use tentserv_chat_server.Repo.Found.{IsUser}
use tentserv_chat_server.Chat.Invited.{RoomInvitation, get_my_room_invitation, resolve_inviter_info}
use tentserv_chat_server.Chat.Invited.Told.{Answer, get_my_room_invitation_lem}
use tentserv_chat_server.Chat.Send.Delivered.{Belongs}
use tentserv_chat_server.Chat.Reading.Pages.{Shown}
use tentserv_chat_server.Chat.Overview.{
  member_infos, build_member_info, resolve_room_avatar, get_detail,
}
use tentserv_chat_server.Chat.Overview.Seen.{get_detail_lem}
use tentserv_chat_server.Tests.ChatRuns.{demo, calm, is_ok}

abbrev furnished : State
furnished = record demo {
  tables = record demo.tables {
    messages =
        record {
          id = 1;
          room_id = 1;
          sender_id = 1;
          content = 104 ∷ 105 ∷ [];
          kind = "text";
          reply_to_id = none;
          is_edited = false;
          is_deleted = false;
          created_at = 8;
          updated_at = 8;
        }
        ∷ [];
    users =
        record {
          id = 11;
          account_id = 1;
          name = "ada";
          avatar = "";
          created_at = 2;
          updated_at = 2;
        }
        ∷ [];
    user_roles = record { user_id = 11; code = "user" } ∷ [];
  };
}

detail_runs : is_ok (get_detail 11 1 furnished calm) ≡ true
unfolding get_detail member_infos build_member_info resolve_room_avatar Users.find_by_id
    Users.find_role_codes Db.pure Db.raise Db.gets Db.◌>>=◌ Db.map_err Db.attempt Db.require
    Db.statement Db.scan_all Db.present Db.scan_one Participants.find_by_user_id
    Participants.find_by_id Members.find_by_room_and_participant Members.find_by_room
    Rooms.find_by_id Messages.find_by_room
detail_runs = refl

get_detail_lem_example :
    Ends
      (λ d t.
        (t ≡ furnished)
        × ((m : ChatMember) × Belongs 11 1 furnished.tables m)
        × (map (λ i. i.member_id) d.members
            ≡ map
                (λ m. m.id)
                (select
                  (λ m. not m.is_deleted)
                  (select (λ m. m.room_id == 1) furnished.tables.members)))
        × All (Shown 1 furnished) d.messages
        × (length d.messages ≤ 20))
      (λ _ t. t ≡ furnished)
      (get_detail 11 1)
      furnished
get_detail_lem_example = get_detail_lem 11 1 furnished

get_my_room_invitation_lem_example :
    Ends
      (λ o t. (t ≡ demo) × ((p : Participant) × IsUser 12 demo.tables p × Answer 1 p.id demo o))
      (λ _ t. t ≡ demo)
      (get_my_room_invitation 12 1)
      demo
get_my_room_invitation_lem_example = get_my_room_invitation_lem 12 1 demo

abbrev role_of : {E : Type 0} → Result E RoomInvitation × State × Connection → String
role_of (ok o, s, c) = o.role
role_of (err e, s, c) = "error"

-- user 12 has asked to join, and was invited
invitation_runs : role_of (get_my_room_invitation 12 1 demo calm) ≡ "invitee"
unfolding get_my_room_invitation resolve_inviter_info Users.find_by_id Users.find_role_codes Db.pure
    Db.raise Db.gets Db.◌>>=◌ Db.map_err Db.attempt Db.optional Db.statement Db.scan_all Db.present
    Db.scan_one Participants.find_by_user_id Participants.find_by_id
    Invitations.find_by_room_and_invitee Invitations.find_pending_by_room_and_inviter
invitation_runs = refl

-- So is a user who has only asked to join: of the own request.
abbrev asked : State
asked = record demo {
  tables = record demo.tables { invitations = select (λ i. i.id == 1) demo.tables.invitations };
}

request_runs : role_of (get_my_room_invitation 12 1 asked calm) ≡ "invitee"
unfolding get_my_room_invitation resolve_inviter_info Users.find_by_id Users.find_role_codes Db.pure
    Db.raise Db.gets Db.◌>>=◌ Db.map_err Db.attempt Db.optional Db.statement Db.scan_all Db.present
    Db.scan_one Participants.find_by_user_id Participants.find_by_id
    Invitations.find_by_room_and_invitee Invitations.find_pending_by_room_and_inviter
request_runs = refl
