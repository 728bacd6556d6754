-- ===== src/Chat/CreateRoom.antt =====
-- internal/application/chat/usecase/create_chat_room.go
pub mod Blocked
use Prim.Native.String.{String}
use tentserv_chat_server.Prelude.{
  ℕ, Bool, true, false, Option, none, some, List, [], ◌∷◌, if◌then◌else◌, not, codes, same_codes,
  lower, map,
}
use tentserv_chat_server.Rows.{
  ChatRoom, ChatInvitation, Friendship, Participant, owner, pending, invitation, is_blocked,
}
use tentserv_chat_server.Db.{
  M, pure, ◌>>=◌, ◌>>◌, map_err, optional, require, when_missing, begin_tx, commit,
  deferring_rollback,
}
use tentserv_chat_server.Repo.Participants
use tentserv_chat_server.Repo.Rooms
use tentserv_chat_server.Repo.Members
use tentserv_chat_server.Repo.Invitations
use tentserv_chat_server.Repo.Friendships
use tentserv_chat_server.Chat.Errors.{
  ChatError, chat_room_create, participant_not_found, user_blocked, invitation_create,
}

-- CreateChatRoomInput
pub record CreateInput : Type 0 where
  pub name : String
  pub description : String
  pub kind : String
  pub max_members : ℕ
  pub allow_agent : Bool
  pub member_ids : List ℕ

-- CreateChatRoomOutput
pub record CreateOutput : Type 0 where
  pub id : ℕ
  pub name : String
  pub kind : String
  pub max_members : ℕ
  pub allow_agent : Bool
  pub created_at : ℕ
  pub already_existed : Bool

abbrev pub output_of : Bool → ChatRoom → CreateOutput
output_of existed r = record {
  id = r.id;
  name = r.name;
  kind = r.kind;
  max_members = r.max_members;
  allow_agent = r.allow_agent;
  created_at = r.created_at;
  already_existed = existed;
}

-- strings.EqualFold(type, "direct"): no letter of the word folds to anything but its other case
unfoldable pub is_direct : String → Bool
is_direct kind = same_codes (map lower (codes kind)) (codes "direct")

abbrev pub room_of : CreateInput → ChatRoom
room_of i = record {
  id = 0;
  name = i.name;
  description = i.description;
  avatar_name = "";
  kind = i.kind;
  max_members = i.max_members;
  allow_agent = i.allow_agent;
  is_deleted = false;
  created_at = 0;
  updated_at = 0;
}

abbrev pub invitation_to : ℕ → ℕ → ℕ → ChatInvitation
invitation_to room inviter invitee = record {
  id = 0;
  room_id = room;
  inviter_id = inviter;
  invitee_id = invitee;
  status = pending;
  kind = invitation;
  expires_at = none;
  created_at = 0;
  updated_at = 0;
}

unfoldable pub find_invited : ℕ → M ChatError Participant
find_invited user =
    map_err (when_missing participant_not_found chat_room_create)
      (Participants.find_by_user_id user)

-- the new room with its owner
unfoldable pub open_room : ℕ → CreateInput → M ChatError ChatRoom
open_room creator input = do
  room ← map_err (λ _. chat_room_create) (Rooms.create (room_of input))
  map_err (λ _. chat_room_create) (Members.add room.id creator owner)
  pure room

unfoldable pub commit_room : ChatRoom → M ChatError CreateOutput
commit_room room = map_err (λ _. chat_room_create) commit >> pure (output_of false room)

unfoldable pub invite : ℕ → ℕ → ℕ → M ChatError ChatInvitation
invite room inviter invitee =
    map_err (λ _. invitation_create) (Invitations.create (invitation_to room inviter invitee))

abbrev pub blocks : Option Friendship → Bool
blocks none = false
blocks (some f) = is_blocked f.status

unfoldable pub reuse_or_open : ℕ → ℕ → CreateInput → Option ChatRoom → M ChatError CreateOutput
unfolding open_room commit_room invite
reuse_or_open creator invited input (some room) = pure (output_of true room)
reuse_or_open creator invited input none = do
  room ← open_room creator input
  invite room.id creator invited
  commit_room room

-- A direct room with one invited user.
unfoldable pub create_direct : ℕ → ℕ → ℕ → CreateInput → M ChatError CreateOutput
unfolding reuse_or_open find_invited
create_direct user_id creator invited_user input = do
  invited ← find_invited invited_user
  friendship ←
      optional (λ _. chat_room_create) (Friendships.find_between_users user_id invited_user)
  require (not (blocks friendship)) user_blocked
  existing ← optional (λ _. chat_room_create) (Rooms.find_direct_by_participants creator invited.id)
  reuse_or_open creator invited.id input existing

-- The loop over `MemberIDs`.
unfoldable pub invite_all : ℕ → ℕ → List ℕ → M ChatError Unit
unfolding find_invited invite
invite_all room inviter [] = pure tt
invite_all room inviter (user ∷ users) = do
  invited ← find_invited user
  invite room inviter invited.id
  invite_all room inviter users

unfoldable pub create_shared : ℕ → CreateInput → M ChatError CreateOutput
unfolding open_room commit_room invite_all
create_shared creator input = do
  room ← open_room creator input
  invite_all room.id creator input.member_ids
  commit_room room

-- `isDirect && len(input.Data.MemberIDs) == 1` picks the branch
unfoldable pub create_by : ℕ → ℕ → CreateInput → List ℕ → M ChatError CreateOutput
unfolding create_direct create_shared is_direct
create_by user_id creator input (invited ∷ []) =
    if is_direct input.kind
    then create_direct user_id creator invited input
    else create_shared creator input
create_by user_id creator input _ = create_shared creator input

unfoldable pub create_in_tx : ℕ → CreateInput → M ChatError CreateOutput
unfolding create_by find_invited
create_in_tx user_id input = do
  p ← find_invited user_id
  create_by user_id p.id input input.member_ids

-- CreateChatRoomUseCase.Execute
unfoldable pub create_chat_room : ℕ → CreateInput → M ChatError CreateOutput
unfolding create_in_tx
create_chat_room user_id input = do
  map_err (λ _. chat_room_create) begin_tx
  deferring_rollback (create_in_tx user_id input)
