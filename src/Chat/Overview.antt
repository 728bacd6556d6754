-- ===== src/Chat/Overview.antt =====
-- internal/application/chat/usecase/get_chat_room_detail.go
pub mod Seen
use text.Mathlib.Text.{◌==◌ as str_eq}
use tentserv_chat_server.Prelude.{
  ℕ, String, Bool, true, false, not, ◌&&◌, ◌||◌, Option, none, some, List, [], ◌∷◌, map, select,
  reverse, ◌==◌, if◌then◌else◌,
}
use tentserv_chat_server.Rows.{Participant, ChatRoom, ChatMember, ChatMessage, Role, User, Agent}
use tentserv_chat_server.Db.{
  DbError, Result, ok, err, M, pure, ◌>>=◌, ◌>>◌, require, map_err, attempt,
}
use tentserv_chat_server.Repo.Participants
use tentserv_chat_server.Repo.Members
use tentserv_chat_server.Repo.Rooms
use tentserv_chat_server.Repo.Messages
use tentserv_chat_server.Repo.Users
use tentserv_chat_server.Chat.Errors.{
  ChatError, participant_not_found, not_room_member, chat_room_not_found, database, or_database,
}
use tentserv_chat_server.Chat.Reading.{MessageInfo, info_of}

-- ChatRoomMemberInfo
pub record MemberInfo : Type 0 where
  pub member_id : ℕ
  pub participant_id : ℕ
  pub user_id : Option ℕ
  pub display_name : String
  pub avatar_url : Option String
  pub role : Role
  pub last_read_at : Option ℕ
  pub joined_at : ℕ

abbrev pub bare_info : ChatMember → MemberInfo
bare_info m = record {
  member_id = m.id;
  participant_id = m.participant_id;
  user_id = none;
  display_name = "";
  avatar_url = none;
  role = m.role;
  last_read_at = m.last_read_at;
  joined_at = m.joined_at;
}

-- nil for the empty string
abbrev pub unless_empty : String → Option String
unless_empty x = if str_eq x "" then none else some x

abbrev pub with_user : MemberInfo → Result DbError (User × List String) → MemberInfo
with_user info (err e) = info
with_user info (ok (u, codes)) = record info {
  display_name = u.name;
  avatar_url = unless_empty u.avatar;
}

abbrev pub with_agent : MemberInfo → Result DbError Agent → MemberInfo
with_agent info (err e) = info
with_agent info (ok a) = record info { display_name = a.name }

abbrev pub named : MemberInfo → Option ℕ → Option ℕ → M ChatError MemberInfo
named info (some u) agent =
    attempt (Users.find_by_id u) >>= λ r. pure (with_user (record info { user_id = some u }) r)
named info none (some a) = attempt (Users.find_agent a) >>= λ r. pure (with_agent info r)
named info none none = pure info

abbrev pub of_participant : MemberInfo → Result DbError Participant → M ChatError MemberInfo
of_participant info (err e) = pure info
of_participant info (ok p) = named info p.user_id p.agent_id

-- buildMemberInfo
unfoldable pub build_member_info : ChatMember → M ChatError MemberInfo
unfolding Users.find_by_id Users.find_agent
build_member_info m =
    attempt (Participants.find_by_id m.participant_id) >>= λ r. of_participant (bare_info m) r

-- the loop over the members that are not deleted
unfoldable pub member_infos : List ChatMember → M ChatError (List MemberInfo)
unfolding build_member_info
member_infos [] = pure []
member_infos (m ∷ ms) = do i ← build_member_info m; rest ← member_infos ms; pure (i ∷ rest)

abbrev pub first_of : {A : Type 0} → List A → Option A
first_of [] = none
first_of (x ∷ xs) = some x

abbrev pub peer_of : ℕ → List ChatMember → Option ChatMember
peer_of caller ms = first_of (select (λ m. not (m.is_deleted || m.participant_id == caller)) ms)

abbrev pub avatar_of : Result DbError (User × List String) → Option String
avatar_of (err e) = none
avatar_of (ok (u, codes)) = unless_empty u.avatar

-- only the other user of a direct room has an avatar to show
abbrev pub user_avatar : Bool → Option ℕ → M ChatError (Option String)
user_avatar true (some u) = attempt (Users.find_by_id u) >>= λ r. pure (avatar_of r)
user_avatar true none = pure none
user_avatar false u = pure none

abbrev pub peer_avatar : Bool → Result DbError Participant → M ChatError (Option String)
peer_avatar direct (err e) = pure none
peer_avatar direct (ok p) = user_avatar direct p.user_id

abbrev pub avatar_from : Bool → Option ChatMember → M ChatError (Option String)
avatar_from direct none = pure none
avatar_from direct (some m) =
    attempt (Participants.find_by_id m.participant_id) >>= λ r. peer_avatar direct r

-- resolveRoomAvatarURL
unfoldable pub resolve_room_avatar : ChatRoom → ℕ → List ChatMember → M ChatError (Option String)
resolve_room_avatar room caller ms =
    if str_eq room.kind "group" || str_eq room.kind "channel"
    then pure (unless_empty room.avatar_name)
    else if str_eq room.kind "direct" || str_eq room.kind "bot"
    then avatar_from (str_eq room.kind "direct") (peer_of caller ms)
    else pure none

-- GetChatRoomDetailOutput
pub record RoomDetail : Type 0 where
  pub room_id : ℕ
  pub room_type : String
  pub name : String
  pub description : Option String
  pub avatar_url : Option String
  pub members : List MemberInfo
  pub messages : List MessageInfo

abbrev pub detail_of :
    ChatRoom → List ChatMember → List MemberInfo → List ChatMessage → Option String → RoomDetail
detail_of room all infos rows avatar = record {
  room_id = room.id;
  room_type = room.kind;
  name = room.name;
  description = if str_eq room.kind "direct" then none else unless_empty room.description;
  avatar_url = avatar;
  members = infos;
  messages = map (info_of all) (select (λ m. not m.is_deleted) (reverse rows));
}

-- GetChatRoomDetailUseCase.Execute
unfoldable pub get_detail : ℕ → ℕ → M ChatError RoomDetail
unfolding member_infos resolve_room_avatar
get_detail user room_id = do
  caller ← map_err (or_database participant_not_found) (Participants.find_by_user_id user)
  membership ←
      map_err (λ _. not_room_member) (Members.find_by_room_and_participant room_id caller.id)
  require (not membership.is_deleted) not_room_member
  room ← map_err (λ _. chat_room_not_found) (Rooms.find_by_id room_id)
  all ← map_err database (Members.find_by_room room_id)
  infos ← member_infos (select (λ m. not m.is_deleted) all)
  rows ← map_err database (Messages.find_by_room room_id 20 0)
  avatar ← resolve_room_avatar room caller.id all
  pure (detail_of room all infos rows avatar)
