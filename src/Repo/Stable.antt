-- ===== src/Repo/Stable.antt =====
-- What it takes for a property of the state to survive the repositories: that each of their writes
-- keeps it. The lookups keep every property.
use tentserv_chat_server.Prelude.{ℕ, String, Bool, Option}
use tentserv_chat_server.Rows.{
  Participant, ParticipantType, ChatRoom, ChatMember, ChatInvitation, ChatMessage, Role,
  InvitationStatus, FriendshipStatus,
}
use tentserv_chat_server.Db.{State, undone, begin_tx, commit}
use tentserv_chat_server.Db.Keeps.{Keeps}
use tentserv_chat_server.Repo.Participants
use tentserv_chat_server.Repo.Rooms
use tentserv_chat_server.Repo.Members
use tentserv_chat_server.Repo.Invitations
use tentserv_chat_server.Repo.Friendships
use tentserv_chat_server.Repo.Messages

-- `P` survives every write of the repositories.
pub record Stable (P : State → Type 0) : Type 0 where
  pub insert_participant : (k : ParticipantType) → Keeps P (Participants.insert_participant k)
  pub attach :
      (id : ℕ) (taken : Participant → Bool) (u a : Option ℕ) (t : Option String)
      → Keeps P (Participants.attach id taken u a t)
  pub create_room : (r : ChatRoom) → Keeps P (Rooms.create r)
  pub add_member : (room p : ℕ) (role : Role) → Keeps P (Members.add room p role)
  pub update_member : (m : ChatMember) → Keeps P (Members.update_member m)
  pub create_invitation : (i : ChatInvitation) → Keeps P (Invitations.create i)
  pub update_invitation :
      (id : ℕ) (status : InvitationStatus) → Keeps P (Invitations.update_status id status)
  pub create_friendship :
      (u v : ℕ) (status : FriendshipStatus) → Keeps P (Friendships.create_with_status u v status)
  pub update_friendship :
      (id : ℕ) (status : FriendshipStatus) → Keeps P (Friendships.update_status id status)
  pub delete_friendship : (id : ℕ) → Keeps P (Friendships.delete id)
  pub create_message : (m : ChatMessage) → Keeps P (Messages.create m)

-- `P` survives the ends of a transaction, too.
pub record Transactional (P : State → Type 0) : Type 0 where
  pub opens : Keeps P begin_tx
  pub closes : Keeps P commit
  pub undoes : (s : State) → P s → P (undone s)
