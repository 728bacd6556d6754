-- ===== src/Rows.antt =====
-- The domain entities (internal/domain/*) as rows of the tables of dev-doc/sql. Ids, user ids and
-- instants are natural numbers; the instant 0 is Go's zero `time.Time`.
use tentserv_chat_server.Prelude.{ℕ, String, Bool, true, false, Option, List}

-- participant.ParticipantType
pub data ParticipantType : Type 0 where
  user agent system : ParticipantType

-- participant.Participant, with the detail columns of its three join tables
pub record Participant : Type 0 where
  pub id : ℕ
  pub kind : ParticipantType
  pub user_id : Option ℕ
  pub agent_id : Option ℕ
  pub system_type : Option String
  pub created_at : ℕ

-- chatroom.ChatRoom; `max_members` is not negative here, and 0 means no limit
pub record ChatRoom : Type 0 where
  pub id : ℕ
  pub name : String
  pub description : String
  pub avatar_name : String
  pub kind : String
  pub max_members : ℕ
  pub allow_agent : Bool
  pub is_deleted : Bool
  pub created_at : ℕ
  pub updated_at : ℕ

-- chatmember.Role
pub data Role : Type 0 where
  owner admin member guest : Role

-- chatmember.ChatMember
pub record ChatMember : Type 0 where
  pub id : ℕ
  pub room_id : ℕ
  pub participant_id : ℕ
  pub role : Role
  pub is_muted : Bool
  pub is_deleted : Bool
  pub last_read_at : Option ℕ
  pub joined_at : ℕ
  pub updated_at : ℕ
  pub deleted_at : Option ℕ

-- chatinvitation.Status
pub data InvitationStatus : Type 0 where
  pending accepted rejected blocked : InvitationStatus

-- chatinvitation.InvitationType
pub data InvitationType : Type 0 where
  join_request invitation : InvitationType

-- chatinvitation.ChatInvitation
pub record ChatInvitation : Type 0 where
  pub id : ℕ
  pub room_id : ℕ
  pub inviter_id : ℕ
  pub invitee_id : ℕ
  pub status : InvitationStatus
  pub kind : InvitationType
  pub expires_at : Option ℕ
  pub created_at : ℕ
  pub updated_at : ℕ

-- friendship.Status
pub data FriendshipStatus : Type 0 where
  pending accepted blocked : FriendshipStatus

-- friendship.Friendship
pub record Friendship : Type 0 where
  pub id : ℕ
  pub user_id : ℕ
  pub friend_id : ℕ
  pub status : FriendshipStatus
  pub created_at : ℕ
  pub updated_at : ℕ

-- chatmessage.ChatMessage; the content is its bytes
pub record ChatMessage : Type 0 where
  pub id : ℕ
  pub room_id : ℕ
  pub sender_id : ℕ
  pub content : List ℕ
  pub kind : String
  pub reply_to_id : Option ℕ
  pub is_edited : Bool
  pub is_deleted : Bool
  pub created_at : ℕ
  pub updated_at : ℕ

-- user.User, without the roles, which a table of their own holds
pub record User : Type 0 where
  pub id : ℕ
  pub account_id : ℕ
  pub name : String
  pub avatar : String
  pub created_at : ℕ
  pub updated_at : ℕ

-- a row of users_roles with the code of its role
pub record UserRole : Type 0 where
  pub user_id : ℕ
  pub code : String

-- agent.Agent: its id and its name
pub record Agent : Type 0 where
  pub id : ℕ
  pub name : String

-- Boolean tests for the `==` and `!=` of the source on these enums.
abbrev pub is_pending : InvitationStatus → Bool
is_pending InvitationStatus.pending = true
is_pending _ = false

abbrev pub is_join_request : InvitationType → Bool
is_join_request join_request = true
is_join_request invitation = false

abbrev pub awaits : FriendshipStatus → Bool
awaits FriendshipStatus.pending = true
awaits _ = false

abbrev pub is_blocked : FriendshipStatus → Bool
is_blocked FriendshipStatus.blocked = true
is_blocked _ = false

-- useridentitykey.UserIdentityKey; keys, signatures and fingerprints are their bytes
pub record IdentityKey : Type 0 where
  pub id : ℕ
  pub user_id : ℕ
  pub device_id : ℕ
  pub public_key : List ℕ
  pub sign_public_key : List ℕ
  pub fingerprint : List ℕ
  pub uploaded_at : ℕ

-- usersignedprekey.UserSignedPreKey
pub record SignedPreKey : Type 0 where
  pub id : ℕ
  pub user_id : ℕ
  pub device_id : ℕ
  pub key_id : ℕ
  pub public_key : List ℕ
  pub signature : List ℕ
  pub is_active : Bool
  pub created_at : ℕ
  pub expires_at : Option ℕ

-- membersenderkey.MemberSenderKey
pub record SenderKey : Type 0 where
  pub id : ℕ
  pub chat_member_id : ℕ
  pub chain_id : ℕ
  pub sender_key_public : List ℕ
  pub distribution_message : List ℕ
  pub created_at : ℕ

-- senderkeydistribution.SenderKeyDistribution
pub record Distribution : Type 0 where
  pub id : ℕ
  pub sender_member_id : ℕ
  pub receiver_member_id : ℕ
  pub chain_id : ℕ
  pub distributed_at : ℕ

-- senderkeyrequest.SenderKeyRequest
pub record KeyRequest : Type 0 where
  pub id : ℕ
  pub requester_member_id : ℕ
  pub provider_member_id : ℕ
  pub created_at : ℕ
  pub fulfilled_at : Option ℕ
