-- ===== src/Tests/ChatRuns.antt =====
-- A small database, requests against it, and the theorems at them.
use tentserv_chat_server.Prelude.{
  ℕ, ◌≡◌, refl, Bool, true, false, none, some, List, [], ◌∷◌, codes, arith, inr, ◌==◌,
  if◌then◌else◌, ◌≤◌, All, length,
}
use text.Mathlib.Text.{◌==◌ as str_eq}
use tentserv_chat_server.Rows.{
  Participant, ParticipantType, ChatRoom, ChatMember, Role, ChatInvitation, InvitationStatus,
  InvitationType, Friendship, FriendshipStatus,
}
use tentserv_chat_server.Db.{Tables, Sequences, State, Connection, Outcome, Result, ok, err}
use tentserv_chat_server.Db
use tentserv_chat_server.Repo.Participants
use tentserv_chat_server.Repo.Members
use tentserv_chat_server.Repo.Rooms
use tentserv_chat_server.Repo.Invitations
use tentserv_chat_server.Repo.Friendships
use tentserv_chat_server.Repo.Messages
use tentserv_chat_server.Chat.Admission.{admit, close_with}
use tentserv_chat_server.Db.Rules.{Ends}
use tentserv_chat_server.Chat.CreateRoom.{
  CreateInput, create_chat_room, create_in_tx, create_by, create_direct, create_shared,
  reuse_or_open, invite_all, open_room, commit_room, invite, find_invited, is_direct,
}
use tentserv_chat_server.Chat.CreateRoom.Blocked.{create_chat_room_blocked}
use tentserv_chat_server.Chat.Join.{join, join_in_tx, join_now, request_to_join}
use tentserv_chat_server.Chat.Approve.{approve, approve_in_tx}
use tentserv_chat_server.Chat.Respond.{
  respond, is_action, respond_in_tx, sync_block, block_inviter, block_user_of, block_row,
}
use tentserv_chat_server.Chat.Send.{
  SendInput, send, active_membership, is_sendable, is_valid_content, is_media,
}
use tentserv_chat_server.Chat.Participation.{create_user_participant, register_in_tx}
use tentserv_chat_server.Chat.MediaPath.{is_safe_path, path_unescape, is_rooted, elements}
use tentserv_chat_server.Chat.MediaPath.Safety.{walk, safe_path_stays_below}
use tentserv_chat_server.Chat.Soundness.{IsSound}
use tentserv_chat_server.Chat.System.{here, next, request, join_room, post, serve}
use tentserv_chat_server.Chat.System.Sound.{Reach-IsSound}
use tentserv_chat_server.Chat.Approve.Authority.{Decided, approve_lem}
use tentserv_chat_server.Chat.Respond.Consent.{Responded, respond_lem}
use tentserv_chat_server.Chat.Join.Outcome.{Joined, join_lem}
use tentserv_chat_server.Chat.Send.Delivered.{Belongs, Sent, send_lem}
use tentserv_chat_server.Chat.Reading.{get_messages}
use tentserv_chat_server.Chat.Reading.Pages.{Shown, get_messages_lem}
use tentserv_chat_server.Chat.Atomic.Failure.{
  join_failing, approve_failing, respond_failing, create_chat_room_failing,
  create_user_participant_failing,
}

abbrev ada : Participant
ada = record {
  id = 1;
  kind = ParticipantType.user;
  user_id = some 11;
  agent_id = none;
  system_type = none;
  created_at = 5;
}

abbrev bob : Participant
bob = record ada { id = 2; user_id = some 12 }

-- an agent that a user row names, so that it joins at once
abbrev bot : Participant
bot = record ada { id = 3; kind = ParticipantType.agent; user_id = some 13 }

abbrev lounge : ChatRoom
lounge = record {
  id = 1;
  name = "lounge";
  description = "";
  avatar_name = "";
  kind = "group";
  max_members = 2;
  allow_agent = true;
  is_deleted = false;
  created_at = 6;
  updated_at = 6;
}

abbrev ada_in_lounge : ChatMember
ada_in_lounge = record {
  id = 1;
  room_id = 1;
  participant_id = 1;
  role = Role.owner;
  is_muted = false;
  is_deleted = false;
  last_read_at = none;
  joined_at = 6;
  updated_at = 6;
  deleted_at = none;
}

abbrev request_of_bob : ChatInvitation
request_of_bob = record {
  id = 1;
  room_id = 1;
  inviter_id = 2;
  invitee_id = 2;
  status = InvitationStatus.pending;
  kind = InvitationType.join_request;
  expires_at = none;
  created_at = 7;
  updated_at = 7;
}

abbrev invitation_of_bob : ChatInvitation
invitation_of_bob = record request_of_bob {
  id = 2;
  inviter_id = 1;
  kind = InvitationType.invitation;
}

abbrev pub demo : State
demo = record {
  tables = record {
    participants = ada ∷ bob ∷ bot ∷ [];
    rooms = lounge ∷ [];
    members = ada_in_lounge ∷ [];
    invitations = request_of_bob ∷ invitation_of_bob ∷ [];
    friendships = [];
    messages = [];
    identity_keys = [];
    signed_prekeys = [];
    sender_keys = [];
    distributions = [];
    key_requests = [];
    users = [];
    user_roles = [];
    agents = [];
  };
  saved = none;
  next = record {
    participant = 4;
    room = 2;
    member = 2;
    invitation = 3;
    friendship = 1;
    message = 1;
    identity_key = 1;
    signed_prekey = 1;
    sender_key = 1;
    distribution = 1;
    key_request = 1;
  };
  now = 9;
  started = 1;
}

-- a service that answers every statement
abbrev pub calm : Connection
calm = record { service = λ k. Outcome.answers 0; step = 0; aborted = false }

-- a service that fails at the fifth statement
abbrev broken : Connection
broken = record calm { service = λ k. if k == 5 then Outcome.fails else Outcome.answers 0 }

abbrev pub is_ok : {E A : Type 0} → Result E A × State × Connection → Bool
is_ok (ok a, s, c) = true
is_ok (err e, s, c) = false

abbrev hello : SendInput
hello = record { room_id = 1; content = codes "hello"; kind = "text"; reply_to_id = none }

abbrev den : CreateInput
den = record {
  name = "den";
  description = "";
  kind = "group";
  max_members = 3;
  allow_agent = false;
  member_ids = 12 ∷ 13 ∷ [];
}

-- The requests go through on a calm service.
join_runs : is_ok (join 13 1 demo calm) ≡ true
unfolding join Db.pure Db.raise Db.gets Db.◌>>=◌ Db.map_err Db.attempt Db.require Db.optional
    Db.statement Db.scan_all Db.present Db.scan_one Db.exec Db.begin_tx Db.commit
    Db.deferring_rollback Participants.find_by_user_id Members.find_by_room_and_participant
    Members.add Invitations.find_by_id Invitations.update_status join_in_tx join_now request_to_join
    Rooms.find_by_id
join_runs = refl

approve_runs : is_ok (approve 11 1 true demo calm) ≡ true
unfolding approve Db.pure Db.raise Db.gets Db.◌>>=◌ Db.map_err Db.attempt Db.require Db.optional
    Db.statement Db.scan_all Db.present Db.scan_one Db.exec Db.begin_tx Db.commit
    Db.deferring_rollback Participants.find_by_user_id Members.find_by_room_and_participant
    Members.add Invitations.find_by_id Invitations.update_status approve_in_tx admit close_with
approve_runs = refl

respond_runs : is_ok (respond 12 2 "accept" demo calm) ≡ true
unfolding respond Db.pure Db.raise Db.gets Db.◌>>=◌ Db.map_err Db.attempt Db.require Db.optional
    Db.statement Db.scan_all Db.present Db.scan_one Db.exec Db.begin_tx Db.commit
    Db.deferring_rollback Participants.find_by_user_id Members.find_by_room_and_participant
    Members.add Invitations.find_by_id Invitations.update_status respond_in_tx admit close_with
    is_action sync_block block_inviter block_user_of block_row Participants.find_by_id
    Friendships.find_between_users Friendships.create_blocked Friendships.create_with_status
    Friendships.update_status
respond_runs = refl

block_runs : is_ok (respond 12 2 "block" demo calm) ≡ true
unfolding respond Db.pure Db.raise Db.gets Db.◌>>=◌ Db.map_err Db.attempt Db.require Db.optional
    Db.statement Db.scan_all Db.present Db.scan_one Db.exec Db.begin_tx Db.commit
    Db.deferring_rollback Participants.find_by_user_id Members.find_by_room_and_participant
    Members.add Invitations.find_by_id Invitations.update_status respond_in_tx admit close_with
    is_action sync_block block_inviter block_user_of block_row Participants.find_by_id
    Friendships.find_between_users Friendships.create_blocked Friendships.create_with_status
    Friendships.update_status
block_runs = refl

send_runs : is_ok (send 11 hello demo calm) ≡ true
unfolding send Db.pure Db.raise Db.gets Db.◌>>=◌ Db.map_err Db.attempt Db.require Db.optional
    Db.statement Db.scan_all Db.present Db.scan_one Db.exec Db.begin_tx Db.commit
    Db.deferring_rollback Participants.find_by_user_id Members.find_by_room_and_participant
    Members.add Invitations.find_by_id Invitations.update_status active_membership is_sendable
    is_valid_content is_media Members.can_send_message Messages.create Messages.is_message_type
send_runs = refl

create_chat_room_runs : is_ok (create_chat_room 11 den demo calm) ≡ true
unfolding create_chat_room Db.pure Db.raise Db.gets Db.◌>>=◌ Db.map_err Db.attempt Db.require
    Db.optional Db.statement Db.scan_all Db.present Db.scan_one Db.exec Db.begin_tx Db.commit
    Db.deferring_rollback Participants.find_by_user_id Members.find_by_room_and_participant
    Members.add Invitations.find_by_id Invitations.update_status create_in_tx create_by
    create_direct create_shared reuse_or_open invite_all open_room commit_room invite find_invited
    is_direct Rooms.create Rooms.is_room_type Invitations.create
create_chat_room_runs = refl

create_user_participant_runs : is_ok (create_user_participant 14 demo calm) ≡ true
unfolding create_user_participant Db.pure Db.raise Db.gets Db.◌>>=◌ Db.map_err Db.attempt Db.require
    Db.optional Db.statement Db.scan_all Db.present Db.scan_one Db.exec Db.begin_tx Db.commit
    Db.deferring_rollback Participants.find_by_user_id Members.find_by_room_and_participant
    Members.add Invitations.find_by_id Invitations.update_status register_in_tx Participants.create
    Participants.insert_participant Participants.create_detail Participants.attach
create_user_participant_runs = refl

-- A failure of the service in the middle of the transaction is an error.
create_chat_room_fails : is_ok (create_chat_room 11 den demo broken) ≡ false
unfolding create_chat_room Db.pure Db.raise Db.gets Db.◌>>=◌ Db.map_err Db.attempt Db.require
    Db.optional Db.statement Db.scan_all Db.present Db.scan_one Db.exec Db.begin_tx Db.commit
    Db.deferring_rollback Participants.find_by_user_id Members.find_by_room_and_participant
    Members.add Invitations.find_by_id Invitations.update_status create_in_tx create_by
    create_direct create_shared reuse_or_open invite_all open_room commit_room invite find_invited
    is_direct Rooms.create Rooms.is_room_type Invitations.create
create_chat_room_fails = refl

demo-IsSound : IsSound demo.tables demo.next
demo-IsSound = record {
  one_each = (refl, tt);
  references = ((omega arith, omega arith), tt);
  room_ids = (omega arith, tt);
  participant_ids = (omega arith, (omega arith, (omega arith, tt)));
  within = (inr (omega arith), tt);
}

abbrev after_join : State
after_join = (serve 13 (join_room 1) demo calm).1

Reach-IsSound_example : IsSound after_join.tables after_join.next
Reach-IsSound_example =
    Reach-IsSound demo after_join refl demo-IsSound (next here (request 13 (join_room 1) calm demo))

approve_lem_example : Ends (Decided 11 1 true demo) (λ _ _. Unit) (approve 11 1 true) demo
approve_lem_example = approve_lem 11 1 true demo

respond_lem_example :
    Ends
      (λ o s'.
        (is_action "accept" ≡ true)
        × Responded 12 2
            (str_eq "accept" "reject")
            (if str_eq "accept" "reject" then false else str_eq "accept" "block")
            demo
            o
            s')
      (λ _ _. Unit)
      (respond 12 2 "accept")
      demo
respond_lem_example = respond_lem 12 2 "accept" demo

join_lem_example : Ends (λ _. Joined 13 1 demo) (λ _ _. Unit) (join 13 1) demo
join_lem_example = join_lem 13 1 demo

send_lem_example : Ends (Sent 11 hello demo) (λ _ s'. s'.tables ≡ demo.tables) (send 11 hello) demo
send_lem_example = send_lem 11 hello demo

join_failing_example : Ends (λ _ _. Unit) (λ _ s'. s'.tables ≡ demo.tables) (join 13 1) demo
join_failing_example = join_failing 13 1 demo

approve_failing_example :
    Ends (λ _ _. Unit) (λ _ s'. s'.tables ≡ demo.tables) (approve 11 1 true) demo
approve_failing_example = approve_failing 11 1 true demo

respond_failing_example :
    Ends (λ _ _. Unit) (λ _ s'. s'.tables ≡ demo.tables) (respond 12 2 "block") demo
respond_failing_example = respond_failing 12 2 "block" demo

create_chat_room_failing_example :
    Ends (λ _ _. Unit) (λ _ s'. s'.tables ≡ demo.tables) (create_chat_room 11 den) demo
create_chat_room_failing_example = create_chat_room_failing 11 den demo

create_user_participant_failing_example :
    Ends (λ _ _. Unit) (λ _ s'. s'.tables ≡ demo.tables) (create_user_participant 14) demo
create_user_participant_failing_example = create_user_participant_failing 14 demo

-- an image under a folder of the room
abbrev image : List ℕ
image = codes "rooms/1/..%2f2.png"

safe_path_stays_below_example :
    (decoded : List ℕ) × (path_unescape image ≡ some decoded)
    × (is_rooted decoded ≡ false)
    × ((d : ℕ) × (walk (some 0) (elements decoded) ≡ some d))
unfolding is_safe_path
safe_path_stays_below_example = safe_path_stays_below image refl

abbrev block_of_bob : Friendship
block_of_bob = record {
  id = 1;
  user_id = 12;
  friend_id = 11;
  status = FriendshipStatus.blocked;
  created_at = 8;
  updated_at = 8;
}

abbrev after_block : State
after_block = record demo { tables = record demo.tables { friendships = block_of_bob ∷ [] } }

abbrev call : CreateInput
call = record den { kind = "Direct"; member_ids = 12 ∷ [] }

create_chat_room_blocked_example :
    Ends (λ _ _. ⊥) (λ _ _. Unit) (create_chat_room 11 call) after_block
unfolding is_direct
create_chat_room_blocked_example =
    create_chat_room_blocked 11 12 call after_block refl refl refl ((λ e. refl), tt)

abbrev with_hello : State
with_hello = (serve 11 (post hello) demo calm).1

get_messages_lem_example :
    Ends
      (λ page s'.
        (s' ≡ with_hello)
        × ((m : ChatMember) × Belongs 11 1 with_hello.tables m)
        × All (Shown 1 with_hello) page.messages
        × (length page.messages ≤ 100))
      (λ _ s'. s' ≡ with_hello)
      (get_messages 11 1 0 500)
      with_hello
get_messages_lem_example = get_messages_lem 11 1 0 500 with_hello
