-- ===== src/Chat/Atomic/Failure.antt =====
-- A chat use case that fails leaves the tables as they were.
use tentserv_chat_server.Prelude.{ℕ, ◌≡◌, refl, String, Bool, Option, none, some, List, [], ◌∷◌}
use tentserv_chat_server.Rows.{ChatInvitation, ChatRoom, InvitationStatus}
use tentserv_chat_server.Db.{Tables, State}
use tentserv_chat_server.Db.Rules.{Ends, Ends-bind, Ends-require}
use tentserv_chat_server.Db.Keeps.{keeps_rules}
use tentserv_chat_server.Repo.Participants
use tentserv_chat_server.Repo.Rooms
use tentserv_chat_server.Repo.Members
use tentserv_chat_server.Repo.Invitations
use tentserv_chat_server.Repo.Friendships
use tentserv_chat_server.Chat.Join.{join, join_in_tx, join_now, request_to_join}
use tentserv_chat_server.Chat.Admission.{close_with, admit}
use tentserv_chat_server.Chat.Approve.{approve, approve_in_tx}
use tentserv_chat_server.Chat.Respond.{respond, respond_in_tx, is_action}
use tentserv_chat_server.Chat.Participation.{create_user_participant, register_in_tx}
use tentserv_chat_server.Chat.CreateRoom.{
  CreateInput, create_chat_room, create_in_tx, create_by, create_shared, create_direct,
  reuse_or_open, commit_room,
}
use tentserv_chat_server.Chat.Steps.{
  no_request-Keeps, sync_block-Keeps, find_invited-Keeps, open_room-Keeps, invite-Keeps,
  invite_all-Keeps, unregistered-Keeps, create-Keeps,
}
use tentserv_chat_server.Chat.Atomic.{Began-Stable, Closes, Closes-in_tx, closes_rules}

module _ (t : Tables) where
  join_now-Closes : (room p : ℕ) → Closes t (join_now room p)
  unfolding join_now
  join_now-Closes room p = search (closes_rules, keeps_rules, (Began-Stable t).add_member) depth 20

  request_to_join-Closes : (room p : ℕ) → Closes t (request_to_join room p)
  unfolding request_to_join Invitations.find_by_room_and_invitee
  request_to_join-Closes room p =
      search
        (
          closes_rules,
          keeps_rules,
          (Began-Stable t).create_invitation,
          no_request-Keeps (Began-Stable t),
        )
        depth 20

  join_in_tx-Closes : (u room : ℕ) → Closes t (join_in_tx u room)
  unfolding join_in_tx Rooms.find_by_id Participants.find_by_user_id
      Members.find_by_room_and_participant
  join_in_tx-Closes u room =
      search (closes_rules, keeps_rules, join_now-Closes, request_to_join-Closes) depth 20

  close_with-Closes : (i : ChatInvitation) (st : InvitationStatus) → Closes t (close_with i st)
  unfolding close_with
  close_with-Closes i st =
      search (closes_rules, keeps_rules, (Began-Stable t).update_invitation) depth 20

  admit-Closes : (i : ChatInvitation) → Closes t (admit i)
  unfolding admit Members.find_by_room_and_participant
  admit-Closes i =
      search
        (closes_rules, keeps_rules, (Began-Stable t).add_member, (Began-Stable t).update_invitation)
        depth 20

  approve_in_tx-Closes : (u id : ℕ) (yes' : Bool) → Closes t (approve_in_tx u id yes')
  unfolding approve_in_tx Invitations.find_by_id Participants.find_by_user_id
      Members.find_by_room_and_participant
  approve_in_tx-Closes u id yes' =
      search (closes_rules, keeps_rules, close_with-Closes, admit-Closes) depth 20

  respond_in_tx-Closes : (u id : ℕ) (a : String) → Closes t (respond_in_tx u id a)
  unfolding respond_in_tx Invitations.find_by_id Participants.find_by_user_id
  respond_in_tx-Closes u id a =
      search
        (
          closes_rules,
          keeps_rules,
          close_with-Closes,
          admit-Closes,
          sync_block-Keeps (Began-Stable t),
        )
        depth 20

  commit_room-Closes : (r : ChatRoom) → Closes t (commit_room r)
  unfolding commit_room
  commit_room-Closes r = search (closes_rules, keeps_rules) depth 20

  reuse_or_open-Closes :
      (p q : ℕ) (i : CreateInput) (o : Option ChatRoom) → Closes t (reuse_or_open p q i o)
  unfolding reuse_or_open
  reuse_or_open-Closes p q i (some room) = search closes_rules
  reuse_or_open-Closes p q i none =
      search
        (
          closes_rules,
          open_room-Keeps (Began-Stable t),
          invite-Keeps (Began-Stable t),
          commit_room-Closes,
        )
        depth 20

  create_direct-Closes : (u p v : ℕ) (i : CreateInput) → Closes t (create_direct u p v i)
  unfolding create_direct Friendships.find_between_users Rooms.find_direct_by_participants
  create_direct-Closes u p v i =
      search (closes_rules, keeps_rules, find_invited-Keeps (Began-Stable t), reuse_or_open-Closes)
        depth 20

  create_shared-Closes : (p : ℕ) (i : CreateInput) → Closes t (create_shared p i)
  unfolding create_shared
  create_shared-Closes p i =
      search
        (
          closes_rules,
          open_room-Keeps (Began-Stable t),
          invite_all-Keeps (Began-Stable t),
          commit_room-Closes,
        )
        depth 20

  create_by-Closes : (u p : ℕ) (i : CreateInput) (us : List ℕ) → Closes t (create_by u p i us)
  unfolding create_by
  create_by-Closes u p i [] = create_shared-Closes p i
  create_by-Closes u p i (v ∷ []) =
      search (closes_rules, create_direct-Closes, create_shared-Closes)
  create_by-Closes u p i (v ∷ v' ∷ us) = create_shared-Closes p i

  create_in_tx-Closes : (u : ℕ) (i : CreateInput) → Closes t (create_in_tx u i)
  unfolding create_in_tx
  create_in_tx-Closes u i =
      search (closes_rules, find_invited-Keeps (Began-Stable t), create_by-Closes) depth 20

  register_in_tx-Closes : (u : ℕ) → Closes t (register_in_tx u)
  unfolding register_in_tx Participants.find_by_user_id
  register_in_tx-Closes u =
      search
        (
          closes_rules,
          keeps_rules,
          unregistered-Keeps (Began-Stable t),
          create-Keeps (Began-Stable t),
        )
        depth 20

-- When Join fails, for whatever reason, every table is as it was before.
pub join_failing :
    (u room : ℕ) (s : State) → Ends (λ _ _. Unit) (λ _ s'. s'.tables ≡ s.tables) (join u room) s
unfolding join
join_failing u room s = Closes-in_tx _ _ s (λ t. join_in_tx-Closes t u room)

-- When approving or rejecting a join request fails, every table is as it was before.
pub approve_failing :
    (u id : ℕ) (approved : Bool) (s : State)
    → Ends (λ _ _. Unit) (λ _ s'. s'.tables ≡ s.tables) (approve u id approved) s
unfolding approve
approve_failing u id approved s = Closes-in_tx _ _ s (λ t. approve_in_tx-Closes t u id approved)

-- When responding to an invitation fails, every table is as it was before, the friendships included.
pub respond_failing :
    (u id : ℕ) (action : String) (s : State)
    → Ends (λ _ _. Unit) (λ _ s'. s'.tables ≡ s.tables) (respond u id action) s
unfolding respond
respond_failing u id action s = Ends-bind _ _ s (
    Ends-require (is_action action) _ s
      (λ _. Closes-in_tx _ _ s (λ t. respond_in_tx-Closes t u id action)) (λ _. refl))

-- When creating a room fails, every table is as it was before: no room without its owner, and none
-- with a part of its invitations.
pub create_chat_room_failing :
    (u : ℕ) (input : CreateInput) (s : State)
    → Ends (λ _ _. Unit) (λ _ s'. s'.tables ≡ s.tables) (create_chat_room u input) s
unfolding create_chat_room
create_chat_room_failing u input s = Closes-in_tx _ _ s (λ t. create_in_tx-Closes t u input)

-- When creating a user's participant fails, every table is as it was before: no participant without
-- its detail row.
pub create_user_participant_failing :
    (u : ℕ) (s : State)
    → Ends (λ _ _. Unit) (λ _ s'. s'.tables ≡ s.tables) (create_user_participant u) s
unfolding create_user_participant
create_user_participant_failing u s = Closes-in_tx _ _ s (λ t. register_in_tx-Closes t u)
