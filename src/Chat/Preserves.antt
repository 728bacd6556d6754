-- ===== src/Chat/Preserves.antt =====
-- Whatever survives every repository write survives every chat use case.
use tentserv_chat_server.Prelude.{ℕ, String, Bool, Option, none, some, List, [], ◌∷◌}
use tentserv_chat_server.Rows.{ChatRoom, ChatInvitation, InvitationStatus}
use tentserv_chat_server.Db.{State, M, DbError, map_err, begin_tx, commit, deferring_rollback}
use tentserv_chat_server.Db.Keeps.{Keeps, Keeps-map_err, Keeps-deferring_rollback, keeps_rules}
use tentserv_chat_server.Repo.Stable.{Stable, Transactional}
use tentserv_chat_server.Repo.Participants
use tentserv_chat_server.Repo.Rooms
use tentserv_chat_server.Repo.Members
use tentserv_chat_server.Repo.Invitations
use tentserv_chat_server.Repo.Friendships
use tentserv_chat_server.Chat.Join.{join, join_in_tx, join_now, request_to_join}
use tentserv_chat_server.Chat.Admission.{close_with, admit}
use tentserv_chat_server.Chat.Approve.{approve, approve_in_tx}
use tentserv_chat_server.Chat.Respond.{respond, respond_in_tx}
use tentserv_chat_server.Chat.Send.{SendInput, send}
use tentserv_chat_server.Chat.Participation.{
  update_member_status, create_user_participant, register_in_tx,
}
use tentserv_chat_server.Chat.CreateRoom.{
  CreateInput, create_chat_room, create_in_tx, create_by, create_shared, create_direct,
  reuse_or_open, commit_room,
}
use tentserv_chat_server.Chat.Steps.{
  no_request-Keeps, sync_block-Keeps, find_invited-Keeps, open_room-Keeps, invite-Keeps,
  invite_all-Keeps, active_membership-Keeps, unregistered-Keeps, create-Keeps,
}

module _ {P : State → Type 0} (w : Stable P) (t : Transactional P) where
  begin_as-Keeps : {E : Type 0} (f : DbError → E) → Keeps P (map_err f begin_tx)
  begin_as-Keeps f = Keeps-map_err f begin_tx t.opens

  commit_as-Keeps : {E : Type 0} (f : DbError → E) → Keeps P (map_err f commit)
  commit_as-Keeps f = Keeps-map_err f commit t.closes

  rolled_back-Keeps : {E A : Type 0} (m : M E A) → Keeps P m → Keeps P (deferring_rollback m)
  rolled_back-Keeps m h = Keeps-deferring_rollback m t.undoes h

  join_now-Keeps : (room p : ℕ) → Keeps P (join_now room p)
  unfolding join_now
  join_now-Keeps room p = search (keeps_rules, w.add_member, commit_as-Keeps) depth 20

  request_to_join-Keeps : (room p : ℕ) → Keeps P (request_to_join room p)
  unfolding request_to_join Invitations.find_by_room_and_invitee
  request_to_join-Keeps room p =
      search (keeps_rules, w.create_invitation, commit_as-Keeps, (no_request-Keeps w)) depth 20

  join_in_tx-Keeps : (u room : ℕ) → Keeps P (join_in_tx u room)
  unfolding join_in_tx Rooms.find_by_id Participants.find_by_user_id
      Members.find_by_room_and_participant
  join_in_tx-Keeps u room = search (keeps_rules, join_now-Keeps, request_to_join-Keeps) depth 20

  pub join-Keeps : (u room : ℕ) → Keeps P (join u room)
  unfolding join
  join-Keeps u room =
      search (keeps_rules, begin_as-Keeps, rolled_back-Keeps, join_in_tx-Keeps) depth 20

  close_with-Keeps :
      (i : ChatInvitation) (status : InvitationStatus) → Keeps P (close_with i status)
  unfolding close_with
  close_with-Keeps i status = search (keeps_rules, w.update_invitation, commit_as-Keeps) depth 20

  admit-Keeps : (i : ChatInvitation) → Keeps P (admit i)
  unfolding admit Members.find_by_room_and_participant
  admit-Keeps i = search (keeps_rules, w.add_member, w.update_invitation, commit_as-Keeps) depth 20

  approve_in_tx-Keeps : (u id : ℕ) (yes' : Bool) → Keeps P (approve_in_tx u id yes')
  unfolding approve_in_tx Invitations.find_by_id Participants.find_by_user_id
      Members.find_by_room_and_participant
  approve_in_tx-Keeps u id yes' = search (keeps_rules, close_with-Keeps, admit-Keeps) depth 20

  pub approve-Keeps : (u id : ℕ) (yes' : Bool) → Keeps P (approve u id yes')
  unfolding approve
  approve-Keeps u id yes' =
      search (keeps_rules, begin_as-Keeps, rolled_back-Keeps, approve_in_tx-Keeps) depth 20

  respond_in_tx-Keeps : (u id : ℕ) (a : String) → Keeps P (respond_in_tx u id a)
  unfolding respond_in_tx Invitations.find_by_id Participants.find_by_user_id
  respond_in_tx-Keeps u id a =
      search (keeps_rules, close_with-Keeps, admit-Keeps, (sync_block-Keeps w)) depth 20

  pub respond-Keeps : (u id : ℕ) (a : String) → Keeps P (respond u id a)
  unfolding respond
  respond-Keeps u id a =
      search (keeps_rules, begin_as-Keeps, rolled_back-Keeps, respond_in_tx-Keeps) depth 20

  commit_room-Keeps : (r : ChatRoom) → Keeps P (commit_room r)
  unfolding commit_room
  commit_room-Keeps r = search (keeps_rules, commit_as-Keeps) depth 20

  reuse_or_open-Keeps :
      (p q : ℕ) (i : CreateInput) (o : Option ChatRoom) → Keeps P (reuse_or_open p q i o)
  unfolding reuse_or_open
  reuse_or_open-Keeps p q i (some room) = search keeps_rules
  reuse_or_open-Keeps p q i none =
      search (keeps_rules, (open_room-Keeps w), (invite-Keeps w), commit_room-Keeps) depth 20

  create_direct-Keeps : (u p v : ℕ) (i : CreateInput) → Keeps P (create_direct u p v i)
  unfolding create_direct Friendships.find_between_users Rooms.find_direct_by_participants
  create_direct-Keeps u p v i =
      search (keeps_rules, (find_invited-Keeps w), reuse_or_open-Keeps) depth 20

  create_shared-Keeps : (p : ℕ) (i : CreateInput) → Keeps P (create_shared p i)
  unfolding create_shared
  create_shared-Keeps p i =
      search (keeps_rules, (open_room-Keeps w), (invite_all-Keeps w), commit_room-Keeps) depth 20

  create_by-Keeps : (u p : ℕ) (i : CreateInput) (us : List ℕ) → Keeps P (create_by u p i us)
  unfolding create_by
  create_by-Keeps u p i [] = create_shared-Keeps p i
  create_by-Keeps u p i (v ∷ []) = search (keeps_rules, create_direct-Keeps, create_shared-Keeps)
  create_by-Keeps u p i (v ∷ v' ∷ us) = create_shared-Keeps p i

  create_in_tx-Keeps : (u : ℕ) (i : CreateInput) → Keeps P (create_in_tx u i)
  unfolding create_in_tx
  create_in_tx-Keeps u i = search (keeps_rules, (find_invited-Keeps w), create_by-Keeps) depth 20

  pub create_chat_room-Keeps : (u : ℕ) (i : CreateInput) → Keeps P (create_chat_room u i)
  unfolding create_chat_room
  create_chat_room-Keeps u i =
      search (keeps_rules, begin_as-Keeps, rolled_back-Keeps, create_in_tx-Keeps) depth 20

  pub send-Keeps : (u : ℕ) (i : SendInput) → Keeps P (send u i)
  unfolding send
  send-Keeps u i = search (keeps_rules, (active_membership-Keeps w), w.create_message) depth 20

  pub update_member_status-Keeps : (u room : ℕ) → Keeps P (update_member_status u room)
  unfolding update_member_status Members.find_by_room
  update_member_status-Keeps u room =
      search (keeps_rules, (active_membership-Keeps w), w.update_member) depth 20

  register_in_tx-Keeps : (u : ℕ) → Keeps P (register_in_tx u)
  unfolding register_in_tx Participants.find_by_user_id
  register_in_tx-Keeps u =
      search (keeps_rules, (unregistered-Keeps w), (create-Keeps w), commit_as-Keeps) depth 20

  pub create_user_participant-Keeps : (u : ℕ) → Keeps P (create_user_participant u)
  unfolding create_user_participant
  create_user_participant-Keeps u =
      search (keeps_rules, begin_as-Keeps, rolled_back-Keeps, register_in_tx-Keeps) depth 20
