-- ===== src/Chat/Steps.antt =====
-- The steps of the chat use cases that neither open nor close a transaction keep whatever survives every
-- repository write.
use tentserv_chat_server.Prelude.{ℕ, String, Option, none, some, List, [], ◌∷◌}
use tentserv_chat_server.Rows.{
  Friendship, Participant, ChatInvitation, ParticipantType, user, agent, system,
}
use tentserv_chat_server.Db.{State, DbError, Result, ok, err, not_found}
use tentserv_chat_server.Db.Keeps.{Keeps, Keeps-bind, keeps_rules}
use tentserv_chat_server.Repo.Stable.{Stable}
use tentserv_chat_server.Repo.Participants
use tentserv_chat_server.Repo.Members
use tentserv_chat_server.Repo.Friendships
use tentserv_chat_server.Chat.Join.{no_request}
use tentserv_chat_server.Chat.Respond.{sync_block, block_inviter, block_user_of, block_row}
use tentserv_chat_server.Chat.Send.{active_membership}
use tentserv_chat_server.Chat.Participation.{unregistered}
use tentserv_chat_server.Chat.CreateRoom.{CreateInput, invite_all, invite, open_room, find_invited}

module _ {P : State → Type 0} (w : Stable P) where
  pub no_request-Keeps : (o : Option ChatInvitation) → Keeps P (no_request o)
  no_request-Keeps none = search keeps_rules
  no_request-Keeps (some i) = search keeps_rules

  pub block_row-Keeps : (u v : ℕ) (r : Result DbError Friendship) → Keeps P (block_row u v r)
  unfolding block_row Friendships.create_blocked
  block_row-Keeps u v (ok f) = search (keeps_rules, w.update_friendship) depth 20
  block_row-Keeps u v (err not_found) = search (keeps_rules, w.create_friendship) depth 20
  block_row-Keeps u v (err _) = search keeps_rules

  pub block_user_of-Keeps : (u : ℕ) (o : Option ℕ) → Keeps P (block_user_of u o)
  unfolding block_user_of Friendships.find_between_users
  block_user_of-Keeps u none = search keeps_rules
  block_user_of-Keeps u (some v) = search (keeps_rules, block_row-Keeps) depth 20

  pub block_inviter-Keeps : (u : ℕ) (r : Result DbError Participant) → Keeps P (block_inviter u r)
  unfolding block_inviter
  block_inviter-Keeps u (ok p) = block_user_of-Keeps u p.user_id
  block_inviter-Keeps u (err e) = search keeps_rules

  pub sync_block-Keeps : (u : ℕ) (i : ChatInvitation) → Keeps P (sync_block u i)
  unfolding sync_block Participants.find_by_id
  sync_block-Keeps u i = search (keeps_rules, block_inviter-Keeps) depth 20

  pub find_invited-Keeps : (u : ℕ) → Keeps P (find_invited u)
  unfolding find_invited Participants.find_by_user_id
  find_invited-Keeps u = search keeps_rules depth 20

  pub open_room-Keeps : (p : ℕ) (i : CreateInput) → Keeps P (open_room p i)
  unfolding open_room
  open_room-Keeps p i = search (keeps_rules, w.create_room, w.add_member) depth 20

  pub invite-Keeps : (room p q : ℕ) → Keeps P (invite room p q)
  unfolding invite
  invite-Keeps room p q = search (keeps_rules, w.create_invitation) depth 20

  pub invite_all-Keeps : (room p : ℕ) (us : List ℕ) → Keeps P (invite_all room p us)
  unfolding invite_all
  invite_all-Keeps room p [] = search keeps_rules
  invite_all-Keeps room p (u ∷ us) =
      Keeps-bind _ _ (find_invited-Keeps u)
        (λ q. Keeps-bind _ _ (invite-Keeps room p q.id) (λ _. invite_all-Keeps room p us))

  pub active_membership-Keeps : (u room : ℕ) → Keeps P (active_membership u room)
  unfolding active_membership Participants.find_by_user_id Members.find_by_room_and_participant
  active_membership-Keeps u room = search keeps_rules depth 20

  pub unregistered-Keeps : (o : Option Participant) → Keeps P (unregistered o)
  unregistered-Keeps none = search keeps_rules
  unregistered-Keeps (some p) = search keeps_rules

  pub create_detail-Keeps :
      (k : ParticipantType) (u a : Option ℕ) (d : Option String) (id : ℕ)
      → Keeps P (Participants.create_detail k u a d id)
  unfolding Participants.create_detail
  create_detail-Keeps user (some u) a d id = search w.attach
  create_detail-Keeps agent u (some a) d id = search w.attach
  create_detail-Keeps system u a (some d) id = search w.attach
  create_detail-Keeps user none a d id = search keeps_rules
  create_detail-Keeps agent u none d id = search keeps_rules
  create_detail-Keeps system u a none id = search keeps_rules

  pub create-Keeps : (p : Participant) → Keeps P (Participants.create p)
  unfolding Participants.create
  create-Keeps p = search (keeps_rules, w.insert_participant, create_detail-Keeps) depth 20
