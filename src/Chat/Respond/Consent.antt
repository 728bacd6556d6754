-- ===== src/Chat/Respond/Consent.antt =====
-- Who responds to an invitation, and what it changes
-- (internal/application/chat/usecase/respond_to_invitation.go).
use text.Mathlib.Text.{◌==◌ as str_eq}
use tentserv_chat_server.Prelude.{
  ℕ, String, ◌≡◌, refl, Bool, true, false, Row, ◌==◌, ◌||◌, ◌∙◌, any, Option, none, some,
  if◌then◌else◌, not, [],
}
use tentserv_chat_server.Rows.{
  ChatInvitation, Participant, Friendship, InvitationStatus, FriendshipStatus, accepted, rejected,
  blocked, is_pending, is_join_request,
}
use tentserv_chat_server.Db.{Tables, State, DbError, not_found, Result, ok, err, undone, ◌>>◌}
use tentserv_chat_server.Db.Rules.{Ends, Ends-bind, Ends-call, Ends-guard, Ends-weaken, Answered-if}
use tentserv_chat_server.Db.Keeps.{Keeps, Keeps-exec, Keeps-statement, keeps_rules}
use tentserv_chat_server.Repo.Participants
use tentserv_chat_server.Repo.Friendships
use tentserv_chat_server.Repo.Found.{IsUser, Ends-find_user, Ends-find_invitation}
use tentserv_chat_server.Chat.Admission.{Resolution, admit, close_with}
use tentserv_chat_server.Chat.Admission.Rules.{
  closed, admitted, Ends-in_tx, Ends-close_with, Ends-admit,
}
use tentserv_chat_server.Chat.Respond.{
  respond, respond_in_tx, sync_block, block_inviter, block_user_of, block_row, is_action,
}

-- the tables that are none of chat and friendship: keys, distributions, key requests, users, roles, agents
abbrev pub elsewhere : Tables → Tables
elsewhere t = record t {
  participants = [];
  rooms = [];
  members = [];
  invitations = [];
  friendships = [];
  messages = [];
}

-- The states differ in their friendships at most, and in the ids given out.
pub record SameButFriends (s t : State) : Type 0 where
  pub participants : t.tables.participants ≡ s.tables.participants
  pub rooms : t.tables.rooms ≡ s.tables.rooms
  pub members : t.tables.members ≡ s.tables.members
  pub invitations : t.tables.invitations ≡ s.tables.invitations
  pub messages : t.tables.messages ≡ s.tables.messages
  pub others : elsewhere t.tables ≡ elsewhere s.tables
  pub now : t.now ≡ s.now

module _ (s : State) where
  same_after :
      (t t' : State)
      → SameButFriends s t
      → t'.tables.participants ≡ t.tables.participants
      → t'.tables.rooms ≡ t.tables.rooms
      → t'.tables.members ≡ t.tables.members
      → t'.tables.invitations ≡ t.tables.invitations
      → t'.tables.messages ≡ t.tables.messages
      → elsewhere t'.tables ≡ elsewhere t.tables
      → t'.now ≡ t.now
      → SameButFriends s t'
  same_after t t' h e₁ e₂ e₃ e₄ e₅ e₆ e₇ = record {
    participants = e₁ ∙ h.participants;
    rooms = e₂ ∙ h.rooms;
    members = e₃ ∙ h.members;
    invitations = e₄ ∙ h.invitations;
    messages = e₅ ∙ h.messages;
    others = e₆ ∙ h.others;
    now = e₇ ∙ h.now;
  }

  update_friendship-Same :
      (id : ℕ) (status : FriendshipStatus)
      → Keeps (SameButFriends s) (Friendships.update_status id status)
  unfolding Friendships.update_status
  update_friendship-Same id status =
      Keeps-exec _ (λ t h. same_after t _ h refl refl refl refl refl refl refl)

  create_friendship-Same :
      (u v : ℕ) (status : FriendshipStatus)
      → Keeps (SameButFriends s) (Friendships.create_with_status u v status)
  unfolding Friendships.create_with_status
  create_friendship-Same u v status = Keeps-statement _ λ k t h.
      Answered-if (λ _. SameButFriends s) (λ _. SameButFriends s) t
        (any (Friendships.is_from u v) t.tables.friendships) _ _ (λ _. h)
        (λ _. same_after t _ h refl refl refl refl refl refl refl)

  block_row-Same :
      (u v : ℕ) (r : Result DbError Friendship) → Keeps (SameButFriends s) (block_row u v r)
  unfolding block_row Friendships.create_blocked
  block_row-Same u v (ok f) = search (keeps_rules, update_friendship-Same) depth 20
  block_row-Same u v (err not_found) = search (keeps_rules, create_friendship-Same) depth 20
  block_row-Same u v (err _) = search keeps_rules

  block_user_of-Same : (u : ℕ) (o : Option ℕ) → Keeps (SameButFriends s) (block_user_of u o)
  unfolding block_user_of Friendships.find_between_users
  block_user_of-Same u none = search keeps_rules
  block_user_of-Same u (some v) = search (keeps_rules, block_row-Same) depth 20

  block_inviter-Same :
      (u : ℕ) (r : Result DbError Participant) → Keeps (SameButFriends s) (block_inviter u r)
  unfolding block_inviter
  block_inviter-Same u (ok p) = block_user_of-Same u p.user_id
  block_inviter-Same u (err e) = search keeps_rules

  sync_block-Same : (u : ℕ) (i : ChatInvitation) → Keeps (SameButFriends s) (sync_block u i)
  unfolding sync_block Participants.find_by_id
  sync_block-Same u i = search (keeps_rules, block_inviter-Same) depth 20

-- A pending invitation to the caller; a request to join is not one.
pub record Invited (u id : ℕ) (s : State) (i : ChatInvitation) : Type 0 where
  pub invited : Row i s.tables.invitations
  pub same_id : (i.id == id) ≡ true
  pub still_open : is_pending i.status ≡ true
  pub by_another : not (is_join_request i.kind) ≡ true
  pub caller : Participant
  pub is_caller : IsUser u s.tables caller
  pub own : (i.invitee_id == caller.id) ≡ true

-- the status that an action gives: first "reject" is tested for, then "block"
abbrev pub status_after : Bool → Bool → InvitationStatus
status_after rejecting blocking =
    if rejecting then rejected else if blocking then blocked else accepted

-- What a response leaves behind.
pub record Responded (u id : ℕ) (rejecting blocking : Bool) (s : State) (o : Resolution)
    (s' : State) : Type 0 where
  pub to : ChatInvitation
  pub invited : Invited u id s to
  pub status : o.status ≡ status_after rejecting blocking
  pub invitations :
      s'.tables.invitations ≡ (closed to (status_after rejecting blocking) s).invitations
  pub members :
      s'.tables.members
      ≡ (if rejecting || blocking then s.tables.members else (admitted to s).members)
  pub rooms : s'.tables.rooms ≡ s.tables.rooms
  pub participants : s'.tables.participants ≡ s.tables.participants
  pub messages : s'.tables.messages ≡ s.tables.messages
  pub others : elsewhere s'.tables ≡ elsewhere s.tables
  pub friendships : blocking ≡ false → s'.tables.friendships ≡ s.tables.friendships

module _ (u id : ℕ) (s : State) (i : ChatInvitation) (h : Invited u id s i) where
  block_then_close :
      (t : State)
      → SameButFriends s t
      → Ends
          (λ o s'. Responded u id false true s o (undone s'))
          (λ _ _. Unit)
          (close_with i blocked)
          t
  block_then_close t same =
      Ends-close_with i blocked t
        (record {
          to = i;
          invited = h;
          status = refl;
          invitations = cc (same.invitations, same.now);
          members = same.members;
          rooms = same.rooms;
          participants = same.participants;
          messages = same.messages;
          others = same.others;
          friendships = λ e. cc;
        })
        (λ _ _. tt)

  act :
      (rejecting blocking : Bool)
      → Ends
          (λ o s'. Responded u id rejecting (if rejecting then false else blocking) s o (undone s'))
          (λ _ _. Unit)
          (if rejecting
            then close_with i rejected
            else if blocking
            then (sync_block u i >> close_with i blocked)
            else admit i)
          (record s { saved = some s.tables })
  act true b =
      Ends-close_with i rejected _
        (record {
          to = i;
          invited = h;
          status = refl;
          invitations = refl;
          members = refl;
          rooms = refl;
          participants = refl;
          messages = refl;
          others = refl;
          friendships = λ e. refl;
        })
        (λ _ _. tt)
  act false true = Ends-bind _ _ _ (
      Ends-weaken
        ((sync_block-Same s u i).at _ (record {
          participants = refl;
          rooms = refl;
          members = refl;
          invitations = refl;
          messages = refl;
          others = refl;
          now = refl;
        }))
        (λ _ t same. block_then_close t same) (λ _ _ _. tt))
  act false false =
      Ends-admit i _
        (λ space m at. record {
          to = i;
          invited = h;
          status = refl;
          invitations = refl;
          members = refl;
          rooms = refl;
          participants = refl;
          messages = refl;
          others = refl;
          friendships = λ e. refl;
        })
        (λ _ _. tt)

-- A response that succeeds is one of the three actions, made on a pending invitation, which is no request
-- to join, by the user whose participant is its invitee. The invitation then has the status of the
-- action, the answer says so, an accepting invitee has the membership that the upsert gives, and no
-- other table changes, keys, users and agents included, but the friendships, and those only by "block".
pub respond_lem :
    (u id : ℕ) (action : String) (s : State)
    → Ends
        (λ o s'.
          (is_action action ≡ true)
          × Responded u id
              (str_eq action "reject")
              (if str_eq action "reject" then false else str_eq action "block")
              s
              o
              s')
        (λ _ _. Unit)
        (respond u id action)
        s
unfolding respond respond_in_tx
respond_lem u id action s = Ends-guard (is_action action) _ _ s tt λ known.
    Ends-in_tx _ _ s
      (Ends-call _ _ _ _ (
        Ends-find_invitation id _
          (λ i invited same_id. Ends-guard (is_pending i.status) _ _ _ tt λ still_open.
            Ends-guard (not (is_join_request i.kind)) _ _ _ tt λ by_another. Ends-call _ _ _ _ (
              Ends-find_user u _
                (λ caller is_caller. Ends-guard (i.invitee_id == caller.id) _ _ _ tt λ own.
                  Ends-weaken
                    (act u id s i
                      (record {
                        invited = invited;
                        same_id = same_id;
                        still_open = still_open;
                        by_another = by_another;
                        caller = caller;
                        is_caller = is_caller;
                        own = own;
                      })
                      (str_eq action "reject") (str_eq action "block"))
                    (λ o t r. (known, r)) (λ _ _ _. tt))
                (λ _. tt)))
          (λ _. tt)))
      (λ _. tt)
