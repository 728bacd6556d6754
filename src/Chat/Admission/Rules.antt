-- ===== src/Chat/Admission/Rules.antt =====
-- What closing an invitation does to the tables, as rules of the program logic, and the rule for the
-- transaction of a use case.
use tentserv_chat_server.Prelude.{ℕ, ◌+◌, ◌≡◌, false, some, none, update, ◌==◌, not}
use tentserv_chat_server.Rows.{ChatInvitation, ChatMember, InvitationStatus, accepted, member}
use tentserv_chat_server.Db.{
  Tables, State, DbError, Result, ok, err, M, ◌>>=◌, map_err, begin_tx, undone, attempt,
  deferring_rollback,
}
use tentserv_chat_server.Db.Rules.{
  Ends, Ends-bind, Ends-map_err, Ends-attempt, Ends-require, Ends-pure, Ends-commit, Ends-begin_tx,
  Ends-deferring_rollback,
}
use tentserv_chat_server.Repo.Members.{
  is_of, is_full, upserted, first, find_by_room_and_participant,
}
use tentserv_chat_server.Repo.Invitations.{resolved}
use tentserv_chat_server.Repo.Found.{Ends-find_membership}
use tentserv_chat_server.Repo.Written.{Ends-add_member, Ends-update_invitation}
use tentserv_chat_server.Chat.Errors.{ChatError, found_active}
use tentserv_chat_server.Chat.Admission.{Resolution, without_member, close_with, admit}

module _ {E A : Type 0} {Q : A → State → Type 0} {R : E → State → Type 0} where
  pub Ends-in_tx :
      (f : DbError → E) (m : M E A) (s : State)
      → Ends (λ a t. Q a (undone t)) (λ e t. R e (undone t)) m (record s { saved = some s.tables })
      → ((e : E) → R e s)
      → Ends Q R (map_err f begin_tx >>= λ _. deferring_rollback m) s
  Ends-in_tx f m s h broken =
      Ends-bind _ _ s
        (Ends-map_err f begin_tx s (Ends-begin_tx s (Ends-deferring_rollback m _ h) (broken _)))

-- the tables with the invitation resolved
abbrev pub closed : ChatInvitation → InvitationStatus → State → Tables
closed i status s = record s.tables {
  invitations = update (λ x. x.id == i.id) (resolved status s.now) s.tables.invitations;
}

-- the tables with the invitation accepted and the invitee a member
abbrev pub admitted : ChatInvitation → State → Tables
admitted i s = record (closed i accepted s) { members = upserted i.room_id i.invitee_id member s }

module _ {F : Type 0} {Q : Result DbError ChatMember → State → Type 0}
    {R : F → State → Type 0} where
  -- a lookup whose result is looked at later
  Ends-attempt_membership :
      (room p : ℕ) (s : State)
      → ((r : Result DbError ChatMember) → Q r s)
      → Ends Q R (attempt (find_by_room_and_participant room p)) s
  Ends-attempt_membership room p s h =
      Ends-attempt _ s
        (Ends-find_membership room p s (λ m _ _. h (ok m)) (λ _. h (err _)) (h (err _)))

module _ {Q : Resolution → State → Type 0} {R : ChatError → State → Type 0} where
  pub Ends-close_with :
      (i : ChatInvitation) (status : InvitationStatus) (s : State)
      → Q (without_member i.id status) (record s { tables = closed i status s; saved = none })
      → ((e : ChatError) (t : State) → R e t)
      → Ends Q R (close_with i status) s
  unfolding close_with
  Ends-close_with i status s h broken = Ends-bind _ _ s (
      Ends-map_err _ _ s (
        Ends-update_invitation i.id status s
          (Ends-bind _ _ _ (Ends-map_err _ _ _ (Ends-commit _ (Ends-pure _ _ h) (broken _ _))))
          (broken _ _)))

  -- The membership that the output names is the one in the tables.
  pub Ends-admit :
      (i : ChatInvitation) (s : State)
      → (is_full i.room_id s.tables ≡ false
          → (m : ChatMember)
          → first (is_of i.room_id i.invitee_id) (upserted i.room_id i.invitee_id member s) ≡ some m
          → Q
              (record {
                invitation_id = i.id;
                status = accepted;
                member_id = some m.id;
                role = some member;
                joined_at = some m.joined_at;
              })
              (record s {
                tables = admitted i s;
                next = record s.next { member = s.next.member + 1 };
                saved = none;
              }))
      → ((e : ChatError) (t : State) → R e t)
      → Ends Q R (admit i) s
  unfolding admit
  Ends-admit i s h broken = Ends-bind _ _ s (
      Ends-attempt_membership i.room_id i.invitee_id s (λ existing. Ends-bind _ _ s (
        Ends-require (not (found_active existing)) _ s
          (λ _. Ends-bind _ _ s (
            Ends-map_err _ _ s (
              Ends-add_member i.room_id i.invitee_id member s
                (λ space parents m at. Ends-bind _ _ _ (
                  Ends-map_err _ _ _ (
                    Ends-update_invitation i.id accepted _
                      (Ends-bind _ _ _ (
                        Ends-map_err _ _ _
                          (Ends-commit _ (Ends-pure _ _ (h space m at)) (broken _ _))))
                      (broken _ _))))
                (broken _ _))))
          (λ _. broken _ _))))
