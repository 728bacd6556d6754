-- ===== src/Chat/Approve/Authority.antt =====
-- Who approves a join request, and what it changes
-- (internal/application/chat/usecase/approve_join_request.go).
use tentserv_chat_server.Prelude.{ℕ, ◌≡◌, refl, Bool, true, false, Row, ◌==◌, some, if◌then◌else◌}
use tentserv_chat_server.Rows.{
  ChatInvitation, ChatMember, Participant, accepted, rejected, is_pending, is_join_request,
}
use tentserv_chat_server.Db.{State, undone}
use tentserv_chat_server.Db.Rules.{Ends, Ends-call, Ends-guard}
use tentserv_chat_server.Repo.Members.{is_of, is_full}
use tentserv_chat_server.Repo.Found.{
  IsUser, Ends-find_user, Ends-find_membership, Ends-find_invitation,
}
use tentserv_chat_server.Chat.Errors.{is_admin}
use tentserv_chat_server.Chat.Admission.{Resolution, admit, close_with}
use tentserv_chat_server.Chat.Admission.Rules.{
  closed, admitted, Ends-in_tx, Ends-close_with, Ends-admit,
}
use tentserv_chat_server.Chat.Approve.{approve, approve_in_tx}

-- A pending join request, and the caller's membership of its room as owner or admin.
pub record Authorised (u id : ℕ) (s : State) (i : ChatInvitation) : Type 0 where
  pub requested : Row i s.tables.invitations
  pub same_id : (i.id == id) ≡ true
  pub still_open : is_pending i.status ≡ true
  pub asked : is_join_request i.kind ≡ true
  pub caller : Participant
  pub is_caller : IsUser u s.tables caller
  pub membership : ChatMember
  pub joined : Row membership s.tables.members
  pub own : is_of i.room_id caller.id membership ≡ true
  pub admin : is_admin membership.role ≡ true

-- What a decision on a request leaves behind.
pub record Decided (u id : ℕ) (approved : Bool) (s : State) (o : Resolution) (s' : State)
    : Type 0 where
  pub request : ChatInvitation
  pub authorised : Authorised u id s request
  pub space : approved ≡ true → is_full request.room_id s.tables ≡ false
  pub status : o.status ≡ (if approved then accepted else rejected)
  pub tables : s'.tables ≡ (if approved then admitted request s else closed request rejected s)

module _ (u id : ℕ) (s : State) (i : ChatInvitation) (a : Authorised u id s i) where
  decide :
      (approved : Bool)
      → Ends
          (λ o s'. Decided u id approved s o (undone s'))
          (λ _ _. Unit)
          (if approved then admit i else close_with i rejected)
          (record s { saved = some s.tables })
  decide true =
      Ends-admit i _
        (λ space m at. record {
          request = i;
          authorised = a;
          space = λ _. space;
          status = refl;
          tables = refl;
        })
        (λ _ _. tt)
  decide false =
      Ends-close_with i rejected _
        (record { request = i; authorised = a; space = λ e. cc; status = refl; tables = refl })
        (λ _ _. tt)

-- A decision that succeeds was made on a pending join request, by a user whose participant has a
-- membership of the request's room with the role owner or admin. It answers `accepted` or `rejected` as
-- was decided, and changes nothing but this: the request has that status now, and an approved
-- participant, whose room was not full, has the membership that the upsert gives.
pub approve_lem :
    (u id : ℕ) (approved : Bool) (s : State)
    → Ends (Decided u id approved s) (λ _ _. Unit) (approve u id approved) s
unfolding approve approve_in_tx
approve_lem u id approved s =
    Ends-in_tx _ _ s
      (Ends-call _ _ _ _ (
        Ends-find_invitation id _
          (λ i requested same_id. Ends-guard (is_pending i.status) _ _ _ tt λ still_open.
            Ends-guard (is_join_request i.kind) _ _ _ tt λ asked. Ends-call _ _ _ _ (
              Ends-find_user u _
                (λ caller is_caller. Ends-call _ _ _ _ (
                  Ends-find_membership i.room_id caller.id _
                    (λ m joined own. Ends-guard (is_admin m.role) _ _ _ tt λ admin.
                      decide u id s i
                        (record {
                          requested = requested;
                          same_id = same_id;
                          still_open = still_open;
                          asked = asked;
                          caller = caller;
                          is_caller = is_caller;
                          membership = m;
                          joined = joined;
                          own = own;
                          admin = admin;
                        })
                        approved)
                    (λ _. tt) tt))
                (λ _. tt)))
          (λ _. tt)))
      (λ _. tt)
