-- ===== src/Repo/Written.antt =====
-- What the repositories' writes do, as rules of the program logic.
use tentserv_chat_server.Prelude.{
  ℕ, ◌+◌, ◌≡◌, refl, true, false, [], ◌∷◌, ◌++◌, Option, none, some, update, ◌==◌,
}
use tentserv_chat_server.Rows.{ChatMember, ChatMessage, ChatInvitation, Role, InvitationStatus}
use tentserv_chat_server.Db.{State, DbError, failed}
use tentserv_chat_server.Db.Rules.{Ends, Ends-statement, Ends-exec, Answered, Answered-if}
use tentserv_chat_server.Repo.Members
use tentserv_chat_server.Repo.Invitations
use tentserv_chat_server.Repo.Messages

module _ {Q : ChatMessage → State → Type 0} {R : DbError → State → Type 0} where
  pub Ends-create_message :
      (m : ChatMessage) (s : State)
      → Q
          (record m { id = s.next.message; created_at = s.now })
          (record s {
            tables = record s.tables {
              messages = s.tables.messages ++ Messages.stored_message m s ∷ [];
            };
            next = record s.next { message = s.next.message + 1 };
          })
      → R failed s
      → Ends Q R (Messages.create m) s
  unfolding Messages.create
  Ends-create_message m s h broken =
      Ends-statement _ s
        (λ k. Answered-if Q R s (Messages.is_message_type m.kind) _ _ (λ _. h) (λ _. broken)) broken

module _ {Q : ChatInvitation → State → Type 0} {R : DbError → State → Type 0} where
  pub Ends-create_invitation :
      (i : ChatInvitation) (s : State)
      → Q (Invitations.stored_invitation i s) (record s {
        tables = record s.tables {
          invitations = s.tables.invitations ++ Invitations.stored_invitation i s ∷ [];
        };
        next = record s.next { invitation = s.next.invitation + 1 };
      })
      → R failed s
      → Ends Q R (Invitations.create i) s
  unfolding Invitations.create
  Ends-create_invitation i s h broken = Ends-statement _ s (λ k. h) broken

module _ {Q : Unit → State → Type 0} {R : DbError → State → Type 0} where
  pub Ends-update_invitation :
      (id : ℕ) (status : InvitationStatus) (s : State)
      → Q tt (record s {
        tables = record s.tables {
          invitations =
              update (λ i. i.id == id) (Invitations.resolved status s.now) s.tables.invitations;
        };
      })
      → R failed s
      → Ends Q R (Invitations.update_status id status) s
  unfolding Invitations.update_status
  Ends-update_invitation id status s h broken = Ends-exec _ s h broken

module _ (Q : ℕ × ℕ → State → Type 0) (R : DbError → State → Type 0) where
  returned-Answered :
      (o : Option ChatMember) (s t : State)
      → ((m : ChatMember) → o ≡ some m → Q (m.id, m.joined_at) t)
      → R failed s
      → Answered Q R s (Members.returned o t)
  returned-Answered none s t h broken = broken
  returned-Answered (some m) s t h broken = h m refl

module _ {Q : ℕ × ℕ → State → Type 0} {R : DbError → State → Type 0} where
  -- An insert goes through only if the room is there and has space.
  pub Ends-add_member :
      (room p : ℕ) (role : Role) (s : State)
      → (Members.is_full room s.tables ≡ false
          → Members.has_parents room p s.tables ≡ true
          → (m : ChatMember)
          → Members.first (Members.is_of room p) (Members.upserted room p role s) ≡ some m
          → Q
              (m.id, m.joined_at)
              (record s {
                tables = record s.tables { members = Members.upserted room p role s };
                next = record s.next { member = s.next.member + 1 };
              }))
      → R failed s
      → Ends Q R (Members.add room p role) s
  unfolding Members.add
  Ends-add_member room p role s h broken =
      Ends-statement _ s
        (λ k.
          Answered-if Q R s (Members.is_full room s.tables) _ _ (λ _. broken)
            (λ space.
              Answered-if Q R s (Members.has_parents room p s.tables) _ _
                (λ parents.
                  returned-Answered Q R
                    (Members.first (Members.is_of room p) (Members.upserted room p role s)) s _
                    (h space parents) broken)
                (λ _. broken)))
        broken
