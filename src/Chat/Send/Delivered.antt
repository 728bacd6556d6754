-- ===== src/Chat/Send/Delivered.antt =====
-- What SendMessageUseCase.Execute of internal/application/chat/usecase/send_message.go leaves behind.
use tentserv_chat_server.Prelude.{ℕ, ◌≡◌, refl, true, not, Row, [], ◌∷◌, ◌++◌}
use tentserv_chat_server.Rows.{ChatMember, Participant}
use tentserv_chat_server.Db.{State, Tables}
use tentserv_chat_server.Db.Rules.{Ends, Ends-bind, Ends-call, Ends-guard, Ends-pure}
use tentserv_chat_server.Repo.Members.{is_of, can_send_message}
use tentserv_chat_server.Repo.Messages.{stored_message}
use tentserv_chat_server.Repo.Found.{IsUser, Ends-find_user, Ends-find_membership}
use tentserv_chat_server.Repo.Written.{Ends-create_message}
use tentserv_chat_server.Chat.Errors.{ChatError}
use tentserv_chat_server.Chat.Send.{
  SendInput, SendOutput, send, active_membership, message_of, sent, is_sendable, is_valid_content,
}

-- The row is the user's membership of the room, and it is not deleted.
pub record Belongs (u room : ℕ) (t : Tables) (m : ChatMember) : Type 0 where
  pub caller : Participant
  pub is_caller : IsUser u t caller
  pub joined : Row m t.members
  pub own : is_of room caller.id m ≡ true
  pub active : not m.is_deleted ≡ true

module _ {Q : ChatMember → State → Type 0} {R : ChatError → State → Type 0} where
  pub Ends-active_membership :
      (u room : ℕ) (s : State)
      → ((m : ChatMember) → Belongs u room s.tables m → Q m s)
      → ((e : ChatError) → R e s)
      → Ends Q R (active_membership u room) s
  unfolding active_membership
  Ends-active_membership u room s h broken = Ends-call _ _ _ s (
      Ends-find_user u s
        (λ p is_caller. Ends-call _ _ _ s (
          Ends-find_membership room p.id s
            (λ m joined own. Ends-guard (not m.is_deleted) _ _ s (broken _) λ live. Ends-pure m s (
              h m (record {
                caller = p;
                is_caller = is_caller;
                joined = joined;
                own = own;
                active = live;
              })))
            (λ _. broken _) (broken _)))
        (λ e. broken _))

-- The answer to a sent message, and the tables after it, for the sender's membership.
pub record Sent (u : ℕ) (input : SendInput) (s : State) (o : SendOutput) (s' : State) : Type 0 where
  pub sender : ChatMember
  pub belongs : Belongs u input.room_id s.tables sender
  pub permitted : can_send_message sender.role ≡ true
  pub sendable : is_sendable input.kind ≡ true
  pub valid : is_valid_content input.kind input.content ≡ true
  pub answer :
      o ≡ sent (record (message_of input sender.id) { id = s.next.message; created_at = s.now })
  pub stored : s'.tables ≡ record s.tables {
    messages = s.tables.messages ++ stored_message (message_of input sender.id) s ∷ [];
  }

-- SendMessageUseCase either appends one message and nothing else, sent by the caller's own membership of
-- the room, which is not deleted and whose role may write, of a type that users may send and with content
-- that is valid for it, and answers with that message's id and instant; or it fails and changes no table.
pub send_lem :
    (u : ℕ) (input : SendInput) (s : State)
    → Ends (Sent u input s) (λ _ s'. s'.tables ≡ s.tables) (send u input) s
unfolding send
send_lem u input s = Ends-bind _ _ s (
    Ends-active_membership u input.room_id s
      (λ m belongs. Ends-guard (can_send_message m.role) _ _ s refl λ permitted.
        Ends-guard (is_sendable input.kind) _ _ s refl λ sendable.
          Ends-guard (is_valid_content input.kind input.content) _ _ s refl λ valid.
            Ends-call _ _ _ s (
              Ends-create_message _ s
                (Ends-pure _ _ (record {
                  sender = m;
                  belongs = belongs;
                  permitted = permitted;
                  sendable = sendable;
                  valid = valid;
                  answer = refl;
                  stored = refl;
                }))
                refl))
      (λ _. refl))
