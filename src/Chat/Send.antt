-- ===== src/Chat/Send.antt =====
-- internal/application/chat/usecase/send_message.go. `fan_out` is the goroutine that `Execute` starts:
-- it names the users that the payload is handed to, in order; the JSON text is not modelled.
pub mod Delivered
use text.Mathlib.Text.{◌==◌ as str_eq}
use tentserv_chat_server.Prelude.{
  ℕ, String, Bool, true, false, Option, none, some, List, [], ◌∷◌, ◌||◌, not, if◌then◌else◌,
}
use tentserv_chat_server.Rows.{ChatMember, ChatMessage, Participant}
use tentserv_chat_server.Db.{
  M, DbError, Result, ok, err, pure, ◌>>=◌, ◌>>◌, map_err, attempt, require,
}
use tentserv_chat_server.Repo.Participants
use tentserv_chat_server.Repo.Members
use tentserv_chat_server.Repo.Messages
use tentserv_chat_server.Chat.Errors.{
  ChatError, or_database, participant_not_found, not_room_member, not_allowed, invalid_message_type,
  send_message,
}
use tentserv_chat_server.Chat.MediaPath.{is_safe_path}

-- SendMessageInput
pub record SendInput : Type 0 where
  pub room_id : ℕ
  pub content : List ℕ
  pub kind : String
  pub reply_to_id : Option ℕ

-- SendMessageOutput
pub record SendOutput : Type 0 where
  pub message_id : ℕ
  pub room_id : ℕ
  pub sender_id : ℕ
  pub content : List ℕ
  pub kind : String
  pub reply_to_id : Option ℕ
  pub created_at : ℕ

-- the `switch` on the type
unfoldable pub is_sendable : String → Bool
is_sendable kind = str_eq kind "text" || str_eq kind "image" || str_eq kind "file"

unfoldable pub is_media : String → Bool
is_media kind = str_eq kind "image" || str_eq kind "file"

-- only the content of an image or a file is checked
unfoldable pub is_valid_content : String → List ℕ → Bool
unfolding is_media
is_valid_content kind content = if is_media kind then is_safe_path content else true

-- The caller's membership; every error of the second lookup is ErrNotRoomMember.
unfoldable pub active_membership : ℕ → ℕ → M ChatError ChatMember
active_membership user_id room = do
  caller ← map_err (or_database participant_not_found) (Participants.find_by_user_id user_id)
  membership ← map_err (λ _. not_room_member) (Members.find_by_room_and_participant room caller.id)
  require (not membership.is_deleted) not_room_member
  pure membership

abbrev pub message_of : SendInput → ℕ → ChatMessage
message_of input sender = record {
  id = 0;
  room_id = input.room_id;
  sender_id = sender;
  content = input.content;
  kind = input.kind;
  reply_to_id = input.reply_to_id;
  is_edited = false;
  is_deleted = false;
  created_at = 0;
  updated_at = 0;
}

abbrev pub sent : ChatMessage → SendOutput
sent m = record {
  message_id = m.id;
  room_id = m.room_id;
  sender_id = m.sender_id;
  content = m.content;
  kind = m.kind;
  reply_to_id = m.reply_to_id;
  created_at = m.created_at;
}

-- SendMessageUseCase.Execute
unfoldable pub send : ℕ → SendInput → M ChatError SendOutput
unfolding active_membership
send user_id input = do
  membership ← active_membership user_id input.room_id
  require (Members.can_send_message membership.role) not_allowed
  require (is_sendable input.kind) invalid_message_type
  require (is_valid_content input.kind input.content) invalid_message_type
  m ← map_err (λ _. send_message) (Messages.create (message_of input membership.id))
  pure (sent m)

-- `err != nil || p.UserID == nil` skips the member
abbrev pub address_of : Result DbError Participant → Option ℕ
address_of (ok p) = p.user_id
address_of (err e) = none

unfoldable pub recipient : ChatMember → M ChatError (Option ℕ)
recipient m =
    if m.is_deleted
    then pure none
    else do found ← attempt (Participants.find_by_id m.participant_id); pure (address_of found)

abbrev pub and_then : Option ℕ → List ℕ → List ℕ
and_then none us = us
and_then (some u) us = u ∷ us

unfoldable pub recipients : List ChatMember → M ChatError (List ℕ)
unfolding recipient
recipients [] = pure []
recipients (m ∷ ms) = do u ← recipient m; rest ← recipients ms; pure (and_then u rest)

abbrev pub or_nobody : Result DbError (List ChatMember) → List ChatMember
or_nobody (ok ms) = ms
or_nobody (err e) = []

-- SendMessageUseCase.fanOut
unfoldable pub fan_out : ℕ → M ChatError (List ℕ)
unfolding recipients
fan_out room = do members ← attempt (Members.find_by_room room); recipients (or_nobody members)
