-- ===== src/Chat/Reading.antt =====
-- internal/application/chat/usecase/get_chat_room_messages.go
pub mod Pages
use tentserv_chat_server.Prelude.{
  ℕ, String, Bool, Option, List, [], ◌∷◌, not, map, select, reverse, ltb, ◌==◌, length,
  if◌then◌else◌,
}
use tentserv_chat_server.Rows.{ChatMember, ChatMessage}
use tentserv_chat_server.Db.{M, pure, ◌>>=◌, ◌>>◌, map_err}
use tentserv_chat_server.Repo.Members
use tentserv_chat_server.Repo.Messages
use tentserv_chat_server.Chat.Errors.{ChatError, database}
use tentserv_chat_server.Chat.Send.{active_membership}

-- ChatMessageInfo
pub record MessageInfo : Type 0 where
  pub message_id : ℕ
  pub sender_id : ℕ
  pub sender_participant_id : ℕ
  pub content : List ℕ
  pub kind : String
  pub reply_to_id : Option ℕ
  pub is_edited : Bool
  pub created_at : ℕ

-- GetChatRoomMessagesOutput
pub record Page : Type 0 where
  pub messages : List MessageInfo
  pub has_more : Bool

-- 0 asks for the default of 20, and no page holds more than 100
unfoldable pub page_limit : ℕ → ℕ
page_limit limit = if limit == 0 then 20 else if ltb 100 limit then 100 else limit

-- The loop that fills memberParticipantMap, seen at one key: a later row overwrites an earlier one.
unfoldable pub mapped_to : ℕ → List ChatMember → ℕ → ℕ
mapped_to p [] id = p
mapped_to p (m ∷ ms) id = mapped_to (if m.id == id then m.participant_id else p) ms id

-- memberParticipantMap[id]; a missing key gives 0
unfoldable pub participant_of : List ChatMember → ℕ → ℕ
unfolding mapped_to
participant_of ms id = mapped_to 0 ms id

abbrev pub info_of : List ChatMember → ChatMessage → MessageInfo
info_of members m = record {
  message_id = m.id;
  sender_id = m.sender_id;
  sender_participant_id = participant_of members m.sender_id;
  content = m.content;
  kind = m.kind;
  reply_to_id = m.reply_to_id;
  is_edited = m.is_edited;
  created_at = m.created_at;
}

-- The rows of the page, oldest first. Both loops that reverse in place are `reverse`.
unfoldable pub page_rows : ℕ → ℕ → ℕ → M ChatError (List ChatMessage)
page_rows room before limit =
    if before == 0
    then (map_err database (Messages.find_by_room room limit 0) >>= λ rows. pure (reverse rows))
    else map_err database (Messages.find_by_room_before room before limit)

abbrev pub page_of : List ChatMember → List ChatMessage → ℕ → Page
page_of members rows limit = record {
  messages = map (info_of members) (select (λ m. not m.is_deleted) rows);
  has_more = length rows == limit;
}

-- GetChatRoomMessagesUseCase.Execute
unfoldable pub get_messages : ℕ → ℕ → ℕ → ℕ → M ChatError Page
unfolding page_limit page_rows
get_messages user_id room before asked = do
  active_membership user_id room
  members ← map_err database (Members.find_by_room room)
  rows ← page_rows room before (page_limit asked)
  pure (page_of members rows (page_limit asked))
