-- ===== src/Repo/Messages.antt =====
-- internal/infrastructure/persistence/postgres/chat/chat_message_repo.go
use text.Mathlib.Text.{◌==◌ as str_eq}
use tentserv_chat_server.Prelude.{
  ℕ, ◌+◌, String, Bool, true, false, List, [], ◌∷◌, ◌++◌, ◌==◌, ◌&&◌, ◌||◌, not, ltb, leb,
  if◌then◌else◌, select, update, take, drop, count, reverse,
}
use tentserv_chat_server.Rows.{ChatMessage}
use tentserv_chat_server.Db.{
  State, DbError, failed, ok, err, M, statement, scan_all, scan_one, exec, ◌>>=◌, pure,
}

-- the values of the column type chat_message_type
unfoldable pub is_message_type : String → Bool
is_message_type t =
    str_eq t "text" || str_eq t "image" || str_eq t "file" || str_eq t "icon" || str_eq t "system"

abbrev pub stored_message : ChatMessage → State → ChatMessage
stored_message m s = record m {
  id = s.next.message;
  is_edited = false;
  is_deleted = false;
  created_at = s.now;
  updated_at = s.now;
}

-- Create, which returns the id and the instant
unfoldable pub create : ChatMessage → M DbError ChatMessage
create m = statement λ k s.
    if is_message_type m.kind
    then ok (
      record m { id = s.next.message; created_at = s.now },
      record s {
        tables = record s.tables { messages = s.tables.messages ++ stored_message m s ∷ [] };
        next = record s.next { message = s.next.message + 1 };
      },
    )
    else err failed

-- ORDER BY key DESC, by insertion; rows with equal keys keep their order
unfoldable pub insert_desc : (ChatMessage → ℕ) → ChatMessage → List ChatMessage → List ChatMessage
insert_desc key m [] = m ∷ []
insert_desc key m (x ∷ xs) = if leb (key x) (key m) then m ∷ x ∷ xs else x ∷ insert_desc key m xs

unfoldable pub order_desc : (ChatMessage → ℕ) → List ChatMessage → List ChatMessage
unfolding insert_desc
order_desc key [] = []
order_desc key (x ∷ xs) = insert_desc key x (order_desc key xs)

-- FindByRoom
unfoldable pub find_by_room : ℕ → ℕ → ℕ → M DbError (List ChatMessage)
find_by_room room limit offset = scan_all λ t.
    take limit
      (drop offset (order_desc (λ m. m.created_at) (select (λ m. m.room_id == room) t.messages)))

-- FindByRoomBefore, whose loop reverses the answer in place
unfoldable pub find_by_room_before : ℕ → ℕ → ℕ → M DbError (List ChatMessage)
find_by_room_before room before limit = do
  rows ← scan_all λ t. take limit (
      order_desc (λ m. m.id)
        (select (λ m. m.room_id == room && not m.is_deleted && ltb m.id before) t.messages))
  pure (reverse rows)

-- CountByRoomAfter
unfoldable count_by_room_after : ℕ → ℕ → M DbError ℕ
count_by_room_after room since = statement λ k s. ok (
  count (λ m. m.room_id == room && not m.is_deleted && ltb since m.created_at) s.tables.messages,
  s,
)

-- SoftDelete
unfoldable soft_delete : ℕ → M DbError Unit
soft_delete id = exec λ now t. record t {
  messages =
      update (λ m. m.id == id) (λ m. record m { is_deleted = true; updated_at = now }) t.messages;
}

-- FindByID
unfoldable find_by_id : ℕ → M DbError ChatMessage
find_by_id id = scan_one (λ t. select (λ m. m.id == id) t.messages)

-- FindLatestByRoom
unfoldable find_latest_by_room : ℕ → M DbError ChatMessage
find_latest_by_room room = scan_one λ t.
    take 1 (order_desc (λ m. m.id) (select (λ m. m.room_id == room && not m.is_deleted) t.messages))

-- FindBySender
unfoldable find_by_sender : ℕ → M DbError (List ChatMessage)
find_by_sender sender =
    scan_all (λ t. order_desc (λ m. m.created_at) (select (λ m. m.sender_id == sender) t.messages))

-- Update
unfoldable update_message : ChatMessage → M DbError Unit
update_message row = exec λ now t. record t {
  messages =
      update (λ m. m.id == row.id)
        (λ m. record m { content = row.content; is_edited = row.is_edited; updated_at = now })
        t.messages;
}
