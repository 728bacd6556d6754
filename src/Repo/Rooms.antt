-- ===== src/Repo/Rooms.antt =====
-- internal/infrastructure/persistence/postgres/chat/chat_group_repo.go
use text.Mathlib.Text.{◌==◌ as str_eq}
use tentserv_chat_server.Prelude.{
  ℕ, ◌+◌, String, Bool, true, false, List, [], ◌∷◌, ◌++◌, ◌==◌, ◌&&◌, ◌||◌, not, if◌then◌else◌,
  select, update, any,
}
use tentserv_chat_server.Rows.{ChatRoom, ChatMember}
use tentserv_chat_server.Db.{State, DbError, failed, ok, err, M, statement, scan_one, exec}

-- FindByID
unfoldable pub find_by_id : ℕ → M DbError ChatRoom
find_by_id id = scan_one (λ t. select (λ r. r.id == id) t.rooms)

-- the values of the column type chat_room_type
unfoldable pub is_room_type : String → Bool
is_room_type t = str_eq t "direct" || str_eq t "group" || str_eq t "channel" || str_eq t "bot"

-- The stored row: the id, the flags and the instants are the database's.
abbrev pub stored_room : ChatRoom → State → ChatRoom
stored_room r s = record r {
  id = s.next.room;
  is_deleted = false;
  created_at = s.now;
  updated_at = s.now;
}

-- Create. Only the id comes back: the caller's `created_at` stays as it was.
unfoldable pub create : ChatRoom → M DbError ChatRoom
create r = statement λ k s.
    if is_room_type r.kind
    then ok (
      record r { id = s.next.room },
      record s {
        tables = record s.tables { rooms = s.tables.rooms ++ stored_room r s ∷ [] };
        next = record s.next { room = s.next.room + 1 };
      },
    )
    else err failed

-- An active membership, as the two joins of FindDirectByParticipants ask for it.
abbrev pub is_active_in : ℕ → ℕ → ChatMember → Bool
is_active_in room p m = m.room_id == room && m.participant_id == p && not m.is_deleted

abbrev pub is_direct_of : ℕ → ℕ → List ChatMember → ChatRoom → Bool
is_direct_of p q members r =
    str_eq r.kind "direct"
    && not r.is_deleted
    && any (is_active_in r.id p) members
    && any (is_active_in r.id q) members

-- FindDirectByParticipants
unfoldable pub find_direct_by_participants : ℕ → ℕ → M DbError ChatRoom
find_direct_by_participants p q = scan_one (λ t. select (is_direct_of p q t.members) t.rooms)

-- SoftDelete
unfoldable soft_delete : ℕ → M DbError Unit
soft_delete id = exec λ now t. record t {
  rooms = update (λ r. r.id == id) (λ r. record r { is_deleted = true; updated_at = now }) t.rooms;
}

-- Update
unfoldable update_room : ChatRoom → M DbError Unit
update_room row = exec λ now t. record t {
  rooms =
      update (λ r. r.id == row.id)
        (λ r. record r {
          name = row.name;
          description = row.description;
          avatar_name = row.avatar_name;
          max_members = row.max_members;
          allow_agent = row.allow_agent;
          updated_at = now;
        })
        t.rooms;
}
