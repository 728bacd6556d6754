-- ===== src/Repo/Members.antt =====
-- internal/infrastructure/persistence/postgres/chat/chat_member_repo.go, and the trigger
-- `limit_member_of_room` of dev-doc/sql/postgres_chat.sql, which runs before each insert.
use tentserv_chat_server.Prelude.{
  ℕ, ◌+◌, Bool, true, false, Option, none, some, List, [], ◌∷◌, ◌++◌, ◌==◌, ◌&&◌, not, ltb, leb,
  if◌then◌else◌, select, update, remove, any, count,
}
use tentserv_chat_server.Rows.{
  ChatMember, ChatRoom, Participant, ParticipantType, system, Role, guest,
}
use tentserv_chat_server.Db.{
  Tables, State, DbError, failed, Result, ok, err, M, statement, scan_one, scan_all, exec,
}

-- FindByID
unfoldable pub find_by_id : ℕ → M DbError ChatMember
find_by_id id = scan_one (λ t. select (λ m. m.id == id) t.members)

abbrev pub is_of : ℕ → ℕ → ChatMember → Bool
is_of room p m = m.room_id == room && m.participant_id == p

-- FindByRoomAndParticipant: soft-deleted rows are found too
unfoldable pub find_by_room_and_participant : ℕ → ℕ → M DbError ChatMember
find_by_room_and_participant room p = scan_one (λ t. select (is_of room p) t.members)

-- FindByRoom
unfoldable pub find_by_room : ℕ → M DbError (List ChatMember)
find_by_room room = scan_all (λ t. select (λ m. m.room_id == room) t.members)

-- FindByParticipant
unfoldable pub find_by_participant : ℕ → M DbError (List ChatMember)
find_by_participant p = scan_all (λ t. select (λ m. m.participant_id == p) t.members)

abbrev pub is_system : ParticipantType → Bool
is_system system = true
is_system _ = false

-- the rows that the trigger counts
abbrev pub occupies : ℕ → List Participant → ChatMember → Bool
occupies room ps m =
    m.room_id == room
    && not m.is_deleted
    && any (λ p. p.id == m.participant_id && not (is_system p.kind)) ps

abbrev pub is_full_room : List Participant → List ChatMember → ChatRoom → Bool
is_full_room ps ms r = ltb 0 r.max_members && leb r.max_members (count (occupies r.id ps) ms)

-- The trigger refuses a row for this room.
abbrev pub is_full : ℕ → Tables → Bool
is_full room t = any (λ r. r.id == room && is_full_room t.participants t.members r) t.rooms

-- the row that an insert adds; the columns that it leaves out take their defaults
abbrev pub fresh_member : ℕ → ℕ → Role → State → ChatMember
fresh_member room p role s = record {
  id = s.next.member;
  room_id = room;
  participant_id = p;
  role = role;
  is_muted = false;
  is_deleted = false;
  last_read_at = none;
  joined_at = s.now;
  updated_at = s.now;
  deleted_at = none;
}

-- ON CONFLICT (room_id, participant_id) DO UPDATE: the role is left as it was
abbrev pub revived : ℕ → ChatMember → ChatMember
revived now m = record m {
  is_deleted = false;
  deleted_at = none;
  joined_at = if m.is_deleted then now else m.joined_at;
  updated_at = now;
}

abbrev pub upserted : ℕ → ℕ → Role → State → List ChatMember
upserted room p role s =
    if any (is_of room p) s.tables.members
    then update (is_of room p) (revived s.now) s.tables.members
    else s.tables.members ++ fresh_member room p role s ∷ []

-- RETURNING id, joined_at
abbrev pub returned : Option ChatMember → State → Result DbError ((ℕ × ℕ) × State)
returned none s = err failed
returned (some m) s = ok ((m.id, m.joined_at), s)

abbrev pub first : (ChatMember → Bool) → List ChatMember → Option ChatMember
first p [] = none
first p (m ∷ ms) = if p m then some m else first p ms

-- the row's foreign keys point at rows
abbrev pub has_parents : ℕ → ℕ → Tables → Bool
has_parents room p t = any (λ r. r.id == room) t.rooms && any (λ q. q.id == p) t.participants

-- the row is written, if the trigger lets it through
abbrev pub added : ℕ → ℕ → Role → State → Result DbError ((ℕ × ℕ) × State)
added room p role s =
    if has_parents room p s.tables
    then returned (first (is_of room p) (upserted room p role s)) (record s {
      tables = record s.tables { members = upserted room p role s };
      next = record s.next { member = s.next.member + 1 };
    })
    else err failed

-- Add
unfoldable pub add : ℕ → ℕ → Role → M DbError (ℕ × ℕ)
add room p role =
    statement (λ k s. if is_full room s.tables then err failed else added room p role s)

-- the columns that an UPDATE sets
abbrev pub rewritten : ChatMember → ℕ → ChatMember → ChatMember
rewritten row now m = record m {
  role = row.role;
  is_muted = row.is_muted;
  last_read_at = row.last_read_at;
  updated_at = now;
}

-- Update
unfoldable pub update_member : ChatMember → M DbError Unit
update_member row =
    exec λ now t. record t { members = update (λ m. m.id == row.id) (rewritten row now) t.members }

-- SoftDelete
unfoldable soft_delete : ℕ → M DbError Unit
soft_delete id = exec λ now t. record t {
  members =
      update (λ m. m.id == id)
        (λ m. record m { is_deleted = true; deleted_at = some now; updated_at = now }) t.members;
}

-- Remove
unfoldable remove_member : ℕ → ℕ → M DbError Unit
remove_member room p = exec λ now t. record t { members = remove (is_of room p) t.members }

-- chatmember.CanSendMessage, chatmember.CanUploadMedia: every role but guest
unfoldable pub can_send_message : Role → Bool
can_send_message guest = false
can_send_message _ = true
