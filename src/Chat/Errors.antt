-- ===== src/Chat/Errors.antt =====
-- internal/application/chat/usecase/errors.go
use tentserv_chat_server.Prelude.{Bool, true, false, Option, none, some}
use tentserv_chat_server.Rows.{ChatMember, Role, owner, admin}
use tentserv_chat_server.Db.{DbError, not_found, Result, ok, err}

-- `database` is a repository's error passed on as it is.
pub data ChatError : Type 0 where
  create_participant get_participant participant_already_exists participant_not_found : ChatError
  chat_room_not_found chat_room_create already_member : ChatError
  invitation_query invitation_not_found invitation_create : ChatError
  invitation_already_exists invitation_already_resolved : ChatError
  not_room_admin not_room_member user_blocked : ChatError
  invalid_invitation_action invalid_invitation_type not_invitee not_allowed : ChatError
  invalid_message_type send_message : ChatError
  invalid_file_type upload_room_media : ChatError
  database : DbError → ChatError

-- `if errors.Is(err, ErrNotFound) { return ..., e }; return ..., err`
abbrev pub or_database : ChatError → DbError → ChatError
or_database e not_found = e
or_database e other = database other

-- `existing != nil && !existing.IsDeleted`
abbrev pub is_active : Option ChatMember → Bool
is_active none = false
is_active (some m) = elim m.is_deleted [ true ↦ false | false ↦ true ]

-- `err == nil && !existing.IsDeleted`
abbrev pub found_active : Result DbError ChatMember → Bool
found_active (err e) = false
found_active (ok m) = elim m.is_deleted [ true ↦ false | false ↦ true ]

-- `Role == Owner || Role == Admin`
abbrev pub is_admin : Role → Bool
is_admin owner = true
is_admin admin = true
is_admin _ = false
