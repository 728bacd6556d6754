-- ===== src/Repo/Invitations.antt =====
-- internal/infrastructure/persistence/postgres/chat/chat_invitation_repo.go
use tentserv_chat_server.Prelude.{
  ℕ, ◌+◌, Bool, true, none, some, List, [], ◌∷◌, ◌++◌, ◌==◌, ◌&&◌, ltb, select, update,
}
use tentserv_chat_server.Rows.{ChatInvitation, InvitationStatus, is_pending}
use tentserv_chat_server.Db.{
  State, DbError, ok, M, statement, scan_one, scan_all, exec, ◌>>=◌, gets,
}

abbrev pub stored_invitation : ChatInvitation → State → ChatInvitation
stored_invitation inv s = record inv {
  id = s.next.invitation;
  created_at = s.now;
  updated_at = s.now;
}

-- Create
unfoldable pub create : ChatInvitation → M DbError ChatInvitation
create inv = statement λ k s. ok (
  stored_invitation inv s,
  record s {
    tables = record s.tables { invitations = s.tables.invitations ++ stored_invitation inv s ∷ [] };
    next = record s.next { invitation = s.next.invitation + 1 };
  },
)

-- FindByID
unfoldable pub find_by_id : ℕ → M DbError ChatInvitation
find_by_id id = scan_one (λ t. select (λ i. i.id == id) t.invitations)

-- notExpired: its `time.Now()` ran once, when the package was initialised
abbrev pub not_expired : ℕ → ChatInvitation → Bool
not_expired started i = elim i.expires_at [ none ↦ true | some e ↦ ltb started e ]

abbrev pub awaits_invitee : ℕ → ℕ → ℕ → ChatInvitation → Bool
awaits_invitee started room p i =
    i.room_id == room && i.invitee_id == p && is_pending i.status && not_expired started i

-- FindByRoomAndInvitee
unfoldable pub find_by_room_and_invitee : ℕ → ℕ → M DbError ChatInvitation
find_by_room_and_invitee room p = do
  started ← gets (λ s. s.started)
  scan_one (λ t. select (awaits_invitee started room p) t.invitations)

abbrev pub awaits_inviter : ℕ → ℕ → ℕ → ChatInvitation → Bool
awaits_inviter started room p i =
    i.room_id == room && i.inviter_id == p && is_pending i.status && not_expired started i

-- FindPendingByRoomAndInviter
unfoldable pub find_pending_by_room_and_inviter : ℕ → ℕ → M DbError ChatInvitation
find_pending_by_room_and_inviter room p = do
  started ← gets (λ s. s.started)
  scan_one (λ t. select (awaits_inviter started room p) t.invitations)

-- FindByRoom
unfoldable find_by_room : ℕ → M DbError (List ChatInvitation)
find_by_room room = scan_all (λ t. select (λ i. i.room_id == room) t.invitations)

abbrev pub resolved : InvitationStatus → ℕ → ChatInvitation → ChatInvitation
resolved status now i = record i { status = status; updated_at = now }

-- UpdateStatus
unfoldable pub update_status : ℕ → InvitationStatus → M DbError Unit
update_status id status =
    exec λ now t. record t {
      invitations = update (λ i. i.id == id) (resolved status now) t.invitations;
    }
