-- ===== src/Repo/Found.antt =====
-- What the repositories' lookups find, as rules of the program logic.
use tentserv_chat_server.Prelude.{
  ℕ, ◌≡◌, true, false, Row, Row-select, Row-map, refers, select, select-none, any, ◌==◌, map,
}
use tentserv_chat_server.Rows.{Participant, ChatMember, ChatRoom, ChatInvitation}
use tentserv_chat_server.Db.{Tables, State, DbError, not_found, failed}
use tentserv_chat_server.Db.Rules.{Ends, Ends-lookup, Ends-bind, Ends-gets}
use tentserv_chat_server.Repo.Participants
use tentserv_chat_server.Repo.Members
use tentserv_chat_server.Repo.Rooms
use tentserv_chat_server.Repo.Invitations

-- `p` was read from a row of the user.
pub record IsUser (u : ℕ) (t : Tables) (p : Participant) : Type 0 where
  pub row : Participant
  pub known : Row row t.participants
  pub same_user : refers row.user_id u ≡ true
  pub same_id : row.id ≡ p.id
  pub same_kind : row.kind ≡ p.kind

is_user :
    (u : ℕ) (t : Tables) (p : Participant)
    → Row p (map Participants.bare_user (select (λ p. refers p.user_id u) t.participants))
    → IsUser u t p
is_user u t p at =
    let (row, at', e) =
      Row-map Participants.bare_user p (select (λ p. refers p.user_id u) t.participants) at in
    let (known, same) = Row-select (λ p. refers p.user_id u) row t.participants at' in
    record { row = row; known = known; same_user = same; same_id = cc; same_kind = cc }

module _ {Q : Participant → State → Type 0} {R : DbError → State → Type 0} where
  pub Ends-find_user :
      (u : ℕ) (s : State)
      → ((p : Participant) → IsUser u s.tables p → Q p s)
      → ((e : DbError) → R e s)
      → Ends Q R (Participants.find_by_user_id u) s
  unfolding Participants.find_by_user_id
  Ends-find_user u s h broken =
      Ends-lookup _ s (λ p at. h p (is_user u s.tables p at)) (λ _. broken not_found)
        (broken failed)

module _ {Q : ChatMember → State → Type 0} {R : DbError → State → Type 0} where
  pub Ends-find_membership :
      (room p : ℕ) (s : State)
      → ((m : ChatMember) → Row m s.tables.members → Members.is_of room p m ≡ true → Q m s)
      → (any (Members.is_of room p) s.tables.members ≡ false → R not_found s)
      → R failed s
      → Ends Q R (Members.find_by_room_and_participant room p) s
  unfolding Members.find_by_room_and_participant
  Ends-find_membership room p s h missing broken =
      Ends-lookup _ s
        (λ m at.
          let found = Row-select (Members.is_of room p) m s.tables.members at in
          h m found.0 found.1)
        (λ e. missing (select-none (Members.is_of room p) s.tables.members e)) broken

module _ {Q : ChatRoom → State → Type 0} {R : DbError → State → Type 0} where
  pub Ends-find_room :
      (id : ℕ) (s : State)
      → ((r : ChatRoom) → Row r s.tables.rooms → (r.id == id) ≡ true → Q r s)
      → ((e : DbError) → R e s)
      → Ends Q R (Rooms.find_by_id id) s
  unfolding Rooms.find_by_id
  Ends-find_room id s h broken =
      Ends-lookup _ s
        (λ r at.
          let found = Row-select (λ r. r.id == id) r s.tables.rooms at in h r found.0 found.1)
        (λ _. broken not_found) (broken failed)

module _ {Q : ChatInvitation → State → Type 0} {R : DbError → State → Type 0} where
  pub Ends-find_invitation :
      (id : ℕ) (s : State)
      → ((i : ChatInvitation) → Row i s.tables.invitations → (i.id == id) ≡ true → Q i s)
      → ((e : DbError) → R e s)
      → Ends Q R (Invitations.find_by_id id) s
  unfolding Invitations.find_by_id
  Ends-find_invitation id s h broken =
      Ends-lookup _ s
        (λ i at.
          let found = Row-select (λ i. i.id == id) i s.tables.invitations at in h i found.0 found.1)
        (λ _. broken not_found) (broken failed)

  pub Ends-find_request :
      (room p : ℕ) (s : State)
      → ((i : ChatInvitation)
          → Row i s.tables.invitations
          → Invitations.awaits_invitee s.started room p i ≡ true
          → Q i s)
      → (any (Invitations.awaits_invitee s.started room p) s.tables.invitations ≡ false
          → R not_found s)
      → R failed s
      → Ends Q R (Invitations.find_by_room_and_invitee room p) s
  unfolding Invitations.find_by_room_and_invitee
  Ends-find_request room p s h missing broken = Ends-bind _ _ s (
      Ends-gets _ s (
        Ends-lookup _ s
          (λ i at.
            let found =
              Row-select (Invitations.awaits_invitee s.started room p) i s.tables.invitations at in
            h i found.0 found.1)
          (λ e.
            missing
              (select-none (Invitations.awaits_invitee s.started room p) s.tables.invitations e))
          broken))
