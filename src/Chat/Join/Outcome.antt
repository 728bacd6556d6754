-- ===== src/Chat/Join/Outcome.antt =====
-- What joining a room changes (internal/application/chat/usecase/join_chat_room.go).
use tentserv_chat_server.Prelude.{
  ℕ, ◌≡◌, refl, Bool, true, false, Row, ◌==◌, ◌⊎◌, inl, inr, some, if◌then◌else◌, not, any, [], ◌∷◌,
  ◌++◌,
}
use tentserv_chat_server.Rows.{ChatRoom, ChatMember, Participant, member}
use tentserv_chat_server.Db.{State, Tables, undone}
use tentserv_chat_server.Db.Rules.{
  Ends, Ends-bind, Ends-call, Ends-guard, Ends-optional, Ends-pure, Ends-raise, Ends-commit,
}
use tentserv_chat_server.Repo.Members.{is_of, is_full, upserted}
use tentserv_chat_server.Repo.Invitations.{awaits_invitee, stored_invitation}
use tentserv_chat_server.Repo.Found.{
  IsUser, Ends-find_user, Ends-find_room, Ends-find_membership, Ends-find_request,
}
use tentserv_chat_server.Repo.Written.{Ends-add_member, Ends-create_invitation}
use tentserv_chat_server.Chat.Errors.{is_active}
use tentserv_chat_server.Chat.Admission.Rules.{Ends-in_tx}
use tentserv_chat_server.Chat.Join.{
  join, join_in_tx, join_now, request_to_join, request_of, joins_directly,
}

-- the tables with the new membership
abbrev pub with_member : ℕ → ℕ → State → Tables
with_member room p s = record s.tables { members = upserted room p member s }

-- the tables with the new request
abbrev pub with_request : ℕ → ℕ → State → Tables
with_request room p s = record s.tables {
  invitations = s.tables.invitations ++ stored_invitation (request_of room p) s ∷ [];
}

-- The participant has no membership of the room, or a deleted one.
abbrev pub Absent : ℕ → ℕ → Tables → Type 0
Absent room p t =
    (any (is_of room p) t.members ≡ false)
    ⊎ ((m : ChatMember) × Row m t.members × (is_of room p m ≡ true) × (m.is_deleted ≡ true))

-- What a join leaves behind: a membership, or a request for one.
pub record Joined (u room : ℕ) (s s' : State) : Type 0 where
  pub target : ChatRoom
  pub known : Row target s.tables.rooms
  pub same_id : (target.id == room) ≡ true
  pub caller : Participant
  pub is_caller : IsUser u s.tables caller
  pub absent : Absent room caller.id s.tables
  pub tables : s'.tables ≡ (
      if joins_directly caller.kind
      then with_member room caller.id s
      else with_request room caller.id s)
  pub space : joins_directly caller.kind ≡ true → is_full room s.tables ≡ false
  pub first_request :
      joins_directly caller.kind ≡ false
      → any (awaits_invitee s.started room caller.id) s.tables.invitations ≡ false

module _ (u room : ℕ) (s : State) (r : ChatRoom) (known : Row r s.tables.rooms)
    (same_id : (r.id == room) ≡ true) (p : Participant) (is_caller : IsUser u s.tables p)
    (absent : Absent room p.id s.tables) where
  enter :
      (directly : Bool)
      → joins_directly p.kind ≡ directly
      → Ends
          (λ _ s'. Joined u room s (undone s'))
          (λ _ _. Unit)
          (if directly then join_now room p.id else request_to_join room p.id)
          (record s { saved = some s.tables })
  unfolding join_now request_to_join
  enter true e = Ends-call _ _ _ _ (
      Ends-add_member room p.id member _
        (λ space parents m at. Ends-call _ _ _ _ (
          Ends-commit _
            (Ends-pure _ _ (record {
              target = r;
              known = known;
              same_id = same_id;
              caller = p;
              is_caller = is_caller;
              absent = absent;
              tables = rw e refl;
              space = λ _. space;
              first_request = λ e'. cc;
            }))
            tt))
        tt)
  enter false e = Ends-bind _ _ _ (
      Ends-optional _ _ _ (
        Ends-find_request room p.id _ (λ i at waits. Ends-bind _ _ _ (Ends-raise _ _ tt))
          (λ first. Ends-bind _ _ _ (
            Ends-pure _ _ (
              Ends-call _ _ _ _ (
                Ends-create_invitation (request_of room p.id) _
                  (Ends-call _ _ _ _ (
                    Ends-commit _
                      (Ends-pure _ _ (record {
                        target = r;
                        known = known;
                        same_id = same_id;
                        caller = p;
                        is_caller = is_caller;
                        absent = absent;
                        tables = rw e refl;
                        space = λ e'. cc;
                        first_request = λ _. first;
                      }))
                      tt))
                  tt))))
          tt))

Absent-of_deleted :
    (room p : ℕ) (t : Tables) (m : ChatMember)
    → Row m t.members
    → is_of room p m ≡ true
    → not (is_active (some m)) ≡ true
    → Absent room p t
Absent-of_deleted room p t m at own e = inr (m, at, own, deleted m.is_deleted e)
  where
    deleted : (b : Bool) → not (elim b [ true ↦ false | false ↦ true ]) ≡ true → b ≡ true
    deleted true e = refl
    deleted false e = cc

-- A join that succeeds is into a room that exists, by a user whose participant has no membership of it or
-- a deleted one. An agent or a system participant gets the membership that the upsert gives, in a room
-- that was not full; a user's participant gets no membership but leaves a request, and only if no
-- invitation or request for it in this room was pending and, when the process started, unexpired.
-- Nothing else changes.
pub join_lem : (u room : ℕ) (s : State) → Ends (λ _. Joined u room s) (λ _ _. Unit) (join u room) s
unfolding join join_in_tx
join_lem u room s =
    Ends-in_tx _ _ s
      (Ends-call _ _ _ _ (
        Ends-find_room room _
          (λ r known same_id. Ends-call _ _ _ _ (
            Ends-find_user u _
              (λ p is_caller. Ends-bind _ _ _ (
                Ends-optional _ _ _ (
                  Ends-find_membership room p.id _
                    (λ m at own. Ends-guard (not (is_active (some m))) _ _ _ tt λ gone.
                      enter u room s r known same_id p is_caller
                        (Absent-of_deleted room p.id s.tables m at own gone) (joins_directly p.kind)
                        refl)
                    (λ none_of. Ends-guard true _ _ _ tt λ _.
                      enter u room s r known same_id p is_caller (inl none_of)
                        (joins_directly p.kind) refl)
                    tt)))
              (λ _. tt)))
          (λ _. tt)))
      (λ _. tt)
