-- ===== src/Chat/Invited/Told.antt =====
-- What a caller is told about an invitation (internal/application/chat/usecase/get_my_room_invitation.go).
use tentserv_chat_server.Prelude.{
  ℕ, String, ◌≡◌, refl, true, false, Bool-cases, Option, none, some, List, [], ◌==◌, inl, inr,
  select, Row, Row-select,
}
use tentserv_chat_server.Rows.{Participant, ChatInvitation, User}
use tentserv_chat_server.Db.{State, DbError, Result, ok, err, pure, optional, gets}
use tentserv_chat_server.Db.Rules.{
  Ends, Ends-pure, Ends-bind, Ends-call, Ends-gets, Ends-lookup, Ends-optional, Ends-weaken,
}
use tentserv_chat_server.Repo.Invitations
use tentserv_chat_server.Repo.Found.{IsUser, Ends-find_user}
use tentserv_chat_server.Chat.Errors.{invitation_query}
use tentserv_chat_server.Chat.Overview.Seen.{find_user-Keeps, find_participant-Keeps, Ends-tried}
use tentserv_chat_server.Chat.Invited.{
  RoomInvitation, nothing_found, found_as, with_inviter, inviter_of, looked_up,
  resolve_inviter_info, as_inviter, as_invitee, get_my_room_invitation,
}

abbrev pub invitations_to : ℕ → ℕ → State → List ChatInvitation
invitations_to room p s = select (Invitations.awaits_invitee s.started room p) s.tables.invitations

-- the same answer but for the inviter
pub record SameAnswer (o o' : RoomInvitation) : Type 0 where
  pub found : o'.found ≡ o.found
  pub id : o'.invitation_id ≡ o.invitation_id
  pub role : o'.role ≡ o.role

SameAnswer-with_inviter :
    (o : RoomInvitation) (r : Result DbError (User × List String)) → SameAnswer o (with_inviter o r)
SameAnswer-with_inviter o (ok u) = record { found = refl; id = refl; role = refl }
SameAnswer-with_inviter o (err e) = record { found = refl; id = refl; role = refl }

resolve_lem :
    (inviter : ℕ) (o : RoomInvitation) (s : State)
    → Ends (λ o' t. (t ≡ s) × SameAnswer o o') (λ _ t. t ≡ s) (resolve_inviter_info inviter o) s
unfolding resolve_inviter_info
resolve_lem inviter o s = Ends-tried _ _ s (find_participant-Keeps inviter) lookup
  where
    same : SameAnswer o o
    same = record { found = refl; id = refl; role = refl }

    lookup :
        (r : Result DbError Participant)
        → Ends (λ o' t. (t ≡ s) × SameAnswer o o') (λ _ t. t ≡ s) (looked_up o r) s
    lookup (err e) = Ends-pure _ s (refl, same)
    lookup (ok p) = named p.user_id
      where
        named :
            (u : Option ℕ)
            → Ends (λ o' t. (t ≡ s) × SameAnswer o o') (λ _ t. t ≡ s) (inviter_of o u) s
        named none = Ends-pure _ s (refl, same)
        named (some u) = Ends-tried _ _ s (find_user-Keeps u) λ r.
            let k = SameAnswer-with_inviter (record o { inviter_user_id = some u }) r in
            Ends-pure _ s (refl, record { found = k.found; id = k.id; role = k.role })

-- The answer to a participant: an open invitation to it, or, where there is none, one of its own to someone else, or none.
pub data Answer (room p : ℕ) (s : State) (o : RoomInvitation) : Type 0 where
  invited :
      (i : ChatInvitation)
      → Row i s.tables.invitations
      → Invitations.awaits_invitee s.started room p i ≡ true
      → SameAnswer (found_as "invitee" i) o
      → Answer room p s o
  inviting :
      (i : ChatInvitation)
      → invitations_to room p s ≡ []
      → Row i s.tables.invitations
      → Invitations.awaits_inviter s.started room p i ≡ true
      → (i.inviter_id == i.invitee_id) ≡ false
      → o ≡ found_as "inviter" i
      → Answer room p s o
  neither : invitations_to room p s ≡ [] → o ≡ nothing_found → Answer room p s o

module _ (room p : ℕ) (s : State) where
  inviting_lem :
      invitations_to room p s ≡ []
      → Ends (λ o t. (t ≡ s) × Answer room p s o) (λ _ t. t ≡ s) (as_invitee room p none) s
  unfolding Invitations.find_pending_by_room_and_inviter
  inviting_lem absent =
      Ends-bind
        (optional (λ _. invitation_query) (Invitations.find_pending_by_room_and_inviter room p))
        (λ i. pure (as_inviter i)) s
        (Ends-optional _ _ s (
          Ends-bind (gets (λ s. s.started)) _ s (
            Ends-gets _ s (
              Ends-lookup _ s
                (λ i at.
                  let (known, own) =
                    Row-select (Invitations.awaits_inviter s.started room p) i s.tables.invitations
                      at in
                  Ends-pure _ s (
                    refl,
                    elim (Bool-cases (i.inviter_id == i.invitee_id)) [
                      | inl same ↦ neither absent (rw same refl)
                      | inr other ↦ inviting i absent known own other (rw other refl)
                    ],
                  ))
                (λ _. Ends-pure _ s (refl, neither absent refl)) refl))))

-- The use case changes nothing. Call a row of the room open if it is pending and had not expired when the
-- process started; a participant's request to join is such a row, with the participant as its invitee and
-- its inviter. A caller who is the invitee of an open row, an own request to join included, is told of
-- one, as its invitee. Where there is none, a caller who is the inviter of an open row to someone else may
-- be told of one, as its inviter. Every other answer is that nothing was found.
pub get_my_room_invitation_lem :
    (user room : ℕ) (s : State)
    → Ends
        (λ o t. (t ≡ s) × ((p : Participant) × IsUser user s.tables p × Answer room p.id s o))
        (λ _ t. t ≡ s)
        (get_my_room_invitation user room)
        s
unfolding get_my_room_invitation Invitations.find_by_room_and_invitee
get_my_room_invitation_lem user room s = Ends-call _ _ _ s (
    Ends-find_user user s
      (λ p is_caller.
        Ends-bind
          (optional (λ _. invitation_query) (Invitations.find_by_room_and_invitee room p.id))
          (as_invitee room p.id) s
          (Ends-optional _ _ s (
            Ends-bind (gets (λ s. s.started)) _ s (
              Ends-gets _ s (
                Ends-lookup _ s
                  (λ i at.
                    let (known, own) =
                      Row-select (Invitations.awaits_invitee s.started room p.id) i
                        s.tables.invitations at in
                    Ends-weaken (resolve_lem i.inviter_id (found_as "invitee" i) s)
                      (λ o t k. (k.0, (p, is_caller, invited i known own k.1))) (λ _ t k. k))
                  (λ absent.
                    Ends-weaken (inviting_lem room p.id s absent)
                      (λ o t k. (k.0, (p, is_caller, k.1))) (λ _ t k. k))
                  refl)))))
      (λ _. refl))
