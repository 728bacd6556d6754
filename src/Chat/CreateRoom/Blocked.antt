-- ===== src/Chat/CreateRoom/Blocked.antt =====
-- A block keeps direct rooms from being opened (internal/application/chat/usecase/create_chat_room.go).
use tentserv_chat_server.Prelude.{
  ℕ, ◌≡◌, Bool, true, some, [], ◌∷◌, ◌||◌, any, All, All-Row, Row-select, select-none, not,
}
use tentserv_chat_server.Rows.{Friendship, is_blocked}
use tentserv_chat_server.Db.{State}
use tentserv_chat_server.Db.Rules.{
  Ends, Ends-bind, Ends-call, Ends-guard, Ends-optional, Ends-lookup,
}
use tentserv_chat_server.Repo.Friendships.{is_from, find_between_users}
use tentserv_chat_server.Repo.Found.{Ends-find_user}
use tentserv_chat_server.Chat.Admission.Rules.{Ends-in_tx}
use tentserv_chat_server.Chat.CreateRoom.{
  CreateInput, create_chat_room, create_in_tx, create_by, create_direct, find_invited, is_direct,
}

-- the rows between two users, in either direction
abbrev pub between : ℕ → ℕ → Friendship → Bool
between u v f = is_from u v f || is_from v u f

-- The row, if it is between the two users, is blocked.
abbrev pub AgreesToBlock : ℕ → ℕ → Friendship → Type 0
AgreesToBlock u v f = between u v f ≡ true → is_blocked f.status ≡ true

module _ (u v : ℕ) (input : CreateInput) (s : State)
    (some_row : any (between u v) s.tables.friendships ≡ true)
    (all_blocked : All (AgreesToBlock u v) s.tables.friendships) where
  create_direct_blocked :
      (p : ℕ)
      → Ends
          (λ _ _. ⊥)
          (λ _ _. Unit)
          (create_direct u p v input)
          (record s { saved = some s.tables })
  unfolding create_direct find_invited find_between_users
  create_direct_blocked p = Ends-call _ _ _ _ (
      Ends-find_user v _
        (λ q is_v. Ends-bind _ _ _ (
          Ends-optional _ _ _ (
            Ends-lookup _ _
              (λ f at.
                let found = Row-select (between u v) f s.tables.friendships at in
                let shut =
                  All-Row (AgreesToBlock u v) f s.tables.friendships all_blocked found.0 found.1 in
                Ends-guard (not (is_blocked f.status)) _ _ _ tt (λ e. cc (e, shut)))
              (λ e. cc (select-none (between u v) s.tables.friendships e, some_row)) tt)))
        (λ _. tt))

-- When some friendship row stands between the caller and the one invited user, and every such row is
-- blocked, no request opens a direct room between them, or answers with one: creating it fails.
pub create_chat_room_blocked :
    (u v : ℕ) (input : CreateInput) (s : State)
    → is_direct input.kind ≡ true
    → input.member_ids ≡ v ∷ []
    → any (between u v) s.tables.friendships ≡ true
    → All (AgreesToBlock u v) s.tables.friendships
    → Ends (λ _ _. ⊥) (λ _ _. Unit) (create_chat_room u input) s
unfolding create_chat_room create_in_tx create_by find_invited
create_chat_room_blocked u v input s direct one some_row all_blocked =
    Ends-in_tx _ _ s
      (Ends-call _ _ _ _ (
        Ends-find_user u _
          (λ p is_u. rw (one, direct) (create_direct_blocked u v input s some_row all_blocked p.id))
          (λ _. tt)))
      (λ _. tt)
