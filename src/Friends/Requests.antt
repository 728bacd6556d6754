-- ===== src/Friends/Requests.antt =====
-- What requesting, cancelling and unblocking leave behind
-- (internal/application/friendship/usecase).
use tentserv_chat_server.Prelude.{
  ℕ, ◌+◌, ◌≡◌, refl, true, false, [], ◌∷◌, ◌++◌, ◌==◌, any, remove, Row, Row-select, select-none,
}
use tentserv_chat_server.Rows.{Friendship, pending, awaits, is_blocked}
use tentserv_chat_server.Db.{State, Tables, DbError, not_found, failed, optional, ◌>>=◌, M}
use tentserv_chat_server.Db.Rules.{
  Ends, Ends-bind, Ends-call, Ends-guard, Ends-optional, Ends-lookup, Ends-pure, Ends-raise,
  Ends-exec, Ends-map_err, Ends-statement, Answered-if,
}
use tentserv_chat_server.Repo.Friendships
use tentserv_chat_server.Friends.{FriendError, apply, cancel, unblock, unrelated, database}

module _ {Q : Friendship → State → Type 0} {R : DbError → State → Type 0} where
  Ends-find_from :
      (u v : ℕ) (s : State)
      → ((f : Friendship) → Row f s.tables.friendships → Friendships.is_from u v f ≡ true → Q f s)
      → (any (Friendships.is_from u v) s.tables.friendships ≡ false → R not_found s)
      → R failed s
      → Ends Q R (Friendships.find_by_user_id_and_friend_id u v) s
  unfolding Friendships.find_by_user_id_and_friend_id
  Ends-find_from u v s h missing broken =
      Ends-lookup _ s
        (λ f at.
          let found = Row-select (Friendships.is_from u v) f s.tables.friendships at in
          h f found.0 found.1)
        (λ e. missing (select-none (Friendships.is_from u v) s.tables.friendships e)) broken

  Ends-find_friendship :
      (id : ℕ) (s : State)
      → ((f : Friendship) → Row f s.tables.friendships → (f.id == id) ≡ true → Q f s)
      → ((e : DbError) → R e s)
      → Ends Q R (Friendships.find_by_id id) s
  unfolding Friendships.find_by_id
  Ends-find_friendship id s h broken =
      Ends-lookup _ s
        (λ f at.
          let found = Row-select (λ f. f.id == id) f s.tables.friendships at in h f found.0 found.1)
        (λ _. broken not_found) (broken failed)

-- the tables without the row of this id
abbrev pub without_row : ℕ → Tables → Tables
without_row id t = record t { friendships = remove (λ f. f.id == id) t.friendships }

-- the tables with a pending request
abbrev pub with_request : ℕ → ℕ → State → Tables
with_request u v s = record s.tables {
  friendships = s.tables.friendships ++ Friendships.stored_friendship u v pending s ∷ [];
}

module _ {Q : Unit → State → Type 0} {R : DbError → State → Type 0} where
  Ends-delete :
      (id : ℕ) (s : State)
      → Q tt (record s { tables = without_row id s.tables })
      → R failed s
      → Ends Q R (Friendships.delete id) s
  unfolding Friendships.delete
  Ends-delete id s h broken = Ends-exec _ s h broken

  Ends-create :
      (u v : ℕ) (s : State)
      → (any (Friendships.is_from u v) s.tables.friendships ≡ false
          → Q tt (record s {
            tables = with_request u v s;
            next = record s.next { friendship = s.next.friendship + 1 };
          }))
      → ((e : DbError) → R e s)
      → Ends Q R (Friendships.create u v) s
  unfolding Friendships.create Friendships.create_with_status
  Ends-create u v s h broken =
      Ends-statement _ s
        (λ k.
          Answered-if Q R s (any (Friendships.is_from u v) s.tables.friendships) _ _ (λ _. broken _)
            (λ new. h new))
        (broken _)

module _ {Q : Unit → State → Type 0} {R : FriendError → State → Type 0} where
  -- a lookup that must miss, before the rest
  Ends-unrelated :
      (u v : ℕ) (m : M FriendError Unit) (s : State)
      → (any (Friendships.is_from u v) s.tables.friendships ≡ false → Ends Q R m s)
      → ((e : FriendError) → R e s)
      → Ends Q R
          (optional database (Friendships.find_by_user_id_and_friend_id u v) >>= λ found.
            (unrelated found >>= λ _. m))
          s
  Ends-unrelated u v m s h broken = Ends-bind _ _ s (
      Ends-optional _ _ s (
        Ends-find_from u v s (λ f at own. Ends-bind _ _ s (Ends-raise _ s (broken _)))
          (λ new. Ends-bind _ _ s (Ends-pure tt s (h new))) (broken _)))

-- A friendship request that succeeds is between users with no friendship row in either direction, and
-- appends one pending row and nothing else. One that fails changes no table.
pub apply_lem :
    (u v : ℕ) (s : State)
    → Ends
        (λ _ s'.
          (any (Friendships.is_from u v) s.tables.friendships ≡ false)
          × (any (Friendships.is_from v u) s.tables.friendships ≡ false)
          × (s'.tables ≡ with_request u v s))
        (λ _ s'. s'.tables ≡ s.tables)
        (apply u v)
        s
unfolding apply
apply_lem u v s =
    Ends-unrelated u v _ s
      (λ new.
        Ends-unrelated v u _ s
          (λ new'. Ends-map_err _ _ s (Ends-create u v s (λ _. (new, new', refl)) (λ _. refl)))
          (λ _. refl))
      (λ _. refl)

-- A cancellation that succeeds removes the row of that id and nothing else; a row of that id is a
-- pending request by the caller. One that fails changes no table.
pub cancel_lem :
    (u id : ℕ) (s : State)
    → Ends
        (λ _ s'.
          ((f : Friendship) × Row f s.tables.friendships
            × ((f.id == id) ≡ true)
            × ((f.user_id == u) ≡ true)
            × (awaits f.status ≡ true)
            × (s'.tables ≡ without_row f.id s.tables)))
        (λ _ s'. s'.tables ≡ s.tables)
        (cancel u id)
        s
unfolding cancel
cancel_lem u id s = Ends-call _ _ _ s (
    Ends-find_friendship id s
      (λ f at same. Ends-guard (f.user_id == u) _ _ s refl λ own.
        Ends-guard (awaits f.status) _ _ s refl λ open_still.
          Ends-map_err _ _ s (Ends-delete f.id s (f, at, same, own, open_still, refl) refl))
      (λ _. refl))

-- Unblocking succeeds only if a row from the caller to the other user is blocked; it removes the row of
-- its id and nothing else. If it fails, it changes no table.
pub unblock_lem :
    (u v : ℕ) (s : State)
    → Ends
        (λ _ s'.
          ((f : Friendship) × Row f s.tables.friendships
            × (Friendships.is_from u v f ≡ true)
            × (is_blocked f.status ≡ true)
            × (s'.tables ≡ without_row f.id s.tables)))
        (λ _ s'. s'.tables ≡ s.tables)
        (unblock u v)
        s
unfolding unblock
unblock_lem u v s = Ends-call _ _ _ s (
    Ends-find_from u v s
      (λ f at own.
        Ends-guard (is_blocked f.status) _ _ s refl
          λ shut. Ends-map_err _ _ s (Ends-delete f.id s (f, at, own, shut, refl) refl))
      (λ _. refl) refl)
