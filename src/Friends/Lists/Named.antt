-- ===== src/Friends/Lists/Named.antt =====
-- What the lists of friends and requests show.
use tentserv_chat_server.Prelude.{
  ℕ, ◌≡◌, refl, Bool, true, List, String, [], ◌∷◌, ◌==◌, ◌&&◌, select, All, Row, Row-select, inl,
  inr,
}
use tentserv_chat_server.Rows.{Friendship, User, awaits}
use tentserv_chat_server.Db.{
  State, DbError, not_found, failed, pure, ◌>>=◌, attempt, scan_one, scan_all,
}
use tentserv_chat_server.Db.Rules.{
  Ends, Ends-pure, Ends-bind, Ends-scan_all, Ends-lookup, Ends-weaken, Ends-attempt,
}
use tentserv_chat_server.Repo.Friendships
use tentserv_chat_server.Repo.Users
use tentserv_chat_server.Friends.Lists.{
  friend_item, request_item, listed, get_friends, get_friend_requests, get_sent_requests,
}

-- an item made of a friendship of the kind asked for, and of the row of the user on its other side
abbrev pub Names :
    {A : Type 0}
    → (Friendship → Bool)
    → (Friendship → ℕ)
    → (Friendship → User → A)
    → State
    → A
    → Type 0
Names p other item s i =
    (f : Friendship) × (u : User) × Row f s.tables.friendships
    × (p f ≡ true)
    × Row u s.tables.users
    × ((u.id == other f) ≡ true)
    × (i ≡ item f u)

module _ {Q : User × List String → State → Type 0} {R : DbError → State → Type 0} where
  Ends-find_user_row :
      (i : ℕ) (s : State)
      → ((u : User) (codes : List String)
          → Row u s.tables.users
          → (u.id == i) ≡ true
          → Q (u, codes) s)
      → ((e : DbError) → R e s)
      → Ends Q R (Users.find_by_id i) s
  unfolding Users.find_by_id Users.find_role_codes
  Ends-find_user_row i s h broken =
      Ends-bind (scan_one (λ t. select (λ x. x.id == i) t.users)) _ s (
        Ends-lookup _ s
          (λ u at.
            let found = Row-select (λ x. x.id == i) u s.tables.users at in
            Ends-bind (Users.find_role_codes u.id) (λ codes. pure (u, codes)) s
              (Ends-scan_all _ s (Ends-pure _ s (h u _ found.0 found.1)) (broken failed)))
          (λ _. broken not_found) (broken failed))

module _ {A : Type 0} (p : Friendship → Bool) (other : Friendship → ℕ)
    (item : Friendship → User → A) (s : State) where
  listed-Names :
      (fs : List Friendship)
      → ((f : Friendship) → Row f fs → Row f s.tables.friendships × (p f ≡ true))
      → Ends
          (λ is t. (t ≡ s) × All (Names p other item s) is)
          (λ _ t. t ≡ s)
          (listed other item fs)
          s
  unfolding listed
  listed-Names [] h = Ends-pure [] s (refl, tt)
  listed-Names (f ∷ fs) h =
      let rest = listed-Names fs (λ g at. h g (inr at)) in
      let own = h f (inl refl) in
      Ends-bind (attempt (Users.find_by_id (other f))) _ s (
        Ends-attempt _ s (
          Ends-find_user_row (other f) s
            (λ u codes known same.
              Ends-bind (listed other item fs) (λ is. pure (item f u ∷ is)) s
                (Ends-weaken rest
                  (λ is t k. Ends-pure _ t (k.0, ((f, u, own.0, own.1, known, same, refl), k.1)))
                  (λ _ t k. k)))
            (λ e.
              Ends-bind (listed other item fs) (λ is. pure is) s
                (Ends-weaken rest (λ is t k. Ends-pure is t k) (λ _ t k. k)))))

  found-Names :
      Ends
        (λ is t. (t ≡ s) × All (Names p other item s) is)
        (λ _ t. t ≡ s)
        (scan_all (λ t. select p t.friendships) >>= listed other item)
        s
  found-Names = Ends-bind (scan_all (λ t. select p t.friendships)) (listed other item) s (
      Ends-scan_all _ s
        (listed-Names (select p s.tables.friendships)
          (λ f at. Row-select p f s.tables.friendships at))
        refl)

-- The lists change nothing, and show rows of the caller only, each with the name and the avatar of the user on its
-- other side: GetFriends those that the caller is the source of, GetFriendRequests the pending ones to the
-- caller, and GetSentRequests the pending ones from the caller.
pub lists_lem :
    (user : ℕ) (s : State)
    → Ends
        (λ is t. (t ≡ s) × All (Names (λ f. f.user_id == user) (λ f. f.friend_id) friend_item s) is)
        (λ _ t. t ≡ s)
        (get_friends user)
        s
      × Ends
          (λ is t.
            (t ≡ s)
            × All
                (Names
                  (λ f. f.friend_id == user && awaits f.status)
                  (λ f. f.user_id)
                  (request_item (λ f. f.user_id))
                  s)
                is)
          (λ _ t. t ≡ s)
          (get_friend_requests user)
          s
      × Ends
          (λ is t.
            (t ≡ s)
            × All
                (Names
                  (λ f. f.user_id == user && awaits f.status)
                  (λ f. f.friend_id)
                  (request_item (λ f. f.friend_id))
                  s)
                is)
          (λ _ t. t ≡ s)
          (get_sent_requests user)
          s
unfolding get_friends get_friend_requests get_sent_requests Friendships.find_by_user_id
    Friendships.find_pending_by_friend_id Friendships.find_pending_by_user_id
lists_lem user s = (found-Names _ _ _ s, found-Names _ _ _ s, found-Names _ _ _ s)
