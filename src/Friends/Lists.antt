-- ===== src/Friends/Lists.antt =====
-- get_friends_usecase.go, get_friend_requests_usecase.go and get_sent_requests_usecase.go
pub mod Named
use tentserv_chat_server.Prelude.{ℕ, String, List, [], ◌∷◌}
use tentserv_chat_server.Rows.{Friendship, FriendshipStatus, User}
use tentserv_chat_server.Db.{M, DbError, Result, ok, err, pure, ◌>>=◌, attempt}
use tentserv_chat_server.Repo.Friendships
use tentserv_chat_server.Repo.Users

pub record FriendItem : Type 0 where
  pub friendship_id : ℕ
  pub user_id : ℕ
  pub name : String
  pub avatar : String
  pub status : FriendshipStatus
  pub created_at : ℕ

-- FriendRequestItem and SentRequestItem
pub record RequestItem : Type 0 where
  pub friendship_id : ℕ
  pub user_id : ℕ
  pub name : String
  pub avatar : String
  pub created_at : ℕ

abbrev pub friend_item : Friendship → User → FriendItem
friend_item f u = record {
  friendship_id = f.id;
  user_id = f.friend_id;
  name = u.name;
  avatar = u.avatar;
  status = f.status;
  created_at = f.created_at;
}

abbrev pub request_item : (Friendship → ℕ) → Friendship → User → RequestItem
request_item other f u = record {
  friendship_id = f.id;
  user_id = other f;
  name = u.name;
  avatar = u.avatar;
  created_at = f.created_at;
}

module _ {A : Type 0} (other : Friendship → ℕ) (item : Friendship → User → A) where
  -- `continue` on an error
  abbrev pub with_item : Friendship → Result DbError (User × List String) → List A → List A
  with_item f (err e) rest = rest
  with_item f (ok (u, codes)) rest = item f u ∷ rest

  -- the loop that the three use cases share
  unfoldable pub listed : List Friendship → M DbError (List A)
  unfolding Users.find_by_id
  listed [] = pure []
  listed (f ∷ fs) = do
    u ← attempt (Users.find_by_id (other f))
    rest ← listed fs
    pure (with_item f u rest)

-- GetFriendsUseCase.Execute
unfoldable pub get_friends : ℕ → M DbError (List FriendItem)
unfolding listed
get_friends user = do
  fs ← Friendships.find_by_user_id user
  listed (λ f. f.friend_id) friend_item fs

-- GetFriendRequestsUseCase.Execute
unfoldable pub get_friend_requests : ℕ → M DbError (List RequestItem)
unfolding listed
get_friend_requests user = do
  fs ← Friendships.find_pending_by_friend_id user
  listed (λ f. f.user_id) (request_item (λ f. f.user_id)) fs

-- GetSentRequestsUseCase.Execute
unfoldable pub get_sent_requests : ℕ → M DbError (List RequestItem)
unfolding listed
get_sent_requests user = do
  fs ← Friendships.find_pending_by_user_id user
  listed (λ f. f.friend_id) (request_item (λ f. f.friend_id)) fs
