-- ===== src/Repo/Friendships.antt =====
-- internal/infrastructure/persistence/postgres/friendship/friendship_repo.go; the table has a unique
-- pair (user_id, friend_id).
use tentserv_chat_server.Prelude.{
  ℕ, ◌+◌, Bool, List, [], ◌∷◌, ◌++◌, ◌==◌, ◌&&◌, ◌||◌, if◌then◌else◌, select, update, remove, any,
}
use tentserv_chat_server.Rows.{Friendship, FriendshipStatus, pending, blocked, awaits}
use tentserv_chat_server.Db.{
  State, DbError, duplicate_key, ok, err, M, statement, scan_one, scan_all, exec,
}

-- FindByUserID
unfoldable pub find_by_user_id : ℕ → M DbError (List Friendship)
find_by_user_id u = scan_all (λ t. select (λ f. f.user_id == u) t.friendships)

-- the row from `u` to `v`
abbrev pub is_from : ℕ → ℕ → Friendship → Bool
is_from u v f = f.user_id == u && f.friend_id == v

abbrev pub stored_friendship : ℕ → ℕ → FriendshipStatus → State → Friendship
stored_friendship u v status s = record {
  id = s.next.friendship;
  user_id = u;
  friend_id = v;
  status = status;
  created_at = s.now;
  updated_at = s.now;
}

-- createWithStatus
unfoldable pub create_with_status : ℕ → ℕ → FriendshipStatus → M DbError Unit
create_with_status u v status = statement λ k s.
    if any (is_from u v) s.tables.friendships
    then err duplicate_key
    else ok (
      tt,
      record s {
        tables = record s.tables {
          friendships = s.tables.friendships ++ stored_friendship u v status s ∷ [];
        };
        next = record s.next { friendship = s.next.friendship + 1 };
      },
    )

-- Create
unfoldable pub create : ℕ → ℕ → M DbError Unit
unfolding create_with_status
create u v = create_with_status u v pending

-- CreateBlocked
unfoldable pub create_blocked : ℕ → ℕ → M DbError Unit
unfolding create_with_status
create_blocked u v = create_with_status u v blocked

-- FindByID
unfoldable pub find_by_id : ℕ → M DbError Friendship
find_by_id id = scan_one (λ t. select (λ f. f.id == id) t.friendships)

-- FindByUserIDAndFriendID
unfoldable pub find_by_user_id_and_friend_id : ℕ → ℕ → M DbError Friendship
find_by_user_id_and_friend_id u v = scan_one (λ t. select (is_from u v) t.friendships)

-- FindBetweenUsers: either direction, whichever row the service puts first
unfoldable pub find_between_users : ℕ → ℕ → M DbError Friendship
find_between_users u v = scan_one (λ t. select (λ f. is_from u v f || is_from v u f) t.friendships)

-- FindAllByUserID
unfoldable find_all_by_user_id : ℕ → M DbError (List Friendship)
find_all_by_user_id u =
    scan_all (λ t. select (λ f. f.user_id == u || f.friend_id == u) t.friendships)

-- FindPendingByUserID
unfoldable pub find_pending_by_user_id : ℕ → M DbError (List Friendship)
find_pending_by_user_id u =
    scan_all (λ t. select (λ f. f.user_id == u && awaits f.status) t.friendships)

-- FindPendingByFriendID
unfoldable pub find_pending_by_friend_id : ℕ → M DbError (List Friendship)
find_pending_by_friend_id v =
    scan_all (λ t. select (λ f. f.friend_id == v && awaits f.status) t.friendships)

-- Delete
unfoldable pub delete : ℕ → M DbError Unit
delete id = exec λ now t. record t { friendships = remove (λ f. f.id == id) t.friendships }

abbrev pub changed : FriendshipStatus → ℕ → Friendship → Friendship
changed status now f = record f { status = status; updated_at = now }

-- UpdateStatus
unfoldable pub update_status : ℕ → FriendshipStatus → M DbError Unit
update_status id status =
    exec λ now t. record t {
      friendships = update (λ f. f.id == id) (changed status now) t.friendships;
    }
