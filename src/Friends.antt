-- ===== src/Friends.antt =====
-- internal/application/friendship/usecase: the use cases that write, and in Lists those that read.
pub mod Requests
pub mod Preserves
pub mod Failure
pub mod Lists
use tentserv_chat_server.Prelude.{ℕ, false, Option, none, some, ◌==◌, ◌||◌, not}
use tentserv_chat_server.Rows.{
  Friendship, FriendshipStatus, accepted, blocked, awaits, is_blocked, Participant, ChatRoom, Role,
  member,
}
use tentserv_chat_server.Db.{
  M, DbError, not_found, duplicate_key, Result, ok, err, pure, raise, ◌>>=◌, ◌>>◌, map_err, attempt,
  optional, require, begin_tx, commit, deferring_rollback,
}
use tentserv_chat_server.Repo.Friendships
use tentserv_chat_server.Repo.Participants
use tentserv_chat_server.Repo.Rooms
use tentserv_chat_server.Repo.Members

-- internal/domain/friendship/errors.go; `database` is a repository's error passed on as it is.
pub data FriendError : Type 0 where
  friendship_not_found already_friends friendship_already_exists friendship_not_pending :
      FriendError
  forbidden already_blocked not_blocked : FriendError
  database : DbError → FriendError

-- `if errors.Is(err, ErrFriendshipNotFound) { return e }; return err`
abbrev pub or_database : FriendError → DbError → FriendError
or_database e not_found = e
or_database e other = database other

-- `strings.Contains(..., "duplicate key value")`
abbrev pub when_duplicate : FriendError → DbError → FriendError
when_duplicate e duplicate_key = e
when_duplicate e other = database other

-- the lookup must miss
abbrev pub unrelated : Option Friendship → M FriendError Unit
unrelated none = pure tt
unrelated (some f) = raise friendship_already_exists

-- ApplyFriendshipUseCase.Execute
unfoldable pub apply : ℕ → ℕ → M FriendError Unit
apply u v = do
  found ← optional database (Friendships.find_by_user_id_and_friend_id u v)
  unrelated found
  back ← optional database (Friendships.find_by_user_id_and_friend_id v u)
  unrelated back
  map_err (when_duplicate friendship_already_exists) (Friendships.create u v)

-- A reverse row that is found is deleted; what the deletion reports is dropped.
unfoldable pub drop_reverse : Result DbError Friendship → M FriendError Unit
drop_reverse (ok f) = attempt (Friendships.delete f.id) >>= λ _. pure tt
drop_reverse (err e) = pure tt

unfoldable pub write_block : ℕ → ℕ → Option Friendship → M FriendError Unit
write_block u v none = map_err (when_duplicate already_blocked) (Friendships.create_blocked u v)
write_block u v (some f) = do
  require (not (is_blocked f.status)) already_blocked
  map_err database (Friendships.update_status f.id blocked)

-- BlockUserUseCase.Execute
unfoldable pub block : ℕ → ℕ → M FriendError Unit
unfolding drop_reverse write_block
block u v = do
  existing ← optional database (Friendships.find_by_user_id_and_friend_id u v)
  write_block u v existing
  reverse ← attempt (Friendships.find_by_user_id_and_friend_id v u)
  drop_reverse reverse

-- UnblockUserUseCase.Execute
unfoldable pub unblock : ℕ → ℕ → M FriendError Unit
unblock u v = do
  existing ← map_err (or_database not_blocked) (Friendships.find_by_user_id_and_friend_id u v)
  require (is_blocked existing.status) not_blocked
  map_err database (Friendships.delete existing.id)

-- CancelSentRequestUseCase.Execute
unfoldable pub cancel : ℕ → ℕ → M FriendError Unit
cancel u id = do
  f ← map_err (or_database friendship_not_found) (Friendships.find_by_id id)
  require (f.user_id == u) forbidden
  require (awaits f.status) friendship_not_pending
  map_err database (Friendships.delete f.id)

-- RemoveFriendshipUseCase.Execute
unfoldable pub remove_friend : ℕ → ℕ → M FriendError Unit
unfolding drop_reverse
remove_friend u id = do
  f ← map_err (or_database friendship_not_found) (Friendships.find_by_id id)
  require (f.user_id == u || f.friend_id == u) forbidden
  map_err database (Friendships.delete f.id)
  reverse ← attempt (Friendships.find_by_user_id_and_friend_id f.friend_id f.user_id)
  drop_reverse reverse

-- "Concurrent accept: duplicate key means reverse already exists"
abbrev pub tolerated : Result DbError Unit → M FriendError Unit
tolerated (ok _) = pure tt
tolerated (err duplicate_key) = pure tt
tolerated (err e) = raise (database e)

abbrev pub direct_room : ChatRoom
direct_room = record {
  id = 0;
  name = "";
  description = "";
  avatar_name = "";
  kind = "direct";
  max_members = 2;
  allow_agent = false;
  is_deleted = false;
  created_at = 0;
  updated_at = 0;
}

-- The automatic direct room is best effort: no error leaves it.
unfoldable pub seat : Participant → Participant → Result DbError ChatRoom → M FriendError Unit
seat p q (err e) = pure tt
seat p q (ok room) = do
  attempt (Members.add room.id p.id member)
  attempt (Members.add room.id q.id member)
  pure tt

unfoldable pub open_if_missing :
    Participant → Participant → Result DbError ChatRoom → M FriendError Unit
unfolding seat
open_if_missing p q (err not_found) = attempt (Rooms.create direct_room) >>= seat p q
open_if_missing p q other = pure tt

unfoldable pub open_between : Participant → Result DbError Participant → M FriendError Unit
unfolding open_if_missing
open_between p (err e) = pure tt
open_between p (ok q) =
    attempt (Rooms.find_direct_by_participants p.id q.id) >>= open_if_missing p q

unfoldable pub open_with : ℕ → Result DbError Participant → M FriendError Unit
unfolding open_between
open_with v (err e) = pure tt
open_with v (ok p) = attempt (Participants.find_by_user_id v) >>= open_between p

unfoldable pub open_direct : ℕ → ℕ → M FriendError Unit
unfolding open_with
open_direct u v = attempt (Participants.find_by_user_id u) >>= open_with v

unfoldable pub accept_in_tx : ℕ → ℕ → M FriendError Unit
unfolding open_direct
accept_in_tx u id = do
  f ← map_err (or_database friendship_not_found) (Friendships.find_by_id id)
  require (f.friend_id == u) forbidden
  require (awaits f.status) friendship_not_pending
  map_err database (Friendships.update_status f.id accepted)
  made ← attempt (Friendships.create u f.user_id)
  tolerated made
  reverse ← map_err database (Friendships.find_by_user_id_and_friend_id u f.user_id)
  map_err database (Friendships.update_status reverse.id accepted)
  map_err database commit
  open_direct u f.user_id

-- AcceptFriendshipUseCase.Execute; after the commit, the deferred rollback does nothing.
unfoldable pub accept : ℕ → ℕ → M FriendError Unit
unfolding accept_in_tx
accept u id = do map_err database begin_tx; deferring_rollback (accept_in_tx u id)
