-- ===== src/Friends/Preserves.antt =====
-- Whatever survives every repository write survives the friendship use cases.
use tentserv_chat_server.Prelude.{ℕ, Option, none, some}
use tentserv_chat_server.Rows.{Friendship, Participant, ChatRoom}
use tentserv_chat_server.Db.{
  State, M, DbError, not_found, duplicate_key, Result, ok, err, map_err, begin_tx, commit,
  deferring_rollback,
}
use tentserv_chat_server.Db.Keeps.{Keeps, Keeps-map_err, Keeps-deferring_rollback, keeps_rules}
use tentserv_chat_server.Repo.Stable.{Stable, Transactional}
use tentserv_chat_server.Repo.Friendships
use tentserv_chat_server.Repo.Participants
use tentserv_chat_server.Repo.Rooms
use tentserv_chat_server.Friends.{
  apply, block, unblock, cancel, remove_friend, accept, accept_in_tx, unrelated, drop_reverse,
  write_block, tolerated, seat, open_if_missing, open_between, open_with, open_direct,
}

module _ {P : State → Type 0} (w : Stable P) where
  unrelated-Keeps : (o : Option Friendship) → Keeps P (unrelated o)
  unrelated-Keeps none = search keeps_rules
  unrelated-Keeps (some f) = search keeps_rules

  pub create-Keeps : (u v : ℕ) → Keeps P (Friendships.create u v)
  unfolding Friendships.create
  create-Keeps u v = w.create_friendship u v _

  create_blocked-Keeps : (u v : ℕ) → Keeps P (Friendships.create_blocked u v)
  unfolding Friendships.create_blocked
  create_blocked-Keeps u v = w.create_friendship u v _

  pub apply-Keeps : (u v : ℕ) → Keeps P (apply u v)
  unfolding apply Friendships.find_by_user_id_and_friend_id
  apply-Keeps u v = search (keeps_rules, unrelated-Keeps, create-Keeps) depth 20

  drop_reverse-Keeps : (r : Result DbError Friendship) → Keeps P (drop_reverse r)
  unfolding drop_reverse
  drop_reverse-Keeps (ok f) = search (keeps_rules, w.delete_friendship) depth 20
  drop_reverse-Keeps (err e) = search keeps_rules

  write_block-Keeps : (u v : ℕ) (o : Option Friendship) → Keeps P (write_block u v o)
  unfolding write_block
  write_block-Keeps u v none = search (keeps_rules, create_blocked-Keeps) depth 20
  write_block-Keeps u v (some f) = search (keeps_rules, w.update_friendship) depth 20

  pub block-Keeps : (u v : ℕ) → Keeps P (block u v)
  unfolding block Friendships.find_by_user_id_and_friend_id
  block-Keeps u v = search (keeps_rules, write_block-Keeps, drop_reverse-Keeps) depth 20

  pub unblock-Keeps : (u v : ℕ) → Keeps P (unblock u v)
  unfolding unblock Friendships.find_by_user_id_and_friend_id
  unblock-Keeps u v = search (keeps_rules, w.delete_friendship) depth 20

  pub cancel-Keeps : (u id : ℕ) → Keeps P (cancel u id)
  unfolding cancel Friendships.find_by_id
  cancel-Keeps u id = search (keeps_rules, w.delete_friendship) depth 20

  pub remove_friend-Keeps : (u id : ℕ) → Keeps P (remove_friend u id)
  unfolding remove_friend Friendships.find_by_id Friendships.find_by_user_id_and_friend_id
  remove_friend-Keeps u id = search (keeps_rules, w.delete_friendship, drop_reverse-Keeps) depth 20

  pub tolerated-Keeps : (r : Result DbError Unit) → Keeps P (tolerated r)
  tolerated-Keeps (ok _) = search keeps_rules
  tolerated-Keeps (err duplicate_key) = search keeps_rules
  tolerated-Keeps (err _) = search keeps_rules

  seat-Keeps : (p q : Participant) (r : Result DbError ChatRoom) → Keeps P (seat p q r)
  unfolding seat
  seat-Keeps p q (ok r) = search (keeps_rules, w.add_member) depth 20
  seat-Keeps p q (err _) = search keeps_rules

  open_if_missing-Keeps :
      (p q : Participant) (r : Result DbError ChatRoom) → Keeps P (open_if_missing p q r)
  unfolding open_if_missing
  open_if_missing-Keeps p q (err not_found) =
      search (keeps_rules, w.create_room, seat-Keeps) depth 20
  open_if_missing-Keeps p q (err _) = search keeps_rules
  open_if_missing-Keeps p q (ok r) = search keeps_rules

  open_between-Keeps :
      (p : Participant) (r : Result DbError Participant) → Keeps P (open_between p r)
  unfolding open_between Rooms.find_direct_by_participants
  open_between-Keeps p (ok q) = search (keeps_rules, open_if_missing-Keeps) depth 20
  open_between-Keeps p (err e) = search keeps_rules

  open_with-Keeps : (v : ℕ) (r : Result DbError Participant) → Keeps P (open_with v r)
  unfolding open_with Participants.find_by_user_id
  open_with-Keeps v (ok p) = search (keeps_rules, open_between-Keeps) depth 20
  open_with-Keeps v (err e) = search keeps_rules

  open_direct-Keeps : (u v : ℕ) → Keeps P (open_direct u v)
  unfolding open_direct Participants.find_by_user_id
  open_direct-Keeps u v = search (keeps_rules, open_with-Keeps) depth 20

  module _ (t : Transactional P) where
    begin_as-Keeps : {E : Type 0} (f : DbError → E) → Keeps P (map_err f begin_tx)
    begin_as-Keeps f = Keeps-map_err f begin_tx t.opens

    commit_as-Keeps : {E : Type 0} (f : DbError → E) → Keeps P (map_err f commit)
    commit_as-Keeps f = Keeps-map_err f commit t.closes

    rolled_back-Keeps : {E A : Type 0} (m : M E A) → Keeps P m → Keeps P (deferring_rollback m)
    rolled_back-Keeps m h = Keeps-deferring_rollback m t.undoes h

    accept_in_tx-Keeps : (u id : ℕ) → Keeps P (accept_in_tx u id)
    unfolding accept_in_tx Friendships.find_by_id Friendships.find_by_user_id_and_friend_id
    accept_in_tx-Keeps u id =
        search
          (
            keeps_rules, w.update_friendship, create-Keeps, tolerated-Keeps, commit_as-Keeps,
            open_direct-Keeps,
          )
          depth 30

    pub accept-Keeps : (u id : ℕ) → Keeps P (accept u id)
    unfolding accept
    accept-Keeps u id =
        search (keeps_rules, begin_as-Keeps, rolled_back-Keeps, accept_in_tx-Keeps) depth 20
