-- ===== src/Tests/FriendRuns.antt =====
-- Friendship requests on a small database, and the theorems at them.
use tentserv_chat_server.Prelude.{
  ◌≡◌, refl, Bool, true, false, none, List, [], ◌∷◌, ◌==◌, ◌&&◌, any, All, Row,
}
use tentserv_chat_server.Rows.{User, Friendship, FriendshipStatus, awaits, is_blocked}
use tentserv_chat_server.Db.{State, Connection, Outcome, Result, ok, err}
use tentserv_chat_server.Db
use tentserv_chat_server.Db.Rules.{Ends}
use tentserv_chat_server.Repo.Friendships
use tentserv_chat_server.Repo.Participants
use tentserv_chat_server.Friends.{
  apply, cancel, unblock, accept, accept_in_tx, open_direct, open_with, open_between,
}
use tentserv_chat_server.Friends.Lists.{
  friend_item, request_item, listed, get_friends, get_friend_requests, get_sent_requests,
}
use tentserv_chat_server.Friends.Lists.Named.{Names, lists_lem}
use tentserv_chat_server.Repo.Users
use tentserv_chat_server.Friends.Requests.{
  with_request, without_row, apply_lem, cancel_lem, unblock_lem,
}
use tentserv_chat_server.Friends.Failure.{accept_failing}

-- a request from user 11 to user 12, and a block of user 14 by user 11
abbrev request : Friendship
request = record {
  id = 1;
  user_id = 11;
  friend_id = 12;
  status = FriendshipStatus.pending;
  created_at = 3;
  updated_at = 3;
}

abbrev barred : Friendship
barred = record request { id = 2; friend_id = 14; status = FriendshipStatus.blocked }

abbrev zoe : User
zoe = record {
  id = 12;
  account_id = 2;
  name = "zoe";
  avatar = "z.png";
  created_at = 1;
  updated_at = 1;
}

abbrev acquaintances : State
acquaintances = record {
  tables = record {
    participants = [];
    rooms = [];
    members = [];
    invitations = [];
    friendships = request ∷ barred ∷ [];
    messages = [];
    identity_keys = [];
    signed_prekeys = [];
    sender_keys = [];
    distributions = [];
    key_requests = [];
    users = zoe ∷ [];
    user_roles = [];
    agents = [];
  };
  saved = none;
  next = record {
    participant = 1;
    room = 1;
    member = 1;
    invitation = 1;
    friendship = 3;
    message = 1;
    identity_key = 1;
    signed_prekey = 1;
    sender_key = 1;
    distribution = 1;
    key_request = 1;
  };
  now = 9;
  started = 1;
}

abbrev willing : Connection
willing = record { service = λ k. Outcome.answers 0; step = 0; aborted = false }

abbrev succeeds : {E A : Type 0} → Result E A × State × Connection → Bool
succeeds (ok a, s, c) = true
succeeds (err e, s, c) = false

accept_runs : succeeds (accept 12 1 acquaintances willing) ≡ true
unfolding accept accept_in_tx open_direct open_with open_between Db.pure Db.raise Db.gets Db.◌>>=◌
    Db.map_err Db.attempt Db.require Db.optional Db.statement Db.scan_all Db.present Db.scan_one
    Db.exec Db.begin_tx Db.commit Db.deferring_rollback Friendships.find_by_id Friendships.create
    Friendships.create_with_status Friendships.update_status
    Friendships.find_by_user_id_and_friend_id Participants.find_by_user_id
accept_runs = refl

apply_lem_example :
    Ends
      (λ _ s'.
        (any (Friendships.is_from 13 12) acquaintances.tables.friendships ≡ false)
        × (any (Friendships.is_from 12 13) acquaintances.tables.friendships ≡ false)
        × (s'.tables ≡ with_request 13 12 acquaintances))
      (λ _ s'. s'.tables ≡ acquaintances.tables)
      (apply 13 12)
      acquaintances
apply_lem_example = apply_lem 13 12 acquaintances

cancel_lem_example :
    Ends
      (λ _ s'.
        ((f : Friendship) × Row f acquaintances.tables.friendships
          × ((f.id == 1) ≡ true)
          × ((f.user_id == 11) ≡ true)
          × (awaits f.status ≡ true)
          × (s'.tables ≡ without_row f.id acquaintances.tables)))
      (λ _ s'. s'.tables ≡ acquaintances.tables)
      (cancel 11 1)
      acquaintances
cancel_lem_example = cancel_lem 11 1 acquaintances

unblock_lem_example :
    Ends
      (λ _ s'.
        ((f : Friendship) × Row f acquaintances.tables.friendships
          × (Friendships.is_from 11 14 f ≡ true)
          × (is_blocked f.status ≡ true)
          × (s'.tables ≡ without_row f.id acquaintances.tables)))
      (λ _ s'. s'.tables ≡ acquaintances.tables)
      (unblock 11 14)
      acquaintances
unblock_lem_example = unblock_lem 11 14 acquaintances

accept_failing_example :
    Ends (λ _ _. Unit) (λ _ s'. s'.tables ≡ acquaintances.tables) (accept 12 1) acquaintances
accept_failing_example = accept_failing 12 1 acquaintances

abbrev items_of : {E A : Type 0} → Result E (List A) × State × Connection → List A
items_of (ok is, s, c) = is
items_of (err e, s, c) = []

-- the request to user 12 is listed, and the block of user 14, who has no row, is not
sent_requests_run :
    items_of (get_sent_requests 11 acquaintances willing)
    ≡ request_item (λ f. f.friend_id) request zoe ∷ []
unfolding get_sent_requests listed Friendships.find_pending_by_user_id Users.find_by_id
    Users.find_role_codes Db.pure Db.raise Db.gets Db.◌>>=◌ Db.attempt Db.statement Db.scan_all
    Db.present Db.scan_one
sent_requests_run = refl

lists_lem_example :
    Ends
      (λ is t.
        (t ≡ acquaintances)
        × All (Names (λ f. f.user_id == 11) (λ f. f.friend_id) friend_item acquaintances) is)
      (λ _ t. t ≡ acquaintances)
      (get_friends 11)
      acquaintances
    × Ends
        (λ is t.
          (t ≡ acquaintances)
          × All
              (Names
                (λ f. f.friend_id == 11 && awaits f.status)
                (λ f. f.user_id)
                (request_item (λ f. f.user_id))
                acquaintances)
              is)
        (λ _ t. t ≡ acquaintances)
        (get_friend_requests 11)
        acquaintances
    × Ends
        (λ is t.
          (t ≡ acquaintances)
          × All
              (Names
                (λ f. f.user_id == 11 && awaits f.status)
                (λ f. f.friend_id)
                (request_item (λ f. f.friend_id))
                acquaintances)
              is)
        (λ _ t. t ≡ acquaintances)
        (get_sent_requests 11)
        acquaintances
lists_lem_example = lists_lem 11 acquaintances
