-- ===== src/Tests/AuthRuns.antt =====
-- Sessions of two accounts, and the theorems at them.
use tentserv_chat_server.Prelude.{
  ℕ, ◌+◌, ◌≡◌, refl, Bool, true, false, none, some, [], ◌∷◌, arith, inl, ◌==◌, if◌then◌else◌,
  update, not,
}
use tentserv_chat_server.Db.{Result, ok, err}
use tentserv_chat_server.Auth.World.{
  SessionRecord, Session, AuthError, World, Platform, session_not_found, refresh_token_invalid,
  call, ◌>>=◌, return, throw, asks, or_error, try, found_or, set, get_access, get_id, set_access,
  set_id, delete_access, delete_id, generate_secure_token,
}
use tentserv_chat_server.Auth.Rules.{Ends}
use tentserv_chat_server.Auth.Sessions.{
  has_id, revoked_row, find_by_refresh_token_hash, update_refresh_token,
  find_active_ids_by_account_id, revoke_all_for_account,
}
use tentserv_chat_server.Auth.Manager.{
  session_of, pair_of, slid, create_session, find_by_token, read_row, refresh, revoke,
  revoke_all_for_user, switch_user, hash_token, cached, set_cache_entries, spawn_update,
  revoke_read, rotate, reissue, cache_refreshed, delete_old_entries, drop_entries, delete_each,
}
use tentserv_chat_server.Auth.Manager.History.{run, begins_refresh, ends_refresh, waits, refreshes}
use tentserv_chat_server.Auth.Manager.Replay.{token_stays_dead, refresh_once}
use tentserv_chat_server.Auth.Manager.Life.{
  steady, create_session_finds, revoke_lem, refresh_lem, switch_user_lem,
}
use tentserv_chat_server.Auth.Manager.LogOut.{LoggedOut, revoke_all_for_user_lem}

abbrev site : Platform
site = record {
  hash = λ t. t;
  random = λ n. some (n + 100);
  device_string = λ d. d;
  parse_device = λ d. some d;
  answers = λ n. true;
  order = λ n. 0;
  expiration = 60;
}

abbrev row : ℕ → ℕ → ℕ → Bool → SessionRecord
row i account hash gone = record {
  id = i;
  account_id = account;
  user_id = account + 10;
  device_id = 3;
  refresh_token_hash = hash;
  expires_at = 60;
  revoked = gone;
  created_at = 0;
  last_used_at = none;
}

abbrev session : Session
session = session_of 1 7 17 3 (pair_of 50 5 60) 0

-- Account 7 holds the access token 50 and the refresh token 5; the session with token 6 is revoked.
abbrev signed_in : World
signed_in = record {
  sessions = row 1 7 5 false ∷ row 2 8 6 true ∷ [];
  next_id = 3;
  access = λ h. if h == 50 then some (record { value = session; deadline = 60 }) else none;
  ids = λ i. if i == 1 then some (record { value = 50; deadline = 60 }) else none;
  now = 0;
  pending = [];
  reading = [];
  step = 0;
  draws = 0;
}

token_stays_dead_example :
    (refresh 6 site (run (refreshes 5 ∷ waits 10 ∷ refreshes 6 ∷ []) site signed_in)).0
    ≡ err refresh_token_invalid
token_stays_dead_example =
    token_stays_dead site 6 (refreshes 5 ∷ waits 10 ∷ refreshes 6 ∷ []) signed_in
      (λ n t from drawn same. ground (arith, drawn, same))
      ((λ e. absurd (omega (arith, e))), ((λ _. record { mark = refl }), tt))

-- Two refreshes of the token 5 overlap.
refresh_once_example :
    Ends site
      (λ r v.
        Ends site
          (λ _ u.
            (refresh 5 site (run (waits 10 ∷ ends_refresh 0 ∷ []) site u)).0
            ≡ err refresh_token_invalid)
          (λ _ _. Unit)
          (rotate r)
          (run (begins_refresh 5 ∷ waits 1 ∷ []) site v))
      (λ _ _. Unit)
      (read_row 5)
      signed_in
refresh_once_example =
    refresh_once site 5 1 (begins_refresh 5 ∷ waits 1 ∷ []) (waits 10 ∷ ends_refresh 0 ∷ [])
      signed_in (λ n t from drawn same. ground (arith, drawn, same))
      ((λ _. record { mark = refl }), ((λ e. absurd (omega (arith, e))), tt))

-- is a result a success
abbrev succeeds : {A : Type 0} → Result AuthError A × World → Bool
succeeds (ok a, w) = true
succeeds (err e, w) = false

-- Both of the two succeed: the second had read its row before the first replaced the hash.
overlapping : succeeds (rotate (row 1 7 5 false) site (refresh 5 site signed_in).1) ≡ true
unfolding refresh read_row rotate reissue cache_refreshed find_by_refresh_token_hash
    delete_old_entries drop_entries update_refresh_token generate_secure_token hash_token
    set_cache_entries get_access get_id set_access set_id delete_access delete_id found_or return
    throw asks or_error try call ◌>>=◌
overlapping = refl

create_session_finds_example :
    ((create_session
        (record { account_id = 9; user_id = 4; device_id = 2 })
        (steady site)
        signed_in).0
      ≡ ok (pair_of 100 101 60))
    × ((find_by_token 100
          (steady site)
          (create_session
            (record { account_id = 9; user_id = 4; device_id = 2 })
            (steady site)
            signed_in).1).0
        ≡ ok (session_of 3 9 4 2 (pair_of 100 101 60) 0))
create_session_finds_example =
    create_session_finds site (record { account_id = 9; user_id = 4; device_id = 2 }) signed_in 100
      101 refl refl refl (omega arith)

revoke_lem_example :
    let (r, v) = revoke 50 (steady site) signed_in in
    (r ≡ ok tt)
    × (v.access ≡ set 50 none signed_in.access)
    × (v.ids ≡ set 1 none signed_in.ids)
    × (v.sessions ≡ update (has_id 1) revoked_row signed_in.sessions)
    × ((find_by_token 50 (steady site) v).0 ≡ err session_not_found)
revoke_lem_example = revoke_lem site 50 signed_in session refl

refresh_lem_example :
    let (r, v) = refresh 5 (steady site) signed_in in
    (r ≡ ok (pair_of 100 101 60))
    × ((find_by_token 100 (steady site) v).0 ≡ ok (session_of 1 7 17 3 (pair_of 100 101 60) 0))
    × ((find_by_token 50 (steady site) v).0 ≡ err session_not_found)
refresh_lem_example =
    refresh_lem site 5 50 100 101 3 signed_in (row 1 7 5 false) refl refl refl refl refl refl refl
      (λ e. omega (arith, e)) (omega arith)

switch_user_lem_example :
    let (r, v) = switch_user 50 99 (steady site) signed_in in
    (r ≡ ok tt)
    × (v.sessions ≡ update (has_id 1) (λ r. record r { user_id = 99 }) signed_in.sessions)
    × ((find_by_token 50 (steady site) v).0 ≡ ok (slid 60 (record session { user_id = 99 })))
switch_user_lem_example = switch_user_lem site 50 99 signed_in session refl (omega arith)

revoke_all_for_user_lem_example :
    Ends (steady site) (λ _. LoggedOut site 50 7) (λ _ _. ⊥) (revoke_all_for_user 7) signed_in
revoke_all_for_user_lem_example = revoke_all_for_user_lem site 50 7 1 signed_in (inl refl) refl

-- The read of the cache fails, and Revoke reports success: the token still finds its session.
revoke_unread :
    let (r, v) = revoke 50 (record site { answers = λ n. not (n == 0) }) signed_in in
    (r ≡ ok tt) × ((find_by_token 50 (steady site) v).0 ≡ ok session)
unfolding revoke find_by_token hash_token cached set_cache_entries spawn_update revoke_read
    get_access set_access set_id found_or return throw asks or_error try call ◌>>=◌
revoke_unread = (refl, refl)

-- The access entry has run out, and Revoke reports success: the refresh token still works.
revoke_late :
    let (r, v) = revoke 50 site (record signed_in { now = 60 }) in
    (r ≡ ok tt) × ((refresh 5 site v).0 ≡ ok (pair_of 100 101 120))
unfolding revoke refresh read_row rotate reissue cache_refreshed find_by_refresh_token_hash
    delete_old_entries drop_entries update_refresh_token generate_secure_token hash_token
    set_cache_entries revoke_read get_access get_id set_access set_id delete_access delete_id
    found_or return throw asks or_error try call ◌>>=◌
revoke_late = (refl, refl)

-- The row has run out while the sliding entry of the cache lives, and RevokeAllForUser passes it over:
-- the token still finds its session.
revoke_all_misses :
    let w = record signed_in { sessions = record (row 1 7 5 false) { expires_at = 0 } ∷ [] } in
    let (r, v) = revoke_all_for_user 7 site w in
    (r ≡ ok tt) × ((find_by_token 50 site v).0 ≡ ok session)
unfolding revoke_all_for_user find_active_ids_by_account_id delete_each revoke_all_for_account
    find_by_token hash_token cached set_cache_entries spawn_update get_access set_access set_id
    found_or return throw asks or_error try call ◌>>=◌
revoke_all_misses = (refl, refl)
