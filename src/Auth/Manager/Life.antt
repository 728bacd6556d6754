-- ===== src/Auth/Manager/Life.antt =====
-- The life of one session while the services answer.
use tentserv_chat_server.Prelude.{
  ℕ, zero, suc, pick, ◌+◌, ◌<◌, ◌≡◌, ◌≢◌, refl, true, false, none, some, List, [], ◌∷◌, any,
  if◌then◌else◌, Bool-cases, inl, inr, ◌==◌, arith, ltb, update, select,
}
use tentserv_chat_server.Db.{ok, err}
use tentserv_chat_server.Auth.World.{
  SessionRecord, Session, World, Platform, session_not_found, return, throw, asks, or_error, try,
  call, ◌>>=◌, found_or, alive, set, generate_secure_token, get_access, get_id, set_access, set_id,
  delete_access, delete_id,
}
use tentserv_chat_server.Auth.Sessions.{
  has_id, has_hash, clashes, renewed, create, mark_revoked, revoked_row, find_by_refresh_token_hash,
  update_refresh_token, update_user_id,
}
use tentserv_chat_server.Auth.Manager.{
  CreateSessionInput, hash_token, pair_of, session_of, slid, set_cache_entries, create_session,
  cached, spawn_update, find_by_token, revoke_read, revoke, is_spent, refresh, read_row, rotate,
  reissue, cache_refreshed, delete_old_entries, drop_entries, switch_user,
}

-- The platform, with every call of a service answered.
abbrev pub steady : Platform → Platform
steady p = record p { answers = λ _. true }

pub set_hit : {A : Type 0} (k : ℕ) (v : A) (f : ℕ → A) → set k v f k ≡ v
set_hit k v f = ground arith

pub apart : (x y : ℕ) → x ≢ y → (x == y) ≡ false
apart x y other = ground (arith, other)

pick_one : {A : Type 0} (k : ℕ) (x : A) → pick k (x ∷ []) ≡ some x
pick_one zero x = refl
pick_one (suc k) x = refl

within : (now ttl : ℕ) → 0 < ttl → ltb now (now + ttl) ≡ true
within now ttl h = ground (arith, h)

-- no clash with a hash that no row has
other_than :
    (i h : ℕ) (rows : List SessionRecord)
    → any (has_hash h) rows ≡ false
    → any (λ r. if has_id i r then false else has_hash h r) rows ≡ false
other_than i h [] fresh = refl
other_than i h (r ∷ rs) fresh = ground (arith, fresh, other_than i h rs)

unclashed :
    (i h : ℕ) (rows : List SessionRecord) → any (has_hash h) rows ≡ false → clashes i h rows ≡ false
unclashed i h rows fresh = elim (Bool-cases (any (has_id i) rows)) [
  | inl e ↦ rw e (other_than i h rows fresh)
  | inr e ↦ rw e refl
]

module _ (p : Platform) where
  -- the world after the rest of a Refresh
  abbrev reissued : ℕ → ℕ → ℕ → SessionRecord → World → World
  reissued a r d row w =
      let expires = w.now + p.expiration in
      record w {
        sessions = update (has_id row.id) (renewed (p.hash r) expires w.now) w.sessions;
        access =
            set (p.hash a)
              (some (record {
                value =
                    session_of row.id row.account_id row.user_id d (pair_of a r expires)
                      row.created_at;
                deadline = expires;
              }))
              w.access;
        ids = set row.id (some (record { value = p.hash a; deadline = expires })) w.ids;
        step = w.step + 1 + 1 + 1;
      }

  reissue_lem :
      (a r d : ℕ) (row : SessionRecord) (w : World)
      → any (has_hash (p.hash r)) w.sessions ≡ false
      → p.parse_device row.device_id ≡ some d
      → reissue row a r (steady p) w
        ≡ (ok (pair_of a r (w.now + p.expiration)), reissued a r d row w)
  unfolding reissue cache_refreshed update_refresh_token hash_token set_cache_entries set_access
      set_id found_or return throw asks or_error try call ◌>>=◌
  reissue_lem a r d row w fresh hd = rw (unclashed row.id (p.hash r) w.sessions fresh) (rw hd refl)

  -- On services that answer, with two tokens drawn, the second of which has a hash that no row has: Create returns the pair of the two, and FindByToken
  -- of the access token then returns the session of the input's account, user and device.
  pub create_session_finds :
      (input : CreateSessionInput) (w : World) (a r : ℕ)
      → p.random w.draws ≡ some a
      → p.random (w.draws + 1) ≡ some r
      → any (has_hash (p.hash r)) w.sessions ≡ false
      → 0 < p.expiration
      → let pair = pair_of a r (w.now + p.expiration) in
        ((create_session input (steady p) w).0 ≡ ok pair)
        × ((find_by_token a (steady p) (create_session input (steady p) w).1).0
            ≡ ok (session_of w.next_id input.account_id input.user_id input.device_id pair w.now))
  unfolding create_session find_by_token generate_secure_token hash_token set_cache_entries create
      cached spawn_update get_access set_access set_id found_or return throw asks or_error call
      ◌>>=◌
  create_session_finds input w a r ha hr fresh later =
      rw ha (rw hr (rw fresh (refl, simp (set_hit, within w.now p.expiration later))))

  -- On services that answer, for an access token whose session the cache holds: Revoke succeeds, removes
  -- the token's entry and the session's index, revokes the rows of the session's id and changes no other
  -- row, and FindByToken of the token then fails with ErrSessionNotFound.
  pub revoke_lem :
      (token : ℕ) (w : World) (s : Session)
      → alive w.now (w.access (p.hash token)) ≡ some s
      → let (r, v) = revoke token (steady p) w in
        (r ≡ ok tt)
        × (v.access ≡ set (p.hash token) none w.access)
        × (v.ids ≡ set s.id none w.ids)
        × (v.sessions ≡ update (has_id s.id) revoked_row w.sessions)
        × ((find_by_token token (steady p) v).0 ≡ err session_not_found)
  unfolding revoke revoke_read find_by_token hash_token cached get_access delete_access delete_id
      mark_revoked found_or return throw asks or_error try call ◌>>=◌
  revoke_lem token w s live = rw live (refl, refl, refl, refl, simp set_hit)

  -- On services that answer, for a refresh token whose hash one row has, neither revoked nor expired,
  -- with an indexed old access token, two tokens drawn, a hash of the second that no row has, the new access
  -- token's hash another than the old one's, and a device id that parses: Refresh returns the pair of the two drawn, FindByToken of the new
  -- access token returns the session of the row's account, user and device, and FindByToken of the old
  -- one fails with ErrSessionNotFound.
  pub refresh_lem :
      (token old_token a r d : ℕ) (w : World) (row : SessionRecord)
      → select (has_hash (p.hash token)) w.sessions ≡ row ∷ []
      → is_spent w.now row ≡ false
      → alive w.now (w.ids row.id) ≡ some (p.hash old_token)
      → p.random w.draws ≡ some a
      → p.random (w.draws + 1) ≡ some r
      → any (has_hash (p.hash r)) w.sessions ≡ false
      → p.parse_device row.device_id ≡ some d
      → p.hash old_token ≢ p.hash a
      → 0 < p.expiration
      → let pair = pair_of a r (w.now + p.expiration) in
        let (result, v) = refresh token (steady p) w in
        (result ≡ ok pair)
        × ((find_by_token a (steady p) v).0
            ≡ ok (session_of row.id row.account_id row.user_id d pair row.created_at))
        × ((find_by_token old_token (steady p) v).0 ≡ err session_not_found)
  unfolding refresh read_row rotate find_by_refresh_token_hash delete_old_entries drop_entries
      find_by_token generate_secure_token hash_token set_cache_entries cached spawn_update
      get_access get_id set_access set_id delete_access delete_id found_or return throw asks
      or_error try call ◌>>=◌
  refresh_lem token old_token a r d w row only unspent indexed ha hr fresh hd other later =
      let cleaned : World = record w {
        access = set (p.hash old_token) none w.access;
        ids = set row.id none w.ids;
        step = w.step + 1 + 1 + 1 + 1;
        draws = w.draws + 1 + 1;
      } in
      rw only (
        rw (pick_one (p.order w.step) row) (
          rw unspent (
            rw indexed (
              rw ha (
                rw hr (
                  rw (reissue_lem a r d row cleaned fresh hd) (
                    refl,
                    simp (set_hit, within w.now p.expiration later),
                    simp (apart (p.hash old_token) (p.hash a) other, set_hit),
                  )))))))

  -- On services that answer, for an access token whose session the cache holds: SwitchUser succeeds,
  -- gives the rows of the session's id the user and changes no other row, and FindByToken of the token
  -- then returns the session with that user.
  pub switch_user_lem :
      (token user : ℕ) (w : World) (s : Session)
      → alive w.now (w.access (p.hash token)) ≡ some s
      → 0 < p.expiration
      → let (result, v) = switch_user token user (steady p) w in
        (result ≡ ok tt)
        × (v.sessions ≡ update (has_id s.id) (λ r. record r { user_id = user }) w.sessions)
        × ((find_by_token token (steady p) v).0
            ≡ ok (slid (w.now + p.expiration) (record s { user_id = user })))
  unfolding switch_user update_user_id find_by_token hash_token set_cache_entries cached
      spawn_update get_access set_access set_id found_or return throw asks or_error call ◌>>=◌
  switch_user_lem token user w s live later =
      rw live (refl, refl, simp (set_hit, within w.now p.expiration later))
