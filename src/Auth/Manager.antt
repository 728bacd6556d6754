-- ===== src/Auth/Manager.antt =====
-- internal/infrastructure/auth/session/session_manager.go. `time.Now()` is the clock of the world; the
-- calls of one operation happen at one instant; those of Refresh in two parts, with others between them.
pub mod History
pub mod Calls
pub mod Refused
pub mod Lookups
pub mod Replay
pub mod Life
pub mod LogOut
use tentserv_chat_server.Prelude.{
  ℕ, ◌+◌, Bool, true, false, Option, none, some, List, [], ◌∷◌, ◌++◌, if◌then◌else◌, ltb,
}
use tentserv_chat_server.Db.{Result, ok, err}
use tentserv_chat_server.Auth.World.{
  AuthError, SessionRecord, TokenPair, Session, World, Platform, Io, session_not_found,
  generate_token, refresh_token_invalid, return, throw, asks, or_error, try, found_or, ◌>>=◌, ◌>>◌,
  call, get_access, get_id, set_access, set_id, delete_access, delete_id, generate_secure_token,
}
use tentserv_chat_server.Auth.Sessions.{
  create, find_by_refresh_token_hash, find_active_ids_by_account_id, find_all_active_ids,
  update_refresh_token, update_expires_at, mark_revoked, revoke_all_for_account, mark_all_revoked,
  update_user_id,
}

pub record CreateSessionInput : Type 0 where
  pub account_id : ℕ
  pub user_id : ℕ
  pub device_id : ℕ

-- hashToken
unfoldable pub hash_token : ℕ → Io ℕ
unfolding asks
hash_token raw = asks (λ p w. p.hash raw)

-- setCacheEntries
unfoldable pub set_cache_entries : ℕ → ℕ → Session → Io Unit
unfolding ◌>>=◌ asks set_access set_id
set_cache_entries i h s = do
  ttl ← asks (λ p w. p.expiration)
  _ ← set_access h s ttl
  set_id i h ttl

abbrev pub session_of : ℕ → ℕ → ℕ → ℕ → TokenPair → ℕ → Session
session_of i account user device pair created = record {
  id = i;
  account_id = account;
  user_id = user;
  device_id = device;
  token = pair;
  created_at = created;
}

abbrev pub pair_of : ℕ → ℕ → ℕ → TokenPair
pair_of a r expires = record { access_token = a; refresh_token = r; expires_at = expires }

-- SessionManager.Create
unfoldable pub create_session : CreateSessionInput → Io TokenPair
unfolding ◌>>=◌ asks hash_token or_error return generate_secure_token create set_cache_entries
create_session input = do
  raw_access ← or_error generate_secure_token generate_token
  raw_refresh ← or_error generate_secure_token generate_token
  access_hash ← hash_token raw_access
  refresh_hash ← hash_token raw_refresh
  now ← asks (λ p w. w.now)
  expires ← asks (λ p w. w.now + p.expiration)
  device ← asks (λ p w. p.device_string input.device_id)
  i ← or_error (create input.account_id input.user_id device refresh_hash expires) generate_token
  let pair = pair_of raw_access raw_refresh expires
  _ ←
      or_error
        (set_cache_entries i access_hash
          (session_of i input.account_id input.user_id input.device_id pair now))
        generate_token
  return pair

-- the cached session of an access token: Get, `if err != nil || !ok`, Unmarshal, ParseInt
unfoldable pub cached : ℕ → Io Session
unfolding ◌>>=◌ or_error found_or get_access
cached h = do o ← or_error (get_access h) session_not_found; found_or o session_not_found

-- `go func() { _ = s.sessionRepo.UpdateExpiresAt(bgCtx, sessionID, newExpiry) }()`
unfoldable pub spawn_update : ℕ → ℕ → Io Unit
spawn_update i expires p w = (ok tt, record w { pending = w.pending ++ (i, expires) ∷ [] })

abbrev pub slid : ℕ → Session → Session
slid expires s = record s { token = record s.token { expires_at = expires } }

-- FindByToken
unfoldable pub find_by_token : ℕ → Io Session
unfolding ◌>>=◌ asks hash_token or_error return cached set_cache_entries spawn_update
find_by_token token = do
  h ← hash_token token
  s ← cached h
  expires ← asks (λ p w. w.now + p.expiration)
  let extended = slid expires s
  _ ← or_error (set_cache_entries s.id h extended) session_not_found
  _ ← spawn_update s.id expires
  return extended

-- the clean-up of Refresh, and deleteBySessionID: what the reads and deletions report is dropped
abbrev pub indexed : Result AuthError (Option ℕ) → Option ℕ
indexed (ok o) = o
indexed (err e) = none

unfoldable pub drop_access : Option ℕ → Io Unit
unfolding ◌>>=◌ try return delete_access
drop_access none = return tt
drop_access (some h) = try (delete_access h) >> return tt

unfoldable pub drop_entries : ℕ → Option ℕ → Io Unit
unfolding ◌>>=◌ try return delete_id delete_access
drop_entries i none = return tt
drop_entries i (some h) = try (delete_access h) >> try (delete_id i) >> return tt

unfoldable pub delete_old_entries : ℕ → Io Unit
unfolding ◌>>=◌ try get_id drop_entries
delete_old_entries i = do r ← try (get_id i); drop_entries i (indexed r)

-- `rec.Revoked || rec.ExpiresAt.Before(time.Now())`
abbrev pub is_spent : ℕ → SessionRecord → Bool
is_spent now r = if r.revoked then true else ltb r.expires_at now

abbrev pub refuse_if : Bool → Io Unit
refuse_if b = if b then throw refresh_token_invalid else return tt

-- Refresh, in three parts: from ParseDeviceID on, from the hashes on, and from the clean-up on
unfoldable pub cache_refreshed : SessionRecord → ℕ → TokenPair → Io TokenPair
unfolding ◌>>=◌ asks try return found_or set_cache_entries
cache_refreshed r access_hash pair = do
  parsed ← asks (λ p w. p.parse_device r.device_id)
  device ← found_or parsed refresh_token_invalid
  _ ← try (
      set_cache_entries r.id access_hash
        (session_of r.id r.account_id r.user_id device pair r.created_at))
  return pair

unfoldable pub reissue : SessionRecord → ℕ → ℕ → Io TokenPair
unfolding ◌>>=◌ asks hash_token or_error update_refresh_token cache_refreshed
reissue r raw_access raw_refresh = do
  access_hash ← hash_token raw_access
  refresh_hash ← hash_token raw_refresh
  expires ← asks (λ p w. w.now + p.expiration)
  _ ← or_error (update_refresh_token r.id refresh_hash expires) refresh_token_invalid
  cache_refreshed r access_hash (pair_of raw_access raw_refresh expires)

unfoldable pub rotate : SessionRecord → Io TokenPair
unfolding ◌>>=◌ or_error delete_old_entries generate_secure_token reissue
rotate r = do
  _ ← delete_old_entries r.id
  raw_access ← or_error generate_secure_token refresh_token_invalid
  raw_refresh ← or_error generate_secure_token refresh_token_invalid
  reissue r raw_access raw_refresh

-- Refresh: the read of the row and its check, and the rest
unfoldable pub read_row : ℕ → Io SessionRecord
unfolding ◌>>=◌ asks return throw hash_token or_error find_by_refresh_token_hash
read_row token = do
  h ← hash_token token
  r ← or_error (find_by_refresh_token_hash h) refresh_token_invalid
  now ← asks (λ p w. w.now)
  _ ← refuse_if (is_spent now r)
  return r

unfoldable pub refresh : ℕ → Io TokenPair
unfolding ◌>>=◌ read_row rotate
refresh token = do r ← read_row token; rotate r

-- Revoke: an error of the read is dropped
abbrev pub readable : Result AuthError (Option Session) → Option Session
readable (ok o) = o
readable (err e) = none

unfoldable pub revoke_read : ℕ → Option Session → Io Unit
unfolding ◌>>=◌ try return delete_id delete_access mark_revoked
revoke_read h none = return tt
revoke_read h (some s) = try (delete_id s.id) >> try (mark_revoked s.id) >> delete_access h

unfoldable pub revoke : ℕ → Io Unit
unfolding ◌>>=◌ hash_token try get_access revoke_read
revoke token = do h ← hash_token token; r ← try (get_access h); revoke_read h (readable r)

unfoldable pub delete_by_session_id : ℕ → Io Unit
unfolding ◌>>=◌ try return get_id delete_id drop_access
delete_by_session_id i = do
  r ← try (get_id i)
  _ ← drop_access (indexed r)
  try (delete_id i) >> return tt

-- the loops of RevokeAllForUser and RevokeAll
unfoldable pub delete_each : List ℕ → Io Unit
unfolding ◌>>=◌ return delete_by_session_id
delete_each [] = return tt
delete_each (i ∷ is) = delete_by_session_id i >> delete_each is

unfoldable pub revoke_all_for_user : ℕ → Io Unit
unfolding ◌>>=◌ find_active_ids_by_account_id delete_each revoke_all_for_account
revoke_all_for_user account = do
  is ← find_active_ids_by_account_id account
  _ ← delete_each is
  revoke_all_for_account account

unfoldable pub revoke_all : Io Unit
unfolding ◌>>=◌ find_all_active_ids delete_each mark_all_revoked
revoke_all = do is ← find_all_active_ids; _ ← delete_each is; mark_all_revoked

unfoldable pub switch_user : ℕ → ℕ → Io Unit
unfolding ◌>>=◌ asks hash_token or_error cached update_user_id set_cache_entries
switch_user token user = do
  h ← hash_token token
  s ← cached h
  _ ← or_error (update_user_id s.id user) session_not_found
  set_cache_entries s.id h (record s { user_id = user })
