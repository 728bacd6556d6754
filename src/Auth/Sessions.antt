-- ===== src/Auth/Sessions.antt =====
-- internal/infrastructure/persistence/postgres/session/session_repo.go. The hash of a refresh
-- token is in one row only, a constraint of the table (dev-doc/sql/postgres_device.sql). That the
-- account, the user and the device of a row are in their tables is not asked.
use tentserv_chat_server.Prelude.{
  ℕ, ◌+◌, Bool, true, false, Option, none, some, List, [], ◌∷◌, ◌++◌, if◌then◌else◌, ◌==◌, ltb,
  update, select, map, pick, not, any,
}
use tentserv_chat_server.Auth.World.{
  SessionRecord, World, Io, row_not_found, service_failed, call, asks, found_or, ◌>>=◌,
}

abbrev pub has_id : ℕ → SessionRecord → Bool
has_id i r = r.id == i

abbrev pub has_hash : ℕ → SessionRecord → Bool
has_hash h r = r.refresh_token_hash == h

abbrev pub of_account : ℕ → SessionRecord → Bool
of_account a r = r.account_id == a

abbrev pub is_active : ℕ → SessionRecord → Bool
is_active now r = if r.revoked then false else ltb now r.expires_at

-- an UPDATE of the rows that pass a test
abbrev pub change :
    (World → SessionRecord → Bool) → (World → SessionRecord → SessionRecord) → Io Unit
change test f = call (λ w. (tt, record w { sessions = update (test w) (f w) w.sessions }))

abbrev pub new_row : ℕ → ℕ → ℕ → ℕ → ℕ → World → SessionRecord
new_row account user device hash expires w = record {
  id = w.next_id;
  account_id = account;
  user_id = user;
  device_id = device;
  refresh_token_hash = hash;
  expires_at = expires;
  revoked = false;
  created_at = w.now;
  last_used_at = none;
}

-- what an INSERT or an UPDATE answers: nothing where it would break a constraint; an INSERT that is refused
-- has taken its id
abbrev pub unless_refused : {A : Type 0} → Bool → A → World → World → Option A × World
unless_refused refused a w v = if refused then (none, w) else (some a, v)

unfoldable pub create : ℕ → ℕ → ℕ → ℕ → ℕ → Io ℕ
unfolding call found_or ◌>>=◌
create account user device hash expires = do
  o ← call (λ w.
      unless_refused (any (has_hash hash) w.sessions) w.next_id
        (record w { next_id = w.next_id + 1 })
        (record w {
          sessions = w.sessions ++ new_row account user device hash expires w ∷ [];
          next_id = w.next_id + 1;
        }))
  found_or o service_failed

abbrev pub picked : ℕ → (SessionRecord → Bool) → World → Option SessionRecord × World
picked k test w = (pick k (select test w.sessions), w)

-- postgres.ScanOne on an answer of at most one row
abbrev pub one_of : (SessionRecord → Bool) → Io SessionRecord
one_of test = do
  k ← asks (λ p w. p.order w.step)
  o ← call (picked k test)
  found_or o row_not_found

unfoldable pub find_by_id : ℕ → Io SessionRecord
unfolding asks call found_or ◌>>=◌
find_by_id i = one_of (has_id i)

unfoldable pub find_by_refresh_token_hash : ℕ → Io SessionRecord
unfolding asks call found_or ◌>>=◌
find_by_refresh_token_hash h = one_of (has_hash h)

abbrev pub ids_of : List SessionRecord → List ℕ
ids_of rows = map (λ r. r.id) rows

unfoldable pub find_active_ids_by_account_id : ℕ → Io (List ℕ)
unfolding call
find_active_ids_by_account_id a = call (λ w.
    (ids_of (select (λ r. if of_account a r then is_active w.now r else false) w.sessions), w))

unfoldable pub find_all_active_ids : Io (List ℕ)
unfolding call
find_all_active_ids = call (λ w. (ids_of (select (is_active w.now) w.sessions), w))

-- Another row than the one to be updated has the hash.
abbrev pub clashes : ℕ → ℕ → List SessionRecord → Bool
clashes i h rows =
    if any (has_id i) rows
    then any (λ r. if has_id i r then false else has_hash h r) rows
    else false

abbrev pub renewed : ℕ → ℕ → ℕ → SessionRecord → SessionRecord
renewed h expires now r = record r {
  refresh_token_hash = h;
  expires_at = expires;
  last_used_at = some now;
}

unfoldable pub update_refresh_token : ℕ → ℕ → ℕ → Io Unit
unfolding call found_or ◌>>=◌
update_refresh_token i h expires = do
  o ← call (λ w.
      unless_refused (clashes i h w.sessions) tt w
        (record w { sessions = update (has_id i) (renewed h expires w.now) w.sessions }))
  found_or o service_failed

unfoldable pub update_expires_at : ℕ → ℕ → Io Unit
unfolding call
update_expires_at i expires =
    change (λ w. has_id i) (λ w r. record r { expires_at = expires; last_used_at = some w.now })

unfoldable pub update_last_used_at : ℕ → Io Unit
unfolding call
update_last_used_at i = change (λ w. has_id i) (λ w r. record r { last_used_at = some w.now })

abbrev pub revoked_row : SessionRecord → SessionRecord
revoked_row r = record r { revoked = true }

unfoldable pub mark_revoked : ℕ → Io Unit
unfolding call
mark_revoked i = change (λ w. has_id i) (λ w. revoked_row)

unfoldable pub revoke_all_for_account : ℕ → Io Unit
unfolding call
revoke_all_for_account a = change (λ w. of_account a) (λ w. revoked_row)

unfoldable pub mark_all_revoked : Io Unit
unfolding call
mark_all_revoked = change (λ w r. not r.revoked) (λ w. revoked_row)

unfoldable pub update_user_id : ℕ → ℕ → Io Unit
unfolding call
update_user_id i u = change (λ w. has_id i) (λ w r. record r { user_id = u })
