-- ===== src/Auth/Manager/History.antt =====
-- The calls that the rest of the server makes of the session manager, in any order, with the clock and
-- the goroutines of FindByToken between them. Refreshes overlap: others come between the check of the
-- row that is read and the rest.
use tentserv_chat_server.Prelude.{ℕ, zero, suc, ◌+◌, Option, none, some, List, [], ◌∷◌, ◌++◌, pick}
use tentserv_chat_server.Auth.World.{
  SessionRecord, AuthError, World, Platform, Io, ◌>>=◌, try, return,
}
use tentserv_chat_server.Db.{Result, ok, err}
use tentserv_chat_server.Auth.Sessions.{update_expires_at}
use tentserv_chat_server.Auth.Manager.{
  CreateSessionInput, create_session, find_by_token, read_row, rotate, refresh, revoke,
  revoke_all_for_user, revoke_all, switch_user,
}

pub data Event : Type 0 where
  creates : CreateSessionInput → Event
  finds refreshes revokes : ℕ → Event
  revokes_all_for_user : ℕ → Event
  revokes_all : Event
  switches : ℕ → ℕ → Event
  begins_refresh ends_refresh : ℕ → Event
  waits : ℕ → Event
  runs_background : ℕ → Event

-- the body of one of the goroutines that still have to run: what UpdateExpiresAt reports is dropped
unfoldable pub background : Option (ℕ × ℕ) → Io Unit
unfolding ◌>>=◌ try return update_expires_at
background none = return tt
background (some (i, expires)) = try (update_expires_at i expires) >>= λ _. return tt

abbrev pub dropped : {A : Type 0} → ℕ → List A → List A
dropped k [] = []
dropped zero (x ∷ xs) = xs
dropped (suc k) (x ∷ []) = []
dropped (suc k) (x ∷ y ∷ xs) = x ∷ dropped k (y ∷ xs)

abbrev pub finished : ℕ → World → World
finished k w = record w { pending = dropped k w.pending }

-- a Refresh that has read its row, or not
abbrev pub begun : Result AuthError SessionRecord × World → World
begun (ok r, w) = record w { reading = w.reading ++ r ∷ [] }
begun (err e, w) = w

-- the rest of a Refresh, whose result goes to its caller
unfoldable pub resume : Option SessionRecord → Io Unit
unfolding ◌>>=◌ try return rotate
resume none = return tt
resume (some r) = try (rotate r) >>= λ _. return tt

abbrev pub resumed : ℕ → World → World
resumed k w = record w { reading = dropped k w.reading }

unfoldable pub handle : Event → Platform → World → World
unfolding background resume read_row create_session find_by_token refresh revoke revoke_all_for_user
    revoke_all switch_user
handle (creates input) p w = (create_session input p w).1
handle (finds token) p w = (find_by_token token p w).1
handle (refreshes token) p w = (refresh token p w).1
handle (revokes token) p w = (revoke token p w).1
handle (revokes_all_for_user account) p w = (revoke_all_for_user account p w).1
handle revokes_all p w = (revoke_all p w).1
handle (switches token user) p w = (switch_user token user p w).1
handle (begins_refresh token) p w = begun (read_row token p w)
handle (ends_refresh k) p w = (resume (pick k w.reading) p (resumed k w)).1
handle (waits t) p w = record w { now = w.now + t }
handle (runs_background k) p w = (background (pick k w.pending) p (finished k w)).1

unfoldable pub run : List Event → Platform → World → World
unfolding handle
run [] p w = w
run (e ∷ es) p w = run es p (handle e p w)
