-- ===== src/Auth/Manager/Refused.antt =====
-- Refresh tokens that no row accepts, through the operations of the session manager.
use tentserv_chat_server.Prelude.{ℕ, ◌+◌, ◌≢◌, Option, none, some, List, [], ◌∷◌, pick, arith}
use tentserv_chat_server.Db.{Result, ok, err}
use tentserv_chat_server.Auth.World.{
  SessionRecord, Session, TokenPair, World, Platform, AuthError, service_failed, Io, or_error,
  ◌>>=◌, generate_secure_token,
}
use tentserv_chat_server.Auth.Rules.{
  Ends, Ends-or_error, Ends-bind, Ends-asks, Ends-weaken, Ends-found_or,
}
use tentserv_chat_server.Auth.Keeps.{
  Keeps, Keeps-world, Keeps-bind, Keeps-learn, Keeps-try, Keeps-return,
}
use tentserv_chat_server.Auth.Manager.{
  CreateSessionInput, drop_entries, revoke_read, hash_token, set_cache_entries, create_session,
  cached, find_by_token, drop_access, delete_old_entries, cache_refreshed, reissue, rotate,
  read_row, refresh, revoke, delete_by_session_id, delete_each, revoke_all_for_user, revoke_all,
  switch_user,
}
use tentserv_chat_server.Auth.Manager.History.{
  Event, creates, finds, refreshes, revokes, revokes_all_for_user, revokes_all, switches, waits,
  begins_refresh, ends_refresh, begun, resume, resumed, runs_background, background, finished,
  handle, run,
}
use tentserv_chat_server.Auth.Manager.Calls.{
  calls, Bound, NotDrawn, update_refresh_token-Keeps, create-Keeps,
}

module _ {p : Platform} {n : ℕ} {b : Option ℕ} {h : ℕ} where
  pub set_cache_entries-Keeps :
      (i k : ℕ) (s : Session) → Keeps p (Bound n b h) (set_cache_entries i k s)
  unfolding set_cache_entries
  set_cache_entries-Keeps i k s = search calls depth 20

  cached-Keeps : (k : ℕ) → Keeps p (Bound n b h) (cached k)
  unfolding cached
  cached-Keeps k = search calls depth 20

  pub find_by_token-Keeps : (t : ℕ) → Keeps p (Bound n b h) (find_by_token t)
  unfolding find_by_token
  find_by_token-Keeps t = search (calls, cached-Keeps, set_cache_entries-Keeps) depth 30

  drop_entries-Keeps : (i : ℕ) (o : Option ℕ) → Keeps p (Bound n b h) (drop_entries i o)
  unfolding drop_entries
  drop_entries-Keeps i none = search calls depth 20
  drop_entries-Keeps i (some k) = search calls depth 20

  pub delete_old_entries-Keeps : (i : ℕ) → Keeps p (Bound n b h) (delete_old_entries i)
  unfolding delete_old_entries
  delete_old_entries-Keeps i = search (calls, drop_entries-Keeps) depth 20

  revoke_read-Keeps : (k : ℕ) (o : Option Session) → Keeps p (Bound n b h) (revoke_read k o)
  unfolding revoke_read
  revoke_read-Keeps k none = search calls depth 20
  revoke_read-Keeps k (some s) = search calls depth 20

  pub revoke-Keeps : (t : ℕ) → Keeps p (Bound n b h) (revoke t)
  unfolding revoke
  revoke-Keeps t = search (calls, revoke_read-Keeps) depth 20

  drop_access-Keeps : (o : Option ℕ) → Keeps p (Bound n b h) (drop_access o)
  unfolding drop_access
  drop_access-Keeps none = search calls depth 20
  drop_access-Keeps (some k) = search calls depth 20

  delete_by_session_id-Keeps : (i : ℕ) → Keeps p (Bound n b h) (delete_by_session_id i)
  unfolding delete_by_session_id
  delete_by_session_id-Keeps i = search (calls, drop_access-Keeps) depth 30

  delete_each-Keeps : (is : List ℕ) → Keeps p (Bound n b h) (delete_each is)
  unfolding delete_each
  delete_each-Keeps [] = search calls depth 20
  delete_each-Keeps (i ∷ is) =
      Keeps-bind _ _ (delete_by_session_id-Keeps i) (λ _. delete_each-Keeps is)

  pub revoke_all_for_user-Keeps : (a : ℕ) → Keeps p (Bound n b h) (revoke_all_for_user a)
  unfolding revoke_all_for_user
  revoke_all_for_user-Keeps a = search (calls, delete_each-Keeps) depth 20

  pub revoke_all-Keeps : Keeps p (Bound n b h) revoke_all
  unfolding revoke_all
  revoke_all-Keeps = search (calls, delete_each-Keeps) depth 20

  pub switch_user-Keeps : (t u : ℕ) → Keeps p (Bound n b h) (switch_user t u)
  unfolding switch_user
  switch_user-Keeps t u = search (calls, cached-Keeps, set_cache_entries-Keeps) depth 30

  pub generated :
      (e : AuthError)
      → NotDrawn p n h
      → (w : World) → Bound n b h w
      → Ends p
          (λ t v. Bound n b h v × p.hash t ≢ h)
          (λ _. Bound n b h)
          (or_error generate_secure_token e)
          w
  unfolding generate_secure_token
  generated e never w kept = Ends-or_error _ e w (record {
    post =
        (Ends-found_or {Q = λ t v. Bound n b h v × p.hash t ≢ h} {R = λ _. Bound n b h}
          (p.random w.draws) service_failed (record w { draws = w.draws + 1 })
          (λ t drawn. ((kept.0, omega (arith, kept.1)), never w.draws t kept.1 drawn))
          (λ _. (kept.0, omega (arith, kept.1)))).post;
  })

module _ {A : Type 0} {p : Platform} {n : ℕ} {b : Option ℕ} {h : ℕ} where
  -- A drawn token has another hash.
  drawing :
      (e : AuthError) (f : ℕ → Io A)
      → NotDrawn p n h
      → ((t : ℕ) → p.hash t ≢ h → Keeps p (Bound n b h) (f t))
      → Keeps p (Bound n b h) (or_error generate_secure_token e >>= f)
  drawing e f never keeps =
      Keeps-learn (λ t w. p.hash t ≢ h) _ f (generated e never)
        (λ t. record {
          kept = λ w hw.
              Ends-weaken ((keeps t hw.1).kept w hw.0) (λ a v hv. (hv, hw.1))
                (λ e v hv. (hv, hw.1));
        })

  hashing :
      (t : ℕ) (f : ℕ → Io A)
      → Keeps p (Bound n b h) (f (p.hash t))
      → Keeps p (Bound n b h) (hash_token t >>= f)
  unfolding hash_token
  hashing t f keeps = record {
    kept = λ w hw. Ends-bind _ f w (Ends-asks (λ p w. p.hash t) w (keeps.kept w hw));
  }

module _ {p : Platform} {n : ℕ} {b : Option ℕ} {h : ℕ} where
  pub create_session-Keeps :
      (input : CreateSessionInput) → NotDrawn p n h → Keeps p (Bound n b h) (create_session input)
  unfolding create_session
  create_session-Keeps input never =
      search (drawing, hashing, calls, create-Keeps, set_cache_entries-Keeps) depth 40

  pub cache_refreshed-Keeps :
      (r : SessionRecord) (k : ℕ) (pair : TokenPair)
      → Keeps p (Bound n b h) (cache_refreshed r k pair)
  unfolding cache_refreshed
  cache_refreshed-Keeps r k pair = search (calls, set_cache_entries-Keeps) depth 30

  reissue-Keeps :
      (r : SessionRecord) (a t : ℕ) → p.hash t ≢ h → Keeps p (Bound n b h) (reissue r a t)
  unfolding reissue
  reissue-Keeps r a t other =
      search (hashing, calls, update_refresh_token-Keeps, cache_refreshed-Keeps) depth 30

  rotate-Keeps : (r : SessionRecord) → NotDrawn p n h → Keeps p (Bound n b h) (rotate r)
  unfolding rotate
  rotate-Keeps r never = search (drawing, calls, delete_old_entries-Keeps, reissue-Keeps) depth 30

  pub read_row-Keeps : (t : ℕ) → Keeps p (Bound n b h) (read_row t)
  unfolding read_row
  read_row-Keeps t = search calls depth 20

  pub refresh-Keeps : (t : ℕ) → NotDrawn p n h → Keeps p (Bound n b h) (refresh t)
  unfolding refresh
  refresh-Keeps t never = search (calls, read_row-Keeps, rotate-Keeps) depth 20

module _ {p : Platform} {n : ℕ} {b : Option ℕ} {h : ℕ} where
  resume-Keeps : (r : Option SessionRecord) → NotDrawn p n h → Keeps p (Bound n b h) (resume r)
  unfolding resume
  resume-Keeps none never = search calls depth 20
  resume-Keeps (some r) never =
      Keeps-bind _ _ (Keeps-try _ (rotate-Keeps r never)) (λ _. Keeps-return tt)

  background-Keeps : (o : Option (ℕ × ℕ)) → Keeps p (Bound n b h) (background o)
  unfolding background
  background-Keeps none = search calls depth 20
  background-Keeps (some x) = search calls depth 20

begun-Bound :
    (n : ℕ) (b : Option ℕ) (h : ℕ) (r : Result AuthError SessionRecord × World)
    → Bound n b h r.1
    → Bound n b h (begun r)
begun-Bound n b h (ok r, w) kept = kept
begun-Bound n b h (err e, w) kept = kept

-- So after every event.
handle-Bound :
    (p : Platform) (n : ℕ) (b : Option ℕ) (h : ℕ) (e : Event) (w : World)
    → NotDrawn p n h
    → Bound n b h w
    → Bound n b h (handle e p w)
unfolding handle
handle-Bound p n b h (creates input) w never kept =
    Keeps-world (Bound n b h) p (create_session input) w (create_session-Keeps input never) kept
handle-Bound p n b h (finds token) w never kept =
    Keeps-world (Bound n b h) p (find_by_token token) w (find_by_token-Keeps token) kept
handle-Bound p n b h (refreshes token) w never kept =
    Keeps-world (Bound n b h) p (refresh token) w (refresh-Keeps token never) kept
handle-Bound p n b h (revokes token) w never kept =
    Keeps-world (Bound n b h) p (revoke token) w (revoke-Keeps token) kept
handle-Bound p n b h (revokes_all_for_user account) w never kept =
    Keeps-world (Bound n b h) p (revoke_all_for_user account) w (revoke_all_for_user-Keeps account)
      kept
handle-Bound p n b h revokes_all w never kept =
    Keeps-world (Bound n b h) p revoke_all w revoke_all-Keeps kept
handle-Bound p n b h (switches token user) w never kept =
    Keeps-world (Bound n b h) p (switch_user token user) w (switch_user-Keeps token user) kept
handle-Bound p n b h (begins_refresh token) w never kept =
    begun-Bound n b h (read_row token p w)
      (Keeps-world (Bound n b h) p (read_row token) w (read_row-Keeps token) kept)
handle-Bound p n b h (ends_refresh k) w never kept =
    Keeps-world (Bound n b h) p (resume (pick k w.reading)) (resumed k w)
      (resume-Keeps (pick k w.reading) never) kept
handle-Bound p n b h (waits t) w never kept = kept
handle-Bound p n b h (runs_background k) w never kept =
    Keeps-world (Bound n b h) p (background (pick k w.pending)) (finished k w)
      (background-Keeps (pick k w.pending)) kept

pub run-Bound :
    (p : Platform) (n : ℕ) (b : Option ℕ) (h : ℕ) (es : List Event) (w : World)
    → NotDrawn p n h
    → Bound n b h w
    → Bound n b h (run es p w)
unfolding run
run-Bound p n b h [] w never kept = kept
run-Bound p n b h (e ∷ es) w never kept =
    run-Bound p n b h es (handle e p w) never (handle-Bound p n b h e w never kept)
