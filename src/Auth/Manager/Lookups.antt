-- ===== src/Auth/Manager/Lookups.antt =====
-- What the parts of the manager that leave the table alone, and its lookups, end in.
use tentserv_chat_server.Prelude.{
  ℕ, ◌+◌, ◌≡◌, refl, Bool, true, false, Option, none, some, List, Row, pick-Row, Row-select, pick,
  select,
}
use tentserv_chat_server.Auth.World.{
  SessionRecord, Session, World, Platform, AuthError, service_failed, row_not_found,
  refresh_token_invalid, Io, advanced, call, return, throw, ◌>>=◌, found_or, generate_secure_token,
  get_id, set_access, set_id, delete_access, delete_id,
}
use tentserv_chat_server.Auth.Rules.{
  Ends, Ends-bind, Ends-asks, Ends-call, Ends-found_or, Ends-weaken,
}
use tentserv_chat_server.Auth.Keeps.{Keeps, Keeps-call, io_rules}
use tentserv_chat_server.Auth.Sessions.{has_hash, picked, find_by_refresh_token_hash}
use tentserv_chat_server.Auth.Manager.{
  hash_token, refuse_if, set_cache_entries, drop_entries, delete_old_entries,
}

-- The table is as it was.
abbrev pub Same : List SessionRecord → World → Type 0
Same rows w = w.sessions ≡ rows

module _ {p : Platform} {rows : List SessionRecord} where
  get_id-Keeps : (i : ℕ) → Keeps p (Same rows) (get_id i)
  unfolding get_id
  get_id-Keeps i = search (Keeps-call) depth 8

  set_access-Keeps : (k : ℕ) (s : Session) (ttl : ℕ) → Keeps p (Same rows) (set_access k s ttl)
  unfolding set_access
  set_access-Keeps k s ttl = search (Keeps-call) depth 8

  set_id-Keeps : (i k ttl : ℕ) → Keeps p (Same rows) (set_id i k ttl)
  unfolding set_id
  set_id-Keeps i k ttl = search (Keeps-call) depth 8

  delete_access-Keeps : (k : ℕ) → Keeps p (Same rows) (delete_access k)
  unfolding delete_access
  delete_access-Keeps k = search (Keeps-call) depth 8

  delete_id-Keeps : (i : ℕ) → Keeps p (Same rows) (delete_id i)
  unfolding delete_id
  delete_id-Keeps i = search (Keeps-call) depth 8

  pub set_cache_entries-Keeps :
      (i k : ℕ) (s : Session) → Keeps p (Same rows) (set_cache_entries i k s)
  unfolding set_cache_entries
  set_cache_entries-Keeps i k s = search (io_rules, set_access-Keeps, set_id-Keeps) depth 20

  drop_entries-Keeps : (i : ℕ) (o : Option ℕ) → Keeps p (Same rows) (drop_entries i o)
  unfolding drop_entries
  drop_entries-Keeps i none = search io_rules
  drop_entries-Keeps i (some k) = search (io_rules, delete_access-Keeps, delete_id-Keeps) depth 20

  pub delete_old_entries-Keeps : (i : ℕ) → Keeps p (Same rows) (delete_old_entries i)
  unfolding delete_old_entries
  delete_old_entries-Keeps i = search (io_rules, get_id-Keeps, drop_entries-Keeps) depth 20

module _ {A : Type 0} {p : Platform} {Q : A → World → Type 0} {R : AuthError → World → Type 0} where
  pub Ends-hash_token :
      (t : ℕ) (f : ℕ → Io A) (w : World)
      → Ends p Q R (f (p.hash t)) w
      → Ends p Q R (hash_token t >>= f) w
  unfolding hash_token
  Ends-hash_token t f w h = Ends-bind _ f w (Ends-asks (λ p w. p.hash t) w h)

  -- A call that leaves the table alone may be passed over.
  pub Ends-Same :
      {B : Type 0} (m : Io B) (f : B → Io A) (w : World)
      → Keeps p (Same w.sessions) m
      → ((e : AuthError) (v : World) → v.sessions ≡ w.sessions → R e v)
      → ((b : B) (v : World) → v.sessions ≡ w.sessions → Ends p Q R (f b) v)
      → Ends p Q R (m >>= f) w
  Ends-Same m f w keeps broken h = Ends-bind m f w (Ends-weaken (keeps.kept w refl) h broken)

module _ {p : Platform} {Q : SessionRecord → World → Type 0} {R : AuthError → World → Type 0} where
  -- The row of a refresh token has its hash.
  pub Ends-find_by_refresh_token_hash :
      (h : ℕ) (w : World)
      → ((r : SessionRecord) (v : World)
          → v.sessions ≡ w.sessions
          → v.draws ≡ w.draws
          → Row r w.sessions
          → has_hash h r ≡ true
          → Q r v)
      → ((e : AuthError) (v : World) → v.sessions ≡ w.sessions → R e v)
      → Ends p Q R (find_by_refresh_token_hash h) w
  unfolding find_by_refresh_token_hash
  Ends-find_by_refresh_token_hash h w found missing = Ends-bind _ (reading) w (
      Ends-asks (λ p w. p.order w.step) w
        (Ends-bind _ (λ o. found_or o row_not_found) w
          (Ends-call (picked (p.order w.step) (has_hash h)) w
            (λ _.
              Ends-found_or (pick (p.order w.step) (select (has_hash h) w.sessions)) row_not_found
                (advanced w)
                (λ r e.
                  let (at, hit) =
                    Row-select (has_hash h) r w.sessions
                      (pick-Row (p.order w.step) r (select (has_hash h) w.sessions) e) in
                  found r (advanced w) refl refl at hit)
                (λ _. missing row_not_found (advanced w) refl))
            (λ _. missing service_failed (advanced w) refl))))
    where
      reading : ℕ → Io SessionRecord
      reading k = do o ← call (picked k (has_hash h)); found_or o row_not_found

module _ {p : Platform} {Q : ℕ → World → Type 0} {R : AuthError → World → Type 0} where
  pub Ends-generate_secure_token :
      (w : World)
      → ((t n : ℕ) (v : World) → v.sessions ≡ w.sessions → p.random n ≡ some t → Q t v)
      → ((v : World) → v.sessions ≡ w.sessions → R service_failed v)
      → Ends p Q R generate_secure_token w
  unfolding generate_secure_token
  Ends-generate_secure_token w h broken = record {
    post =
        (Ends-found_or {Q = Q} {R = R} (p.random w.draws) service_failed
          (record w { draws = w.draws + 1 }) (λ t drawn. h t w.draws _ refl drawn)
          (λ _. broken _ refl)).post;
  }

module _ {p : Platform} {Q : Unit → World → Type 0} {R : AuthError → World → Type 0} where
  pub Ends-refuse_if :
      (b : Bool) (w : World)
      → (b ≡ true → R refresh_token_invalid w)
      → (b ≡ false → Q tt w)
      → Ends p Q R (refuse_if b) w
  unfolding return throw
  Ends-refuse_if true w refused passed = record { post = refused refl }
  Ends-refuse_if false w refused passed = record { post = passed refl }
