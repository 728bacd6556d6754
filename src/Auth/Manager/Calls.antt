-- ===== src/Auth/Manager/Calls.antt =====
-- Refresh tokens that no row accepts, and the calls that the session manager makes.
use tentserv_chat_server.Prelude.{
  ℕ, ◌+◌, ◌≡◌, ◌≢◌, Bool, true, false, some, [], ◌∷◌, ◌++◌, ◌∙◌, sym, ◌≤◌, Option, none, List,
  update, any, All, All-update, All-append,
}
use tentserv_chat_server.Auth.World.{
  SessionRecord, Session, World, Platform, get_access, get_id, set_access, set_id, delete_access,
  delete_id, call, service_failed,
}
use tentserv_chat_server.Auth.Keeps.{
  Keeps, Keeps-world, Keeps-bind, Keeps-call, Keeps-learn, Keeps-found_or, io_rules,
}
use tentserv_chat_server.Auth.Sessions.{
  create, find_by_refresh_token_hash, find_active_ids_by_account_id, find_all_active_ids,
  update_refresh_token, update_expires_at, mark_revoked, revoke_all_for_account, mark_all_revoked,
  update_user_id, change, new_row, clashes, renewed, unless_refused, has_id, has_hash,
}
use tentserv_chat_server.Auth.Manager.{hash_token, spawn_update}

-- What a row is to be: revoked, or the row of an id.
abbrev pub Mark : Option ℕ → SessionRecord → Type 0
Mark none r = r.revoked ≡ true
Mark (some i) r = r.id ≡ i

pub record Marked (o : Option ℕ) (r : SessionRecord) : Type 0 where
  pub mark : Mark o r

Marked-after :
    (o : Option ℕ) (r r' : SessionRecord)
    → r'.id ≡ r.id
    → (r.revoked ≡ true → r'.revoked ≡ true)
    → Marked o r
    → Marked o r'
Marked-after none r r' same more h = record { mark = more h.mark }
Marked-after (some i) r r' same more h = record { mark = same ∙ h.mark }

-- Each row with the hash is so; and the generator has drawn so often at least.
abbrev pub AllMarked : Option ℕ → ℕ → List SessionRecord → Type 0
AllMarked o h rows = All (λ r. r.refresh_token_hash ≡ h → Marked o r) rows

abbrev pub Bound : ℕ → Option ℕ → ℕ → World → Type 0
Bound n o h w = AllMarked o h w.sessions × (n ≤ w.draws)

-- From the n-th draw on, the generator draws no token with the hash.
abbrev pub NotDrawn : Platform → ℕ → ℕ → Type 0
NotDrawn p n h = (k t : ℕ) → n ≤ k → p.random k ≡ some t → p.hash t ≢ h

renewed_rows :
    (o : Option ℕ) (h i k t now : ℕ) (rows : List SessionRecord)
    → k ≢ h
    → AllMarked o h rows
    → AllMarked o h (update (has_id i) (renewed k t now) rows)
renewed_rows o h i k t now rows other kept =
    All-update _ (has_id i) (renewed k t now) rows (λ r at e. absurd (other e)) kept

Bound-unless :
    (n : ℕ) (o : Option ℕ) (h : ℕ) {A : Type 0} (b : Bool) (a : A) (w v : World)
    → Bound n o h w
    → Bound n o h v
    → Bound n o h (unless_refused b a w v).1
Bound-unless n o h true a w v hw hv = hw
Bound-unless n o h false a w v hw hv = hv

module _ {p : Platform} {n : ℕ} {o : Option ℕ} {h : ℕ} where
  Keeps-change :
      (test : World → SessionRecord → Bool) (f : World → SessionRecord → SessionRecord)
      → ((w : World) (r : SessionRecord) → (f w r).refresh_token_hash ≡ r.refresh_token_hash)
      → ((w : World) (r : SessionRecord) → (f w r).id ≡ r.id)
      → ((w : World) (r : SessionRecord) → r.revoked ≡ true → (f w r).revoked ≡ true)
      → Keeps p (Bound n o h) (change test f)
  Keeps-change test f hash id more = Keeps-call _ (λ w kept. (
    (
      All-update _ (test _) (f _) w.sessions
          (λ r at e. Marked-after o r (f _ r) (id _ r) (more _ r) (at (sym (hash _ r) ∙ e))) kept.0,
      kept.1,
    ),
    kept,
  ))

  pub get_access-Keeps : (k : ℕ) → Keeps p (Bound n o h) (get_access k)
  unfolding get_access
  get_access-Keeps k = search (Keeps-call) depth 8

  pub get_id-Keeps : (k : ℕ) → Keeps p (Bound n o h) (get_id k)
  unfolding get_id
  get_id-Keeps k = search (Keeps-call) depth 8

  pub set_access-Keeps :
      (k : ℕ) (s : Session) (ttl : ℕ) → Keeps p (Bound n o h) (set_access k s ttl)
  unfolding set_access
  set_access-Keeps k s ttl = search (Keeps-call) depth 8

  pub set_id-Keeps : (i k ttl : ℕ) → Keeps p (Bound n o h) (set_id i k ttl)
  unfolding set_id
  set_id-Keeps i k ttl = search (Keeps-call) depth 8

  pub delete_access-Keeps : (k : ℕ) → Keeps p (Bound n o h) (delete_access k)
  unfolding delete_access
  delete_access-Keeps k = search (Keeps-call) depth 8

  pub delete_id-Keeps : (i : ℕ) → Keeps p (Bound n o h) (delete_id i)
  unfolding delete_id
  delete_id-Keeps i = search (Keeps-call) depth 8

  pub find_by_refresh_token_hash-Keeps :
      (k : ℕ) → Keeps p (Bound n o h) (find_by_refresh_token_hash k)
  unfolding find_by_refresh_token_hash
  find_by_refresh_token_hash-Keeps k = search (io_rules, Keeps-call) depth 20

  pub find_active_ids_by_account_id-Keeps :
      (a : ℕ) → Keeps p (Bound n o h) (find_active_ids_by_account_id a)
  unfolding find_active_ids_by_account_id
  find_active_ids_by_account_id-Keeps a = search (Keeps-call) depth 8

  pub find_all_active_ids-Keeps : Keeps p (Bound n o h) find_all_active_ids
  unfolding find_all_active_ids
  find_all_active_ids-Keeps = search (Keeps-call) depth 8

  pub spawn_update-Keeps : (i t : ℕ) → Keeps p (Bound n o h) (spawn_update i t)
  unfolding spawn_update
  spawn_update-Keeps i t = record { kept = λ w kept. record { post = kept } }

  -- a write that a constraint may refuse
  Keeps-refusable :
      (refused : World → Bool) (f g : World → World)
      → ((w : World) → Bound n o h w → Bound n o h (f w))
      → ((w : World) → Bound n o h w → Bound n o h (g w))
      → {A : Type 0} (a : World → A)
      → Keeps p (Bound n o h) (call (λ w. unless_refused (refused w) (a w) (f w) (g w)))
  Keeps-refusable refused f g keeps also a = Keeps-call _ (λ w kept.
      (Bound-unless n o h (refused _) (a _) (f _) (g _) (keeps _ kept) (also _ kept), kept))

  pub update_refresh_token-Keeps :
      (i k t : ℕ) → k ≢ h → Keeps p (Bound n o h) (update_refresh_token i k t)
  unfolding update_refresh_token
  update_refresh_token-Keeps i k t other =
      Keeps-bind _ _
        (Keeps-refusable (λ w. clashes i k w.sessions) (λ w. w)
          (λ w. record w { sessions = update (has_id i) (renewed k t w.now) w.sessions })
          (λ w kept. kept)
          (λ w kept. (renewed_rows o h i k t w.now w.sessions other kept.0, kept.1)) (λ _. tt))
        (λ u. Keeps-found_or u service_failed)

  pub update_expires_at-Keeps : (i t : ℕ) → Keeps p (Bound n o h) (update_expires_at i t)
  unfolding update_expires_at
  update_expires_at-Keeps i t = search (Keeps-change) depth 12

  pub mark_revoked-Keeps : (i : ℕ) → Keeps p (Bound n o h) (mark_revoked i)
  unfolding mark_revoked
  mark_revoked-Keeps i = search (Keeps-change) depth 12

  pub revoke_all_for_account-Keeps : (a : ℕ) → Keeps p (Bound n o h) (revoke_all_for_account a)
  unfolding revoke_all_for_account
  revoke_all_for_account-Keeps a = search (Keeps-change) depth 12

  pub mark_all_revoked-Keeps : Keeps p (Bound n o h) mark_all_revoked
  unfolding mark_all_revoked
  mark_all_revoked-Keeps = search (Keeps-change) depth 12

  pub update_user_id-Keeps : (i u : ℕ) → Keeps p (Bound n o h) (update_user_id i u)
  unfolding update_user_id
  update_user_id-Keeps i u = search (Keeps-change) depth 12

  pub create-Keeps :
      (account user device k t : ℕ) → k ≢ h → Keeps p (Bound n o h) (create account user device k t)
  unfolding create
  create-Keeps account user device k t other =
      Keeps-bind _ _
        (Keeps-refusable (λ w. any (has_hash k) w.sessions)
          (λ w. record w { next_id = w.next_id + 1 })
          (λ w. record w {
            sessions = w.sessions ++ new_row account user device k t w ∷ [];
            next_id = w.next_id + 1;
          })
          (λ w kept. kept)
          (λ w kept. (All-append _ w.sessions _ kept.0 ((λ same. absurd (other same)), tt), kept.1))
          (λ w. w.next_id))
        (λ i. Keeps-found_or i service_failed)

  pub hash_token-Keeps : (t : ℕ) → Keeps p (Bound n o h) (hash_token t)
  unfolding hash_token
  hash_token-Keeps t = search io_rules

-- What the parts of the manager keep, for one draw of the generator after another.
pub ruleset calls = (
  io_rules, get_access-Keeps, get_id-Keeps, set_access-Keeps, set_id-Keeps, delete_access-Keeps,
  delete_id-Keeps, find_by_refresh_token_hash-Keeps, find_active_ids_by_account_id-Keeps,
  find_all_active_ids-Keeps, spawn_update-Keeps, update_expires_at-Keeps, mark_revoked-Keeps,
  revoke_all_for_account-Keeps, mark_all_revoked-Keeps, update_user_id-Keeps, hash_token-Keeps,
)
