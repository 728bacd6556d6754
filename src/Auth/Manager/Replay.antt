-- ===== src/Auth/Manager/Replay.antt =====
-- A refresh token is good for one refresh.
use tentserv_chat_server.Prelude.{
  ℕ, ◌+◌, ◌≡◌, ◌≢◌, refl, true, false, Bool, Bool-cases, inl, inr, Option, none, some, List, [],
  ◌∷◌, All-Row, ==_iff, arith, update,
}
use tentserv_chat_server.Db.{Result, ok, err}
use tentserv_chat_server.Auth.World.{
  SessionRecord, TokenPair, World, Platform, AuthError, refresh_token_invalid, service_failed, Io,
  asks, return, or_error, found_or, advanced, ◌>>=◌, generate_secure_token,
}
use tentserv_chat_server.Auth.Rules.{
  Post, Ends, Ends-return, Ends-or_error, Ends-bind, Ends-asks, Ends-call, Ends-weaken,
  Ends-found_or,
}
use tentserv_chat_server.Auth.Sessions.{
  has_id, renewed, clashes, unless_refused, find_by_refresh_token_hash, update_refresh_token,
}
use tentserv_chat_server.Auth.Manager.{
  hash_token, is_spent, refuse_if, pair_of, cache_refreshed, reissue, rotate, read_row,
  delete_old_entries, refresh,
}
use tentserv_chat_server.Auth.Manager.History.{Event, run}
use tentserv_chat_server.Auth.Manager.Calls.{Marked, AllMarked, Bound, NotDrawn}
use tentserv_chat_server.Auth.Manager.Refused.{
  run-Bound, cache_refreshed-Keeps, delete_old_entries-Keeps, generated,
}
use tentserv_chat_server.Auth.Manager.Lookups.{
  Ends-hash_token, Ends-find_by_refresh_token_hash, Ends-refuse_if,
}

-- Nothing, whatever the value.
abbrev Never : {A : Type 0} → A → World → Type 0
Never a w = ⊥

abbrev Invalid : AuthError → World → Type 0
Invalid e w = e ≡ refresh_token_invalid

abbrev Anything : AuthError → World → Type 0
Anything e w = Unit

module _ (p : Platform) (token : ℕ) where
  read_row-Ends :
      (o : Option ℕ) (w : World)
      → AllMarked o (p.hash token) w.sessions
      → Ends p
          (λ r v.
            (r.revoked ≡ false) × Marked o r × (v.sessions ≡ w.sessions) × (v.draws ≡ w.draws))
          Invalid
          (read_row token)
          w
  unfolding read_row
  read_row-Ends o w marked = Ends-hash_token token looking w (
      Ends-bind _ checked w (
        Ends-or_error _ refresh_token_invalid w (
          Ends-find_by_refresh_token_hash (p.hash token) w
            (λ r v same drawn at hit.
              Ends-bind _ (λ now. refuse_if (is_spent now r) >>= λ _. return r) v
                (Ends-asks (λ p w. w.now) v
                  (Ends-bind (refuse_if (is_spent v.now r)) (λ _. return r) v
                    (Ends-refuse_if (is_spent v.now r) v (λ _. refl)
                      (λ live. Ends-return r v (
                        ground (arith, live),
                        All-Row _ r w.sessions marked at
                            ((==_iff r.refresh_token_hash (p.hash token)).0 hit),
                        same,
                        drawn,
                      ))))))
            (λ e v same. refl))))
    where
      checked : SessionRecord → Io SessionRecord
      checked r = do now ← asks (λ p w. w.now); _ ← refuse_if (is_spent now r); return r

      looking : ℕ → Io SessionRecord
      looking h = do r ← or_error (find_by_refresh_token_hash h) refresh_token_invalid; checked r

  dead_token-Ends :
      (w : World)
      → AllMarked none (p.hash token) w.sessions
      → Ends p (Never {A = TokenPair}) Invalid (refresh token) w
  unfolding refresh
  dead_token-Ends w dead =
      Ends-bind (read_row token) rotate w
        (Ends-weaken (read_row-Ends none w dead) (λ r v k. cc (k.0, k.1.mark)) (λ e v k. k))

update_refuses :
    (h i k expires now : ℕ) (rows : List SessionRecord)
    → k ≢ h
    → AllMarked (some i) h rows
    → AllMarked none h (update (has_id i) (renewed k expires now) rows)
update_refuses h i k expires now [] other only = tt
update_refuses h i k expires now (r ∷ rs) other only = (
  elim (Bool-cases (has_id i r)) [
    | inl hit ↦ rw hit (λ e. absurd (other e))
    | inr miss ↦
        rw miss (λ e. let same : r.id ≡ i = (only.0 e).mark in absurd (ground (arith, same, miss)))
  ],
  update_refuses h i k expires now rs other only.1,
)

refused_or :
    (p : Platform) (Q : World → Type 0) (b : Bool) (w v : World)
    → Q v
    → Ends p
        (λ _. Q)
        Anything
        (found_or (unless_refused b tt w v).0 service_failed)
        (unless_refused b tt w v).1
refused_or p Q true w v h = Ends-found_or none service_failed w (λ _ e. cc) (λ _. tt)
refused_or p Q false w v h = Ends-found_or (some tt) service_failed v (λ _ _. h) (λ _. tt)

module _ (p : Platform) (n h i : ℕ) where
  update-Ends :
      (k expires : ℕ) (w : World)
      → k ≢ h
      → Bound n (some i) h w
      → Ends p (λ _. Bound n none h) Anything (update_refresh_token i k expires) w
  unfolding update_refresh_token
  update-Ends k expires w other only =
      Ends-bind _ (λ o. found_or o service_failed) w
        (Ends-call
          (λ v.
            unless_refused (clashes i k v.sessions) tt v
              (record v { sessions = update (has_id i) (renewed k expires v.now) v.sessions }))
          w
          (λ _.
            refused_or p (Bound n none h) (clashes i k w.sessions) (advanced w)
              (record (advanced w) {
                sessions = update (has_id i) (renewed k expires w.now) w.sessions;
              })
              (update_refuses h i k expires w.now w.sessions other only.0, only.1))
          (λ _. tt))

  reissue-Ends :
      (r : SessionRecord) (a t : ℕ) (w : World)
      → r.id ≡ i
      → p.hash t ≢ h
      → Bound n (some i) h w
      → Ends p (λ _. Bound n none h) Anything (reissue r a t) w
  unfolding reissue
  reissue-Ends r a t w its other only =
      let expires = w.now + p.expiration in
      let done : Ends p (λ _. Bound n none h) Anything
          (update_refresh_token r.id (p.hash t) expires) w =
        rw its (update-Ends (p.hash t) expires w other only) in
      Ends-hash_token a (λ k. hash_token t >>= stored k) w
        (Ends-hash_token t (stored (p.hash a)) w (
          Ends-bind _ (cached_at (p.hash a) (p.hash t)) w (
            Ends-asks (λ p w. w.now + p.expiration) w
              (Ends-bind _ (λ _. rest (p.hash a) (w.now + p.expiration)) w
                (Ends-or_error _ refresh_token_invalid w (
                  Ends-weaken done
                    (λ _ v dead.
                      Ends-weaken ((cache_refreshed-Keeps r (p.hash a) _).kept v dead)
                        (λ _ _ kept. kept) (λ _ _ _. tt))
                    (λ _ _ _. tt)))))))
    where
      rest : ℕ → ℕ → Io TokenPair
      rest k expires = cache_refreshed r k (pair_of a t expires)

      cached_at : ℕ → ℕ → ℕ → Io TokenPair
      cached_at k j expires = do
        _ ← or_error (update_refresh_token r.id j expires) refresh_token_invalid
        rest k expires

      stored : ℕ → ℕ → Io TokenPair
      stored k j = do expires ← asks (λ p w. w.now + p.expiration); cached_at k j expires

  rotate-Ends :
      (r : SessionRecord) (w : World)
      → r.id ≡ i
      → NotDrawn p n h
      → Bound n (some i) h w
      → Ends p (λ _. Bound n none h) Anything (rotate r) w
  unfolding rotate
  rotate-Ends r w its never only = Ends-bind (delete_old_entries r.id) drawn w (
      Ends-weaken ((delete_old_entries-Keeps r.id).kept w only)
        (λ _ v only₁. Ends-bind _ drawn_access v (
          Ends-weaken (generated refresh_token_invalid never v only₁)
            (λ a v₁ k₁. Ends-bind _ (reissue r a) v₁ (
              Ends-weaken (generated refresh_token_invalid never v₁ k₁.0)
                (λ t v₂ k₂. reissue-Ends r a t v₂ its k₂.1 k₂.0) (λ _ _ _. tt)))
            (λ _ _ _. tt)))
        (λ _ _ _. tt))
    where
      drawn_access : ℕ → Io TokenPair
      drawn_access a = do t ← or_error generate_secure_token refresh_token_invalid; reissue r a t

      drawn : Unit {0} → Io TokenPair
      drawn _ = do a ← or_error generate_secure_token refresh_token_invalid; drawn_access a

dead_result :
    {A : Type 0} (r : Result AuthError A × World)
    → Post (Never {A = A}) Invalid r
    → r.0 ≡ err refresh_token_invalid
dead_result (ok a, w) h = elim h [ ]
dead_result (err e, w) h = rw h refl

-- When every row with a refresh token's hash is revoked, and the generator does not draw the token from
-- here on, then a Refresh of the token that starts after any history of calls fails with
-- ErrRefreshToken, whichever calls of the services fail on the way, and whichever other Refreshes had
-- read their rows before.
pub token_stays_dead :
    (p : Platform) (token : ℕ) (es : List Event) (w : World)
    → NotDrawn p w.draws (p.hash token)
    → AllMarked none (p.hash token) w.sessions
    → (refresh token p (run es p w)).0 ≡ err refresh_token_invalid
token_stays_dead p token es w never dead =
    dead_result (refresh token p (run es p w))
      (dead_token-Ends p token (run es p w)
        (run-Bound p w.draws none (p.hash token) es w never (dead, omega arith)).0).post

dead_later :
    (p : Platform) (n token : ℕ) (fs : List Event) (w : World)
    → NotDrawn p n (p.hash token)
    → Bound n none (p.hash token) w
    → (refresh token p (run fs p w)).0 ≡ err refresh_token_invalid
dead_later p n token fs w never dead =
    dead_result (refresh token p (run fs p w))
      (dead_token-Ends p token (run fs p w)
        (run-Bound p n none (p.hash token) fs w never dead).0).post

-- Where a refresh token's hash is in rows of one id only, and the generator does not draw the token from
-- here on: a Refresh reads and checks its row, any history of other calls goes on, other Refreshes of the token
-- among them, and then, if the rest of that Refresh succeeds, every Refresh of the token that starts
-- later, after any further history, fails with ErrRefreshToken, whichever calls of the services fail on
-- the way. A Refresh that had checked the row before may still succeed.
pub refresh_once :
    (p : Platform) (token i : ℕ) (es fs : List Event) (w : World)
    → NotDrawn p w.draws (p.hash token)
    → AllMarked (some i) (p.hash token) w.sessions
    → Ends p
        (λ r v.
          Ends p
            (λ _ u. (refresh token p (run fs p u)).0 ≡ err refresh_token_invalid)
            Anything
            (rotate r)
            (run es p v))
        Anything
        (read_row token)
        w
refresh_once p token i es fs w never only =
    Ends-weaken (read_row-Ends p token (some i) w only)
      (λ r v k.
        let known : Bound w.draws (some i) (p.hash token) v = (rw k.2 only, omega (arith, k.3)) in
        let later = run-Bound p w.draws (some i) (p.hash token) es v never known in
        Ends-weaken (rotate-Ends p w.draws (p.hash token) i r (run es p v) k.1.mark never later)
          (λ _ u dead. dead_later p w.draws token fs u never dead) (λ _ _ _. tt))
      (λ _ _ _. tt)
