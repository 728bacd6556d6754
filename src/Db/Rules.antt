-- ===== src/Db/Rules.antt =====
-- A program logic for database code: what a call ends in from a given state, whatever the service
-- does on the way. A post-condition speaks of the result and of the state, one for each way to end.
use tentserv_chat_server.Prelude.{
  ℕ, ◌≡◌, refl, Bool, true, false, Option, none, some, List, if◌then◌else◌, pick, Row, pick-Row,
  pick-none, [],
}
use tentserv_chat_server.Db.{
  Tables, State, Outcome, fails, answers, Connection, DbError, not_found, failed, Result, ok, err,
  M, answer, settle, present, continue, advance, settled, translate, pure, raise, gets, ◌>>=◌,
  map_err, attempt, statement, scan_all, scan_one, exec, begin_tx, undone, commit,
  deferring_rollback, require, optional, optional_result,
}

abbrev pub Post :
    {E A : Type 0}
    → (A → State → Type 0)
    → (E → State → Type 0)
    → Result E A × State × Connection
    → Type 0
Post Q R (ok a, s, c) = Q a s
Post Q R (err e, s, c) = R e s

-- From `s`, over every connection, `m` returns a value with `Q` or an error with `R`.
pub record Ends {E A : Type 0} (Q : A → State → Type 0) (R : E → State → Type 0) (m : M E A)
    (s : State) : Type 0 where
  pub at : (c : Connection) → Post Q R (m s c)

module _ {E A : Type 0} {Q : A → State → Type 0} {R : E → State → Type 0} where
  pub Ends-pure : (a : A) (s : State) → Q a s → Ends Q R (pure a) s
  unfolding pure
  Ends-pure a s h = record { at = λ c. h }

  pub Ends-raise : (e : E) (s : State) → R e s → Ends Q R (raise e) s
  unfolding raise
  Ends-raise e s h = record { at = λ c. h }

  pub Ends-gets : (f : State → A) (s : State) → Q (f s) s → Ends Q R (gets f) s
  unfolding gets
  Ends-gets f s h = record { at = λ c. h }

  pub Ends-if :
      {b : Bool} {m n : M E A} {s : State}
      → (b ≡ true → Ends Q R m s)
      → (b ≡ false → Ends Q R n s)
      → Ends Q R (if b then m else n) s
  Ends-if {b = true} hm hn = hm refl
  Ends-if {b = false} hm hn = hn refl

module _ {E A : Type 0} (Q : A → State → Type 0) (R : E → State → Type 0) where
  Post-undone :
      (r : Result E A × State × Connection) (c : Connection)
      → Post (λ a s. Q a (undone s)) (λ e s. R e (undone s)) r
      → Post Q R (r.0, undone r.1, c)
  Post-undone (ok a, s, d) c h = h
  Post-undone (err e, s, d) c h = h

  Post-continue :
      {B : Type 0} (f : B → M E A) (r : Result E B × State × Connection)
      → Post (λ b s. Ends Q R (f b) s) R r
      → Post Q R (continue r.0 f r.1 r.2)
  Post-continue f (ok b, s, c) h = h.at c
  Post-continue f (err e, s, c) h = h

  Post-translate :
      {F : Type 0} (f : F → E) (r : Result F A × State × Connection)
      → Post Q (λ e. R (f e)) r
      → Post Q R (translate f r.0, r.1, r.2)
  Post-translate f (ok b, s, c) h = h
  Post-translate f (err e, s, c) h = h

module _ {E A : Type 0} {Q : A → State → Type 0} {R : E → State → Type 0} where
  pub Ends-deferring_rollback :
      (m : M E A) (s : State)
      → Ends (λ a t. Q a (undone t)) (λ e t. R e (undone t)) m s
      → Ends Q R (deferring_rollback m) s
  unfolding deferring_rollback
  Ends-deferring_rollback m s h = record { at = λ c. Post-undone Q R (m s c) _ (h.at c) }

  pub Ends-bind :
      {B : Type 0} (m : M E B) (f : B → M E A) (s : State)
      → Ends (λ b t. Ends Q R (f b) t) R m s
      → Ends Q R (m >>= f) s
  unfolding ◌>>=◌
  Ends-bind m f s h = record { at = λ c. Post-continue Q R f (m s c) (h.at c) }

  pub Ends-map_err :
      {F : Type 0} (f : F → E) (m : M F A) (s : State)
      → Ends Q (λ e. R (f e)) m s
      → Ends Q R (map_err f m) s
  unfolding map_err
  Ends-map_err f m s h = record { at = λ c. Post-translate Q R f (m s c) (h.at c) }

module _ {E A : Type 0} (Q : Result E A → State → Type 0) where
  post_attempt :
      (r : Result E A × State × Connection) → Post (λ a. Q (ok a)) (λ e. Q (err e)) r → Q r.0 r.1
  post_attempt (ok a, s, c) h = h
  post_attempt (err e, s, c) h = h

module _ {E F A : Type 0} {Q : Result E A → State → Type 0} {R : F → State → Type 0} where
  pub Ends-attempt :
      (m : M E A) (s : State) → Ends (λ a. Q (ok a)) (λ e. Q (err e)) m s → Ends Q R (attempt m) s
  unfolding attempt
  Ends-attempt m s h = record { at = λ c. post_attempt Q (m s c) (h.at c) }

-- What an answered statement leads to; a refused one changes nothing.
abbrev pub Answered :
    {A : Type 0}
    → (A → State → Type 0)
    → (DbError → State → Type 0)
    → State
    → Result DbError (A × State)
    → Type 0
Answered Q R s (ok (a, t)) = Q a t
Answered Q R s (err e) = R e s

pub Answered-if :
    {A : Type 0} (Q : A → State → Type 0) (R : DbError → State → Type 0) (s : State) (b : Bool)
    (x y : Result DbError (A × State))
    → (b ≡ true → Answered Q R s x)
    → (b ≡ false → Answered Q R s y)
    → Answered Q R s (if b then x else y)
Answered-if Q R s true x y hx hy = hx refl
Answered-if Q R s false x y hx hy = hy refl

module _ {A : Type 0} (Q : A → State → Type 0) (R : DbError → State → Type 0) (s : State) where
  Post-settled :
      (r : Result DbError (A × State)) (c : Connection)
      → Answered Q R s r
      → Post Q R (settled r s c)
  Post-settled (ok (a, t)) c h = h
  Post-settled (err e) c h = h

  Post-answer :
      (o : Outcome) (f : ℕ → State → Result DbError (A × State)) (c : Connection)
      → ((k : ℕ) → Answered Q R s (f k s))
      → R failed s
      → Post Q R (answer o f s c)
  Post-answer fails f c h broken = broken
  Post-answer (answers k) f c h broken = Post-settled (f k s) c (h k)

  Post-if :
      (b : Bool) (r : Result DbError A × State × Connection) (c : Connection)
      → Post Q R r
      → R failed s
      → Post Q R (if b then (err failed, s, c) else r)
  Post-if true r c h broken = broken
  Post-if false r c h broken = h

module _ {A : Type 0} {Q : A → State → Type 0} {R : DbError → State → Type 0} where
  pub Ends-statement :
      (f : ℕ → State → Result DbError (A × State)) (s : State)
      → ((k : ℕ) → Answered Q R s (f k s))
      → R failed s
      → Ends Q R (statement f) s
  unfolding statement
  Ends-statement f s h broken = record {
    at = λ c.
        Post-if Q R s c.aborted (answer (c.service c.step) f s c) (advance c)
          (Post-answer Q R s (c.service c.step) f c h broken) broken;
  }

  present_row :
      (o : Option A) (rows : List A) (s : State)
      → ((a : A) → o ≡ some a → Row a rows)
      → ((a : A) → Row a rows → Q a s)
      → R not_found s
      → Ends Q R (present o) s
  unfolding present
  present_row none rows s found h missing = Ends-raise not_found s missing
  present_row (some a) rows s found h missing = Ends-pure a s (h a (found a refl))

module _ {A : Type 0} {Q : A → State → Type 0} {R : DbError → State → Type 0} where
  pub Ends-scan_one :
      (f : Tables → List A) (s : State)
      → ((a : A) → Row a (f s.tables) → Q a s)
      → ((e : DbError) → R e s)
      → Ends Q R (scan_one f) s
  unfolding scan_one
  Ends-scan_one f s h broken =
      Ends-bind (statement {A = Option A} (λ k t. ok (pick k (f t.tables), t))) present s (
        Ends-statement {A = Option A} (λ k t. ok (pick k (f t.tables), t)) s
          (λ k.
            present_row (pick k (f s.tables)) (f s.tables) s (λ a e. pick-Row k a (f s.tables) e) h
              (broken not_found))
          (broken failed))

module _ {A : Type 0} {Q : A → State → Type 0} {R : DbError → State → Type 0} where
  found_or_missing :
      (o : Option A) (rows : List A) (s : State)
      → ((a : A) → o ≡ some a → Row a rows)
      → (o ≡ none → rows ≡ [])
      → ((a : A) → Row a rows → Q a s)
      → (rows ≡ [] → R not_found s)
      → Ends Q R (present o) s
  unfolding present
  found_or_missing none rows s found none_of h missing =
      Ends-raise not_found s (missing (none_of refl))
  found_or_missing (some a) rows s found none_of h missing = Ends-pure a s (h a (found a refl))

  -- A lookup that misses says that there is no row.
  pub Ends-lookup :
      (f : Tables → List A) (s : State)
      → ((a : A) → Row a (f s.tables) → Q a s)
      → (f s.tables ≡ [] → R not_found s)
      → R failed s
      → Ends Q R (scan_one f) s
  unfolding scan_one
  Ends-lookup f s h missing broken =
      Ends-bind (statement {A = Option A} (λ k t. ok (pick k (f t.tables), t))) present s (
        Ends-statement {A = Option A} (λ k t. ok (pick k (f t.tables), t)) s
          (λ k.
            found_or_missing (pick k (f s.tables)) (f s.tables) s
              (λ a e. pick-Row k a (f s.tables) e) (λ e. pick-none k (f s.tables) e) h missing)
          broken)

module _ {A : Type 0} {Q : List A → State → Type 0} {R : DbError → State → Type 0} where
  pub Ends-scan_all :
      (f : Tables → List A) (s : State) → Q (f s.tables) s → R failed s → Ends Q R (scan_all f) s
  unfolding scan_all
  Ends-scan_all f s h broken = Ends-statement _ s (λ k. h) broken

module _ (Q : Unit → State → Type 0) (R : DbError → State → Type 0) where
  Post-commit :
      (b : Bool) (o : Outcome) (s : State) (c : Connection)
      → Q tt (record s { saved = none })
      → R failed (undone s)
      → Post Q R (if b then settle fails s c else settle o s c)
  Post-commit true o s c h broken = broken
  Post-commit false fails s c h broken = broken
  Post-commit false (answers k) s c h broken = h

module _ {Q : Unit → State → Type 0} {R : DbError → State → Type 0} where
  pub Ends-exec :
      (f : ℕ → Tables → Tables) (s : State)
      → Q tt (record s { tables = f s.now s.tables })
      → R failed s
      → Ends Q R (exec f) s
  unfolding exec
  Ends-exec f s h broken = Ends-statement _ s (λ k. h) broken

  pub Ends-begin_tx :
      (s : State) → Q tt (record s { saved = some s.tables }) → R failed s → Ends Q R begin_tx s
  unfolding begin_tx
  Ends-begin_tx s h broken = Ends-statement _ s (λ k. h) broken

  pub Ends-commit :
      (s : State) → Q tt (record s { saved = none }) → R failed (undone s) → Ends Q R commit s
  unfolding commit
  Ends-commit s h broken = record {
    at = λ c. Post-commit Q R c.aborted (c.service c.step) s c h broken;
  }

module _ {E : Type 0} {Q : Unit → State → Type 0} {R : E → State → Type 0} where
  pub Ends-require :
      (b : Bool) (e : E) (s : State)
      → (b ≡ true → Q tt s)
      → (b ≡ false → R e s)
      → Ends Q R (require b e) s
  unfolding require
  Ends-require true e s h broken = Ends-pure tt s (h refl)
  Ends-require false e s h broken = Ends-raise e s (broken refl)

module _ {E A : Type 0} (Q : Option A → State → Type 0) (R : E → State → Type 0) where
  -- how `optional` ends, by how the lookup did
  abbrev pub Failing : (DbError → E) → DbError → State → Type 0
  Failing f not_found s = Q none s
  Failing f e s = R (f e) s

  Post-optional :
      (f : DbError → E) (r : Result DbError A × State × Connection)
      → Post (λ a. Q (some a)) (Failing f) r
      → Post Q R (optional_result f r.0, r.1, r.2)
  Post-optional f (ok a, s, c) h = h
  Post-optional f (err not_found, s, c) h = h
  Post-optional f (err _, s, c) h = h

module _ {E A : Type 0} {Q : Option A → State → Type 0} {R : E → State → Type 0} where
  pub Ends-optional :
      (f : DbError → E) (m : M DbError A) (s : State)
      → Ends (λ a. Q (some a)) (Failing Q R f) m s
      → Ends Q R (optional f m) s
  unfolding optional
  Ends-optional f m s h = record { at = λ c. Post-optional Q R f (m s c) (h.at c) }

module _ {E A : Type 0} {Q Q' : A → State → Type 0} {R R' : E → State → Type 0} where
  Post-weaken :
      (r : Result E A × State × Connection)
      → Post Q R r
      → ((a : A) (s : State) → Q a s → Q' a s)
      → ((e : E) (s : State) → R e s → R' e s)
      → Post Q' R' r
  Post-weaken (ok a, s, c) h hq hr = hq a s h
  Post-weaken (err e, s, c) h hq hr = hr e s h

  pub Ends-weaken :
      {m : M E A} {s : State}
      → Ends Q R m s
      → ((a : A) (s : State) → Q a s → Q' a s)
      → ((e : E) (s : State) → R e s → R' e s)
      → Ends Q' R' m s
  Ends-weaken {m} {s} h hq hr = record { at = λ c. Post-weaken (m s c) (h.at c) hq hr }

module _ {E A : Type 0} {Q : A → State → Type 0} {R : E → State → Type 0} where
  -- a call whose error is passed on
  pub Ends-call :
      {B : Type 0} (f : DbError → E) (m : M DbError B) (k : B → M E A) (s : State)
      → Ends (λ b t. Ends Q R (k b) t) (λ e. R (f e)) m s
      → Ends Q R (map_err f m >>= k) s
  Ends-call f m k s h = Ends-bind (map_err f m) k s (Ends-map_err f m s h)

  -- a guard before the rest
  pub Ends-guard :
      (b : Bool) (e : E) (m : M E A) (s : State)
      → R e s
      → (b ≡ true → Ends Q R m s)
      → Ends Q R (require b e >>= λ _. m) s
  Ends-guard b e m s broken h =
      Ends-bind (require b e) (λ _. m) s (Ends-require b e s h (λ _. broken))
