-- ===== src/Db/Keeps.antt =====
-- Invariants of database code: one rule for each way to build it, for every predicate on the state.
use tentserv_chat_server.Prelude.{ℕ, Bool, true, false, some, none, List, if◌then◌else◌}
use tentserv_chat_server.Db.{
  Tables, State, DbError, not_found, Result, M, pure, raise, gets, ◌>>=◌, map_err, attempt, require,
  optional, statement, scan_all, scan_one, exec, begin_tx, undone, commit, deferring_rollback,
}
use tentserv_chat_server.Db.Rules.{
  Ends, Answered, Ends-pure, Ends-raise, Ends-gets, Ends-bind, Ends-map_err, Ends-attempt,
  Ends-require, Ends-optional, Ends-statement, Ends-scan_one, Ends-scan_all, Ends-exec,
  Ends-begin_tx, Ends-commit, Ends-deferring_rollback, Ends-weaken, Failing,
}

-- `m` keeps `P`, however it ends.
pub record Keeps {E A : Type 0} (P : State → Type 0) (m : M E A) : Type 0 where
  pub at : (s : State) → P s → Ends (λ _. P) (λ _. P) m s

module _ {E A : Type 0} {P : State → Type 0} where
  pub Keeps-pure : (a : A) → Keeps P (pure {E = E} a)
  Keeps-pure a = record { at = λ s h. Ends-pure a s h }

  pub Keeps-raise : (e : E) → Keeps P (raise {A = A} e)
  Keeps-raise e = record { at = λ s h. Ends-raise e s h }

  pub Keeps-gets : (f : State → A) → Keeps P (gets {E = E} f)
  Keeps-gets f = record { at = λ s h. Ends-gets f s h }

  pub Keeps-if : (b : Bool) (m n : M E A) → Keeps P m → Keeps P n → Keeps P (if b then m else n)
  Keeps-if true m n hm hn = hm
  Keeps-if false m n hm hn = hn

  pub Keeps-map_err : {F : Type 0} (f : F → E) (m : M F A) → Keeps P m → Keeps P (map_err f m)
  Keeps-map_err f m h = record { at = λ s p. Ends-map_err f m s (h.at s p) }

  pub Keeps-bind :
      {B : Type 0} (m : M E B) (f : B → M E A)
      → Keeps P m
      → ((b : B) → Keeps P (f b))
      → Keeps P (m >>= f)
  Keeps-bind m f hm hf = record {
    at = λ s p. Ends-bind m f s (Ends-weaken (hm.at s p) (λ b t q. (hf b).at t q) (λ e t q. q));
  }

module _ {P : State → Type 0} where
  pub Keeps-require : {E : Type 0} (b : Bool) (e : E) → Keeps P (require b e)
  Keeps-require b e = record { at = λ s p. Ends-require b e s (λ _. p) (λ _. p) }

  pub Keeps-attempt : {E F A : Type 0} (m : M E A) → Keeps P m → Keeps P (attempt {F = F} m)
  Keeps-attempt m h = record { at = λ s p. Ends-attempt m s (h.at s p) }

failing :
    (A : Type 0) (P : State → Type 0) {E : Type 0} (f : DbError → E) (e : DbError) (s : State)
    → P s
    → Failing {A = A} (λ _. P) (λ _. P) f e s
failing A P f not_found s p = p
failing A P f _ s p = p

module _ {A : Type 0} {P : State → Type 0} where
  pub Keeps-scan_one : (f : Tables → List A) → Keeps P (scan_one f)
  Keeps-scan_one f = record { at = λ s p. Ends-scan_one f s (λ a r. p) (λ e. p) }

  pub Keeps-scan_all : (f : Tables → List A) → Keeps P (scan_all f)
  Keeps-scan_all f = record { at = λ s p. Ends-scan_all f s p p }

  pub Keeps-optional :
      {E : Type 0} (f : DbError → E) (m : M DbError A) → Keeps P m → Keeps P (optional f m)
  Keeps-optional f m h = record {
    at = λ s p. Ends-optional f m s (Ends-weaken (h.at s p) (λ a t q. q) (failing A P f));
  }

  pub Keeps-statement :
      (f : ℕ → State → Result DbError (A × State))
      → ((k : ℕ) (s : State) → P s → Answered (λ _. P) (λ _. P) s (f k s))
      → Keeps P (statement f)
  Keeps-statement f h = record { at = λ s p. Ends-statement f s (λ k. h k s p) p }

module _ {P : State → Type 0} where
  pub Keeps-exec :
      (f : ℕ → Tables → Tables)
      → ((s : State) → P s → P (record s { tables = f s.now s.tables }))
      → Keeps P (exec f)
  Keeps-exec f h = record { at = λ s p. Ends-exec f s (h s p) p }

  pub Keeps-begin_tx :
      ((s : State) → P s → P (record s { saved = some s.tables })) → Keeps P begin_tx
  Keeps-begin_tx h = record { at = λ s p. Ends-begin_tx s (h s p) p }

  pub Keeps-commit :
      ((s : State) → P s → P (record s { saved = none }))
      → ((s : State) → P s → P (undone s))
      → Keeps P commit
  Keeps-commit h u = record { at = λ s p. Ends-commit s (h s p) (u s p) }

  pub Keeps-deferring_rollback :
      {E A : Type 0} (m : M E A)
      → ((s : State) → P s → P (undone s))
      → Keeps P m
      → Keeps P (deferring_rollback m)
  Keeps-deferring_rollback m u h = record {
    at = λ s p.
        Ends-deferring_rollback m s (Ends-weaken (h.at s p) (λ a t q. u t q) (λ e t q. u t q));
  }

pub ruleset keeps_rules = (
  Keeps-pure, Keeps-raise, Keeps-gets, Keeps-if, Keeps-map_err, Keeps-bind, Keeps-require,
  Keeps-attempt, Keeps-scan_one, Keeps-scan_all, Keeps-optional,
)
