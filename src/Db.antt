-- ===== src/Db.antt =====
-- The database as the repositories use it: the tables, one open transaction
-- (internal/infrastructure/persistence/postgres/unit_of_work.go, base_repo.go, postgres_util.go) and
-- the connection to the service. The service is a parameter: for each statement it chooses to fail,
-- or to answer with a row order of its own.
pub mod Rules
pub mod Keeps
use tentserv_chat_server.Prelude.{
  ℕ, ◌+◌, Bool, true, false, Option, none, some, List, [], ◌∷◌, is_some, if◌then◌else◌, pick,
}
use tentserv_chat_server.Rows.{
  Participant, ChatRoom, ChatMember, ChatInvitation, Friendship, ChatMessage, IdentityKey,
  SignedPreKey, SenderKey, Distribution, KeyRequest, User, UserRole, Agent,
}

pub record Tables : Type 0 where
  pub participants : List Participant
  pub rooms : List ChatRoom
  pub members : List ChatMember
  pub invitations : List ChatInvitation
  pub friendships : List Friendship
  pub messages : List ChatMessage
  pub identity_keys : List IdentityKey
  pub signed_prekeys : List SignedPreKey
  pub sender_keys : List SenderKey
  pub distributions : List Distribution
  pub key_requests : List KeyRequest
  pub users : List User
  pub user_roles : List UserRole
  pub agents : List Agent

-- The next value of each identity column. A rollback does not give values back.
pub record Sequences : Type 0 where
  pub participant : ℕ
  pub room : ℕ
  pub member : ℕ
  pub invitation : ℕ
  pub friendship : ℕ
  pub message : ℕ
  pub identity_key : ℕ
  pub signed_prekey : ℕ
  pub sender_key : ℕ
  pub distribution : ℕ
  pub key_request : ℕ

-- `saved` holds the tables as they stood when the open transaction began; `now` is the clock, and
-- `started` the instant at which the process initialised its packages.
pub record State : Type 0 where
  pub tables : Tables
  pub saved : Option Tables
  pub next : Sequences
  pub now : ℕ
  pub started : ℕ

-- What the service does with a statement: it fails, or answers, preferring its k-th matching row.
pub data Outcome : Type 0 where
  fails : Outcome
  answers : ℕ → Outcome

-- After an error inside a transaction the service refuses every further statement of it.
pub record Connection : Type 0 where
  pub service : ℕ → Outcome
  pub step : ℕ
  pub aborted : Bool

-- What a repository call reports: postgres.ErrNotFound and its wrappers, a unique violation
-- ("duplicate key value"), participant.ErrAlreadyExists, any other error.
pub data DbError : Type 0 where
  not_found duplicate_key already_exists failed : DbError

pub data Result (E A : Type 0) : Type 0 where
  ok : A → Result E A
  err : E → Result E A

abbrev pub M : Type 0 → Type 0 → Type 0
M E A = State → Connection → Result E A × State × Connection

module _ {E A : Type 0} where
  unfoldable pub pure : A → M E A
  pure a s c = (ok a, s, c)

  -- `return ..., err`
  unfoldable pub raise : E → M E A
  raise e s c = (err e, s, c)

  unfoldable pub gets : (State → A) → M E A
  gets f s c = (ok (f s), s, c)

module _ {E A B : Type 0} where
  abbrev continue : Result E A → (A → M E B) → M E B
  continue (ok a) f s c = f a s c
  continue (err e) f s c = (err e, s, c)

  infixl 5 ◌>>=◌ ◌>>◌
  unfoldable pub ◌>>=◌ : M E A → (A → M E B) → M E B
  unfolding pure raise gets
  ◌>>=◌ m f s c = let (r, s', c') = m s c in continue r f s' c'

  abbrev pub ◌>>◌ : M E A → M E B → M E B
  m >> n = m >>= λ _. n

module _ {E F A : Type 0} where
  abbrev translate : (E → F) → Result E A → Result F A
  translate f (ok a) = ok a
  translate f (err e) = err (f e)

  -- `if err != nil { return ..., f(err) }`
  unfoldable pub map_err : (E → F) → M E A → M F A
  map_err f m s c = let (r, s', c') = m s c in (translate f r, s', c')

  -- `x, err := m`, with `err` inspected by the code that follows
  unfoldable pub attempt : M E A → M F (Result E A)
  attempt m s c = let (r, s', c') = m s c in (ok r, s', c')

-- `if !ok { return ..., e }`
unfoldable pub require : {E : Type 0} → Bool → E → M E Unit
unfolding pure raise
require b e = if b then pure tt else raise e

module _ {E A : Type 0} where
  abbrev optional_result : (DbError → E) → Result DbError A → Result E (Option A)
  optional_result f (ok a) = ok (some a)
  optional_result f (err not_found) = ok none
  optional_result f (err e) = err (f e)

  -- `x, err := m; if err != nil && !errors.Is(err, ErrNotFound) { return ..., f(err) }`: from here on a
  -- missing row is `nil`
  unfoldable pub optional : (DbError → E) → M DbError A → M E (Option A)
  optional f m s c = let (r, s', c') = m s c in (optional_result f r, s', c')

-- `if errors.Is(err, ErrNotFound) { return ..., e }; return ..., e'`
abbrev pub when_missing : {E : Type 0} → E → E → DbError → E
when_missing e e' not_found = e
when_missing e e' _ = e'

-- the connection after an error: an open transaction is aborted
abbrev spoil : State → Connection → Connection
spoil s c = record c { step = c.step + 1; aborted = is_some s.saved }

abbrev advance : Connection → Connection
advance c = record c { step = c.step + 1 }

-- One statement that the service answers by `f`, at the order that the service prefers. A refused
-- statement, such as one that breaks a constraint, changes no table.
abbrev settled : {A : Type 0} → Result DbError (A × State) → M DbError A
settled (ok (a, t)) s c = (ok a, t, advance c)
settled (err e) s c = (err e, s, spoil s c)

abbrev answer : {A : Type 0} → Outcome → (ℕ → State → Result DbError (A × State)) → M DbError A
answer fails f s c = (err failed, s, spoil s c)
answer (answers k) f s c = settled (f k s) s c

unfoldable pub statement : {A : Type 0} → (ℕ → State → Result DbError (A × State)) → M DbError A
statement f s c = if c.aborted then (err failed, s, advance c) else answer (c.service c.step) f s c

-- postgres.ScanAll
unfoldable pub scan_all : {A : Type 0} → (Tables → List A) → M DbError (List A)
unfolding statement
scan_all f = statement (λ k s. ok (f s.tables, s))

unfoldable pub present : {A : Type 0} → Option A → M DbError A
present none = raise not_found
present (some a) = pure a

-- postgres.ScanOne: no row is no error of the service
unfoldable pub scan_one : {A : Type 0} → (Tables → List A) → M DbError A
unfolding statement present
scan_one f = statement (λ k s. ok (pick k (f s.tables), s)) >>= present

-- postgres.Exec, on a statement that can break no constraint
unfoldable pub exec : (ℕ → Tables → Tables) → M DbError Unit
unfolding statement
exec f = statement (λ k s. ok (tt, record s { tables = f s.now s.tables }))

-- PostgresUnitOfWork.Begin
unfoldable pub begin_tx : M DbError Unit
unfolding statement
begin_tx = statement (λ k s. ok (tt, record s { saved = some s.tables }))

abbrev pub restored : Option Tables → State → State
restored none s = s
restored (some t) s = record s { tables = t; saved = none }

-- The state after a rollback; with no open transaction there is nothing to undo.
abbrev pub undone : State → State
undone s = restored s.saved s

abbrev settle : Outcome → M DbError Unit
settle fails s c = (err failed, undone s, record (advance c) { aborted = false })
settle (answers _) s c = (ok tt, record s { saved = none }, record (advance c) { aborted = false })

-- PostgresTransaction.Commit: it fails on an aborted transaction, or when the service fails, and the
-- transaction is then undone.
unfoldable pub commit : M DbError Unit
commit s c = if c.aborted then settle fails s c else settle (c.service c.step) s c

-- `defer func() { _ = tx.Rollback() }()`; after a commit it does nothing.
unfoldable pub deferring_rollback : {E A : Type 0} → M E A → M E A
deferring_rollback m s c =
    let (r, s', c') = m s c in
    (r, undone s', record c' { aborted = if is_some s'.saved then false else c'.aborted })
