-- ===== src/Auth/World.antt =====
-- What the session manager reads and writes: the table of
-- internal/infrastructure/persistence/postgres/session, the cache of
-- internal/infrastructure/redis/cache.go, the clock, and the updates left to the background. Strings
-- are numbers, and what encoding/json writes it reads back, so a cached session is kept as its value.
use tentserv_chat_server.Prelude.{ℕ, ◌+◌, Bool, Option, none, some, List, if◌then◌else◌, ◌==◌, ltb}
use tentserv_chat_server.Db.{Result, ok, err}

pub record SessionRecord : Type 0 where
  pub id : ℕ
  pub account_id : ℕ
  pub user_id : ℕ
  pub device_id : ℕ
  pub refresh_token_hash : ℕ
  pub expires_at : ℕ
  pub revoked : Bool
  pub created_at : ℕ
  pub last_used_at : Option ℕ

pub record TokenPair : Type 0 where
  pub access_token : ℕ
  pub refresh_token : ℕ
  pub expires_at : ℕ

pub record Session : Type 0 where
  pub id : ℕ
  pub account_id : ℕ
  pub user_id : ℕ
  pub device_id : ℕ
  pub token : TokenPair
  pub created_at : ℕ

-- A value of the cache, with the instant at which its time to live is over.
pub record Entry (A : Type 0) : Type 0 where
  pub value : A
  pub deadline : ℕ

-- `access` holds the keys "session:access:…" and `ids` the keys "session:id:…". `pending` are the
-- calls of UpdateExpiresAt that goroutines still have to make, an id and an expiry each, and `reading` the
-- rows of the calls of Refresh that have read and checked theirs and done no more yet. `step` counts
-- the calls made of the services, and `draws` those of the generator.
pub record World : Type 0 where
  pub sessions : List SessionRecord
  pub next_id : ℕ
  pub access : ℕ → Option (Entry Session)
  pub ids : ℕ → Option (Entry ℕ)
  pub now : ℕ
  pub pending : List (ℕ × ℕ)
  pub reading : List SessionRecord
  pub step : ℕ
  pub draws : ℕ

-- Code from elsewhere, and the configuration: SHA-256, crypto/rand, the written form of a device id
-- and its parser, which calls of the services are answered, and which of several rows an answer
-- prefers.
pub record Platform : Type 0 where
  pub hash : ℕ → ℕ
  pub random : ℕ → Option ℕ
  pub device_string : ℕ → ℕ
  pub parse_device : ℕ → Option ℕ
  pub answers : ℕ → Bool
  pub order : ℕ → ℕ
  pub expiration : ℕ

-- postgres.ErrNotFound, the errors of domain/auth/errors.go, and any other.
pub data AuthError : Type 0 where
  row_not_found session_not_found generate_token refresh_token_invalid service_failed : AuthError

abbrev pub Io : Type 0 → Type 0
Io A = Platform → World → Result AuthError A × World

abbrev pub advanced : World → World
advanced w = record w { step = w.step + 1 }

module _ {A : Type 0} where
  unfoldable pub return : A → Io A
  return a p w = (ok a, w)

  unfoldable pub throw : AuthError → Io A
  throw e p w = (err e, w)

  unfoldable pub asks : (Platform → World → A) → Io A
  asks f p w = (ok (f p w), w)

  abbrev pub replaced : AuthError → Result AuthError A → Result AuthError A
  replaced e (ok a) = ok a
  replaced e (err e') = err e

  -- `if err != nil { return ..., e }`
  unfoldable pub or_error : Io A → AuthError → Io A
  or_error m e p w = let (r, v) = m p w in (replaced e r, v)

  -- `x, err := m`, with `err` inspected or dropped by the code that follows
  unfoldable pub try : Io A → Io (Result AuthError A)
  try m p w = let (r, v) = m p w in (ok r, v)

  -- One call of a service: it fails and changes nothing, or is answered by `f`.
  unfoldable pub call : (World → A × World) → Io A
  call f p w =
      if p.answers w.step
      then (let (a, v) = f (advanced w) in (ok a, v))
      else (err service_failed, advanced w)

module _ {A B : Type 0} where
  abbrev pub continue : Result AuthError A → (A → Io B) → Io B
  continue (ok a) f p w = f a p w
  continue (err e) f p w = (err e, w)

  infixl 5 ◌>>=◌ ◌>>◌
  unfoldable pub ◌>>=◌ : Io A → (A → Io B) → Io B
  ◌>>=◌ m f p w = let (r, v) = m p w in continue r f p v

  abbrev pub ◌>>◌ : Io A → Io B → Io B
  m >> n = m >>= λ _. n

-- `if !ok { return ..., e }`
unfoldable pub found_or : {A : Type 0} → Option A → AuthError → Io A
unfolding return throw
found_or none e = throw e
found_or (some a) e = return a

abbrev pub set : {A : Type 0} → ℕ → A → (ℕ → A) → ℕ → A
set k v f x = if x == k then v else f x

-- what a key still holds
abbrev pub alive : {A : Type 0} → ℕ → Option (Entry A) → Option A
alive now none = none
alive now (some e) = if ltb now e.deadline then some e.value else none

-- RedisCache.Get, Set and Delete, on each of the two kinds of key
unfoldable pub get_access : ℕ → Io (Option Session)
unfolding call
get_access h = call (λ w. (alive w.now (w.access h), w))

unfoldable pub get_id : ℕ → Io (Option ℕ)
unfolding call
get_id i = call (λ w. (alive w.now (w.ids i), w))

unfoldable pub set_access : ℕ → Session → ℕ → Io Unit
unfolding call
set_access h s ttl = call (λ w. (
  tt,
  record w { access = set h (some (record { value = s; deadline = w.now + ttl })) w.access },
))

unfoldable pub set_id : ℕ → ℕ → ℕ → Io Unit
unfolding call
set_id i h ttl = call (λ w.
    (tt, record w { ids = set i (some (record { value = h; deadline = w.now + ttl })) w.ids }))

unfoldable pub delete_access : ℕ → Io Unit
unfolding call
delete_access h = call (λ w. (tt, record w { access = set h none w.access }))

unfoldable pub delete_id : ℕ → Io Unit
unfolding call
delete_id i = call (λ w. (tt, record w { ids = set i none w.ids }))

-- generateSecureToken
unfoldable pub generate_secure_token : Io ℕ
unfolding return throw
generate_secure_token p w =
    found_or (p.random w.draws) service_failed p (record w { draws = w.draws + 1 })
