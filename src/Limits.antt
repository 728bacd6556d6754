-- ===== src/Limits.antt =====
-- Rate limits: internal/infrastructure/shared/security/rate_limiter.go over the counters of
-- internal/infrastructure/redis/security/rate_limit_cache_repo.go. Instants are microseconds; a call
-- that Redis fails changes no key. `expiry` is what the client go-redis makes of a duration that it gives
-- to EXPIRE: it keeps whole seconds.
pub mod Burst
pub mod Window
use tentserv_chat_server.Prelude.{
  ℕ, ◌+◌, Bool, true, false, Option, none, some, List, [], ◌∷◌, if◌then◌else◌, ltb, leb, ◌==◌, any,
  length, remove,
}
use tentserv_chat_server.Db.{Result, ok, err}

pub record RateLimitPolicy : Type 0 where
  pub limit : ℕ
  pub window : ℕ

pub data LimitError : Type 0 where
  rate_limit_exceeded redis_failed : LimitError

-- The key of a counter and that of a sorted set, each with its instant of expiry.
pub record Counter : Type 0 where
  pub value : ℕ
  pub deadline : ℕ

pub record Instants : Type 0 where
  pub members : List ℕ
  pub deadline : ℕ

-- what a key still holds; INCR and ZADD begin anew on a missing one
abbrev pub counted : ℕ → Option Counter → ℕ
counted now none = 0
counted now (some c) = if ltb now c.deadline then c.value else 0

-- RedisRateLimitRepository.Get: redis.Nil is 0
unfoldable pub get : Bool → ℕ → Option Counter → Result LimitError ℕ
get false now c = err redis_failed
get true now c = ok (counted now c)

-- RedisRateLimitRepository.Increment: INCR and EXPIRE
unfoldable pub increment :
    (ℕ → ℕ) → Bool → ℕ → ℕ → Option Counter → Result LimitError ℕ × Option Counter
increment expiry false window now c = (err redis_failed, c)
increment expiry true window now c =
    let n = counted now c + 1 in (ok n, some (record { value = n; deadline = now + expiry window }))

-- RedisRateLimitRepository.Reset
unfoldable pub reset : Bool → Option Counter → Result LimitError Unit × Option Counter
reset false c = (err redis_failed, c)
reset true c = (ok tt, none)

abbrev pub remembered : ℕ → Option Instants → List ℕ
remembered now none = []
remembered now (some i) = if ltb now i.deadline then i.members else []

abbrev pub added : ℕ → List ℕ → List ℕ
added now ms = if any (λ t. t == now) ms then ms else now ∷ ms

-- ZREMRANGEBYSCORE from 0 to `now - window`
abbrev pub is_past : ℕ → ℕ → ℕ → Bool
is_past window now t = leb (t + window) now

-- RedisRateLimitRepository.IncrementSliding: a member of the sorted set is its own score, so that two
-- requests of one microsecond are one member
unfoldable pub increment_sliding :
    (ℕ → ℕ) → Bool → ℕ → ℕ → Option Instants → Result LimitError ℕ × Option Instants
increment_sliding expiry false window now i = (err redis_failed, i)
increment_sliding expiry true window now i =
    let ms = added now (remove (is_past window now) (remembered now i)) in
    (ok (length ms), some (record { members = ms; deadline = now + expiry window }))

abbrev pub exceeds : ℕ → ℕ → Result LimitError Unit
exceeds limit n = if ltb limit n then err rate_limit_exceeded else ok tt

abbrev pub judged :
    ℕ → Result LimitError ℕ × Option Instants → Result LimitError Unit × Option Instants
judged limit (err e, i) = (err e, i)
judged limit (ok n, i) = (exceeds limit n, i)

-- RedisRateLimiter.CheckGlobal
unfoldable pub check_global :
    (ℕ → ℕ)
    → RateLimitPolicy
    → Bool
    → ℕ
    → Option Instants
    → Result LimitError Unit × Option Instants
unfolding increment_sliding
check_global expiry p up now i = judged p.limit (increment_sliding expiry up p.window now i)

abbrev pub allowed : ℕ → Result LimitError ℕ → Result LimitError Unit
allowed limit (err e) = err e
allowed limit (ok n) = if ltb limit n then err rate_limit_exceeded else ok tt

-- RedisRateLimiter.CheckIP, on the counter of the address: the first call, and the test of its answer
unfoldable pub begin_check : RateLimitPolicy → Bool → ℕ → Option Counter → Result LimitError Unit
unfolding get
begin_check p up now c = allowed p.limit (get up now c)

abbrev pub passed : Result LimitError ℕ × Option Counter → Result LimitError Unit × Option Counter
passed (err e, c) = (err e, c)
passed (ok n, c) = (ok tt, c)

-- the second call, which other requests may come before: the count that Increment returns is dropped
unfoldable pub end_check :
    (ℕ → ℕ) → RateLimitPolicy → Bool → ℕ → Option Counter → Result LimitError Unit × Option Counter
unfolding increment
end_check expiry p up now c = passed (increment expiry up p.window now c)
