-- ===== src/Limits/Burst.antt =====
-- How many requests of one address CheckIP admits.
use tentserv_chat_server.Prelude.{
  ℕ, suc, ◌+◌, ◌≡◌, ◌≤◌, ◌<◌, refl, Bool, true, false, Option, some, arith, ltb, ◌⊎◌, inl, inr,
  Bool-cases,
}
use tentserv_chat_server.Db.{Result, ok, err}
use tentserv_chat_server.Limits.{
  RateLimitPolicy, Counter, LimitError, counted, get, increment, allowed, rate_limit_exceeded,
  begin_check, end_check,
}

abbrev pub admits : Result LimitError Unit → ℕ
admits (ok _) = 1
admits (err _) = 0

-- Requests of one address, from an instant on, `most` of them at a time: how many have been admitted since
-- then, how many stand between the two calls of CheckIP, and the counter. The calls come in any order, each
-- answered by Redis or not.
pub data Burst (expiry : ℕ → ℕ) (p : RateLimitPolicy) (most start : ℕ)
    : ℕ → ℕ → Option Counter → Type 0 where
  starts : (f : ℕ) (c : Option Counter) → f ≤ most → Burst expiry p most start 0 f c
  begins :
      (a f : ℕ) (c : Option Counter) (up : Bool) (now : ℕ)
      → Burst expiry p most start a f c
      → f < most
      → start ≤ now
      → now < start + p.window
      → begin_check p up now c ≡ ok tt
      → Burst expiry p most start a (f + 1) c
  ends :
      (a f : ℕ) (c : Option Counter) (up : Bool) (now : ℕ)
      → Burst expiry p most start a (suc f) c
      → start ≤ now
      → now < start + p.window
      → Burst expiry p most start
          (a + admits (end_check expiry p up now c).0)
          f
          (end_check expiry p up now c).1

-- The counter counts those admitted, till the window is over.
abbrev Counts : ℕ → ℕ → ℕ → Option Counter → Type 0
Counts a start window c =
    (a ≡ 0) ⊎ ((d : Counter) × (c ≡ some d) × (a ≤ d.value) × (start + window ≤ d.deadline))

below :
    (p : RateLimitPolicy) (up : Bool) (now : ℕ) (c : Option Counter)
    → begin_check p up now c ≡ ok tt
    → counted now c ≤ p.limit
unfolding begin_check get
below p false now c e = cc e
below p true now c e = elim (Bool-cases (ltb p.limit (counted now c))) [
  | inl over ↦
      let refused : allowed p.limit (ok (counted now c)) ≡ err rate_limit_exceeded = rw over refl in
      cc (e, refused)
  | inr under ↦ ground (arith, under)
]

counted_admitted :
    (a start window now : ℕ) (c : Option Counter)
    → Counts a start window c
    → now < start + window
    → a ≤ counted now c
counted_admitted a start window now c (inl z) till = rw z (omega arith)
counted_admitted a start window now c (inr (d, same, low, out)) till =
    rw same (ground (arith, low, out, till))

module _ (expiry : ℕ → ℕ) (p : RateLimitPolicy) (most start : ℕ)
    (long : p.window ≤ expiry p.window) where
  bounded :
      {a f : ℕ} {c : Option Counter}
      → Burst expiry p most start a f c
      → (a + f ≤ p.limit + most) × (f ≤ most) × Counts a start p.window c
  unfolding end_check increment
  bounded (starts f c h) = (omega (arith, h), h, inl refl)
  bounded (begins a f c up now b space from till pass) =
      let h = bounded b in
      let under = below p up now c pass in
      let in_it = counted_admitted a start p.window now c h.2 till in
      (omega (arith, in_it, under, space), omega (arith, space), h.2)
  bounded (ends a f c false now b from till) =
      let h = bounded b in
      (omega (arith, h.0), omega (arith, h.1), (let same : a + 0 ≡ a = omega arith in rw same h.2))
  bounded (ends a f c true now b from till) =
      let h = bounded b in
      (
        omega (arith, h.0),
        omega (arith, h.1),
        inr (
          record { value = counted now c + 1; deadline = now + expiry p.window },
          refl,
          omega (arith, counted_admitted a start p.window now c h.2 till),
          omega (arith, long, from),
        ),
      )

-- Of the requests of one address that are admitted within one window's length, `most` of them at a time at
-- most, and in any order of the calls of Redis, CheckIP admits at most Limit + `most`, whatever the counter
-- holds before and whichever calls fail. The key is kept for the window at least, as EXPIRE does where the
-- window is whole seconds.
pub admissions-le :
    (expiry : ℕ → ℕ) (p : RateLimitPolicy) (most start a f : ℕ) (c : Option Counter)
    → p.window ≤ expiry p.window
    → Burst expiry p most start a f c
    → a ≤ p.limit + most
admissions-le expiry p most start a f c long b =
    let h = bounded expiry p most start long b in omega (arith, h.0)
