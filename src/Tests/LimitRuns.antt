-- ===== src/Tests/LimitRuns.antt =====
-- Requests against small limits, and the theorems at them.
use tentserv_chat_server.Prelude.{
  ℕ, ◌+◌, ◌*◌, ◌/◌, ◌≡◌, ◌≤◌, refl, true, none, some, [], ◌∷◌, arith, length, ltb, if◌then◌else◌,
  Option,
}
use tentserv_chat_server.Db.{ok}
use tentserv_chat_server.Limits.{
  RateLimitPolicy, Counter, exceeds, begin_check, end_check, check_global, get, increment,
  increment_sliding,
}
use tentserv_chat_server.Limits.Burst.{Burst, starts, begins, ends, admissions-le}
use tentserv_chat_server.Limits.Window.{after, recent, check_global_lem}

-- EXPIRE as go-redis sends it: whole seconds, and one for less
abbrev whole_seconds : ℕ → ℕ
whole_seconds d = if ltb d 1000000 then 1000000 else (d / 1000000) * 1000000

abbrev two_per_ten : RateLimitPolicy
two_per_ten = record { limit = 2; window = 10000000 }

abbrev counter : ℕ → ℕ → Option Counter
counter n now = some (record { value = n; deadline = now + 10000000 })

-- Two requests at a time, twice.
four : Burst whole_seconds two_per_ten 2 0 4 0 (counter 4 8)
unfolding begin_check end_check get increment
four =
    ends 3 0 (counter 3 7) true 8
      (ends 2 1 (counter 2 4) true 7
        (begins 2 1 (counter 2 4) true 6
          (begins 2 0 (counter 2 4) true 5
            (ends 1 0 (counter 1 3) true 4
              (ends 0 1 none true 3
                (begins 0 1 none true 2
                  (begins 0 0 none true 1 (starts 0 none (omega arith)) (omega arith) (omega arith)
                    (omega arith) refl)
                  (omega arith) (omega arith) (omega arith) refl)
                (omega arith) (omega arith))
              (omega arith) (omega arith))
            (omega arith) (omega arith) (omega arith) refl)
          (omega arith) (omega arith) (omega arith) refl)
        (omega arith) (omega arith))
      (omega arith) (omega arith)

admissions-le_example : 4 ≤ two_per_ten.limit + 2
admissions-le_example =
    admissions-le whole_seconds two_per_ten 2 0 4 0 (counter 4 8) (omega arith) four

check_global_lem_example :
    (check_global whole_seconds two_per_ten true 12000000
      (after whole_seconds two_per_ten (9000000 ∷ 5000000 ∷ 1000000 ∷ []))).0
    ≡ exceeds 2 (length (recent 10000000 12000000 (12000000 ∷ 9000000 ∷ 5000000 ∷ 1000000 ∷ [])))
check_global_lem_example =
    check_global_lem whole_seconds two_per_ten 12000000 (9000000 ∷ 5000000 ∷ 1000000 ∷ [])
      (omega arith) (omega arith) (omega arith, (omega arith, (omega arith, tt)))

-- Four requests of one microsecond count as one.
one_instant :
    (check_global whole_seconds two_per_ten true 7
      (after whole_seconds two_per_ten (7 ∷ 7 ∷ 7 ∷ []))).0
    ≡ ok tt
unfolding after check_global increment_sliding
one_instant = refl

-- A window of a second and a half is kept for one second: the second request, 1.2 seconds after the first, is
-- admitted, although both lie within the window.
short_expiry :
    (check_global whole_seconds
      (record { limit = 1; window = 1500000 })
      true
      1200000
      (after whole_seconds (record { limit = 1; window = 1500000 }) (0 ∷ []))).0
    ≡ ok tt
unfolding after check_global increment_sliding
short_expiry = refl
