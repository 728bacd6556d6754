-- ===== src/Limits/Window.antt =====
-- The sliding window of CheckGlobal, against a description of it by the history of requests.
use tentserv_chat_server.Prelude.{
  ℕ, ◌+◌, ◌≡◌, ◌≤◌, ◌<◌, refl, sym, ◌∙◌, ap, true, Option, none, some, List, [], ◌∷◌, arith, All,
  if◌then◌else◌, ltb, ◌==◌, any, remove, length, Bool-cases, inl, inr,
}
use tentserv_chat_server.Limits.{
  RateLimitPolicy, Instants, remembered, added, is_past, increment_sliding, exceeds, check_global,
}

-- The set after the requests of a history, the last one first.
unfoldable pub after : (ℕ → ℕ) → RateLimitPolicy → List ℕ → Option Instants
unfolding check_global
after expiry p [] = none
after expiry p (t ∷ ts) = (check_global expiry p true t (after expiry p ts)).1

-- The different instants of a history that are less than a window ago.
abbrev pub recent : ℕ → ℕ → List ℕ → List ℕ
recent window now [] = []
recent window now (t ∷ ts) =
    if any (λ u. u == t) ts
    then recent window now ts
    else if is_past window now t
    then recent window now ts
    else t ∷ recent window now ts

-- The clock does not go back.
abbrev pub Ordered : List ℕ → Type 0
Ordered [] = Unit
Ordered (t ∷ []) = Unit
Ordered (t ∷ u ∷ ts) = (u ≤ t) × Ordered (u ∷ ts)

-- What is past stays past.
remove-recent :
    (window before now : ℕ) (ts : List ℕ)
    → before ≤ now
    → remove (is_past window now) (recent window before ts) ≡ recent window now ts
remove-recent window before now [] h = refl
remove-recent window before now (t ∷ ts) h = ground (arith, remove-recent window before now ts h)

any-remove :
    (window now : ℕ) (ts : List ℕ)
    → 0 < window
    → any (λ u. u == now) (recent window now ts) ≡ any (λ u. u == now) ts
any-remove window now [] h = refl
any-remove window now (t ∷ ts) h = ground (arith, any-remove window now ts h)

recent-past :
    (window now : ℕ) (ts : List ℕ) → All (λ t. t + window ≤ now) ts → recent window now ts ≡ []
recent-past window now [] h = refl
recent-past window now (t ∷ ts) h = ground (arith, h.0, recent-past window now ts h.1)

Ordered-past :
    (window now t : ℕ) (ts : List ℕ)
    → Ordered (t ∷ ts)
    → t + window ≤ now
    → All (λ u. u + window ≤ now) (t ∷ ts)
Ordered-past window now t [] o h = (h, tt)
Ordered-past window now t (u ∷ ts) o h =
    (h, Ordered-past window now u ts o.1 (omega (arith, o.0, h)))

-- A set that has run out held nothing but past members.
remembered-recent :
    (window span now t : ℕ) (ts : List ℕ)
    → window ≤ span
    → Ordered (t ∷ ts)
    → t ≤ now
    → remove
        (is_past window now)
        (remembered now (some (record { members = recent window t (t ∷ ts); deadline = t + span })))
      ≡ recent window now (t ∷ ts)
remembered-recent window span now t ts long o h = elim (Bool-cases (ltb now (t + span))) [
  | inl alive ↦ rw alive (remove-recent window t now (t ∷ ts) h)
  | inr out ↦ rw out (
      sym (
        recent-past window now (t ∷ ts)
          (Ordered-past window now t ts o (ground (arith, out, long)))))
]

added-recent :
    (window now : ℕ) (ts : List ℕ)
    → 0 < window
    → added now (recent window now ts) ≡ recent window now (now ∷ ts)
added-recent window now ts h = ground (arith, any-remove window now ts h)

checked :
    (expiry : ℕ → ℕ) (p : RateLimitPolicy) (t : ℕ) (i : Option Instants) (ms : List ℕ)
    → remove (is_past p.window t) (remembered t i) ≡ ms
    → check_global expiry p true t i ≡ (
      exceeds p.limit (length (added t ms)),
      some (record { members = added t ms; deadline = t + expiry p.window }),
    )
unfolding check_global increment_sliding
checked expiry p t i ms e = rw e refl

stepped :
    (expiry : ℕ → ℕ) (p : RateLimitPolicy) (t : ℕ) (ts : List ℕ)
    → 0 < p.window
    → remove (is_past p.window t) (remembered t (after expiry p ts)) ≡ recent p.window t ts
    → after expiry p (t ∷ ts)
      ≡ some (record { members = recent p.window t (t ∷ ts); deadline = t + expiry p.window })
unfolding after
stepped expiry p t ts h e =
    ap (λ x. x.1) (checked expiry p t (after expiry p ts) _ e)
    ∙ ap (λ ms. some (record { members = ms; deadline = t + expiry p.window }))
        (added-recent p.window t ts h)

swept :
    (expiry : ℕ → ℕ) (p : RateLimitPolicy) (now : ℕ) (ts : List ℕ)
    → 0 < p.window
    → p.window ≤ expiry p.window
    → Ordered (now ∷ ts)
    → remove (is_past p.window now) (remembered now (after expiry p ts)) ≡ recent p.window now ts
unfolding after
swept expiry p now [] h long o = refl
swept expiry p now (t ∷ ts) h long o =
    ap (λ i. remove (is_past p.window now) (remembered now i))
      (stepped expiry p t ts h (swept expiry p t ts h long o.1))
    ∙ remembered-recent p.window (expiry p.window) now t ts long o.1 o.0

-- After every history of answered requests, one after the other, with a clock that does not go back, a
-- window above 0, and a key that EXPIRE keeps for the window at least, as it does where the window is whole
-- seconds, CheckGlobal of the next request is refused exactly when the instants less than a window ago, its own
-- included and each counted once, are more than the limit.
pub check_global_lem :
    (expiry : ℕ → ℕ) (p : RateLimitPolicy) (now : ℕ) (ts : List ℕ)
    → 0 < p.window
    → p.window ≤ expiry p.window
    → Ordered (now ∷ ts)
    → (check_global expiry p true now (after expiry p ts)).0
      ≡ exceeds p.limit (length (recent p.window now (now ∷ ts)))
check_global_lem expiry p now ts h long o =
    ap (λ x. x.0) (checked expiry p now (after expiry p ts) _ (swept expiry p now ts h long o))
    ∙ ap (λ ms. exceeds p.limit (length ms)) (added-recent p.window now ts h)
