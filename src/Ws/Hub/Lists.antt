-- ===== src/Ws/Hub/Lists.antt =====
-- Lists of addresses: membership after an append and after a removal.
use tentserv_chat_server.Prelude.{
  ℕ, ◌≡◌, refl, true, false, List, [], ◌∷◌, ◌++◌, ◌==◌, arith, if◌then◌else◌, All,
}
use tentserv_chat_server.Ws.Hub.{elem, without}
use tentserv_chat_server.Ws.Hub.Delivery.{Distinct}

pub elem-append :
    (c x : ℕ) (cs : List ℕ) → elem c (cs ++ x ∷ []) ≡ (if elem c cs then true else x == c)
elem-append c x [] = ground arith
elem-append c x (y ∷ cs) = ground (arith, elem-append c x cs)

pub append-Distinct :
    (x : ℕ) (cs : List ℕ) → elem x cs ≡ false → Distinct cs → Distinct (cs ++ x ∷ [])
append-Distinct x [] new d = (refl, tt)
append-Distinct x (y ∷ cs) new d = ground (arith, append-Distinct x cs, elem-append y x cs)

-- A removal from a list without repetition removes all of it,
pub elem-without_self : (x : ℕ) (cs : List ℕ) → Distinct cs → elem x (without x cs) ≡ false
elem-without_self x [] d = refl
elem-without_self x (y ∷ cs) d = ground (arith, elem-without_self x cs d.1)

-- and nothing else.
pub elem-without_ne : (c x : ℕ) (cs : List ℕ) → (c == x) ≡ false → elem c (without x cs) ≡ elem c cs
elem-without_ne c x [] h = refl
elem-without_ne c x (y ∷ cs) h = ground (arith, elem-without_ne c x cs h)

pub elem-without_le : (c x : ℕ) (cs : List ℕ) → elem c (without x cs) ≡ true → elem c cs ≡ true
elem-without_le c x [] h = cc
elem-without_le c x (y ∷ cs) h = ground (arith, elem-without_le c x cs)

absent_without : (c x : ℕ) (cs : List ℕ) → elem c cs ≡ false → elem c (without x cs) ≡ false
absent_without c x [] h = refl
absent_without c x (y ∷ cs) h = ground (arith, absent_without c x cs)

pub without-Distinct : (x : ℕ) (cs : List ℕ) → Distinct cs → Distinct (without x cs)
without-Distinct x [] d = tt
without-Distinct x (y ∷ cs) d = ground (arith, without-Distinct x cs d.1, absent_without y x cs d.0)

pub All-elem : {P : ℕ → Type 0} (cs : List ℕ) → ((c : ℕ) → elem c cs ≡ true → P c) → All P cs
All-elem [] h = tt
All-elem (x ∷ cs) h = (h x (ground arith), All-elem cs (λ c e. h c (ground (arith, e))))
