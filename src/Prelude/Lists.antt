-- ===== src/Prelude/Lists.antt =====
-- Lists as tables: selection, update and deletion of rows by a Boolean test.
use Prim.Native.Nat.{ℕ, zero, suc, ◌+◌, ◌<◌}
use mathlib.Core.Path.{◌≡◌, refl, sym}
use mathlib.Core.Bool.{Bool, true, false}
use mathlib.Core.Option.{Option, none, some}
use mathlib.Core.Logic.{◌⊎◌, inl, inr}
use mathlib.Core.List.{List, [], ◌∷◌, ◌++◌, map}
use native.Mathlib.Omega.{arith}
use tentserv_chat_server.Prelude.Tests.{if◌then◌else◌, ◌==◌}

module _ {ℓ} {A : Type ℓ} where
  abbrev pub length : List A → ℕ
  length [] = 0
  length (x ∷ xs) = suc (length xs)

  pub length-append : (xs ys : List A) → length (xs ++ ys) ≡ length xs + length ys
  length-append [] ys = omega arith
  length-append (x ∷ xs) ys = omega (arith, length-append xs ys)

  -- SELECT ... WHERE
  abbrev pub select : (A → Bool) → List A → List A
  select p [] = []
  select p (x ∷ xs) = if p x then x ∷ select p xs else select p xs

  -- UPDATE ... WHERE
  abbrev pub update : (A → Bool) → (A → A) → List A → List A
  update p f [] = []
  update p f (x ∷ xs) = (if p x then f x else x) ∷ update p f xs

  -- DELETE ... WHERE
  abbrev pub remove : (A → Bool) → List A → List A
  remove p [] = []
  remove p (x ∷ xs) = if p x then remove p xs else x ∷ remove p xs

  abbrev pub any : (A → Bool) → List A → Bool
  any p [] = false
  any p (x ∷ xs) = if p x then true else any p xs

  abbrev pub count : (A → Bool) → List A → ℕ
  count p [] = 0
  count p (x ∷ xs) = if p x then suc (count p xs) else count p xs

  -- One row of an unordered answer: which one is the service's choice.
  abbrev pub pick : ℕ → List A → Option A
  pick k [] = none
  pick zero (x ∷ xs) = some x
  pick (suc k) (x ∷ []) = some x
  pick (suc k) (x ∷ y ∷ xs) = pick k (y ∷ xs)

  abbrev pub take : ℕ → List A → List A
  take zero xs = []
  take (suc n) [] = []
  take (suc n) (x ∷ xs) = x ∷ take n xs

  abbrev pub drop : ℕ → List A → List A
  drop zero xs = xs
  drop (suc n) [] = []
  drop (suc n) (x ∷ xs) = drop n xs

-- A predicate on every row.
abbrev pub All {ℓ κ} : {A : Type ℓ} → (A → Type κ) → List A → Type κ
All P [] = Unit
All P (x ∷ xs) = P x × All P xs

module _ {ℓ κ μ} {A : Type ℓ} {P : A → Type κ} {Q : A → Type μ} where
  pub All-weaken : (f : (x : A) → P x → Q x) (xs : List A) → All P xs → All Q xs
  All-weaken f [] h = tt
  All-weaken f (x ∷ xs) h = (f x h.0, All-weaken f xs h.1)

module _ {ℓ κ} {A : Type ℓ} (P : A → Type κ) where
  pub All-append : (xs ys : List A) → All P xs → All P ys → All P (xs ++ ys)
  All-append [] ys hx hy = hy
  All-append (x ∷ xs) ys hx hy = (hx.0, All-append xs ys hx.1 hy)

  pub All-update :
      (p : A → Bool) (f : A → A) (xs : List A)
      → ((x : A) → P x → P (f x))
      → All P xs
      → All P (update p f xs)
  All-update p f [] h hx = tt
  All-update p f (x ∷ xs) h hx = (updated (p x), All-update p f xs h hx.1)
    where
      updated : (b : Bool) → P (if b then f x else x)
      updated true = h x hx.0
      updated false = hx.0

module _ {ℓ} {A : Type ℓ} where
  -- A key that some row has is below a bound of all keys.
  pub any_key_below :
      (key : A → ℕ) (k n : ℕ) (xs : List A)
      → any (λ x. key x == k) xs ≡ true
      → All (λ x. key x < n) xs
      → k < n
  any_key_below key k n [] h b = cc
  any_key_below key k n (x ∷ xs) h b = ground (arith, any_key_below key k n xs)

  pub update-eq_of_none :
      (p : A → Bool) (f : A → A) (xs : List A) → any p xs ≡ false → update p f xs ≡ xs
  update-eq_of_none p f [] h = refl
  update-eq_of_none p f (x ∷ xs) h = ground (arith, update-eq_of_none p f xs)

  pub any_none :
      (p : A → Bool) (x : A) (xs : List A)
      → any p (x ∷ xs) ≡ false
      → (p x ≡ false) × (any p xs ≡ false)
  any_none p x xs h = ground arith

module _ {A : Type 0} where
  -- The row is one of the list.
  abbrev pub Row : A → List A → Type 0
  Row a [] = ⊥
  Row a (x ∷ xs) = (x ≡ a) ⊎ Row a xs

  pub pick-Row : (k : ℕ) (a : A) (xs : List A) → pick k xs ≡ some a → Row a xs
  pick-Row k a [] h = cc
  pick-Row zero a (x ∷ xs) h = inl (cc)
  pick-Row (suc k) a (x ∷ []) h = inl (cc)
  pick-Row (suc k) a (x ∷ y ∷ xs) h = inr (pick-Row k a (y ∷ xs) h)

  pub Row-select :
      (p : A → Bool) (a : A) (xs : List A) → Row a (select p xs) → Row a xs × (p a ≡ true)
  Row-select p a [] h = elim h [ ]
  Row-select p a (x ∷ xs) h = ground (arith, Row-select p a xs)

  pub pick-none : (k : ℕ) (xs : List A) → pick k xs ≡ none → xs ≡ []
  pick-none k [] h = refl
  pick-none zero (x ∷ xs) h = cc
  pick-none (suc k) (x ∷ []) h = cc
  pick-none (suc k) (x ∷ y ∷ xs) h = cc (pick-none k (y ∷ xs) h)

  -- No row passes the test.
  pub select-none : (p : A → Bool) (xs : List A) → select p xs ≡ [] → any p xs ≡ false
  select-none p [] h = refl
  select-none p (x ∷ xs) h = ground (arith, select-none p xs)

module _ {A B : Type 0} where
  -- The row that a computed one was read from.
  pub Row-map :
      (f : A → B) (b : B) (xs : List A) → Row b (map f xs) → (a : A) × Row a xs × (f a ≡ b)
  Row-map f b [] h = elim h [ ]
  Row-map f b (x ∷ xs) (inl e) = (x, inl refl, e)
  Row-map f b (x ∷ xs) (inr h) = let (a, at, e) = Row-map f b xs h in (a, inr at, e)

module _ {κ} {A : Type 0} (P : A → Type κ) where
  pub All-Row : (a : A) (xs : List A) → All P xs → Row a xs → P a
  All-Row a [] h at = elim at [ ]
  All-Row a (x ∷ xs) h (inl e) = rw (sym e) h.0
  All-Row a (x ∷ xs) h (inr at) = All-Row a xs h.1 at
