-- ===== src/Auth/Rules.antt =====
-- What a call ends in, with the services answering or not: a post-condition speaks of the value and
-- the world after it, another of the error and the world.
use tentserv_chat_server.Prelude.{◌≡◌, refl, Bool, true, false, Option, none, some, if◌then◌else◌}
use tentserv_chat_server.Db.{Result, ok, err}
use tentserv_chat_server.Auth.World.{
  World, Platform, AuthError, service_failed, Io, return, throw, asks, replaced, or_error, try,
  advanced, call, continue, ◌>>=◌, found_or,
}

abbrev pub Post :
    {A : Type 0}
    → (A → World → Type 0)
    → (AuthError → World → Type 0)
    → Result AuthError A × World
    → Type 0
Post Q R (ok a, w) = Q a w
Post Q R (err e, w) = R e w

pub record Ends {A : Type 0} (p : Platform) (Q : A → World → Type 0)
    (R : AuthError → World → Type 0) (m : Io A) (w : World) : Type 0 where
  pub post : Post Q R (m p w)

module _ {A B : Type 0} (p : Platform) (Q : B → World → Type 0)
    (R : AuthError → World → Type 0) where
  Post-continue :
      (f : A → Io B) (r : Result AuthError A × World)
      → Post (λ a w. Ends p Q R (f a) w) R r
      → Post Q R (continue r.0 f p r.1)
  Post-continue f (ok a, w) h = h.post
  Post-continue f (err e, w) h = h

module _ {A : Type 0} (p : Platform) (Q : A → World → Type 0) (R : AuthError → World → Type 0) where
  Post-replaced :
      (e : AuthError) (r : Result AuthError A × World)
      → Post Q (λ _. R e) r
      → Post Q R (replaced e r.0, r.1)
  Post-replaced e (ok a, w) h = h
  Post-replaced e (err e', w) h = h

  Post-if :
      (b : Bool) (r s : Result AuthError A × World)
      → (b ≡ true → Post Q R r)
      → (b ≡ false → Post Q R s)
      → Post Q R (if b then r else s)
  Post-if true r s hr hs = hr refl
  Post-if false r s hr hs = hs refl

module _ {A : Type 0} (Q : Result AuthError A → World → Type 0) where
  post_try : (r : Result AuthError A × World) → Post (λ a. Q (ok a)) (λ e. Q (err e)) r → Q r.0 r.1
  post_try (ok a, w) h = h
  post_try (err e, w) h = h

module _ {A : Type 0} {p : Platform} {Q : A → World → Type 0} {R : AuthError → World → Type 0} where
  pub Ends-return : (a : A) (w : World) → Q a w → Ends p Q R (return a) w
  unfolding return
  Ends-return a w h = record { post = h }

  pub Ends-throw : (e : AuthError) (w : World) → R e w → Ends p Q R (throw e) w
  unfolding throw
  Ends-throw e w h = record { post = h }

  pub Ends-asks : (f : Platform → World → A) (w : World) → Q (f p w) w → Ends p Q R (asks f) w
  unfolding asks
  Ends-asks f w h = record { post = h }

  pub Ends-or_error :
      (m : Io A) (e : AuthError) (w : World) → Ends p Q (λ _. R e) m w → Ends p Q R (or_error m e) w
  unfolding or_error
  Ends-or_error m e w h = record { post = Post-replaced p Q R e (m p w) h.post }

  pub Ends-bind :
      {B : Type 0} (m : Io B) (f : B → Io A) (w : World)
      → Ends p (λ b v. Ends p Q R (f b) v) R m w
      → Ends p Q R (m >>= f) w
  unfolding ◌>>=◌
  Ends-bind m f w h = record { post = Post-continue p Q R f (m p w) h.post }

  pub Ends-call :
      (f : World → A × World) (w : World)
      → (p.answers w.step ≡ true → Q (f (advanced w)).0 (f (advanced w)).1)
      → (p.answers w.step ≡ false → R service_failed (advanced w))
      → Ends p Q R (call f) w
  unfolding call
  Ends-call f w h broken = record { post = Post-if p Q R (p.answers w.step) _ _ h broken }

  pub Ends-found_or :
      (o : Option A) (e : AuthError) (w : World)
      → ((a : A) → o ≡ some a → Q a w)
      → (o ≡ none → R e w)
      → Ends p Q R (found_or o e) w
  unfolding found_or return throw
  Ends-found_or none e w h missing = record { post = missing refl }
  Ends-found_or (some a) e w h missing = record { post = h a refl }

  pub Ends-if :
      {b : Bool} {m n : Io A} {w : World}
      → (b ≡ true → Ends p Q R m w)
      → (b ≡ false → Ends p Q R n w)
      → Ends p Q R (if b then m else n) w
  Ends-if {b = true} hm hn = hm refl
  Ends-if {b = false} hm hn = hn refl

module _ {A : Type 0} {p : Platform} {Q : Result AuthError A → World → Type 0}
    {R : AuthError → World → Type 0} where
  pub Ends-try :
      (m : Io A) (w : World) → Ends p (λ a. Q (ok a)) (λ e. Q (err e)) m w → Ends p Q R (try m) w
  unfolding try
  Ends-try m w h = record { post = post_try Q (m p w) h.post }

module _ {A : Type 0} {Q Q' : A → World → Type 0} {R R' : AuthError → World → Type 0} where
  Post-weaken :
      (r : Result AuthError A × World)
      → ((a : A) (w : World) → Q a w → Q' a w)
      → ((e : AuthError) (w : World) → R e w → R' e w)
      → Post Q R r
      → Post Q' R' r
  Post-weaken (ok a, w) hq hr h = hq a w h
  Post-weaken (err e, w) hq hr h = hr e w h

  pub Ends-weaken :
      {p : Platform} {m : Io A} {w : World}
      → Ends p Q R m w
      → ((a : A) (w : World) → Q a w → Q' a w)
      → ((e : AuthError) (w : World) → R e w → R' e w)
      → Ends p Q' R' m w
  Ends-weaken {p} {m} {w} h hq hr = record { post = Post-weaken (m p w) hq hr h.post }
