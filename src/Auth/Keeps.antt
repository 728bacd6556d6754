-- ===== src/Auth/Keeps.antt =====
-- Invariants of authentication code: one rule for each way to build it.
use tentserv_chat_server.Prelude.{Bool, true, false, Option, none, some, if◌then◌else◌}
use tentserv_chat_server.Db.{Result, ok, err}
use tentserv_chat_server.Auth.World.{
  World, Platform, AuthError, Io, return, throw, asks, or_error, try, advanced, call, ◌>>=◌,
  found_or,
}
use tentserv_chat_server.Auth.Rules.{
  Post, Ends, Ends-return, Ends-throw, Ends-asks, Ends-or_error, Ends-bind, Ends-call,
  Ends-found_or, Ends-try, Ends-weaken,
}

-- However `m` ends, `P` holds of the world as before.
pub record Keeps {A : Type 0} (p : Platform) (P : World → Type 0) (m : Io A) : Type 0 where
  pub kept : (w : World) → P w → Ends p (λ _. P) (λ _. P) m w

module _ {A : Type 0} {p : Platform} {P : World → Type 0} where
  pub Keeps-return : (a : A) → Keeps p P (return a)
  Keeps-return a = record { kept = λ w h. Ends-return a w h }

  pub Keeps-throw : (e : AuthError) → Keeps p P (throw {A = A} e)
  Keeps-throw e = record { kept = λ w h. Ends-throw e w h }

  pub Keeps-asks : (f : Platform → World → A) → Keeps p P (asks f)
  Keeps-asks f = record { kept = λ w h. Ends-asks f w h }

  pub Keeps-or_error : (m : Io A) (e : AuthError) → Keeps p P m → Keeps p P (or_error m e)
  Keeps-or_error m e h = record { kept = λ w hw. Ends-or_error m e w (h.kept w hw) }

  pub Keeps-try : (m : Io A) → Keeps p P m → Keeps p P (try m)
  Keeps-try m h = record { kept = λ w hw. Ends-try {Q = λ _. P} {R = λ _. P} m w (h.kept w hw) }

  pub Keeps-found_or : (o : Option A) (e : AuthError) → Keeps p P (found_or o e)
  Keeps-found_or o e = record { kept = λ w h. Ends-found_or o e w (λ a _. h) (λ _. h) }

  pub Keeps-if :
      (b : Bool) (m n : Io A) → Keeps p P m → Keeps p P n → Keeps p P (if b then m else n)
  Keeps-if true m n hm hn = hm
  Keeps-if false m n hm hn = hn

  pub Keeps-bind :
      {B : Type 0} (m : Io B) (f : B → Io A)
      → Keeps p P m
      → ((b : B) → Keeps p P (f b))
      → Keeps p P (m >>= f)
  Keeps-bind m f h k = record {
    kept = λ w hw.
        Ends-bind m f w (Ends-weaken (h.kept w hw) (λ b v hv. (k b).kept v hv) (λ e v hv. hv));
  }

  pub Keeps-call :
      (f : World → A × World)
      → ((w : World) → P w → P (f (advanced w)).1 × P (advanced w))
      → Keeps p P (call f)
  Keeps-call f h = record { kept = λ w hw. Ends-call f w (λ _. (h w hw).0) (λ _. (h w hw).1) }

  -- What a call tells of its value and the world, the rest may rely on, as long as it keeps it.
  pub Keeps-learn :
      {B : Type 0} (K : B → World → Type 0) (m : Io B) (f : B → Io A)
      → ((w : World) → P w → Ends p (λ b v. P v × K b v) (λ _. P) m w)
      → ((b : B) → Keeps p (λ w. P w × K b w) (f b))
      → Keeps p P (m >>= f)
  Keeps-learn K m f h k = record {
    kept = λ w hw. Ends-bind m f w (
        Ends-weaken (h w hw)
          (λ b v hv. Ends-weaken ((k b).kept v hv) (λ a u hu. hu.0) (λ e u hu. hu.0))
          (λ e v hv. hv));
  }

  pub Keeps-elim :
      {B : Type 0} (o : Option B) (m : Io A) (f : B → Io A)
      → Keeps p P m
      → ((b : B) → Keeps p P (f b))
      → Keeps p P (elim o [ none ↦ m | some b ↦ f b ])
  Keeps-elim none m f hm hf = hm
  Keeps-elim (some b) m f hm hf = hf b

module _ {A : Type 0} (P : World → Type 0) where
  Post-world : (r : Result AuthError A × World) → Post (λ _. P) (λ _. P) r → P r.1
  Post-world (ok a, w) h = h
  Post-world (err e, w) h = h

  pub Keeps-world : (p : Platform) (m : Io A) (w : World) → Keeps p P m → P w → P (m p w).1
  Keeps-world p m w h hw = Post-world (m p w) (h.kept w hw).post

pub ruleset io_rules = (
  Keeps-return, Keeps-throw, Keeps-asks, Keeps-or_error, Keeps-try, Keeps-found_or, Keeps-if,
  Keeps-bind, Keeps-elim,
)
