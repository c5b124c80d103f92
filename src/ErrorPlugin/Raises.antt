-- ===== src/ErrorPlugin/Raises.antt =====
-- The domain errors that a call may end with, put together from those of its steps.
pub mod Statements
use mathlib.Core.Path.{subst}
use elysiajs_production_api.Base.{
  if◌then◌else◌, ◌≡◌, inl, inr, Bool, true, false, Option, none, some,
}
use elysiajs_production_api.Errors.{
  AppError, Thrown, app, driver, Result, err, Call, pure, throw, ◌>>=◌, try_catch, >>=-eq-err,
  try_catch-cases,
}
use elysiajs_production_api.Calls.{require, or_throw}
use elysiajs_production_api.Services.{IsDriver}

-- A driver's error, or a domain error with the property.
abbrev pub IsRefusal : (AppError → Type 0) → Thrown → Type 0
IsRefusal P (app e) = P e
IsRefusal P (driver code cause) = Unit

-- Whatever the call throws is such an error.
abbrev pub Raises : {W A : Type 0} → (AppError → Type 0) → Call W A → Type 0
Raises {W} P m = (w w' : W) (e : Thrown) → m w ≡ (err e, w') → IsRefusal P e

module _ (P : AppError → Type 0) where
  pub IsDriver-IsRefusal : (e : Thrown) → IsDriver e → IsRefusal P e
  IsDriver-IsRefusal (app e) d = absurd d
  IsDriver-IsRefusal (driver code cause) d = tt

  pub pure-Raises : {W A : Type 0} (a : A) → Raises {W = W} P (pure a)
  pure-Raises a w w' e h = absurd (cc)

  pub throw-Raises : {W A : Type 0} (x : AppError) → P x → Raises {W = W} {A = A} P (throw x)
  throw-Raises {W} {A} x p w w' (app e) h = subst P (thrown h) p
    where
      thrown : ◌≡◌ {A = Result A × W} (err (app x), w) (err (app e), w') → x ≡ e
      thrown k = cc
  throw-Raises x p w w' (driver code cause) h = tt

  pub bind-Raises :
      {W A B : Type 0} (m : Call W A) (f : A → Call W B)
      → Raises P m
      → ((a : A) → Raises P (f a))
      → Raises P (m >>= f)
  bind-Raises m f first rest w w' e h = elim (>>=-eq-err m f w h) [
    | inl k ↦ first w w' e k
    | inr (a, v, returns, k) ↦ rest a v w' e k
  ]

module _ {W : Type 0} (P : AppError → Type 0) where
  pub require-Raises : (b : Bool) (x : AppError) → P x → Raises {W = W} P (require b x)
  require-Raises true x p = pure-Raises P tt
  require-Raises false x p = throw-Raises P x p

  pub or_throw-Raises :
      {A : Type 0} (o : Option A) (x : AppError) → P x → Raises {W = W} P (or_throw o x)
  or_throw-Raises none x p = throw-Raises P x p
  or_throw-Raises (some a) x p = pure-Raises P a

  -- What a `catch` lets through is what it throws itself.
  pub try_catch-Raises :
      {A : Type 0} (m : Call W A) (h : Thrown → Call W A)
      → ((e : Thrown) → Raises P (h e))
      → Raises P (try_catch m h)
  try_catch-Raises m h caught w w' e =
      try_catch-cases m h w (λ r. r ≡ (err e, w') → IsRefusal P e) (λ a v k z. absurd (cc))
        (λ x v k. caught x v w' e)

  pub if-Raises :
      {A : Type 0} (b : Bool) (m n : Call W A)
      → Raises P m
      → Raises P n
      → Raises P (if b then m else n)
  if-Raises true m n p q = p
  if-Raises false m n p q = q
