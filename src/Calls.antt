-- ===== src/Calls.antt =====
-- The forms of early exit that the services share: `if (!x) throw e`, and the like.
use elysiajs_production_api.Base.{
  ◌≡◌, refl, ap, Bool, true, false, Option, none, some, Text, is_empty, not,
}
use elysiajs_production_api.Errors.{ok, ok_inj, AppError, Call, pure, throw}

module _ {W : Type 0} where
  -- `if (!b) throw e`
  abbrev pub require : Bool → AppError → Call W (Unit {0})
  require true e = pure tt
  require false e = throw e

  -- `if (!x) throw e`, with `x` from then on present
  abbrev pub or_throw : {A : Type 0} → Option A → AppError → Call W A
  or_throw none e = throw e
  or_throw (some a) e = pure a

-- Is a text that may be missing there, and not empty?
abbrev pub is_present : Option Text → Bool
is_present none = false
is_present (some s) = not (is_empty s)

pub or_throw-ok :
    {W A : Type 0} (o : Option A) (e : AppError) {w w' : W} {a : A}
    → or_throw o e w ≡ (ok a, w')
    → (o ≡ some a) × (w ≡ w')
or_throw-ok none e h = absurd (cc)
or_throw-ok (some x) e h = let (same, still) = ok_inj h in (ap some same, still)

pub require-ok :
    {W : Type 0} (b : Bool) (e : AppError) {w w' : W} {u : Unit {0}}
    → require b e w ≡ (ok u, w')
    → (b ≡ true) × (w ≡ w')
require-ok true e h = (refl, (ok_inj h).1)
require-ok false e h = absurd (cc)

pub throw-ne-ok :
    {W A : Type 0} (e : AppError) {w w' : W} {a : A} → ¬ (throw {W = W} {A = A} e w ≡ (ok a, w'))
throw-ne-ok e h = cc
