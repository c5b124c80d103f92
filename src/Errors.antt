-- ===== src/Errors.antt =====
-- Domain errors (src/lib/errors.ts), the driver's error codes (src/lib/db-errors.ts), and calls that
-- may throw: state passing with a result, in which what was written before a throw stays written.
use mathlib.Core.Path.{subst}
use elysiajs_production_api.Base.{
  ℕ, ◌≡◌, refl, ap, ◌∙◌, ◌⊎◌, inl, inr, Bool, false, ◌||◌, Option, none, some, String, Text, codes,
  text_eq,
}

pub record AppError : Type 0 where
  pub status_code : ℕ
  pub message : String
  pub code : String

abbrev pub bad_request : String → AppError
bad_request m = record { status_code = 400; message = m; code = "BAD_REQUEST" }

abbrev pub unauthorized : String → AppError
unauthorized m = record { status_code = 401; message = m; code = "UNAUTHORIZED" }

abbrev pub forbidden : String → AppError
forbidden m = record { status_code = 403; message = m; code = "FORBIDDEN" }

abbrev pub not_found : String → AppError
not_found m = record { status_code = 404; message = m; code = "NOT_FOUND" }

abbrev pub conflict : String → AppError
conflict m = record { status_code = 409; message = m; code = "CONFLICT" }

-- What a statement throws: a domain error, or an error of a driver, with its `code` and the `code`
-- of its `cause`, where it has them.
pub data Thrown : Type 0 where
  app : AppError → Thrown
  driver : Option Text → Option Text → Thrown

-- `hasSqlstateCode`
abbrev pub has_sqlstate_code : Option Text → Text → Bool
has_sqlstate_code none code = false
has_sqlstate_code (some c) code = text_eq c code

unfoldable pub is_unique_violation : Thrown → Bool
is_unique_violation (app e) = has_sqlstate_code (some (codes e.code)) (codes "23505")
is_unique_violation (driver code cause) =
    has_sqlstate_code code (codes "23505") || has_sqlstate_code cause (codes "23505")

pub data Result {ℓ} (A : Type ℓ) : Type ℓ where
  ok : A → Result A
  err : Thrown → Result A

abbrev pub Call : Type 0 → Type 0 → Type 0
Call W A = W → Result A × W

module _ {W : Type 0} where
  infixl 5 ◌>>=◌ ◌>>◌
  abbrev pub pure : {A : Type 0} → A → Call W A
  pure a w = (ok a, w)

  abbrev pub throw : {A : Type 0} → AppError → Call W A
  throw e w = (err (app e), w)

  abbrev pub throw_again : {A : Type 0} → Thrown → Call W A
  throw_again e w = (err e, w)

  unfoldable pub ◌>>=◌ : {A B : Type 0} → Call W A → (A → Call W B) → Call W B
  ◌>>=◌ m f w = let (r, v) = m w in elim r [ ok a ↦ f a v | err e ↦ (err e, v) ]

  abbrev pub ◌>>◌ : {A B : Type 0} → Call W A → Call W B → Call W B
  m >> k = m >>= λ _. k

  -- `try { m } catch (err) { h(err) }`
  unfoldable pub try_catch : {A : Type 0} → Call W A → (Thrown → Call W A) → Call W A
  try_catch m h w = let (r, v) = m w in elim r [ ok a ↦ (ok a, v) | err e ↦ h e v ]

-- To prove `Q` of a call and what follows it: for whatever it returned, and whatever it threw. The
-- chain stays shut, so that its steps are taken one by one.
pub >>=-cases :
    {W A B : Type 0} (m : Call W A) (f : A → Call W B) (w : W) (Q : Result B × W → Type 0)
    → ((a : A) (v : W) → m w ≡ (ok a, v) → Q (f a v))
    → ((e : Thrown) (v : W) → m w ≡ (err e, v) → Q (err e, v))
    → Q ((m >>= f) w)
unfolding ◌>>=◌
>>=-cases {W} {A} {B} m f w Q on_ok on_err = go (m w).0 (m w).1 refl
  where
    go : (r : Result A) (v : W) → m w ≡ (r, v) → Q (elim r [ ok a ↦ f a v | err e ↦ (err e, v) ])
    go (ok a) v h = on_ok a v h
    go (err e) v h = on_err e v h

-- The same for `try` and its `catch`.
pub try_catch-cases :
    {W A : Type 0} (m : Call W A) (h : Thrown → Call W A) (w : W) (Q : Result A × W → Type 0)
    → ((a : A) (v : W) → m w ≡ (ok a, v) → Q (ok a, v))
    → ((e : Thrown) (v : W) → m w ≡ (err e, v) → Q (h e v))
    → Q (try_catch m h w)
unfolding try_catch
try_catch-cases {W} {A} m h w Q on_ok on_err = go (m w).0 (m w).1 refl
  where
    go : (r : Result A) (v : W) → m w ≡ (r, v) → Q (elim r [ ok a ↦ (ok a, v) | err e ↦ h e v ])
    go (ok a) v k = on_ok a v k
    go (err e) v k = on_err e v k

-- What a call that has returned did: each step returned, from the state that the last one left.
pub >>=-eq-ok :
    {W A B : Type 0} (m : Call W A) (f : A → Call W B) (w : W) {w' : W} {b : B}
    → (m >>= f) w ≡ (ok b, w')
    → (a : A) × (v : W) × (m w ≡ (ok a, v)) × (f a v ≡ (ok b, w'))
>>=-eq-ok {W} {A} {B} m f w {w'} {b} =
    >>=-cases m f w
      (λ r. r ≡ (ok b, w') → (a : A) × (v : W) × (m w ≡ (ok a, v)) × (f a v ≡ (ok b, w')))
      (λ a v h k. (a, v, h, k)) (λ e v h k. absurd (cc))

err_back :
    {W A B : Type 0} {e x : Thrown} {v w : W}
    → ◌≡◌ {A = Result B × W} (err x, v) (err e, w)
    → ◌≡◌ {A = Result A × W} (err x, v) (err e, w)
err_back h = cc

-- What a chain that threw did: its first step threw, or it returned and the rest threw.
pub >>=-eq-err :
    {W A B : Type 0} (m : Call W A) (f : A → Call W B) (w : W) {w' : W} {e : Thrown}
    → (m >>= f) w ≡ (err e, w')
    → (m w ≡ (err e, w')) ⊎ ((a : A) × (v : W) × (m w ≡ (ok a, v)) × (f a v ≡ (err e, w')))
>>=-eq-err {W} {A} {B} m f w {w'} {e} =
    >>=-cases m f w
      (λ r.
        r ≡ (err e, w')
        → (m w ≡ (err e, w')) ⊎ ((a : A) × (v : W) × (m w ≡ (ok a, v)) × (f a v ≡ (err e, w'))))
      (λ a v h k. inr (a, v, h, k)) (λ x v h k. inl (h ∙ err_back k))

pub ok_inj :
    {W A : Type 0} {a b : A} {w v : W}
    → ◌≡◌ {A = Result A × W} (ok a, w) (ok b, v)
    → (a ≡ b) × (w ≡ v)
ok_inj h = (cc, λ i. (h i).1)

-- A step that only returns, or only throws.
pub pure-bind : {W A B : Type 0} (a : A) (f : A → Call W B) (w : W) → (pure a >>= f) w ≡ f a w
unfolding ◌>>=◌
pure-bind a f w = refl

pub throw-bind :
    {W A B : Type 0} (e : AppError) (f : A → Call W B) (w : W)
    → (throw e >>= f) w ≡ (err (app e), w)
unfolding ◌>>=◌
throw-bind e f w = refl

-- A step that is known to return.
pub >>=-of_ok :
    {W A B : Type 0} (m : Call W A) (f : A → Call W B) {w v : W} {a : A}
    → m w ≡ (ok a, v)
    → (m >>= f) w ≡ f a v
unfolding ◌>>=◌
>>=-of_ok m f h = ap (λ x. elim x.0 [ ok a ↦ f a x.1 | err e ↦ (err e, x.1) ]) h

-- A step that is known to throw.
pub >>=-of_err :
    {W A B : Type 0} (m : Call W A) (f : A → Call W B) {w v : W} {e : Thrown}
    → m w ≡ (err e, v)
    → (m >>= f) w ≡ (err e, v)
unfolding ◌>>=◌
>>=-of_err m f h = ap (λ x. elim x.0 [ ok a ↦ f a x.1 | err e ↦ (err e, x.1) ]) h

-- Calls that come to the same go on alike.
pub >>=-same :
    {W A B : Type 0} (m m' : Call W A) (f : A → Call W B) {w v : W}
    → m w ≡ m' v
    → (m >>= f) w ≡ (m' >>= f) v
unfolding ◌>>=◌
>>=-same m m' f h = ap (λ x. elim x.0 [ ok a ↦ f a x.1 | err e ↦ (err e, x.1) ]) h

-- A call whose result is thrown away.
pub discard-ok :
    {W A : Type 0} (m : Call W A) (w : W) {w' : W} {u : Unit {0}}
    → (m >> pure tt) w ≡ (ok u, w')
    → (a : A) × (m w ≡ (ok a, w'))
discard-ok m w h =
    let (a, v, e, k) = >>=-eq-ok m _ w h in
    let same : v ≡ _ = (ok_inj k).1 in (a, subst (λ x. m w ≡ (ok a, x)) same e)

pub discard-err :
    {W A : Type 0} (m : Call W A) (w : W) {w' : W} {e : Thrown}
    → (m >> pure tt) w ≡ (err e, w')
    → m w ≡ (err e, w')
discard-err m w h = elim (>>=-eq-err m _ w h) [ inl k ↦ k | inr (a, v, e, k) ↦ absurd (cc) ]

pub ok_value :
    {W A : Type 0} {a b : A} {w v : W} → ◌≡◌ {A = Result A × W} (ok a, w) (ok b, v) → a ≡ b
ok_value h = (ok_inj h).0
