-- ===== src/Services/Triples.antt =====
-- Triples for calls on the state: from a state with a property, the call returns or throws in a state
-- with another. The properties are of the entries of Redis and the time; calls that touch neither
-- keep every such property.
use mathlib.Core.Path.{subst}
use elysiajs_production_api.Base.{
  ℕ, refl, ◌≡◌, if◌then◌else◌, Bool, true, false, Option, some, none,
}
use elysiajs_production_api.Errors.{app, AppError, Thrown, Result, ok, err, Call, ◌>>=◌, >>=-cases}
use elysiajs_production_api.Calls.{or_throw, require}
use elysiajs_production_api.Services.{Services, World, view, Entries}
pub mod Statements

-- A property of the entries and the time, at a state.
abbrev pub At : (sv : Services) → (Entries → ℕ → Type 0) → World sv → Type 0
At sv P w = P (view sv w).cache w.now

-- What holds of every state.
abbrev pub Anything : Entries → ℕ → Type 0
Anything m now = Unit

module _ (sv : Services) where
  abbrev pub Post :
      {A : Type 0}
      → (A → Entries → ℕ → Type 0)
      → (Entries → ℕ → Type 0)
      → Result A
      → World sv
      → Type 0
  Post Q E (ok a) w = At sv (Q a) w
  Post Q E (err e) w = At sv E w

  abbrev pub Ensures :
      {A : Type 0}
      → (Entries → ℕ → Type 0)
      → Call (World sv) A
      → (A → Entries → ℕ → Type 0)
      → (Entries → ℕ → Type 0)
      → Type 0
  Ensures {A} P m Q E = (w w' : World sv) (r : Result A) → m w ≡ (r, w') → At sv P w → Post Q E r w'

  -- The call keeps a property, whether it returns or throws.
  abbrev pub Keeps : {A : Type 0} → (Entries → ℕ → Type 0) → Call (World sv) A → Type 0
  Keeps P m = Ensures P m (λ a. P) P

  pub bind-Ensures :
      {A B : Type 0} (P E : Entries → ℕ → Type 0) (Q : A → Entries → ℕ → Type 0)
      (R : B → Entries → ℕ → Type 0) (m : Call (World sv) A) (f : A → Call (World sv) B)
      → Ensures P m Q E
      → ((a : A) → Ensures (Q a) (f a) R E)
      → Ensures P (m >>= f) R E
  bind-Ensures {A} {B} P E Q R m f first rest w w' r h p =
      >>=-cases m f w (λ x. x ≡ (r, w') → Post R E r w')
        (λ a v e k. rest a v w' r k (first w v (ok a) e p))
        (λ e v x k. subst (λ y. Post R E y.0 y.1) k (first w v (err e) x p)) h

  pub bind-Keeps :
      {A B : Type 0} (P : Entries → ℕ → Type 0) (m : Call (World sv) A) (f : A → Call (World sv) B)
      → Keeps P m
      → ((a : A) → Keeps P (f a))
      → Keeps P (m >>= f)
  bind-Keeps P = bind-Ensures P P (λ a. P) (λ b. P)

module _ (sv : Services) (P : Entries → ℕ → Type 0) where
  pub returns-Ensures :
      {A : Type 0} (Q : A → Entries → ℕ → Type 0) (E : Entries → ℕ → Type 0) (a : A)
      → ((m : Entries) (now : ℕ) → P m now → Q a m now)
      → Ensures sv P (λ w. (ok a, w)) Q E
  returns-Ensures Q E a f w w' r h p = subst (λ x. Post sv Q E x.0 x.1) h (f _ _ p)

  -- Less is asked of a call that throws.
  pub or_throws :
      {A : Type 0} (Q : A → Entries → ℕ → Type 0) (E E' : Entries → ℕ → Type 0)
      (m : Call (World sv) A)
      → Ensures sv P m Q E
      → ((m : Entries) (now : ℕ) → E m now → E' m now)
      → Ensures sv P m Q E'
  or_throws Q E E' m holds weaken w w' (ok a) h p = holds w w' (ok a) h p
  or_throws Q E E' m holds weaken w w' (err e) h p = weaken _ _ (holds w w' (err e) h p)

  pub or_returns :
      {A : Type 0} (Q Q' : A → Entries → ℕ → Type 0) (E : Entries → ℕ → Type 0)
      (m : Call (World sv) A)
      → Ensures sv P m Q E
      → ((a : A) (m : Entries) (now : ℕ) → Q a m now → Q' a m now)
      → Ensures sv P m Q' E
  or_returns Q Q' E m holds weaken w w' (ok a) h p = weaken a _ _ (holds w w' (ok a) h p)
  or_returns Q Q' E m holds weaken w w' (err e) h p = holds w w' (err e) h p

  -- What a call keeps holds in the end, whether it has returned or thrown.
  pub in_the_end :
      {A : Type 0} (w : World sv) (r : Result A) → Post sv {A = A} (λ a. P) P r w → At sv P w
  in_the_end w (ok a) h = h
  in_the_end w (err e) h = h

  -- Nothing is asked of a call that throws.
  pub if_returns :
      {A : Type 0} (m : Call (World sv) A) → Keeps sv P m → Ensures sv P m (λ a. P) Anything
  if_returns m keeps w w' (ok a) h p = keeps w w' (ok a) h p
  if_returns m keeps w w' (err e) h p = tt

  pub returns-Keeps : {A : Type 0} (r : Result A) → Keeps sv P (λ w. (r, w))
  returns-Keeps (ok a) w w' r h p = subst (λ x. Post sv (λ a. P) P x.0 x.1) h p
  returns-Keeps (err e) w w' r h p = subst (λ x. Post sv (λ a. P) P x.0 x.1) h p

  -- A call that throws: what it returns can have any property.
  pub throws-Ensures :
      {A : Type 0} (Q : A → Entries → ℕ → Type 0) (e : Thrown) → Ensures sv P (λ w. (err e, w)) Q P
  throws-Ensures Q e w w' r h p = subst (λ x. Post sv Q P x.0 x.1) h p

  pub if-Keeps :
      {A : Type 0} (b : Bool) (m n : Call (World sv) A)
      → Keeps sv P m
      → Keeps sv P n
      → Keeps sv P (if b then m else n)
  if-Keeps true m n p q = p
  if-Keeps false m n p q = q

  pub or_throw-Keeps : {A : Type 0} (o : Option A) (e : AppError) → Keeps sv P (or_throw o e)
  or_throw-Keeps none e = returns-Keeps (err (app e))
  or_throw-Keeps (some a) e = returns-Keeps (ok a)

  pub require-Keeps : (b : Bool) (e : AppError) → Keeps sv P (require b e)
  require-Keeps true e = returns-Keeps (ok tt)
  require-Keeps false e = returns-Keeps (err (app e))

  pub or_throw-Ensures :
      {A : Type 0} (o : Option A) (e : AppError)
      → Ensures sv P (or_throw o e) (λ a m now. P m now × (o ≡ some a)) P
  or_throw-Ensures none e w w' r h p =
      throws-Ensures (λ a m now. P m now × (none ≡ some a)) (app e) w w' r h p
  or_throw-Ensures (some x) e w w' r h p =
      subst (λ y. Post sv (λ a m now. P m now × (some x ≡ some a)) P y.0 y.1) h (p, refl)

  pub require-Ensures :
      (b : Bool) (e : AppError) → Ensures sv P (require b e) (λ u m now. P m now × (b ≡ true)) P
  require-Ensures true e w w' r h p =
      subst (λ y. Post sv (λ u m now. P m now × (true ≡ true)) P y.0 y.1) h (p, refl)
  require-Ensures false e w w' r h p =
      throws-Ensures (λ u m now. P m now × (false ≡ true)) (app e) w w' r h p
