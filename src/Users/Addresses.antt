-- ===== src/Users/Addresses.antt =====
-- Active accounts have different addresses: the statements keep it so, and calls made of them.
pub mod Operations
use mathlib.Core.Path.{subst}
use mathlib.Core.Bool.{and-false}
use elysiajs_production_api.Base.{
  ℕ, ◌≡◌, refl, sym, ap, inl, inr, Bool, true, false, not, Option, none, some, List, [], ◌∷◌, Text,
  map_where, All, All-map, All-map_where, Bool-cases, if◌then◌else◌, is_empty, is_some, head?, ◌==◌,
  ◌&&◌,
}
use elysiajs_production_api.Errors.{
  app, AppError, Thrown, Result, ok, err, Call, pure, throw, ◌>>=◌, ◌>>◌, >>=-cases,
}
use elysiajs_production_api.Calls.{require, or_throw, is_present}
use elysiajs_production_api.Config.{Env}
use elysiajs_production_api.Permissions.{user, admin}
use elysiajs_production_api.Schema.{User, NewUser, RefreshToken, NewAuditLog, user_clash}
use elysiajs_production_api.Services.{Services, World, View, view}
use elysiajs_production_api.Services.Actions.{
  find_user, update_users, insert_user, delete_tokens, draw, read_clock,
}
use elysiajs_production_api.Services.Actions.Laws.{
  find_user-ok, find_user-err, insert_user-ok, insert_user-err, update_users-ok, update_users-err,
  delete_tokens-ok, delete_tokens-err,
}
use elysiajs_production_api.Audit.{record_audit}
use elysiajs_production_api.Audit.BestEffort.{record_audit-Audited}
use elysiajs_production_api.Auth.Accounts.{
  has_id, find_by_id, create_user, update_password, mark_email_verified,
}
use elysiajs_production_api.Auth.Accounts.Unique.{HasUniqueEmails, create_user-HasUniqueEmails}
use elysiajs_production_api.Auth.Tokens.{revoke_all_refresh_tokens}
use elysiajs_production_api.Auth.Totp.{validate_code, setup, enable, disable}
use elysiajs_production_api.Users.{UserChanges, update_user, remove_user}
use elysiajs_production_api.Seed.{create_admin, promote, ensure_admin, seed}

-- A change of a row makes no clash that was not there.
abbrev pub IsHarmless : (User → User) → Type 0
IsHarmless f =
    (u x : User)
    → user_clash u x ≡ false
    → (user_clash (f u) x ≡ false) × (user_clash u (f x) ≡ false)

map_where-HasUniqueEmails :
    (p : User → Bool) (f : User → User)
    → IsHarmless f
    → (l : List User) → HasUniqueEmails l
    → HasUniqueEmails (map_where p f l)
map_where-HasUniqueEmails p f harmless [] h = tt
map_where-HasUniqueEmails p f harmless (u ∷ l) (apart, unique) = elim (Bool-cases (p u)) [
  | inl e ↦ rw e (
    All-map_where _ _ p f (λ x h k. (harmless (f u) x (harmless u x h).0).1)
        (λ x h k. (harmless u x h).0) l apart,
    map_where-HasUniqueEmails p f harmless l unique,
  )
  | inr e ↦ rw e (
    All-map_where _ _ p f (λ x h k. (harmless u x h).1) (λ x h k. h) l apart,
    map_where-HasUniqueEmails p f harmless l unique,
  )
]

module _ (sv : Services) where
  -- Whether the call returns or throws, active accounts go on having different addresses.
  abbrev pub Keeps : {A : Type 0} → Call (World sv) A → Type 0
  Keeps {A} m =
      (w w' : World sv) (r : Result A)
      → m w ≡ (r, w')
      → HasUniqueEmails (view sv w).users
      → HasUniqueEmails (view sv w').users

  pub bind-Keeps :
      {A B : Type 0} (m : Call (World sv) A) (f : A → Call (World sv) B)
      → Keeps m
      → ((a : A) → Keeps (f a))
      → Keeps (m >>= f)
  bind-Keeps m f first rest w w' r h p =
      >>=-cases m f w (λ x. x ≡ (r, w') → HasUniqueEmails (view sv w').users)
        (λ a v e k. rest a v w' r k (first w v (ok a) e p))
        (λ e v x k.
          subst (λ y. HasUniqueEmails (view sv y).users) (λ i. (k i).1) (first w v (err e) x p))
        h

  from_view :
      (w w' : World sv)
      → view sv w' ≡ view sv w
      → HasUniqueEmails (view sv w).users
      → HasUniqueEmails (view sv w').users
  from_view w w' e = subst (λ (v : View). HasUniqueEmails v.users) (sym e)

  pub returns-Keeps : {A : Type 0} (r : Result A) → Keeps (λ w. (r, w))
  returns-Keeps r w w' r' h = subst (λ y. HasUniqueEmails (view sv y).users) (λ i. (h i).1)

  pub if-Keeps :
      {A : Type 0} (b : Bool) (m n : Call (World sv) A)
      → Keeps m
      → Keeps n
      → Keeps (if b then m else n)
  if-Keeps true m n p q = p
  if-Keeps false m n p q = q

  pub require-Keeps : (b : Bool) (e : AppError) → Keeps (require b e)
  require-Keeps true e = returns-Keeps (ok tt)
  require-Keeps false e = returns-Keeps (err (app e))

  pub or_throw-Keeps : {A : Type 0} (o : Option A) (e : AppError) → Keeps (or_throw o e)
  or_throw-Keeps none e = returns-Keeps (err (app e))
  or_throw-Keeps (some a) e = returns-Keeps (ok a)

  pub draw-Keeps : Keeps (draw sv)
  unfolding draw
  draw-Keeps w w' r h = subst (λ y. HasUniqueEmails (view sv y).users) (λ i. (h i).1)

  pub read_clock-Keeps : Keeps (read_clock sv)
  unfolding read_clock
  read_clock-Keeps w w' r h = subst (λ y. HasUniqueEmails (view sv y).users) (λ i. (h i).1)

  pub find_user-Keeps : (p : User → Bool) → Keeps (find_user sv p)
  find_user-Keeps p w w' (ok a) h = from_view w w' (find_user-ok sv p w w' a h).1
  find_user-Keeps p w w' (err e) h = from_view w w' (find_user-err sv p w w' e h).1

  pub update_users-Keeps :
      (p : User → Bool) (f : User → User) → IsHarmless f → Keeps (update_users sv p f)
  update_users-Keeps p f harmless w w' (ok a) h unique =
      subst (λ (v : View). HasUniqueEmails v.users) (sym (update_users-ok sv p f w w' a h).1)
        (map_where-HasUniqueEmails p f harmless (view sv w).users unique)
  update_users-Keeps p f harmless w w' (err e) h unique =
      from_view w w' (update_users-err sv p f w w' e h).1 unique

  pub insert_user-Keeps : (v : NewUser) → Keeps (insert_user sv v)
  insert_user-Keeps v w w' (ok a) h unique =
      let (id, row, fresh, apart, e) = insert_user-ok sv v w w' a h in
      subst (λ (v : View). HasUniqueEmails v.users) (sym e) (apart, unique)
  insert_user-Keeps v w w' (err e) h unique =
      from_view w w' (insert_user-err sv v w w' e h).1 unique

  pub delete_tokens-Keeps : (p : RefreshToken → Bool) → Keeps (delete_tokens sv p)
  delete_tokens-Keeps p w w' (ok a) h =
      subst (λ (v : View). HasUniqueEmails v.users) (sym (delete_tokens-ok sv p w w' a h).1)
  delete_tokens-Keeps p w w' (err e) h = from_view w w' (delete_tokens-err sv p w w' e h).1

  pub record_audit-Keeps : (entry : NewAuditLog) → Keeps (record_audit sv entry)
  record_audit-Keeps entry w w' r h unique =
      let (returned, same) = record_audit-Audited sv entry w in
      subst (λ y. HasUniqueEmails (view sv y).users) (λ i. (h i).1)
        (subst (λ (v : View). HasUniqueEmails v.users) (sym same) unique)
