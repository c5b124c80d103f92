-- ===== src/Auth/Accounts.antt =====
-- src/modules/auth/service.ts: accounts and passwords.
pub mod Unique
use elysiajs_production_api.Base.{
  ℕ, Bool, ◌&&◌, Option, none, some, Text, text_eq, ◌==◌, if◌then◌else◌,
}
use elysiajs_production_api.Errors.{
  Thrown, driver, conflict, unauthorized, is_unique_violation, Call, pure, throw, throw_again,
  ◌>>=◌, ◌>>◌, try_catch,
}
use elysiajs_production_api.Calls.{require, or_throw}
use elysiajs_production_api.Schema.{User, not_deleted}
use elysiajs_production_api.Services.{Services, World}
use elysiajs_production_api.Services.Actions.{
  find_user, insert_user, update_users, read_clock, draw,
}

-- `and(eq(users.id, id), notDeleted)` and `and(eq(users.email, email), notDeleted)`
abbrev pub has_id : ℕ → User → Bool
has_id id u = u.id == id && not_deleted u

abbrev pub has_email : Text → User → Bool
has_email email u = text_eq u.email email && not_deleted u

module _ (sv : Services) where
  unfoldable pub find_by_id : ℕ → Call (World sv) (Option User)
  find_by_id id = find_user sv (has_id id)

  unfoldable pub find_by_email : Text → Call (World sv) (Option User)
  find_by_email email = find_user sv (has_email email)

  -- The `catch` of `createUser`.
  abbrev pub on_insert_error : Thrown → Call (World sv) User
  on_insert_error e =
      if is_unique_violation e then throw (conflict "Email already registered") else throw_again e

  -- The second half of `createUser`: hash, insert, and map the index's refusal.
  unfoldable pub insert_account : Text → Text → Option Text → Call (World sv) User
  insert_account email password name = do
    salt ← draw sv
    try_catch
        (insert_user sv (record {
          email = email;
          password_hash = sv.hash_password salt password;
          name = name;
          role = none;
          email_verified_at = none;
        }))
        on_insert_error

  -- An address that an active account has is refused.
  unfoldable pub unless_registered : Option User → Text → Text → Option Text → Call (World sv) User
  unfolding insert_account
  unless_registered (some u) email password name = throw (conflict "Email already registered")
  unless_registered none email password name = insert_account email password name

  unfoldable pub create_user : Text → Text → Option Text → Call (World sv) User
  unfolding unless_registered
  create_user email password name = do
    existing ← find_user sv (has_email email)
    unless_registered existing email password name

  unfoldable pub update_password : ℕ → Text → Call (World sv) (Unit {0})
  update_password user_id password = do
    salt ← draw sv
    now ← read_clock sv
    update_users sv (λ u. u.id == user_id)
        (λ u. record u { password_hash = sv.hash_password salt password; updated_at = now })
    pure tt

  -- `await Bun.password.verify(password, await getDummyHash())`
  abbrev pub dummy_verified : Option (Option Text × Option Text) → Call (World sv) (Unit {0})
  dummy_verified none = pure tt
  dummy_verified (some (code, cause)) = throw_again (driver code cause)

  -- `if (!user)`: the same work is spent on a dummy hash, and the failure is that of a wrong password.
  unfoldable pub known_user : Text → Option User → Call (World sv) User
  known_user password none =
      dummy_verified (sv.verify_dummy password) >> throw (unauthorized "Invalid credentials")
  known_user password (some user) = pure user

  unfoldable pub verify_credentials : Text → Text → Call (World sv) User
  unfolding known_user
  verify_credentials email password = do
    found ← find_user sv (has_email email)
    user ← known_user password found
    require (sv.verify_password password user.password_hash) (unauthorized "Invalid credentials")
    pure user

  unfoldable pub mark_email_verified : ℕ → Call (World sv) (Unit {0})
  mark_email_verified user_id = do
    now ← read_clock sv
    update_users sv (λ u. u.id == user_id)
        (λ u. record u { email_verified_at = some now; updated_at = now })
    pure tt
