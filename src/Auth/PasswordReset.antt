-- ===== src/Auth/PasswordReset.antt =====
-- src/modules/auth/password-reset.service.ts: resetting a forgotten password by an emailed code.
pub mod Effects
pub mod Budget
pub mod Steps
pub mod Guesses
use elysiajs_production_api.Base.{ℕ, not, none, some, Text, ltb, ◌==◌, if◌then◌else◌}
use elysiajs_production_api.Errors.{AppError, bad_request, Call, pure, throw, ◌>>=◌, ◌>>◌}
use elysiajs_production_api.Calls.{or_throw}
use elysiajs_production_api.Schema.{User}
use elysiajs_production_api.Services.{
  Services, World, key, reset_code, reset_attempts, reset_cooldown, reset as reset_mail,
}
use elysiajs_production_api.Services.Actions.{
  cache_get, cache_set, cache_del, cache_incr, cache_exists, add_email, draw,
}
use elysiajs_production_api.Audit.{record_audit}
use elysiajs_production_api.Auth.Accounts.{find_by_email, update_password}
use elysiajs_production_api.Auth.Tokens.{revoke_all_refresh_tokens}
use elysiajs_production_api.Auth.Otp.Codes.{generate_code}

abbrev pub ttl_seconds : ℕ
ttl_seconds = 900

abbrev pub cooldown_seconds : ℕ
cooldown_seconds = 60

abbrev pub max_attempts : ℕ
max_attempts = 5

-- The one error of a missing user, a wrong code and an expired code.
abbrev pub invalid : AppError
invalid = bad_request "Invalid or expired reset code"

module _ (sv : Services) where
  -- Store a fresh code for the user, start the cooldown, and mail the code.
  unfoldable pub send_code : User → Text → Call (World sv) (Unit {0})
  send_code user email = do
    n ← draw sv
    let code = generate_code (sv.random_uint32 n)
    cache_set sv (key reset_code user.id) (sv.sha256 code) (some ttl_seconds)
    cache_set sv (key reset_attempts user.id) 0 (some ttl_seconds)
    cache_set sv (key reset_cooldown user.id) 1 (some cooldown_seconds)
    add_email sv (record { to = email; kind = reset_mail; code = code })

  unfoldable pub request : Text → Call (World sv) (Unit {0})
  unfolding send_code
  request email = do
    found ← find_by_email sv email
    elim found [
      | none ↦ pure tt
      | some user ↦ do
        cooling ← cache_exists sv (key reset_cooldown user.id)
        if cooling then pure tt else send_code user email
    ]

  -- The attempt is counted: refuse the sixth, compare, and consume the code if it is right.
  unfoldable pub match_code : User → Text → ℕ → ℕ → Call (World sv) User
  match_code user code digest attempts =
      if ltb max_attempts attempts
      then (do
        cache_del sv (key reset_code user.id)
        throw (bad_request "Too many attempts — please request a new code"))
      else if not (sv.sha256 code == digest)
      then throw invalid
      else do
        cache_del sv (key reset_code user.id)
        cache_del sv (key reset_attempts user.id)
        pure user

  -- The guards of `reset`: the user and the code are right, and the attempts are not used up. The
  -- code is consumed.
  unfoldable pub check_reset : Text → Text → Call (World sv) User
  unfolding match_code
  check_reset email code = do
    found ← find_by_email sv email
    user ← or_throw found invalid
    stored ← cache_get sv (key reset_code user.id)
    digest ← or_throw stored invalid
    attempts ← cache_incr sv (key reset_attempts user.id)
    match_code user code digest attempts

  -- The effects of a reset that is granted.
  unfoldable pub apply_reset : User → Text → Call (World sv) (Unit {0})
  apply_reset user new_password = do
    update_password sv user.id new_password
    revoke_all_refresh_tokens sv user.id
    record_audit sv (record {
      action = "auth.password_reset";
      actor_id = some user.id;
      target_type = some "user";
      target_id = some user.id;
      metadata = none;
      ip = none;
    })

  unfoldable pub reset : Text → Text → Text → Call (World sv) (Unit {0})
  unfolding check_reset apply_reset
  reset email code new_password = do user ← check_reset email code; apply_reset user new_password
