-- ===== src/Auth/Totp.antt =====
-- src/modules/auth/totp.service.ts: two-factor enrolment, and the login challenge.
pub mod Challenge
pub mod Budget
pub mod Guesses
pub mod Replay
use elysiajs_production_api.Base.{
  ℕ, ◌*◌, ◌+◌, ◌-◌, ◌/◌, Bool, false, ◌&&◌, not, Option, none, some, [], Text, is_some, leb, ltb,
  ◌==◌, if◌then◌else◌,
}
use elysiajs_production_api.Errors.{
  AppError, bad_request, unauthorized, Call, pure, throw, ◌>>=◌, ◌>>◌,
}
use elysiajs_production_api.Calls.{require, or_throw, is_present}
use elysiajs_production_api.Schema.{User}
use elysiajs_production_api.Services.{
  Services, World, key, mfa_challenge, mfa_attempts, totp_last, Drift, behind, current, ahead,
}
use elysiajs_production_api.Services.Actions.{
  cache_get, cache_set, cache_del, cache_incr, update_users, read_clock, draw,
}
use elysiajs_production_api.Audit.{record_audit}
use elysiajs_production_api.Auth.Accounts.{find_by_id}

abbrev pub period_seconds : ℕ
period_seconds = 30

abbrev pub challenge_ttl_seconds : ℕ
challenge_ttl_seconds = 300

abbrev pub max_attempts : ℕ
max_attempts = 5

-- The present time step and the code's drift.
abbrev pub counter_at : ℕ → Drift → ℕ
counter_at now behind = now / 1000 / period_seconds - 1
counter_at now current = now / 1000 / period_seconds
counter_at now ahead = now / 1000 / period_seconds + 1

abbrev pub text_or_empty : Option Text → Text
text_or_empty none = []
text_or_empty (some s) = s

abbrev pub accepted_counter : Option Drift → ℕ → Option ℕ
accepted_counter none now = none
accepted_counter (some d) now = some (counter_at now d)

-- A code at or before the last accepted step has been used.
abbrev pub is_replay : Option ℕ → ℕ → Bool
is_replay none counter = false
is_replay (some last) counter = leb counter last

abbrev pub invalid_challenge : AppError
invalid_challenge = unauthorized "Invalid or expired MFA challenge"

pub record Setup : Type 0 where
  pub secret : Text
  pub otpauth_url : Text

module _ (sv : Services) where
  -- `validateCode`: the counter of an accepted code.
  unfoldable pub validate_code : Option Text → Text → Call (World sv) (Option ℕ)
  validate_code secret code = do
    now ← read_clock sv
    pure (accepted_counter (sv.validate_totp (text_or_empty secret) code now) now)

  unfoldable pub setup : ℕ → Call (World sv) Setup
  setup user_id = do
    found ← find_by_id sv user_id
    user ← or_throw found (unauthorized "Unauthorized")
    require (not (is_some user.totp_enabled_at)) (bad_request "Two-factor auth is already enabled")
    n ← draw sv
    now ← read_clock sv
    update_users sv (λ u. u.id == user_id)
        (λ u. record u { totp_secret = some (sv.random_secret n); updated_at = now })
    pure (record {
      secret = sv.random_secret n;
      otpauth_url = sv.otpauth_url (sv.random_secret n) user.email;
    })

  unfoldable pub enable : ℕ → Text → Call (World sv) (Unit {0})
  enable user_id code = do
    found ← find_by_id sv user_id
    user ← or_throw found (unauthorized "Unauthorized")
    require (not (is_some user.totp_enabled_at)) (bad_request "Two-factor auth is already enabled")
    require (is_present user.totp_secret) (bad_request "Run 2FA setup before enabling")
    accepted ← validate_code user.totp_secret code
    require (is_some accepted) (bad_request "Invalid code")
    now ← read_clock sv
    update_users sv (λ u. u.id == user_id)
        (λ u. record u { totp_enabled_at = some now; updated_at = now })
    record_audit sv (record {
      action = "auth.2fa_enabled";
      actor_id = some user_id;
      target_type = some "user";
      target_id = some user_id;
      metadata = none;
      ip = none;
    })

  unfoldable pub disable : ℕ → Text → Call (World sv) (Unit {0})
  disable user_id code = do
    found ← find_by_id sv user_id
    user ← or_throw found (unauthorized "Unauthorized")
    require (is_some user.totp_enabled_at && is_present user.totp_secret)
        (bad_request "Two-factor auth is not enabled")
    accepted ← validate_code user.totp_secret code
    require (is_some accepted) (bad_request "Invalid code")
    now ← read_clock sv
    update_users sv (λ u. u.id == user_id)
        (λ u. record u { totp_secret = none; totp_enabled_at = none; updated_at = now })
    record_audit sv (record {
      action = "auth.2fa_disabled";
      actor_id = some user_id;
      target_type = some "user";
      target_id = some user_id;
      metadata = none;
      ip = none;
    })

  unfoldable pub create_login_challenge : ℕ → Call (World sv) Text
  create_login_challenge user_id = do
    n ← draw sv
    let hash = sv.sha256 (sv.random_token n)
    cache_set sv (key mfa_challenge hash) user_id (some challenge_ttl_seconds)
    cache_set sv (key mfa_attempts hash) 0 (some challenge_ttl_seconds)
    pure (sv.random_token n)

  -- The user of a challenge still has two-factor login.
  unfoldable pub enrolled_user : ℕ → Call (World sv) (ℕ × User)
  enrolled_user user_id = do
    found ← find_by_id sv user_id
    user ← or_throw found invalid_challenge
    require (is_present user.totp_secret && is_some user.totp_enabled_at) invalid_challenge
    pure (user_id, user)

  -- The guards that lead up to the code: the challenge is there, attempts are left, and the user still
  -- has two-factor login.
  unfoldable pub open_challenge : ℕ → Call (World sv) (ℕ × User)
  unfolding enrolled_user
  open_challenge hash = do
    stored ← cache_get sv (key mfa_challenge hash)
    user_id ← or_throw stored invalid_challenge
    attempts ← cache_incr sv (key mfa_attempts hash)
    if ltb max_attempts attempts
        then (do
          cache_del sv (key mfa_challenge hash)
          throw (unauthorized "Too many attempts — log in again to get a new challenge"))
        else enrolled_user user_id

  -- The code is right: refuse a replay, remember the step, and burn the challenge.
  unfoldable pub close_challenge : ℕ → ℕ → User → ℕ → Call (World sv) User
  close_challenge hash user_id user counter = do
    last ← cache_get sv (key totp_last user_id)
    require (not (is_replay last counter)) (unauthorized "Code already used")
    cache_set sv (key totp_last user_id) counter (some (period_seconds * 3))
    cache_del sv (key mfa_challenge hash)
    cache_del sv (key mfa_attempts hash)
    pure user

  unfoldable pub consume_login_challenge : Text → Text → Call (World sv) User
  unfolding open_challenge close_challenge validate_code
  consume_login_challenge mfa_token code = do
    let hash = sv.sha256 mfa_token
    opened ← open_challenge hash
    let (user_id, user) = opened
    accepted ← validate_code user.totp_secret code
    counter ← or_throw accepted (unauthorized "Invalid code")
    close_challenge hash user_id user counter
