-- ===== src/Auth/Otp.antt =====
-- src/modules/auth/otp.service.ts: the codes that verify an address, kept in Redis.
pub mod Codes
pub mod Checks
pub mod Budget
pub mod Guesses
use elysiajs_production_api.Base.{
  ℕ, Bool, true, false, not, Option, none, some, Text, ltb, ◌==◌, ◌%◌, if◌then◌else◌,
}
use elysiajs_production_api.Errors.{bad_request, Call, pure, throw, ◌>>=◌, ◌>>◌}
use elysiajs_production_api.Calls.{require}
use elysiajs_production_api.Services.{
  Services, World, key, otp_code, otp_attempts, otp_cooldown, Mail, verification,
}
use elysiajs_production_api.Services.Actions.{
  cache_get, cache_set, cache_del, cache_incr, cache_exists, add_email, draw,
}
use Codes.{generate_code}

abbrev pub otp_ttl_seconds : ℕ
otp_ttl_seconds = 600

abbrev pub cooldown_seconds : ℕ
cooldown_seconds = 60

abbrev pub max_attempts : ℕ
max_attempts = 5

module _ (sv : Services) where
  unfoldable pub issue : ℕ → Text → Call (World sv) (Unit {0})
  issue user_id email = do
    cooling ← cache_exists sv (key otp_cooldown user_id)
    require (not cooling)
        (bad_request "A code was just sent — please wait before requesting another")
    n ← draw sv
    let code = generate_code (sv.random_uint32 n)
    cache_set sv (key otp_code user_id) (sv.sha256 code) (some otp_ttl_seconds)
    cache_set sv (key otp_attempts user_id) 0 (some otp_ttl_seconds)
    cache_set sv (key otp_cooldown user_id) 1 (some cooldown_seconds)
    add_email sv (record { to = email; kind = verification; code = code })

  -- A code is stored: count the attempt, compare, and consume the code if it is right.
  unfoldable pub check_code : ℕ → Text → ℕ → Call (World sv) Bool
  check_code user_id code stored = do
    attempts ← cache_incr sv (key otp_attempts user_id)
    if ltb max_attempts attempts
        then (do
          cache_del sv (key otp_code user_id)
          throw (bad_request "Too many attempts — please request a new code"))
        else if not (sv.sha256 code == stored)
        then pure false
        else do
          cache_del sv (key otp_code user_id)
          cache_del sv (key otp_attempts user_id)
          pure true

  unfoldable pub verify : ℕ → Text → Call (World sv) Bool
  unfolding check_code
  verify user_id code = do
    stored ← cache_get sv (key otp_code user_id)
    elim stored [ none ↦ pure false | some digest ↦ check_code user_id code digest ]
