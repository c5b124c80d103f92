-- ===== src/ErrorPlugin/Refusals/Reset.antt =====
-- When POST /auth/password/reset of src/modules/auth/index.ts fails, and what a client then learns.
use elysiajs_production_api.Base.{ℕ, ◌≡◌, ◌≤◌, false, none, some, Text, ◌==◌}
use elysiajs_production_api.Errors.{AppError, bad_request, ok, ◌>>◌}
use elysiajs_production_api.Schema.{User}
use elysiajs_production_api.Services.{Services, World, key, reset_code, reset_attempts}
use elysiajs_production_api.Services.Actions.{cache_get, cache_incr, cache_del}
use elysiajs_production_api.Auth.Accounts.{find_by_email}

module _ (sv : Services) (email code : Text) (w : World sv) where
  -- Why a reset is refused: no active account has the address; Redis has no code for it, as after its
  -- lifetime; the code is wrong, with attempts left; or the attempts are used up.
  pub data IsDenied : AppError → World sv → Type 0 where
    no_account :
        {w' : World sv}
        → find_by_email sv email w ≡ (ok none, w')
        → IsDenied (bad_request "Invalid or expired reset code") w'
    no_code :
        {f w' : World sv} (user : User)
        → find_by_email sv email w ≡ (ok (some user), f)
        → cache_get sv (key reset_code user.id) f ≡ (ok none, w')
        → IsDenied (bad_request "Invalid or expired reset code") w'
    wrong_code :
        {f v w' : World sv} (user : User) (digest attempts : ℕ)
        → find_by_email sv email w ≡ (ok (some user), f)
        → cache_get sv (key reset_code user.id) f ≡ (ok (some digest), v)
        → cache_incr sv (key reset_attempts user.id) v ≡ (ok attempts, w')
        → attempts ≤ 5
        → (sv.sha256 code == digest) ≡ false
        → IsDenied (bad_request "Invalid or expired reset code") w'
    used_up :
        {f v u w' : World sv} (user : User) (digest attempts : ℕ)
        → find_by_email sv email w ≡ (ok (some user), f)
        → cache_get sv (key reset_code user.id) f ≡ (ok (some digest), v)
        → cache_incr sv (key reset_attempts user.id) v ≡ (ok attempts, u)
        → 6 ≤ attempts
        → cache_del sv (key reset_code user.id) u ≡ (ok tt, w')
        → IsDenied (bad_request "Too many attempts — please request a new code") w'
