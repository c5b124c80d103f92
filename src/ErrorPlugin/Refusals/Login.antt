-- ===== src/ErrorPlugin/Refusals/Login.antt =====
-- When POST /auth/login of src/modules/auth/index.ts fails, and what a client then learns.
use elysiajs_production_api.Base.{◌≡◌, false, none, some, Text}
use elysiajs_production_api.Errors.{AppError, unauthorized, ok}
use elysiajs_production_api.Schema.{User}
use elysiajs_production_api.Services.{Services, World}
use elysiajs_production_api.Services.Actions.{find_user}
use elysiajs_production_api.Auth.Accounts.{has_email}
use elysiajs_production_api.ErrorPlugin.Raises.{Raises}

module _ (sv : Services) (email password : Text) (w : World sv) where
  -- Why a login is refused: the table has no active account with the address, and the verification
  -- against the dummy hash returns; or the account that it has does not have the password.
  -- The look at the table is all that is done.
  pub data IsDenied : AppError → World sv → Type 0 where
    no_account :
        {w' : World sv}
        → find_user sv (has_email email) w ≡ (ok none, w')
        → sv.verify_dummy password ≡ none
        → IsDenied (unauthorized "Invalid credentials") w'
    wrong_password :
        {w' : World sv} (user : User)
        → find_user sv (has_email email) w ≡ (ok (some user), w')
        → sv.verify_password password user.password_hash ≡ false
        → IsDenied (unauthorized "Invalid credentials") w'
