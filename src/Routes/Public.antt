-- ===== src/Routes/Public.antt =====
-- src/modules/auth/index.ts: the routes without a guard, `credentialRoutes`.
pub mod Login
use elysiajs_production_api.Base.{Bool, true, Option, none, some, Text, is_some, if◌then◌else◌}
use elysiajs_production_api.Errors.{Call, pure, ◌>>=◌, ◌>>◌, try_catch}
use elysiajs_production_api.Schema.{User}
use elysiajs_production_api.Config.{Env}
use elysiajs_production_api.Services.{Services, World}
use elysiajs_production_api.Services.Actions.{draw}
use elysiajs_production_api.Requests.{Request, client_ip}
use elysiajs_production_api.Audit.{record_audit}
use elysiajs_production_api.Auth.Accounts.{create_user, verify_credentials}
use elysiajs_production_api.Auth.Otp
use elysiajs_production_api.Auth.PasswordReset
use elysiajs_production_api.Auth.Totp
use elysiajs_production_api.Routes.Session.{TokenReply, reply_with}

-- A login ends with tokens, or with a challenge for the second factor.
pub data LoginReply : Type 0 where
  signed_in : TokenReply → LoginReply
  mfa_required : Text → LoginReply

module _ (sv : Services) (env : Env) where
  -- A new login starts a new token family.
  unfoldable pub sign_in : User → Call (World sv) TokenReply
  sign_in user = do n ← draw sv; reply_with sv env user (sv.random_uuid n)

  -- The code that is mailed at registration is best-effort.
  abbrev pub welcome : User → Call (World sv) (Unit {0})
  welcome user =
      if env.require_verified_email
      then try_catch (Otp.issue sv user.id user.email) (λ e. pure tt)
      else pure tt

  unfoldable pub register : Request → Text → Text → Option Text → Call (World sv) TokenReply
  unfolding sign_in
  register request email password name = do
    user ← create_user sv email password name
    record_audit sv (record {
      action = "user.created";
      actor_id = some user.id;
      target_type = some "user";
      target_id = some user.id;
      metadata = none;
      ip = some (client_ip env request);
    })
    welcome user
    sign_in user

  unfoldable pub login : Text → Text → Call (World sv) LoginReply
  unfolding sign_in
  login email password = do
    user ← verify_credentials sv email password
    if is_some user.totp_enabled_at
        then (do mfa_token ← Totp.create_login_challenge sv user.id; pure (mfa_required mfa_token))
        else do reply ← sign_in user; pure (signed_in reply)

  unfoldable pub verify_second_factor : Text → Text → Call (World sv) TokenReply
  unfolding sign_in
  verify_second_factor mfa_token code = do
    user ← Totp.consume_login_challenge sv mfa_token code
    sign_in user

  unfoldable pub request_password_reset : Text → Call (World sv) Bool
  request_password_reset email = do PasswordReset.request sv email; pure true

  unfoldable pub reset_password : Text → Text → Text → Call (World sv) Bool
  reset_password email code password = do PasswordReset.reset sv email code password; pure true
