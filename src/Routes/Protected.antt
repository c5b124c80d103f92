-- ===== src/Routes/Protected.antt =====
-- src/modules/auth/index.ts: the handlers of the routes that want a token.
use elysiajs_production_api.Base.{ℕ, Bool, true, false, not, Option, Text, String, is_some}
use elysiajs_production_api.Errors.{unauthorized, bad_request, Call, pure, ◌>>=◌, ◌>>◌}
use elysiajs_production_api.Calls.{require, or_throw}
use elysiajs_production_api.Config.{Env}
use elysiajs_production_api.Services.{Services, World, AccessPayload}
use elysiajs_production_api.Guards.{
  Decision, allowed, denied, allow_unverified, verified_only, is_authed,
}
use elysiajs_production_api.Users.{PublicUser, to_public_user}
use elysiajs_production_api.Requests.{Request}
use elysiajs_production_api.Auth.Accounts.{find_by_id, mark_email_verified}
use elysiajs_production_api.Auth.Otp
use elysiajs_production_api.Auth.Totp
use elysiajs_production_api.Auth.Totp.{Setup}
use elysiajs_production_api.Routes.Session.{SetCookie, logout}

-- The answer of a protected route: the guard's refusal, or what the handler returned.
pub data Answer (A : Type 0) : Type 0 where
  refused : ℕ → String → Answer A
  served : A → Answer A

module _ {W : Type 0} where
  abbrev pub after_decision : {A B : Type 0} → Decision A → (A → Call W B) → Call W (Answer B)
  after_decision (denied status code) handler = pure (refused status code)
  after_decision (allowed a) handler = do b ← handler a; pure (served b)

  -- The guard runs first; the handler runs only if it lets the request through.
  unfoldable pub protect : {A B : Type 0} → Call W (Decision A) → (A → Call W B) → Call W (Answer B)
  protect guard handler = do decision ← guard; after_decision decision handler

module _ (sv : Services) (env : Env) where
  unfoldable pub me : AccessPayload → Call (World sv) PublicUser
  me user = do
    found ← find_by_id sv user.sub
    current ← or_throw found (unauthorized "Unauthorized")
    pure (to_public_user current)

  unfoldable pub request_otp : AccessPayload → Call (World sv) Bool
  request_otp user = do
    found ← find_by_id sv user.sub
    current ← or_throw found (unauthorized "Unauthorized")
    require (not (is_some current.email_verified_at)) (bad_request "Email already verified")
    Otp.issue sv current.id current.email
    pure true

  unfoldable pub verify_email : Text → AccessPayload → Call (World sv) Bool
  verify_email code user = do
    right ← Otp.verify sv user.sub code
    require right (bad_request "Invalid or expired code")
    mark_email_verified sv user.sub
    pure true

  unfoldable pub get_me : Option Text → Call (World sv) (Answer PublicUser)
  unfolding protect me
  get_me bearer = protect (is_authed sv env allow_unverified bearer) me

  unfoldable pub post_logout :
      Request
      → Option Text
      → Option Text
      → Option Text
      → Call (World sv) (Answer (Option SetCookie))
  unfolding protect
  post_logout request bearer cookie body =
      protect (is_authed sv env allow_unverified bearer) (λ user. logout sv env request cookie body)

  unfoldable pub post_request_otp : Option Text → Call (World sv) (Answer Bool)
  unfolding protect request_otp
  post_request_otp bearer = protect (is_authed sv env allow_unverified bearer) request_otp

  unfoldable pub post_verify_email : Option Text → Text → Call (World sv) (Answer Bool)
  unfolding protect verify_email
  post_verify_email bearer code =
      protect (is_authed sv env allow_unverified bearer) (verify_email code)

  unfoldable pub post_totp_setup : Option Text → Call (World sv) (Answer Setup)
  unfolding protect
  post_totp_setup bearer =
      protect (is_authed sv env verified_only bearer) (λ user. Totp.setup sv user.sub)

  unfoldable pub post_totp_enable : Option Text → Text → Call (World sv) (Answer Bool)
  unfolding protect
  post_totp_enable bearer code =
      protect (is_authed sv env verified_only bearer)
        (λ user. do Totp.enable sv user.sub code; pure true)

  unfoldable pub post_totp_disable : Option Text → Text → Call (World sv) (Answer Bool)
  unfolding protect
  post_totp_disable bearer code =
      protect (is_authed sv env verified_only bearer)
        (λ user. do Totp.disable sv user.sub code; pure false)
