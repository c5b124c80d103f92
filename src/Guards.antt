-- ===== src/Guards.antt =====
-- src/plugins/auth.ts: the guards of protected routes. A guard lets a request through with the
-- payload of its token (and the granted scope), or answers with a status and an error code.
pub mod Matrix
use elysiajs_production_api.Base.{
  ℕ, Bool, true, false, ◌||◌, not, Option, none, some, Text, String, is_empty, is_some, ◌==◌,
  if◌then◌else◌,
}
use elysiajs_production_api.Errors.{Call, pure, ◌>>=◌}
use elysiajs_production_api.Permissions.{Role, Operation, Scope, all, own, resolve_scope}
use elysiajs_production_api.Config.{Env}
use elysiajs_production_api.Schema.{User}
use elysiajs_production_api.Services.{Services, World, AccessPayload}
use elysiajs_production_api.Services.Actions.{find_user, read_clock}
use elysiajs_production_api.Auth.Accounts.{has_id}
use elysiajs_production_api.Jwt.{verify_access_token}

pub data Decision (A : Type 0) : Type 0 where
  allowed : A → Decision A
  denied : ℕ → String → Decision A

abbrev pub unauthorized : {A : Type 0} → Decision A
unauthorized = denied 401 "UNAUTHORIZED"

abbrev pub forbidden : {A : Type 0} → Decision A
forbidden = denied 403 "FORBIDDEN"

abbrev pub email_not_verified : {A : Type 0} → Decision A
email_not_verified = denied 403 "EMAIL_NOT_VERIFIED"

pub data AuthMode : Type 0 where
  verified_only allow_unverified : AuthMode

pub record Grant : Type 0 where
  pub user : AccessPayload
  pub scope : Scope

abbrev pub role_eq : Role → Role → Bool
role_eq Role.user Role.user = true
role_eq Role.admin Role.admin = true
role_eq _ _ = false

-- `!!row?.emailVerifiedAt`
abbrev pub is_verified_row : Option User → Bool
is_verified_row none = false
is_verified_row (some u) = is_some u.email_verified_at

-- Ownership: with scope `own` and a parameter that names the owner, the two ids must agree.
abbrev pub owns : Scope → Option (Option ℕ) → ℕ → Bool
owns all param sub = true
owns own none sub = true
owns own (some none) sub = false
owns own (some (some target)) sub = sub == target

-- The decision of `can` once the token and the address have passed.
abbrev pub authorize : Text → Operation → Option (Option ℕ) → AccessPayload → Decision Grant
authorize model operation param user = elim (resolve_scope user.role model operation) [
  | none ↦ forbidden
  | some scope ↦
      if owns scope param user.sub
      then allowed (record { user = user; scope = scope })
      else forbidden
]

module _ (sv : Services) (env : Env) where
  -- `bearer` is the token of the Authorization header.
  unfoldable pub resolve_user : Option Text → Call (World sv) (Option AccessPayload)
  resolve_user none = pure none
  resolve_user (some token) =
      if is_empty token
      then pure none
      else do now ← read_clock sv; pure (verify_access_token sv env token now)

  unfoldable pub is_email_verified : ℕ → Call (World sv) Bool
  is_email_verified user_id = do row ← find_user sv (has_id user_id); pure (is_verified_row row)

  unfoldable pub passes_verification_gate : ℕ → Call (World sv) Bool
  unfolding is_email_verified
  passes_verification_gate user_id =
      if not env.require_verified_email then pure true else is_email_verified user_id

  abbrev pub gate : AuthMode → ℕ → Call (World sv) Bool
  gate verified_only user_id = passes_verification_gate user_id
  gate allow_unverified user_id = pure true

  unfoldable pub is_authed : AuthMode → Option Text → Call (World sv) (Decision AccessPayload)
  unfolding resolve_user passes_verification_gate
  is_authed mode bearer = do
    resolved ← resolve_user bearer
    elim resolved [
      | none ↦ pure unauthorized
      | some user ↦ do
        passes ← gate mode user.sub
        pure (if passes then allowed user else email_not_verified)
    ]

  unfoldable pub has_role : Role → Option Text → Call (World sv) (Decision AccessPayload)
  unfolding resolve_user passes_verification_gate
  has_role role bearer = do
    resolved ← resolve_user bearer
    elim resolved [
      | none ↦ pure unauthorized
      | some user ↦ do
        passes ← passes_verification_gate user.sub
        pure (
            if not passes
            then email_not_verified
            else if role_eq user.role role
            then allowed user
            else forbidden)
    ]

  -- The rest of `can`, behind the token.
  unfoldable pub judge :
      Text → Operation → Option (Option ℕ) → Option AccessPayload → Call (World sv) (Decision Grant)
  unfolding passes_verification_gate
  judge model operation param none = pure unauthorized
  judge model operation param (some user) = do
    passes ← passes_verification_gate user.sub
    pure (if not passes then email_not_verified else authorize model operation param user)

  -- `param` is absent without `ownParam`; otherwise it holds the route's parameter of that name.
  unfoldable pub can :
      Text → Operation → Option (Option ℕ) → Option Text → Call (World sv) (Decision Grant)
  unfolding resolve_user judge
  can model operation param bearer = do
    resolved ← resolve_user bearer
    judge model operation param resolved

  unfoldable pub verified_email : Option Text → Call (World sv) (Decision AccessPayload)
  unfolding resolve_user is_email_verified
  verified_email bearer = do
    resolved ← resolve_user bearer
    elim resolved [
      | none ↦ pure unauthorized
      | some user ↦ do
        verified ← is_email_verified user.sub
        pure (if verified then allowed user else email_not_verified)
    ]
