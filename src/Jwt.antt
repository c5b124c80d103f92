-- ===== src/Jwt.antt =====
-- src/lib/jwt.ts: access tokens, with the secrets read at each call, so that they can be rotated.
pub mod Rotation
use elysiajs_production_api.Base.{
  ℕ, Bool, true, false, not, Option, none, some, List, [], ◌∷◌, Text, codes, text_eq, is_empty,
  filter, if◌then◌else◌,
}
use elysiajs_production_api.Permissions.{Role, user, admin}
use elysiajs_production_api.Config.{Env}
use elysiajs_production_api.Services.{Services, AccessPayload, Claims}

abbrev pub role_text : Role → Text
role_text user = codes "user"
role_text admin = codes "admin"

-- `payload.role === "user" || payload.role === "admin"`
abbrev pub role_of : Option Text → Option Role
role_of none = none
role_of (some t) =
    if text_eq t (codes "user")
    then some user
    else if text_eq t (codes "admin")
    then some admin
    else none

abbrev pub payload_with : Option ℕ → Option Role → Option AccessPayload
payload_with (some sub) (some role) = some (record { sub = sub; role = role })
payload_with _ _ = none

-- The claims of a verified token, if they have the shape of an access token.
abbrev pub payload_of : Claims → Option AccessPayload
payload_of c = payload_with c.sub (role_of c.role)

module _ (sv : Services) (env : Env) where
  unfoldable pub sign_access_token : AccessPayload → ℕ → Text
  sign_access_token payload now = sv.sign_jwt env.jwt_secret payload now env.jwt_access_exp

  -- The loop over the secrets: the first that verifies the token decides.
  unfoldable pub verify_with : List Text → Text → ℕ → Option AccessPayload
  verify_with [] token now = none
  verify_with (secret ∷ secrets) token now =
      let later = verify_with secrets token now in
      elim (sv.verify_jwt secret token now) [ none ↦ later | some claims ↦ payload_of claims ]

  unfoldable pub verify_access_token : Text → ℕ → Option AccessPayload
  unfolding verify_with
  verify_access_token token now =
      verify_with (filter (λ s. not (is_empty s)) (env.jwt_secret ∷ env.jwt_secret_previous ∷ []))
        token now
