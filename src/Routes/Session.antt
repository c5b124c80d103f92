-- ===== src/Routes/Session.antt =====
-- src/modules/auth/index.ts: minting tokens, the refresh cookie, refreshing and logging out.
pub mod Refresh
use elysiajs_production_api.Base.{
  ℕ, ◌+◌, ◌/◌, Bool, true, ◌&&◌, Option, none, some, [], Text, codes, String, ◌==◌, if◌then◌else◌,
}
use elysiajs_production_api.Errors.{unauthorized, bad_request, Call, pure, ◌>>=◌, ◌>>◌}
use elysiajs_production_api.Calls.{require, or_throw, is_present}
use elysiajs_production_api.Schema.{User}
use elysiajs_production_api.Config.{Env, is_production, is_cookie}
use elysiajs_production_api.Services.{Services, World}
use elysiajs_production_api.Services.Actions.{read_clock, draw}
use elysiajs_production_api.Time.{duration_to_ms}
use elysiajs_production_api.Jwt.{sign_access_token}
use elysiajs_production_api.Users.{PublicUser, to_public_user}
use elysiajs_production_api.Requests.{Request, require_trusted_origin}
use elysiajs_production_api.Auth.Accounts.{find_by_id}
use elysiajs_production_api.Auth.Tokens.{
  store_refresh_token, use_refresh_token, revoke_refresh_token,
}

pub record SetCookie : Type 0 where
  pub value : Text
  pub max_age : ℕ
  pub http_only : Bool
  pub secure : Bool
  pub same_site : String
  pub path : String

-- What `issueTokens` returns, with the cookie that it sets.
pub record Tokens : Type 0 where
  pub access_token : Text
  pub refresh_token : Option Text
  pub set_cookie : Option SetCookie

pub record TokenReply : Type 0 where
  pub tokens : Tokens
  pub user : PublicUser

abbrev or_else_ms : ℕ → ℕ → ℕ
or_else_ms ms fallback = if ms == 0 then fallback else ms

abbrev pub text_value : Option Text → Text
text_value none = []
text_value (some t) = t

module _ (env : Env) where
  -- `REFRESH_MS`
  unfoldable pub refresh_ms : ℕ
  unfolding duration_to_ms
  refresh_ms = or_else_ms (duration_to_ms env.jwt_refresh_exp) (duration_to_ms (codes "7d"))

  -- `REFRESH_COOKIE_ATTRS` with a value and an age in seconds
  abbrev pub refresh_cookie : Text → ℕ → SetCookie
  refresh_cookie value max_age = record {
    value = value;
    max_age = max_age;
    http_only = true;
    secure = is_production env.node_env;
    same_site = "strict";
    path = "/auth";
  }

  -- Where a refresh token travels: in the cookie, or in the body of the answer.
  abbrev pub deliver : Text → Text → Tokens
  deliver access_token refresh_token =
      if is_cookie env.auth_transport
      then record {
        access_token = access_token;
        refresh_token = none;
        set_cookie = some (refresh_cookie refresh_token (refresh_ms / 1000));
      }
      else record {
        access_token = access_token;
        refresh_token = some refresh_token;
        set_cookie = none;
      }

  -- The presented token: the cookie's in cookie mode, and the body's if there is no cookie.
  abbrev pub presented : Option Text → Option Text → Option Text
  presented none body = body
  presented (some c) body = if is_cookie env.auth_transport then some c else body

module _ (sv : Services) (env : Env) where
  unfoldable pub issue_tokens : User → ℕ → Call (World sv) Tokens
  issue_tokens user family_id = do
    now ← read_clock sv
    let access_token = sign_access_token sv env (record { sub = user.id; role = user.role }) now
    n ← draw sv
    store_refresh_token sv user.id (sv.random_token n) (now + refresh_ms env) family_id
    pure (deliver env access_token (sv.random_token n))

  abbrev pub reply_with : User → ℕ → Call (World sv) TokenReply
  reply_with user family_id = do
    tokens ← issue_tokens user family_id
    pure (record { tokens = tokens; user = to_public_user user })

  -- `POST /auth/refresh`, with its `beforeHandle`
  unfoldable pub refresh : Request → Option Text → Option Text → Call (World sv) TokenReply
  unfolding issue_tokens
  refresh request cookie body = do
    require_trusted_origin env request
    let token = presented env cookie body
    require (is_present token) (unauthorized "Missing refresh token")
    used ← use_refresh_token sv (text_value token)
    found ← find_by_id sv used.user_id
    user ← or_throw found (unauthorized "Unauthorized")
    reply_with user used.family_id

  -- The cookie that logging out sets: an empty one, if the request had one in cookie mode.
  abbrev pub cleared : Option Text → Option SetCookie
  cleared cookie =
      if is_cookie env.auth_transport && is_present cookie
      then some (refresh_cookie env [] 0)
      else none

  -- `POST /auth/logout`, behind its guard, with its `beforeHandle`
  unfoldable pub logout : Request → Option Text → Option Text → Call (World sv) (Option SetCookie)
  logout request cookie body = do
    require_trusted_origin env request
    let token = presented env cookie body
    require (is_present token) (bad_request "refreshToken required")
    revoke_refresh_token sv (text_value token)
    pure (cleared cookie)
