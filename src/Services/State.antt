-- ===== src/Services/State.antt =====
-- All services together, the state that a request works on, and its abstract view.
use elysiajs_production_api.Base.{ℕ, Bool, Option, List, Text}
use elysiajs_production_api.Permissions.{Role}
use elysiajs_production_api.Schema.{
  User, user_row, user_clash, RefreshToken, refresh_token_row, refresh_token_clash, AuditLog,
  audit_log_row, audit_log_clash,
}
use elysiajs_production_api.Services.Tables.{Table}
use elysiajs_production_api.Services.Cache.{Redis, Queue, Entries, Mail}

-- The claims of an access token, `AccessPayload` of src/lib/jwt.ts.
pub record AccessPayload : Type 0 where
  pub sub : ℕ
  pub role : Role

-- What a verified token holds: `sub` if it is a string, `role` if it is one.
pub record Claims : Type 0 where
  pub sub : Option ℕ
  pub role : Option Text

-- The answer of `TOTP.validate` with `window: 1`: the step of the code relative to the present one.
pub data Drift : Type 0 where
  behind current ahead : Drift

pub record Services : Type 1 where
  pub user_table : Table (λ (u : User). u.id) user_row user_clash
  pub token_table : Table (λ (r : RefreshToken). r.id) refresh_token_row refresh_token_clash
  pub audit_table : Table (λ (a : AuditLog). a.id) audit_log_row audit_log_clash
  pub redis : Redis
  pub email_queue : Queue
  -- `sha256Hex`, a digest of 256 bits as a number
  pub sha256 : Text → ℕ
  -- `Bun.password.hash` with a salt, and `Bun.password.verify`
  pub hash_password : ℕ → Text → Text
  pub verify_password : Text → Text → Bool
  -- The verification of a password against the dummy hash, whose verdict is not used: the `code` of
  -- its error and of the `cause`, if it throws one.
  pub verify_dummy : Text → Option (Option Text × Option Text)
  -- random values, by the number of the draw
  pub random_token : ℕ → Text
  pub random_uuid : ℕ → ℕ
  pub random_uint32 : ℕ → ℕ
  pub random_secret : ℕ → Text
  -- `SignJWT` with a secret, the claims, the time and the lifetime; `jwtVerify`
  pub sign_jwt : Text → AccessPayload → ℕ → Text → Text
  pub verify_jwt : Text → Text → ℕ → Option Claims
  -- `OTPAuth.TOTP.validate` for a secret and a code at a time; `toString` for a secret and a label
  pub validate_totp : Text → Text → ℕ → Option Drift
  pub otpauth_url : Text → Text → Text

module _ (sv : Services) where
  -- The state of one request: the services, the time (a request is handled at one reading of the
  -- clock) and the number of random draws so far.
  pub record World : Type 0 where
    pub users : sv.user_table.State
    pub tokens : sv.token_table.State
    pub audits : sv.audit_table.State
    pub cache : sv.redis.State
    pub emails : sv.email_queue.State
    pub now : ℕ
    pub draws : ℕ

-- What the state means: the tables' contents, the entries of Redis, and the queued mails.
pub record View : Type 0 where
  pub users : List User
  pub tokens : List RefreshToken
  pub audits : List AuditLog
  pub cache : Entries
  pub emails : List Mail
  pub now : ℕ
  pub draws : ℕ

abbrev pub view : (sv : Services) → World sv → View
view sv w = record {
  users = sv.user_table.rows w.users;
  tokens = sv.token_table.rows w.tokens;
  audits = sv.audit_table.rows w.audits;
  cache = sv.redis.entries w.cache;
  emails = sv.email_queue.jobs w.emails;
  now = w.now;
  draws = w.draws;
}
