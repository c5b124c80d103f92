-- ===== src/Examples/Sessions.antt =====
-- The theorems on sessions at concrete requests.
use elysiajs_production_api.Base.{◌≡◌, refl, true, none, some, [], ◌∷◌, codes, arith}
use elysiajs_production_api.Errors.{ok, ◌>>=◌, try_catch}
use elysiajs_production_api.Permissions.{user}
use elysiajs_production_api.Schema.{User, RefreshToken}
use elysiajs_production_api.Config.{default_env, Env, production}
use elysiajs_production_api.Services.{World, view}
use elysiajs_production_api.Services.Actions.{
  on, on_users, on_tokens, read_clock, draw, find_user, insert_token, update_tokens, find_token,
  delete_tokens, on_audits, insert_audit,
}
use elysiajs_production_api.Auth.Tokens.{mark_used, claim, use_refresh_token, answer_claim}
use elysiajs_production_api.Auth.Tokens.Rotation.{Uses, use_refresh_token-Uses}
use elysiajs_production_api.Auth.Tokens.{
  refuse, explain, burn_family, revoke_family, delete_expired_refresh_tokens,
}
use elysiajs_production_api.Auth.Tokens.Usable.{IsMarked, use_refresh_token-store_refresh_token}
use elysiajs_production_api.Auth.Tokens.Histories.SingleUse.{
  start as start_run, then, uses, sweeps, use_refresh_token-SingleUse,
}
use elysiajs_production_api.Audit.{record_audit}
use elysiajs_production_api.Auth.Tokens.{store_refresh_token}
use elysiajs_production_api.Auth.Accounts.{find_by_id}
use elysiajs_production_api.Jwt.{sign_access_token}
use elysiajs_production_api.Time.{duration_to_ms, trim, trim_start, number_prefix}
use elysiajs_production_api.Users.{to_public_user}
use elysiajs_production_api.Requests.{Request, require_trusted_origin}
use elysiajs_production_api.Routes.Session.{TokenReply, refresh_ms, issue_tokens, refresh}
use elysiajs_production_api.Routes.Session.Refresh.{Refreshes, refresh-Refreshes}
use elysiajs_production_api.Services.Actions.{on_cache, cache_set}
use elysiajs_production_api.Auth.Accounts.{verify_credentials}
use elysiajs_production_api.Auth.Totp.{create_login_challenge}
use elysiajs_production_api.Routes.Public.{mfa_required, login}
use elysiajs_production_api.Routes.Public.Login.{IsAuthentic, Answers, login-Answers}
use elysiajs_production_api.Examples.Memory.{memory, memory_table, memory_redis, memory_queue}

abbrev pub ada : User
ada = record {
  id = 1;
  email = codes "a@x";
  password_hash = 5 ∷ codes "pw";
  name = none;
  role = user;
  email_verified_at = some 10;
  totp_secret = some (codes "s");
  totp_enabled_at = some 20;
  deleted_at = none;
  created_at = 1;
  updated_at = 1;
}

abbrev pub ada_session : RefreshToken
ada_session = record {
  id = 4;
  token = 1806;
  user_id = 1;
  family_id = 100;
  used_at = none;
  expires_at = 2000000;
  created_at = 1;
}

abbrev pub start : World memory
unfolding memory memory_table memory_redis memory_queue
start = record {
  users = ada ∷ [];
  tokens = ada_session ∷ [];
  audits = [];
  cache = λ k. none;
  emails = [];
  now = 1000000;
  draws = 3;
}

use_refresh_token-Uses_example :
    Uses memory
      (memory.sha256 (7 ∷ []))
      (view memory start)
      (use_refresh_token memory (7 ∷ []) start)
use_refresh_token-Uses_example = use_refresh_token-Uses memory (7 ∷ []) start

-- The token is used, presented again, which burns its family, and expired tokens are swept.
abbrev used : World memory
unfolding memory memory_table memory_redis memory_queue on on_tokens on_audits find_token
    update_tokens delete_tokens insert_audit read_clock ◌>>=◌ try_catch claim use_refresh_token
    answer_claim refuse explain burn_family revoke_family record_audit delete_expired_refresh_tokens
used = (use_refresh_token memory (7 ∷ []) start).1

abbrev burnt : World memory
unfolding memory memory_table memory_redis memory_queue on on_tokens on_audits find_token
    update_tokens delete_tokens insert_audit read_clock ◌>>=◌ try_catch claim use_refresh_token
    answer_claim refuse explain burn_family revoke_family record_audit delete_expired_refresh_tokens
burnt = (use_refresh_token memory (7 ∷ []) used).1

abbrev swept : World memory
unfolding memory memory_table memory_redis memory_queue on on_tokens on_audits find_token
    update_tokens delete_tokens insert_audit read_clock ◌>>=◌ try_catch claim use_refresh_token
    answer_claim refuse explain burn_family revoke_family record_audit delete_expired_refresh_tokens
swept = (delete_expired_refresh_tokens memory burnt).1

use_refresh_token-SingleUse_example :
    ¬ (use_refresh_token memory (7 ∷ []) swept ≡ (ok ada_session, swept))
unfolding memory memory_table memory_redis memory_queue on on_tokens on_audits find_token
    update_tokens delete_tokens insert_audit read_clock ◌>>=◌ try_catch claim use_refresh_token
    answer_claim refuse explain burn_family revoke_family record_audit delete_expired_refresh_tokens
use_refresh_token-SingleUse_example =
    use_refresh_token-SingleUse memory (7 ∷ []) start used swept swept
      (mark_used 1000000 ada_session) ada_session refl
      (then (then start_run (uses (7 ∷ []) (use_refresh_token memory (7 ∷ []) used).0 refl))
        (sweeps (delete_expired_refresh_tokens memory burnt).0 refl))

-- A second session of ada's, and its claim.
abbrev with_second : World memory
unfolding memory memory_table memory_redis memory_queue on on_tokens insert_token update_tokens
    read_clock ◌>>=◌ claim store_refresh_token
with_second = (store_refresh_token memory 1 (9 ∷ []) 2000000 200 start).1

abbrev second_claimed : World memory
unfolding memory memory_table memory_redis memory_queue on on_tokens insert_token update_tokens
    read_clock ◌>>=◌ claim store_refresh_token
second_claimed = (claim memory 1808 with_second).1

abbrev second_row : RefreshToken
second_row = record {
  id = 6;
  token = 1808;
  user_id = 1;
  family_id = 200;
  used_at = none;
  expires_at = 2000000;
  created_at = 1000000;
}

use_refresh_token-store_refresh_token_example :
    (r : RefreshToken) × (use_refresh_token memory (9 ∷ []) with_second ≡ (ok r, second_claimed))
    × IsMarked memory 1808 1 200 2000000 1000000 r
unfolding memory memory_table memory_redis memory_queue on on_tokens insert_token update_tokens
    read_clock ◌>>=◌ claim store_refresh_token
use_refresh_token-store_refresh_token_example =
    use_refresh_token-store_refresh_token memory 1 (9 ∷ []) 2000000 200 start with_second
      second_claimed tt (mark_used 1000000 second_row ∷ []) (omega arith) refl refl

abbrev pub env : Env
env = record (default_env (codes "db") (codes "k")) {
  node_env = production;
  jwt_secret_previous = codes "old";
  require_verified_email = true;
}

abbrev pub request : Request
request = record { origin = none; forwarded_for = none; socket_address = none }

abbrev reply : TokenReply
reply = record {
  tokens = record {
    access_token = 1906 ∷ 1 ∷ codes "user";
    refresh_token = some (3 ∷ 1 ∷ []);
    set_cookie = none;
  };
  user = to_public_user ada;
}

abbrev refreshed : World memory
unfolding memory memory_table memory_redis memory_queue refresh on on_tokens on_users update_tokens
    insert_token find_user find_by_id read_clock draw ◌>>=◌ use_refresh_token claim answer_claim
    issue_tokens store_refresh_token sign_access_token require_trusted_origin refresh_ms
    duration_to_ms trim trim_start number_prefix
refreshed = (refresh memory env request none (some (7 ∷ [])) start).1

refresh-Refreshes_example :
    Refreshes memory env request none
      (some (7 ∷ []))
      (view memory start)
      reply
      (view memory refreshed)
unfolding memory memory_table memory_redis memory_queue refresh on on_tokens on_users update_tokens
    insert_token find_user find_by_id read_clock draw ◌>>=◌ use_refresh_token claim answer_claim
    issue_tokens store_refresh_token sign_access_token require_trusted_origin refresh_ms
    duration_to_ms trim trim_start number_prefix
refresh-Refreshes_example =
    refresh-Refreshes memory env request none (some (7 ∷ [])) reply start refreshed refl

-- The user has a second factor, so the answer is a challenge.
abbrev after_login : World memory
unfolding memory memory_table memory_redis memory_queue on on_users on_cache find_user cache_set
    draw ◌>>=◌ login verify_credentials create_login_challenge
after_login = (login memory env (codes "a@x") (codes "pw") start).1

login-Answers_example :
    (user : User) × IsAuthentic memory env (codes "a@x") (codes "pw") (view memory start) user
    × Answers memory env user
        (view memory start)
        (mfa_required (3 ∷ 1 ∷ []))
        (view memory after_login)
unfolding memory memory_table memory_redis memory_queue on on_users on_cache find_user cache_set
    draw ◌>>=◌ login verify_credentials create_login_challenge
login-Answers_example =
    login-Answers memory env (codes "a@x") (codes "pw") (mfa_required (3 ∷ 1 ∷ [])) start
      after_login refl
