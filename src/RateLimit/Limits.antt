-- ===== src/RateLimit/Limits.antt =====
-- src/plugins/rate-limit.ts: the two limiters, and the key that a request is counted under. Counting
-- against `max`, and the answer, is elysia-rate-limit's.
pub mod Separate
use elysiajs_production_api.Base.{
  or_default, starts_with, ℕ, Bool, true, false, ◌&&◌, Option, none, some, [], ◌∷◌, ◌++◌, Text,
  codes, text_eq, is_empty, take, drop, ◌==◌, if◌then◌else◌,
}
use elysiajs_production_api.Config.{Env, is_test}
use elysiajs_production_api.Requests.{Request, client_ip}

pub record Opts : Type 0 where
  pub max : Option ℕ
  pub duration : Option ℕ
  pub keyspace : Option Text

-- What a request is counted as: its user, its token, or its address.
pub data Caller : Type 0 where
  by_user by_token by_ip : Text → Caller

unfoldable pub caller_key : Caller → Text
caller_key (by_user sub) = codes "user:" ++ sub
caller_key (by_token part) = codes "token:" ++ part
caller_key (by_ip address) = codes "ip:" ++ address

-- The prefix of the store.
unfoldable pub store_prefix : Option Text → Text
store_prefix none = codes "rl"
store_prefix (some keyspace) = if is_empty keyspace then codes "rl" else codes "rl:" ++ keyspace

-- A request, with the user that the guards have resolved and the Authorization header.
pub record Counted : Type 0 where
  pub request : Request
  pub sub : Option Text
  pub authorization : Option Text

pub record Limiter : Type 0 where
  pub max : ℕ
  pub duration : ℕ
  pub skip : Bool
  pub prefix : Text
  pub generator : Counted → Text

module _ (env : Env) where
  abbrev pub token_or_ip : Request → Option Text → Caller
  token_or_ip r none = by_ip (client_ip env r)
  token_or_ip r (some auth) =
      if starts_with (codes "Bearer ") auth
      then by_token (take 32 (drop 7 auth))
      else by_ip (client_ip env r)

  abbrev pub user_or : Option Text → Caller → Caller
  user_or none other = other
  user_or (some sub) other = if is_empty sub then other else by_user sub

  unfoldable pub user_caller : Counted → Caller
  unfolding client_ip
  user_caller c = user_or c.sub (token_or_ip c.request c.authorization)

  unfoldable pub ip_rate_limit : Opts → Limiter
  unfolding client_ip caller_key store_prefix
  ip_rate_limit opts = record {
    max = or_default opts.max 20;
    duration = or_default opts.duration 60000;
    skip = is_test env.node_env;
    prefix = store_prefix opts.keyspace;
    generator = λ c. caller_key (by_ip (client_ip env c.request));
  }

  unfoldable pub user_rate_limit : Opts → Limiter
  unfolding user_caller caller_key store_prefix
  user_rate_limit opts = record {
    max = or_default opts.max 60;
    duration = or_default opts.duration 60000;
    skip = is_test env.node_env;
    prefix = store_prefix opts.keyspace;
    generator = λ c. caller_key (user_caller c);
  }
