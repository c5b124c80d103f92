-- ===== src/Http.antt =====
-- src/plugins/cors.ts and src/plugins/security-headers.ts: the headers that every answer carries.
-- Which origins a list allows is decided by @elysiajs/cors, and the headers are written by Elysia.
pub mod Readers
use elysiajs_production_api.Base.{
  ℕ, Bool, true, false, List, [], ◌∷◌, ◌++◌, Text, codes, text_eq, String, if◌then◌else◌,
}
use elysiajs_production_api.Config.{Env, is_production}
use elysiajs_production_api.Requests.{split_commas}

-- The option `origin` of the plugin: `true`, or a list.
pub data Origins : Type 0 where
  any : Origins
  listed : List Text → Origins

pub record CorsOptions : Type 0 where
  pub origin : Origins
  pub methods : List String
  pub allowed_headers : List String
  pub credentials : Bool
  pub max_age : ℕ

unfoldable pub cors_origin : Env → Origins
unfolding split_commas
cors_origin env =
    if text_eq env.cors_origin (codes "*") then any else listed (split_commas env.cors_origin)

unfoldable pub cors_options : Env → CorsOptions
unfolding cors_origin
cors_options env = record {
  origin = cors_origin env;
  methods = "GET" ∷ "POST" ∷ "PUT" ∷ "PATCH" ∷ "DELETE" ∷ "OPTIONS" ∷ [];
  allowed_headers = "Content-Type" ∷ "Authorization" ∷ [];
  credentials = true;
  max_age = 3600;
}

-- The headers that `onRequest` sets, in order.
unfoldable pub security_headers : Env → List (String × String)
security_headers env =
    ("x-content-type-options", "nosniff")
    ∷ ("x-frame-options", "DENY")
    ∷ ("referrer-policy", "no-referrer")
    ∷ ("x-dns-prefetch-control", "off")
    ∷ ("cross-origin-resource-policy", "same-origin")
    ∷ (if is_production env.node_env
        then ("strict-transport-security", "max-age=31536000; includeSubDomains") ∷ []
        else [])
