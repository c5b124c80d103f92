-- ===== src/Requests.antt =====
-- src/lib/ip.ts and src/lib/origin.ts: what the program reads from a request's headers.
pub mod Origins
use elysiajs_production_api.Base.{
  ℕ, Bool, true, false, ◌||◌, not, Option, none, some, List, [], ◌∷◌, map, Text, codes, text_eq,
  is_empty, mem_text, ◌==◌, if◌then◌else◌,
}
use elysiajs_production_api.Errors.{forbidden, Call, pure, throw}
use elysiajs_production_api.Config.{Env, is_cookie}
use elysiajs_production_api.Time.{trim}

pub record Request : Type 0 where
  pub origin : Option Text
  pub forwarded_for : Option Text
  -- `server?.requestIP?.(request)?.address`
  pub socket_address : Option Text

-- A part of a split text goes on until the separator.
abbrev pub extend_first : ℕ → List Text → List Text
extend_first c [] = (c ∷ []) ∷ []
extend_first c (p ∷ ps) = (c ∷ p) ∷ ps

-- `s.split(",")`: the parts between the commas, one more than there are commas.
unfoldable pub split_commas : Text → List Text
split_commas [] = [] ∷ []
split_commas (c ∷ s) = if c == b',' then [] ∷ split_commas s else extend_first c (split_commas s)

abbrev pub or_unknown : Text → Text
or_unknown [] = codes "unknown"
or_unknown (c ∷ s) = c ∷ s

-- `xff.split(",")[0]?.trim() || "unknown"`
abbrev pub first_hop : List Text → Text
first_hop [] = codes "unknown"
first_hop (p ∷ ps) = or_unknown (trim p)

abbrev pub address_or_unknown : Option Text → Text
address_or_unknown none = codes "unknown"
address_or_unknown (some a) = a

abbrev pub forwarded : Option Text → Option Text → Text
forwarded none address = address_or_unknown address
forwarded (some xff) address =
    if is_empty xff then address_or_unknown address else first_hop (split_commas xff)

unfoldable pub client_ip : Env → Request → Text
unfolding split_commas trim
client_ip env r =
    if env.trust_proxy
    then forwarded r.forwarded_for r.socket_address
    else address_or_unknown r.socket_address

-- Is an Origin header that is there, and not empty, in CORS_ORIGIN?
abbrev pub origin_allowed : Text → Option Text → Bool
origin_allowed allowed none = true
origin_allowed allowed (some origin) =
    is_empty origin || mem_text origin (map trim (split_commas allowed))

unfoldable pub is_trusted_origin : Env → Request → Bool
unfolding split_commas trim
is_trusted_origin env r =
    text_eq env.cors_origin (codes "*") || origin_allowed env.cors_origin r.origin

module _ {W : Type 0} where
  -- `assertTrustedOrigin`
  unfoldable pub assert_trusted_origin : Env → Request → Call W (Unit {0})
  unfolding is_trusted_origin
  assert_trusted_origin env r =
      if is_trusted_origin env r then pure tt else throw (forbidden "Origin not allowed")

  -- `requireTrustedOrigin` of src/modules/auth/index.ts: only in cookie mode.
  unfoldable pub require_trusted_origin : Env → Request → Call W (Unit {0})
  unfolding assert_trusted_origin
  require_trusted_origin env r =
      if is_cookie env.auth_transport then assert_trusted_origin env r else pure tt
