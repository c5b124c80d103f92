-- ===== src/Examples/Http.antt =====
-- The two readers of CORS_ORIGIN, and the names of log files, at concrete settings.
use elysiajs_production_api.Base.{ℕ, arith, ◌≡◌, refl, true, false, none, some, codes}
use elysiajs_production_api.Config.{Env, default_env}
use elysiajs_production_api.Time.{trim, trim_start}
use elysiajs_production_api.Requests.{Request, split_commas, is_trusted_origin}
use elysiajs_production_api.Logger.{Date}
use elysiajs_production_api.Logger.Names.{rotated_name-injective}
use elysiajs_production_api.Http.{cors_origin}
use elysiajs_production_api.Http.Readers.{names, is_trusted_origin-cors_origin, cors_origin-Unnamed}

-- Two origins with a space after the comma, and without.
abbrev spaced : Env
spaced = record (default_env (codes "db") (codes "k")) {
  cors_origin = codes "https://a, https://b";
}

abbrev unspaced : Env
unspaced = record (default_env (codes "db") (codes "k")) {
  cors_origin = codes "https://a,https://b";
}

abbrev from_b : Request
from_b = record { origin = some (codes "https://b"); forwarded_for = none; socket_address = none }

is_trusted_origin-cors_origin_example :
    is_trusted_origin unspaced from_b ≡ names (cors_origin unspaced) (codes "https://b")
unfolding trim trim_start split_commas
is_trusted_origin-cors_origin_example =
    is_trusted_origin-cors_origin unspaced from_b (codes "https://b") refl refl (refl, (refl, tt))

cors_origin-Unnamed_example :
    (is_trusted_origin spaced from_b ≡ true)
    × (names (cors_origin spaced) (codes "https://b") ≡ false)
unfolding trim trim_start
cors_origin-Unnamed_example =
    cors_origin-Unnamed spaced from_b (codes "https://a") (codes "https://b") refl
      (refl, (refl, (refl, (refl, (refl, (refl, (refl, (refl, (refl, tt)))))))))
      (refl, (refl, (refl, (refl, (refl, (refl, (refl, (refl, (refl, tt))))))))) refl refl refl

-- The second file of New Year's Eve.
abbrev new_years_eve : Date
new_years_eve = record { full_year = 2026; month = 11; day = 31 }

rotated_name-injective_example : (new_years_eve ≡ new_years_eve) × (◌≡◌ {A = ℕ} 2 2)
rotated_name-injective_example =
    rotated_name-injective spaced new_years_eve new_years_eve 2 2
      (record { month = omega arith; day = omega arith })
      (record { month = omega arith; day = omega arith }) refl
