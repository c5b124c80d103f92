-- ===== src/Auth/PasswordReset/Steps.antt =====
-- The steps of `reset` in password-reset.service.ts up to the comparison of the code, one by one.
use elysiajs_production_api.Base.{ℕ, ◌≡◌, refl, some, Option, Text, ◌∙◌}
use elysiajs_production_api.Errors.{ok, ◌>>=◌, >>=-of_ok}
use elysiajs_production_api.Calls.{or_throw}
use elysiajs_production_api.Schema.{User}
use elysiajs_production_api.Services.{Services, World, key, reset_code, reset_attempts}
use elysiajs_production_api.Services.Actions.{cache_get, cache_incr}
use elysiajs_production_api.Auth.Accounts.{find_by_email}
use elysiajs_production_api.Auth.PasswordReset.{invalid, match_code, check_reset}

module _ (sv : Services) (email : Text) (user : User) (w f : World sv)
    (found : find_by_email sv email w ≡ (ok (some user), f)) where
  pub check_reset-addressed :
      (code : Text)
      → check_reset sv email code w
        ≡ (cache_get sv (key reset_code user.id) >>= (λ stored.
              or_throw stored invalid >>= (λ digest.
                cache_incr sv (key reset_attempts user.id)
                >>= (λ attempts. match_code sv user code digest attempts))))
            f
  unfolding check_reset
  check_reset-addressed code =
      >>=-of_ok (find_by_email sv email) _ found ∙ >>=-of_ok (or_throw (some user) invalid) _ refl

  pub check_reset-stored :
      (code : Text) (stored : Option ℕ) (v : World sv)
      → cache_get sv (key reset_code user.id) f ≡ (ok stored, v)
      → check_reset sv email code w
        ≡ (or_throw stored invalid >>= (λ digest.
              cache_incr sv (key reset_attempts user.id)
              >>= (λ attempts. match_code sv user code digest attempts)))
            v
  check_reset-stored code stored v get =
      check_reset-addressed code ∙ >>=-of_ok (cache_get sv (key reset_code user.id)) _ get

  pub check_reset-counting :
      (code : Text) (digest : ℕ) (v : World sv)
      → cache_get sv (key reset_code user.id) f ≡ (ok (some digest), v)
      → check_reset sv email code w
        ≡ (cache_incr sv (key reset_attempts user.id)
              >>= (λ attempts. match_code sv user code digest attempts))
            v
  check_reset-counting code digest v get =
      check_reset-stored code (some digest) v get
      ∙ >>=-of_ok (or_throw (some digest) invalid) _ refl

  pub check_reset-counted :
      (code : Text) (digest attempts : ℕ) (v u : World sv)
      → cache_get sv (key reset_code user.id) f ≡ (ok (some digest), v)
      → cache_incr sv (key reset_attempts user.id) v ≡ (ok attempts, u)
      → check_reset sv email code w ≡ match_code sv user code digest attempts u
  check_reset-counted code digest attempts v u get incr =
      check_reset-counting code digest v get
      ∙ >>=-of_ok (cache_incr sv (key reset_attempts user.id)) _ incr
