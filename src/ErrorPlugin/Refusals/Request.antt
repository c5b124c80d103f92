-- ===== src/ErrorPlugin/Refusals/Request.antt =====
-- How POST /auth/password/request of src/modules/auth/index.ts ends, and what a client then learns.
use mathlib.Core.Path.{subst}
use elysiajs_production_api.Base.{◌≡◌, Bool, true, false, Option, none, some, Text, if◌then◌else◌}
use elysiajs_production_api.Errors.{Thrown, Result, ok, err, Call, pure, ◌>>=◌, >>=-cases}
use elysiajs_production_api.Config.{Env, production}
use elysiajs_production_api.Schema.{User}
use elysiajs_production_api.Services.{Services, World, key, reset_cooldown}
use elysiajs_production_api.Services.Actions.{cache_exists}
use elysiajs_production_api.Services.Actions.Laws.{find_user-err, cache_exists-err}
use elysiajs_production_api.Auth.Accounts.{has_email, find_by_email}
use elysiajs_production_api.Auth.PasswordReset.{request, send_code}
use elysiajs_production_api.Routes.Public.{request_password_reset}
use elysiajs_production_api.ErrorPlugin.Refusals.{
  internal_error, told, IsDriver-internal, IsRefusal-IsDriver, send_code-Raises,
}

module _ (D : Type 0) (env : Env) (describe : Option Text → Option Text → Option Text)
    (sv : Services) (email : Text) (w w' : World sv) where
  -- How a request for a reset code ends: with the reply `true` for an address without an active
  -- account, for one within its cooldown, and for one that a code is sent to; and with the answer 500
  -- when the look-up, the look at the cooldown or the sending throws.
  pub data Outcome : Result Bool → Type 0 where
    no_account : find_by_email sv email w ≡ (ok none, w') → Outcome (ok true)
    is_cooling :
        {f : World sv} (user : User)
        → find_by_email sv email w ≡ (ok (some user), f)
        → cache_exists sv (key reset_cooldown user.id) f ≡ (ok true, w')
        → Outcome (ok true)
    sent :
        {f v : World sv} (user : User)
        → find_by_email sv email w ≡ (ok (some user), f)
        → cache_exists sv (key reset_cooldown user.id) f ≡ (ok false, v)
        → send_code sv user email v ≡ (ok tt, w')
        → Outcome (ok true)
    lookup_fails :
        (e : Thrown)
        → find_by_email sv email w ≡ (err e, w')
        → told D env describe e ≡ internal_error
        → Outcome (err e)
    cooldown_fails :
        {f : World sv} (user : User) (e : Thrown)
        → find_by_email sv email w ≡ (ok (some user), f)
        → cache_exists sv (key reset_cooldown user.id) f ≡ (err e, w')
        → told D env describe e ≡ internal_error
        → Outcome (err e)
    sending_fails :
        {f v : World sv} (user : User) (e : Thrown)
        → find_by_email sv email w ≡ (ok (some user), f)
        → cache_exists sv (key reset_cooldown user.id) f ≡ (ok false, v)
        → send_code sv user email v ≡ (err e, w')
        → told D env describe e ≡ internal_error
        → Outcome (err e)

-- The reply to a request that returns.
abbrev replied : Result (Unit {0}) → Result Bool
replied (ok u) = ok true
replied (err e) = err e

module _ (D : Type 0) (env : Env) (describe : Option Text → Option Text → Option Text)
    (live : env.node_env ≡ production) (sv : Services) (email : Text) (w w' : World sv) where
  abbrev Ends : Result Bool → Type 0
  Ends = Outcome D env describe sv email w w'

  -- A step that ends the request ends it in the state and with the result that it has itself.
  ended :
      {A B : Type 0} (m : Call (World sv) A) (v u : World sv) (a : Result A) (x y : Result B)
      → m v ≡ (a, u)
      → ◌≡◌ {A = Result B × World sv} (x, u) (y, w')
      → (x ≡ y) × (m v ≡ (a, w'))
  ended m v u a x y h k = (λ i. (k i).0, subst (λ z. m v ≡ (a, z)) (λ i. (k i).1) h)

  sent-Ends :
      (user : User) (f v : World sv) (s : Result (Unit {0}))
      → find_by_email sv email w ≡ (ok (some user), f)
      → cache_exists sv (key reset_cooldown user.id) f ≡ (ok false, v)
      → send_code sv user email v ≡ (s, w')
      → Ends (replied s)
  sent-Ends user f v (ok u) found cool h = sent user found cool h
  sent-Ends user f v (err e) found cool h = sending_fails user e found cool h (
      IsDriver-internal env describe e live
        (IsRefusal-IsDriver e (send_code-Raises sv (λ x. ⊥) user email v w' e h)))

  cooled-Ends :
      (user : User) (f v : World sv) (cooling : Bool) (s : Result (Unit {0}))
      → find_by_email sv email w ≡ (ok (some user), f)
      → cache_exists sv (key reset_cooldown user.id) f ≡ (ok cooling, v)
      → (if cooling then pure tt else send_code sv user email) v ≡ (s, w')
      → Ends (replied s)
  cooled-Ends user f v true s found cool h =
      let (same, cool') = ended (cache_exists sv (key reset_cooldown user.id)) f v _ _ s cool h in
      subst (λ z. Ends (replied z)) same (is_cooling user found cool')
  cooled-Ends user f v false s found cool h = sent-Ends user f v s found cool h

  found-Ends :
      (user : User) (f : World sv) (s : Result (Unit {0}))
      → find_by_email sv email w ≡ (ok (some user), f)
      → (cache_exists sv (key reset_cooldown user.id)
            >>= (λ cooling. if cooling then pure tt else send_code sv user email))
          f
        ≡ (s, w')
      → Ends (replied s)
  found-Ends user f s found =
      >>=-cases (cache_exists sv (key reset_cooldown user.id)) _ f
        (λ x. x ≡ (s, w') → Ends (replied s))
        (λ cooling v h k. cooled-Ends user f v cooling s found h k)
        (λ e v h k.
          let (same, h') = ended (cache_exists sv (key reset_cooldown user.id)) f v _ _ s h k in
          let d = (cache_exists-err sv (key reset_cooldown user.id) f v e h).0 in
          subst (λ z. Ends (replied z)) same
            (cooldown_fails user e found h' (IsDriver-internal env describe e live d)))

  -- What a request does for the user that is found, if one is.
  abbrev unless_cooling : Option User → Call (World sv) (Unit {0})
  unless_cooling found = elim found [
    | none ↦ pure tt
    | some user ↦ do
      cools ← cache_exists sv (key reset_cooldown user.id)
      if cools then pure tt else send_code sv user email
  ]

  request-Ends : (s : Result (Unit {0})) → request sv email w ≡ (s, w') → Ends (replied s)
  unfolding request find_by_email
  request-Ends s =
      >>=-cases (find_by_email sv email) _ w (λ x. x ≡ (s, w') → Ends (replied s)) answered
        (λ e v h k.
          let (same, h') = ended (find_by_email sv email) w v _ _ s h k in
          let d = (find_user-err sv (has_email email) w v e h).0 in
          subst (λ z. Ends (replied z)) same
            (lookup_fails e h' (IsDriver-internal env describe e live d)))
    where
      answered :
          (found : Option User) (f : World sv)
          → find_by_email sv email w ≡ (ok found, f)
          → unless_cooling found f ≡ (s, w')
          → Ends (replied s)
      answered none f h k =
          let (same, h') = ended (find_by_email sv email) w f _ _ s h k in
          subst (λ z. Ends (replied z)) same (no_account h')
      answered (some user) f h k = found-Ends user f s h k

  -- In production, asking for a reset code ends in one of six ways. The reply is `true` if no active
  -- account has the address, if the account is within its cooldown, and if it is not and a code has been
  -- sent to it; in the first two cases nothing is stored or sent. The answer is the 500 with the one
  -- message for it if the look-up of the account throws, or if there is an account and the look at its
  -- cooldown throws, or there is no cooldown and storing or sending the code throws.
  pub request_password_reset-Outcome :
      (r : Result Bool)
      → request_password_reset sv env email w ≡ (r, w')
      → Outcome D env describe sv email w w' r
  unfolding request_password_reset
  request_password_reset-Outcome r =
      >>=-cases (request sv email) (λ _. pure true) w (λ x. x ≡ (r, w') → Ends r)
        (λ a v h k.
          let (same, h') = ended (request sv email) w v _ _ r h k in
          subst Ends same (request-Ends (ok a) h'))
        (λ e v h k.
          let (same, h') = ended (request sv email) w v _ _ r h k in
          subst Ends same (request-Ends (err e) h'))
