-- ===== src/ErrorPlugin/Refusals.antt =====
-- When a route without a guard fails, and with which answer: domain errors for the causes that are
-- foreseen, and one answer for whatever a driver throws.
pub mod Login
pub mod Reset
pub mod Request
use mathlib.Core.Path.{subst}
use elysiajs_production_api.Base.{
  sym, ◌∙◌, ◌↔◌, ℕ, ◌≡◌, refl, ◌⊎◌, inl, inr, true, Option, none, some, Text, codes, String,
  is_some, not, ltb, ◌==◌, if◌then◌else◌,
}
use elysiajs_production_api.Errors.{AppError, Thrown, app, driver, Result, err, Call, pure, ◌>>=◌}
use elysiajs_production_api.Config.{Env, production}
use elysiajs_production_api.Schema.{User}
use elysiajs_production_api.Services.{Services, World, IsDriver}
use elysiajs_production_api.Services.Actions.{cache_exists}
use elysiajs_production_api.Auth.Accounts.{verify_credentials, find_by_email, update_password}
use elysiajs_production_api.Auth.Tokens.{store_refresh_token, revoke_all_refresh_tokens}
use elysiajs_production_api.Auth.PasswordReset.{
  max_attempts, invalid, match_code, check_reset, apply_reset, reset, request, send_code,
}
use elysiajs_production_api.Auth.Totp.{create_login_challenge}
use elysiajs_production_api.Routes.Session.{issue_tokens}
use elysiajs_production_api.Routes.Public.{sign_in, login, reset_password, request_password_reset}
use elysiajs_production_api.ErrorPlugin.{domain, ErrorAnswer, answer_error, raised}
use elysiajs_production_api.ErrorPlugin.Raises.{
  IsRefusal, Raises, pure-Raises, throw-Raises, bind-Raises, require-Raises, or_throw-Raises,
  if-Raises,
}
use elysiajs_production_api.ErrorPlugin.Raises.Statements.{
  find_user-Raises, update_users-Raises, insert_token-Raises, delete_tokens-Raises,
  cache_get-Raises, cache_set-Raises, cache_del-Raises, cache_incr-Raises, cache_exists-Raises,
  add_email-Raises, draw-Raises, read_clock-Raises, record_audit-Raises,
}

module _ (sv : Services) (P : AppError → Type 0) where
  store_refresh_token-Raises :
      (user_id : ℕ) (token : Text) (expires_at family : ℕ)
      → Raises P (store_refresh_token sv user_id token expires_at family)
  unfolding store_refresh_token
  store_refresh_token-Raises user_id token expires_at family =
      bind-Raises P _ _ (insert_token-Raises sv P _) (λ r. pure-Raises P tt)

  issue_tokens-Raises :
      (env : Env) (user : User) (family : ℕ) → Raises P (issue_tokens sv env user family)
  unfolding issue_tokens
  issue_tokens-Raises env user family = bind-Raises P _ _ (read_clock-Raises sv P) (λ now.
      bind-Raises P _ _ (draw-Raises sv P) (λ n.
        bind-Raises P _ _ (store_refresh_token-Raises user.id _ _ family) (λ u. pure-Raises P _)))

  pub sign_in-Raises : (env : Env) (user : User) → Raises P (sign_in sv env user)
  unfolding sign_in
  sign_in-Raises env user =
      bind-Raises P _ _ (draw-Raises sv P)
        (λ n. bind-Raises P _ _ (issue_tokens-Raises env user _) (λ t. pure-Raises P _))

  pub create_login_challenge-Raises : (user_id : ℕ) → Raises P (create_login_challenge sv user_id)
  unfolding create_login_challenge
  create_login_challenge-Raises user_id = bind-Raises P _ _ (draw-Raises sv P) (λ n.
      bind-Raises P _ _ (cache_set-Raises sv P _ _ _)
        (λ a. bind-Raises P _ _ (cache_set-Raises sv P _ _ _) (λ b. pure-Raises P _)))

  update_password-Raises :
      (user_id : ℕ) (password : Text) → Raises P (update_password sv user_id password)
  unfolding update_password
  update_password-Raises user_id password = bind-Raises P _ _ (draw-Raises sv P) (λ salt.
      bind-Raises P _ _ (read_clock-Raises sv P)
        (λ now. bind-Raises P _ _ (update_users-Raises sv P _ _) (λ l. pure-Raises P tt)))

  revoke_all_refresh_tokens-Raises : (user_id : ℕ) → Raises P (revoke_all_refresh_tokens sv user_id)
  unfolding revoke_all_refresh_tokens
  revoke_all_refresh_tokens-Raises user_id =
      bind-Raises P _ _ (delete_tokens-Raises sv P _) (λ l. pure-Raises P tt)

  pub apply_reset-Raises : (user : User) (password : Text) → Raises P (apply_reset sv user password)
  unfolding apply_reset
  apply_reset-Raises user password =
      bind-Raises P _ _ (update_password-Raises user.id password) (λ a.
        bind-Raises P _ _ (revoke_all_refresh_tokens-Raises user.id)
          (λ b. record_audit-Raises sv P _))

  pub send_code-Raises : (user : User) (email : Text) → Raises P (send_code sv user email)
  unfolding send_code
  send_code-Raises user email = bind-Raises P _ _ (draw-Raises sv P) (λ n.
      bind-Raises P _ _ (cache_set-Raises sv P _ _ _) (λ a.
        bind-Raises P _ _ (cache_set-Raises sv P _ _ _)
          (λ b. bind-Raises P _ _ (cache_set-Raises sv P _ _ _) (λ c. add_email-Raises sv P _))))

-- The answer that hides an unexpected error.
abbrev pub internal_error : {D : Type 0} → ErrorAnswer D
internal_error = record {
  status_code = 500;
  error = "INTERNAL";
  message = codes "Internal server error";
  details = none;
}

abbrev pub refused : {D : Type 0} → AppError → ErrorAnswer D
refused x = record {
  status_code = x.status_code;
  error = x.code;
  message = codes x.message;
  details = none;
}

-- What the client is answered for something that was thrown.
abbrev pub told :
    (D : Type 0) → Env → (Option Text → Option Text → Option Text) → Thrown → ErrorAnswer D
told D env describe e = answer_error env (raised describe e)

pub IsDriver-internal :
    {D : Type 0} (env : Env) (describe : Option Text → Option Text → Option Text) (e : Thrown)
    → env.node_env ≡ production
    → IsDriver e
    → told D env describe e ≡ internal_error
unfolding answer_error
IsDriver-internal env describe (app x) live d = absurd d
IsDriver-internal env describe (driver code cause) live d = rw live refl

-- If it is none of the domain errors, it is a driver's.
pub IsRefusal-IsDriver : (e : Thrown) → IsRefusal (λ x. ⊥) e → IsDriver e
IsRefusal-IsDriver (app x) h = absurd h
IsRefusal-IsDriver (driver code cause) h = tt

-- What was thrown, and the state in which it was.
pub thrown :
    {W A : Type 0} (Q : AppError → W → Type 0) {x y : AppError} {v w : W}
    → ◌≡◌ {A = Result A × W} (err (app x), v) (err (app y), w)
    → Q x v
    → Q y w
thrown {W} Q {x} {y} {v} {w} h q = subst (λ s. Q y s) (λ i. (h i).1) (subst (λ z. Q z v) same q)
  where
    same : x ≡ y
    same = cc

module _ {W A : Type 0} (m : Call W A) (w : W) where
  -- The call throws a driver's error.
  abbrev pub Breaks : W → Type 0
  Breaks w' = (e : Thrown) × (m w ≡ (err e, w')) × IsDriver e

  module _ (D : Type 0) (env : Env) (describe : Option Text → Option Text → Option Text) where
    -- The call fails, and the client gets the answer.
    abbrev pub Fails : ErrorAnswer D → W → Type 0
    Fails a w' = (e : Thrown) × (m w ≡ (err e, w')) × (told D env describe e ≡ a)

    -- If the causes of each domain error are known, so are those of each answer.
    pub Fails-causes :
        (Cause : AppError → W → Type 0) (a : ErrorAnswer D) (w' : W)
        → env.node_env ≡ production
        → ((x : AppError) → m w ≡ (err (app x), w') → Cause x w')
        → ((x : AppError) → Cause x w' → m w ≡ (err (app x), w'))
        → Fails a w'
          ↔ (((x : AppError) × Cause x w' × (a ≡ refused x)) ⊎ (Breaks w' × (a ≡ internal_error)))
    unfolding answer_error
    Fails-causes Cause a w' live forth back = (to, from)
      where
        to :
            Fails a w'
            → ((x : AppError) × Cause x w' × (a ≡ refused x)) ⊎ (Breaks w' × (a ≡ internal_error))
        to (app x, h, is) = inl (x, forth x h, sym is)
        to (driver code cause, h, is) = inr (
          (driver code cause, h, tt),
          sym is ∙ IsDriver-internal env describe (driver code cause) live tt,
        )

        from :
            ((x : AppError) × Cause x w' × (a ≡ refused x)) ⊎ (Breaks w' × (a ≡ internal_error))
            → Fails a w'
        from (inl (x, cause, is)) = (app x, back x cause, sym is)
        from (inr ((e, h, d), is)) = (e, h, IsDriver-internal env describe e live d ∙ sym is)
