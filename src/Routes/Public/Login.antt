-- ===== src/Routes/Public/Login.antt =====
-- What a login checks, and what each of its two answers hands out.
use mathlib.Core.Path.{subst}
use elysiajs_production_api.Base.{
  ℕ, suc, ◌≡◌, sym, ap, ◌∙◌, Bool, true, false, Option, none, some, Text, is_some, inl, inr,
  Bool-cases, if◌then◌else◌,
}
use elysiajs_production_api.Errors.{pure, ok, unauthorized, ◌>>=◌, >>=-eq-ok, ok_inj, ok_value}
use elysiajs_production_api.Calls.{require, require-ok, throw-ne-ok}
use elysiajs_production_api.Config.{Env}
use elysiajs_production_api.Schema.{User}
use elysiajs_production_api.Services.{
  Services, World, View, view, Finds, key, mfa_challenge, mfa_attempts, put, entry_of,
}
use elysiajs_production_api.Services.Actions.{find_user, cache_set, draw-bind}
use elysiajs_production_api.Services.Actions.Laws.{find_user-ok, cache_set-ok}
use elysiajs_production_api.Auth.Accounts.{
  has_email, dummy_verified, known_user, verify_credentials,
}
use elysiajs_production_api.Auth.Totp.{challenge_ttl_seconds, create_login_challenge}
use elysiajs_production_api.Users.{to_public_user}
use elysiajs_production_api.Routes.Session.{TokenReply, issue_tokens}
use elysiajs_production_api.Routes.Session.Refresh.{Issues, issue_tokens-Issues}
use elysiajs_production_api.Routes.Public.{LoginReply, signed_in, mfa_required, sign_in, login}

module _ (sv : Services) (env : Env) where
  -- The state after a challenge is stored under a digest.
  abbrev pub challenged : ℕ → ℕ → View → View
  challenged user_id hash v = record v {
    cache =
        put
          (put v.cache (key mfa_challenge hash)
            (some (entry_of user_id (some challenge_ttl_seconds) v.now)))
          (key mfa_attempts hash) (some (entry_of 0 (some challenge_ttl_seconds) v.now));
    draws = suc v.draws;
  }

  -- The user whose credentials were given.
  pub record IsAuthentic (email password : Text) (v : View) (user : User) : Type 0 where
    pub found : Finds (has_email email) v.users (some user)
    pub matches : sv.verify_password password user.password_hash ≡ true

  -- Without a second factor: tokens of a new family. With one: a challenge, and no token.
  abbrev pub Answers : User → View → LoginReply → View → Type 0
  Answers user v (signed_in reply) v' =
      (is_some user.totp_enabled_at ≡ false)
      × Issues sv env user (sv.random_uuid v.draws) (record v { draws = suc v.draws }) reply.tokens
          v'
      × (reply.user ≡ to_public_user user)
  Answers user v (mfa_required token) v' =
      (is_some user.totp_enabled_at ≡ true)
      × (token ≡ sv.random_token v.draws)
      × (v' ≡ challenged user.id (sv.sha256 token) v)

  -- Only a user that was found is let through.
  known_user-ok :
      (password : Text) (o : Option User) (w w' : World sv) (u : User)
      → known_user sv password o w ≡ (ok u, w')
      → (o ≡ some u) × (w ≡ w')
  unfolding known_user
  known_user-ok password none w w' u h =
      let (a, v, e, k) = >>=-eq-ok (dummy_verified sv (sv.verify_dummy password)) _ w h in
      absurd (throw-ne-ok (unauthorized "Invalid credentials") k)
  known_user-ok password (some x) w w' u h = let (same, still) = ok_inj h in (ap some same, still)

  verify_credentials-IsAuthentic :
      (email password : Text) (user : User) (w w' : World sv)
      → verify_credentials sv email password w ≡ (ok user, w')
      → IsAuthentic email password (view sv w) user × (view sv w' ≡ view sv w)
  unfolding verify_credentials
  verify_credentials-IsAuthentic email password user w w' h =
      let (o, v1, e1, k1) = >>=-eq-ok (find_user sv (has_email email)) _ w h in
      let (found, s1) = find_user-ok sv _ w v1 o e1 in
      let (u, v2, e2, k2) = >>=-eq-ok (known_user sv password o) _ v1 k1 in
      let (is, at2) = known_user-ok password o v1 v2 u e2 in
      let (a, v3, e3, k3) =
        >>=-eq-ok
          (require (sv.verify_password password u.password_hash)
            (unauthorized "Invalid credentials"))
          _ v2 k2 in
      let (right, at3) =
        require-ok (sv.verify_password password u.password_hash)
          (unauthorized "Invalid credentials") e3 in
      (
        subst (IsAuthentic email password (view sv w)) (ok_value k3) (record {
          found = subst (Finds (has_email email) (view sv w).users) is found;
          matches = right;
        }),
        subst (λ x. view sv x ≡ view sv w) (at2 ∙ at3 ∙ (ok_inj k3).1) s1,
      )

  sign_in-Issues :
      (user : User) (reply : TokenReply) (w w' : World sv)
      → sign_in sv env user w ≡ (ok reply, w')
      → Issues sv env user
          (sv.random_uuid w.draws)
          (record (view sv w) { draws = suc w.draws })
          reply.tokens
          (view sv w')
        × (reply.user ≡ to_public_user user)
  unfolding sign_in
  sign_in-Issues user reply w w' h =
      let k = sym (draw-bind sv _ w) ∙ h in
      let (t, v, e, k') =
        >>=-eq-ok (issue_tokens sv env user (sv.random_uuid w.draws)) _
          (record w { draws = suc w.draws }) k in
      let issues =
        issue_tokens-Issues sv env user (sv.random_uuid w.draws) t
          (record w { draws = suc w.draws }) v e in
      let answer : record { tokens = t; user = to_public_user user } ≡ reply = ok_value k' in
      (
        subst
            (λ (x : TokenReply).
              Issues sv env user (sv.random_uuid w.draws)
                (record (view sv w) { draws = suc w.draws }) x.tokens (view sv w'))
            answer
            (subst
              (λ x.
                Issues sv env user (sv.random_uuid w.draws)
                  (record (view sv w) { draws = suc w.draws }) t (view sv x))
              (ok_inj k').1 issues),
        ap (λ (x : TokenReply). x.user) (sym answer),
      )

  create_login_challenge-challenged :
      (user_id : ℕ) (token : Text) (w w' : World sv)
      → create_login_challenge sv user_id w ≡ (ok token, w')
      → (token ≡ sv.random_token w.draws)
        × (view sv w' ≡ challenged user_id (sv.sha256 token) (view sv w))
  unfolding create_login_challenge
  create_login_challenge-challenged user_id token w w' h =
      let hash = sv.sha256 (sv.random_token w.draws) in
      let k = sym (draw-bind sv _ w) ∙ h in
      let (a, v1, e1, k1) =
        >>=-eq-ok (cache_set sv (key mfa_challenge hash) user_id (some challenge_ttl_seconds)) _
          (record w { draws = suc w.draws }) k in
      let (b, v2, e2, k2) =
        >>=-eq-ok (cache_set sv (key mfa_attempts hash) 0 (some challenge_ttl_seconds)) _ v1 k1 in
      let s : view sv v2 ≡ challenged user_id hash (view sv w) =
        cache_set-ok sv _ _ _ v1 v2 b e2
        ∙ ap
            (λ (x : View). record x {
              cache =
                  put x.cache (key mfa_attempts hash)
                    (some (entry_of 0 (some challenge_ttl_seconds) x.now));
            })
            (cache_set-ok sv _ _ _ (record w { draws = suc w.draws }) v1 a e1) in
      (
        sym (ok_value k2),
        subst (λ x. view sv w' ≡ challenged user_id (sv.sha256 x) (view sv w)) (ok_value k2)
            (subst (λ x. view sv x ≡ challenged user_id hash (view sv w)) (ok_inj k2).1 s),
      )

  -- A login that succeeds gave the address of an active user and a password that matches. If that user
  -- has no second factor, the answer carries tokens of a new family, and their row is all that is
  -- stored. If the user has one, the answer is a challenge: it is stored under the digest of the
  -- answer for five minutes with no attempt made, and no token is issued.
  pub login-Answers :
      (email password : Text) (reply : LoginReply) (w w' : World sv)
      → login sv env email password w ≡ (ok reply, w')
      → (user : User) × IsAuthentic email password (view sv w) user
        × Answers user (view sv w) reply (view sv w')
  unfolding login
  login-Answers email password reply w w' h =
      let (user, v, e, k) = >>=-eq-ok (verify_credentials sv email password) _ w h in
      let (authentic, same) = verify_credentials-IsAuthentic email password user w v e in
      (user, authentic, subst (λ x. Answers user x reply (view sv w')) same (answered user v k))
    where
      Chosen : User → World sv → Bool → Type 0
      Chosen user v b =
          (if b
              then (create_login_challenge sv user.id >>= (λ t. pure (mfa_required t)))
              else (sign_in sv env user >>= (λ r. pure (signed_in r))))
            v
          ≡ (ok reply, w')

      answered :
          (user : User) (v : World sv)
          → Chosen user v (is_some user.totp_enabled_at)
          → Answers user (view sv v) reply (view sv w')
      answered user v k = elim (Bool-cases (is_some user.totp_enabled_at)) [
        | inl on ↦
            let (t, v2, e, k') =
              >>=-eq-ok (create_login_challenge sv user.id) _ v (subst (Chosen user v) on k) in
            let (token, s) = create_login_challenge-challenged user.id t v v2 e in
            subst (λ x. Answers user (view sv v) x (view sv w')) (ok_value k')
              (
                on,
                token,
                subst (λ x. view sv x ≡ challenged user.id (sv.sha256 t) (view sv v)) (ok_inj k').1
                    s,
              )
        | inr off ↦
            let (r, v2, e, k') =
              >>=-eq-ok (sign_in sv env user) _ v (subst (Chosen user v) off k) in
            let (issues, shown) = sign_in-Issues user r v v2 e in
            subst (λ x. Answers user (view sv v) x (view sv w')) (ok_value k')
              (
                off,
                subst
                    (λ x.
                      Issues sv env user (sv.random_uuid v.draws)
                        (record (view sv v) { draws = suc v.draws }) r.tokens (view sv x))
                    (ok_inj k').1 issues,
                shown,
              )
      ]
