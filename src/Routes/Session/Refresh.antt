-- ===== src/Routes/Session/Refresh.antt =====
-- What refreshing a session hands out, and what it stores.
use mathlib.Core.Path.{subst}
use elysiajs_production_api.Base.{
  ℕ, suc, ◌+◌, ◌≡◌, sym, ap, ◌∙◌, true, false, Option, some, ◌∷◌, Text, All, Any, ◌==◌, inl, inr,
  Bool-cases, if◌then◌else◌, ◌⊎◌,
}
use elysiajs_production_api.Errors.{pure, ok, unauthorized, >>=-eq-ok, ok_inj, ok_value, discard-ok}
use elysiajs_production_api.Calls.{
  require, require-ok, or_throw, or_throw-ok, is_present, throw-ne-ok,
}
use elysiajs_production_api.Config.{Env, is_cookie}
use elysiajs_production_api.Schema.{User, RefreshToken, refresh_token_row}
use elysiajs_production_api.Services.{Services, World, View, view, Finds}
use elysiajs_production_api.Services.Actions.{insert_token, read_clock-bind, draw-bind}
use elysiajs_production_api.Services.Actions.Laws.{find_user-ok, insert_token-ok}
use elysiajs_production_api.Auth.Accounts.{has_id, find_by_id}
use elysiajs_production_api.Auth.Tokens.{
  is_claimable, mark_used, store_refresh_token, use_refresh_token,
}
use elysiajs_production_api.Auth.Tokens.Rotation.{Uses, use_refresh_token-Uses, claimed_view}
use elysiajs_production_api.Jwt.{sign_access_token}
use elysiajs_production_api.Users.{to_public_user}
use elysiajs_production_api.Requests.{
  Request, is_trusted_origin, require_trusted_origin, assert_trusted_origin,
}
use elysiajs_production_api.Routes.Session.{
  Tokens, TokenReply, refresh_ms, deliver, presented, text_value, issue_tokens, refresh,
}

module _ (sv : Services) (env : Env) where
  -- The row of a fresh refresh token of the user, in a family, and the state that has it.
  abbrev pub fresh_row : ℕ → ℕ → View → ℕ → RefreshToken
  fresh_row user_id family_id v id =
      refresh_token_row
        (record {
          token = sv.sha256 (sv.random_token v.draws);
          user_id = user_id;
          family_id = family_id;
          expires_at = v.now + refresh_ms env;
        })
        id v.now

  abbrev pub Issues : User → ℕ → View → Tokens → View → Type 0
  Issues user family_id v t v' =
      (t
        ≡ deliver env (sign_access_token sv env (record { sub = user.id; role = user.role }) v.now)
            (sv.random_token v.draws))
      × ((id : ℕ) × All (λ (r : RefreshToken). (r.id == id) ≡ false) v.tokens
          × (v' ≡ record v {
            tokens = fresh_row user.id family_id v id ∷ v.tokens;
            draws = suc v.draws;
          }))

  pub issue_tokens-Issues :
      (user : User) (family_id : ℕ) (t : Tokens) (w w' : World sv)
      → issue_tokens sv env user family_id w ≡ (ok t, w')
      → Issues user family_id (view sv w) t (view sv w')
  unfolding issue_tokens store_refresh_token
  issue_tokens-Issues user family_id t w w' h =
      let k = sym (draw-bind sv _ w) ∙ (sym (read_clock-bind sv _ w) ∙ h) in
      let (a, v, e, k') =
        >>=-eq-ok
          (store_refresh_token sv user.id (sv.random_token w.draws) (w.now + refresh_ms env)
            family_id)
          _ (record w { draws = suc w.draws }) k in
      let (row, e') = discard-ok (insert_token sv _) (record w { draws = suc w.draws }) e in
      let inserted = insert_token-ok sv _ (record w { draws = suc w.draws }) v row e' in
      (
        sym (ok_value k'),
        (
          inserted.0,
          inserted.2,
          subst
              (λ x. view sv x ≡ record (view sv w) {
                tokens = fresh_row user.id family_id (view sv w) inserted.0 ∷ (view sv w).tokens;
                draws = suc w.draws;
              })
              (ok_inj k').1
              (inserted.4
                ∙ ap
                    (λ (r : RefreshToken). record (view sv w) {
                      tokens = r ∷ (view sv w).tokens;
                      draws = suc w.draws;
                    })
                    inserted.1),
        ),
      )

  pub require_trusted_origin-ok :
      (request : Request) (u : Unit {0}) (w w' : World sv)
      → require_trusted_origin env request w ≡ (ok u, w')
      → ((is_cookie env.auth_transport ≡ false) ⊎ (is_trusted_origin env request ≡ true)) × (w ≡ w')
  unfolding require_trusted_origin assert_trusted_origin
  require_trusted_origin-ok request u w w' h = elim (Bool-cases (is_cookie env.auth_transport)) [
    | inr e ↦
        let k : pure {W = World sv} tt w ≡ (ok u, w') = rw (e, if◌then◌else◌) at h in
        (inl e, (ok_inj k).1)
    | inl e ↦ elim (Bool-cases (is_trusted_origin env request)) [
      | inl trusted ↦
          let k : pure {W = World sv} tt w ≡ (ok u, w') = rw (e, trusted, if◌then◌else◌) at h in
          (inr trusted, (ok_inj k).1)
      | inr not_trusted ↦ absurd (throw-ne-ok _ (rw (e, not_trusted, if◌then◌else◌) at h))
    ]
  ]

  -- The row that was claimed, the user that it belongs to, and the tokens that are handed out.
  abbrev pub Refreshes : Request → Option Text → Option Text → View → TokenReply → View → Type 0
  Refreshes request cookie body v reply v' =
      let hash = sv.sha256 (text_value (presented env cookie body)) in
      ((is_cookie env.auth_transport ≡ false) ⊎ (is_trusted_origin env request ≡ true))
      × (is_present (presented env cookie body) ≡ true)
      × (row : RefreshToken) × (user : User) × Any
          (λ x. (is_claimable hash v.now x ≡ true) × (row ≡ mark_used v.now x)) v.tokens
      × Finds (has_id row.user_id) v.users (some user)
      × Issues user row.family_id (claimed_view hash v) reply.tokens v'
      × (reply.user ≡ to_public_user user)

  -- A refresh that succeeds came, in cookie mode, from a trusted origin, and presented the token of a
  -- row that could be claimed: unused and not expired. Its user is active. The row is then marked as
  -- used, and one new row is stored, with the digest of the new token, the same user, the same family
  -- and a full lifetime. The answer carries the new tokens, the refresh token in the cookie or in the
  -- body according to the settings, and the user as it is now.
  pub refresh-Refreshes :
      (request : Request) (cookie body : Option Text) (reply : TokenReply) (w w' : World sv)
      → refresh sv env request cookie body w ≡ (ok reply, w')
      → Refreshes request cookie body (view sv w) reply (view sv w')
  unfolding refresh find_by_id
  refresh-Refreshes request cookie body reply w w' h =
      let hash = sv.sha256 (text_value (presented env cookie body)) in
      let (a, v1, e1, k1) = >>=-eq-ok (require_trusted_origin env request) _ w h in
      let (trusted, at1) = require_trusted_origin-ok request a w v1 e1 in
      let (b, v2, e2, k2) =
        >>=-eq-ok
          (require (is_present (presented env cookie body)) (unauthorized "Missing refresh token"))
          _ v1 k1 in
      let (there, at2) =
        require-ok (is_present (presented env cookie body)) (unauthorized "Missing refresh token")
          e2 in
      let still : v2 ≡ w = sym (at1 ∙ at2) in
      let (row, v3, e3, k3) =
        >>=-eq-ok (use_refresh_token sv (text_value (presented env cookie body))) _ v2 k2 in
      let (listed, s3) =
        subst (λ v. Uses sv hash v (ok row, v3)) (ap (view sv) still)
          (subst (Uses sv hash (view sv v2)) e3
            (use_refresh_token-Uses sv (text_value (presented env cookie body)) v2)) in
      let (o, v4, e4, k4) = >>=-eq-ok (find_by_id sv row.user_id) _ v3 k3 in
      let (found, s4) = find_user-ok sv _ v3 v4 o e4 in
      let (user, v5, e5, k5) = >>=-eq-ok (or_throw o (unauthorized "Unauthorized")) _ v4 k4 in
      let (is, at5) = or_throw-ok o (unauthorized "Unauthorized") e5 in
      let s5 : view sv v5 ≡ claimed_view hash (view sv w) =
        subst (λ x. view sv x ≡ claimed_view hash (view sv w)) at5 (s4 ∙ s3) in
      let (t, v6, e6, k6) = >>=-eq-ok (issue_tokens sv env user row.family_id) _ v5 k5 in
      let issues = issue_tokens-Issues user row.family_id t v5 v6 e6 in
      let answer : record { tokens = t; user = to_public_user user } ≡ reply = ok_value k6 in
      (
        trusted,
        there,
        row,
        user,
        listed,
        subst (λ v. Finds (has_id row.user_id) v.users (some user)) s3
            (subst (Finds (has_id row.user_id) (view sv v3).users) is found),
        subst
            (λ (x : TokenReply).
              Issues user row.family_id (claimed_view hash (view sv w)) x.tokens (view sv w'))
            answer
            (subst (λ x. Issues user row.family_id x t (view sv w')) s5
              (subst (λ x. Issues user row.family_id (view sv v5) t (view sv x)) (ok_inj k6).1
                issues)),
        ap (λ (x : TokenReply). x.user) (sym answer),
      )
