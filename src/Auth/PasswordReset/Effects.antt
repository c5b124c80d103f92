-- ===== src/Auth/PasswordReset/Effects.antt =====
-- What a granted reset has checked, and what it changes.
use mathlib.Core.Path.{subst}
use elysiajs_production_api.Base.{
  ℕ, suc, ◌≤◌, ◌≡◌, sym, ap, ◌∙◌, inl, inr, not, none, some, Text, filter, map_where, ltb, ◌==◌,
  arith, Bool-cases, if◌then◌else◌,
}
use elysiajs_production_api.Errors.{ok, >>=-eq-ok, ok_inj, ok_value, discard-ok}
use elysiajs_production_api.Calls.{or_throw, or_throw-ok, throw-ne-ok}
use elysiajs_production_api.Schema.{User, RefreshToken}
use elysiajs_production_api.Services.{
  Services, World, View, view, Finds, key, reset_code, reset_attempts, put, bumped, value_at,
}
use elysiajs_production_api.Services.Actions.{
  cache_get, cache_incr, cache_del, update_users, delete_tokens, draw-bind, read_clock-bind,
}
use elysiajs_production_api.Services.Actions.Laws.{
  find_user-ok, cache_get-ok, cache_incr-ok, cache_del-ok, update_users-ok, delete_tokens-ok,
}
use elysiajs_production_api.Audit.BestEffort.{Audited, SameButAudits, record_audit-Audited}
use elysiajs_production_api.Auth.Accounts.{has_email, find_by_email, update_password}
use elysiajs_production_api.Auth.Tokens.{revoke_all_refresh_tokens}
use elysiajs_production_api.Auth.PasswordReset.{
  max_attempts, invalid, check_reset, apply_reset, reset, match_code,
}

module _ (sv : Services) where
  -- The user was found by the address, the code's digest is the stored one, and no more than five
  -- attempts have been made, this one included.
  pub record IsChecked (email code : Text) (v : View) (user : User) : Type 0 where
    pub found : Finds (has_email email) v.users (some user)
    pub stored : value_at v.cache v.now (key reset_code user.id) ≡ some (sv.sha256 code)
    pub attempts : (bumped v.cache v.now (key reset_attempts user.id)).value ≤ max_attempts

  -- The state after the code is consumed, and after the attempt is counted.
  abbrev erased : ℕ → View → View
  erased id v = record v {
    cache = put (put v.cache (key reset_code id) none) (key reset_attempts id) none;
  }

  abbrev counted : ℕ → View → View
  counted id v = record v {
    cache =
        put v.cache (key reset_attempts id) (some (bumped v.cache v.now (key reset_attempts id)));
  }

  -- The state after a granted reset.
  abbrev pub granted : ℕ → Text → View → View
  granted id new_password v = record (erased id (counted id v)) {
    users =
        map_where (λ (u : User). u.id == id)
          (λ (u : User). record u {
            password_hash = sv.hash_password v.draws new_password;
            updated_at = v.now;
          })
          v.users;
    tokens = filter (λ (r : RefreshToken). not (r.user_id == id)) v.tokens;
    draws = suc v.draws;
  }

  match_code-ok :
      (user u : User) (code : Text) (digest attempts : ℕ) (w w' : World sv)
      → match_code sv user code digest attempts w ≡ (ok u, w')
      → (attempts ≤ max_attempts)
        × (sv.sha256 code ≡ digest)
        × (user ≡ u)
        × (view sv w' ≡ erased user.id (view sv w))
  unfolding match_code
  match_code-ok user u code digest attempts w w' h = elim (Bool-cases (ltb max_attempts attempts)) [
    | inl over ↦
        let refused = rw (over, if◌then◌else◌) at h in
        let (a, v, e, k) = >>=-eq-ok (cache_del sv (key reset_code user.id)) _ w refused in
        absurd (throw-ne-ok _ k)
    | inr within ↦ elim (Bool-cases (sv.sha256 code == digest)) [
      | inr other ↦
          absurd (throw-ne-ok {A = User} invalid (rw (within, other, not, if◌then◌else◌) at h))
      | inl same ↦
          let k = rw (within, same, not, if◌then◌else◌) at h in
          let (a, v, e, k') = >>=-eq-ok (cache_del sv (key reset_code user.id)) _ w k in
          let (a', v', e', k'') = >>=-eq-ok (cache_del sv (key reset_attempts user.id)) _ v k' in
          (
            ground arith,
            ground arith,
            ok_value k'',
            subst (λ x. view sv x ≡ erased user.id (view sv w)) (ok_inj k'').1
                (cache_del-ok sv _ v v' a' e'
                  ∙ ap
                      (λ (x : View). record x {
                        cache = put x.cache (key reset_attempts user.id) none;
                      })
                      (cache_del-ok sv _ w v a e)),
          )
    ]
  ]

  check_reset-ok :
      (email code : Text) (w w' : World sv) (u : User)
      → check_reset sv email code w ≡ (ok u, w')
      → IsChecked email code (view sv w) u × (view sv w' ≡ erased u.id (counted u.id (view sv w)))
  unfolding check_reset find_by_email
  check_reset-ok email code w w' u h =
      let (found, v1, e1, k1) = >>=-eq-ok (find_by_email sv email) _ w h in
      let (f, s1) = find_user-ok sv _ w v1 found e1 in
      let (user, v2, e2, k2) = >>=-eq-ok (or_throw found invalid) _ v1 k1 in
      let (is, at2) = or_throw-ok found invalid e2 in
      let s2 : view sv v2 ≡ view sv w = ap (view sv) (sym at2) ∙ s1 in
      let (o, v3, e3, k3) = >>=-eq-ok (cache_get sv (key reset_code user.id)) _ v2 k2 in
      let (val, s3) = cache_get-ok sv _ v2 v3 o e3 in
      let (digest, v4, e4, k4) = >>=-eq-ok (or_throw o invalid) _ v3 k3 in
      let (is', at4) = or_throw-ok o invalid e4 in
      let s4 : view sv v4 ≡ view sv w = ap (view sv) (sym at4) ∙ s3 ∙ s2 in
      let (n, v5, e5, k5) = >>=-eq-ok (cache_incr sv (key reset_attempts user.id)) _ v4 k4 in
      let (count, s5) = cache_incr-ok sv _ v4 v5 n e5 in
      let (le, same, who, s6) = match_code-ok user u code digest n v5 w' k5 in
      let value : value_at (view sv w).cache (view sv w).now (key reset_code user.id)
          ≡ some (sv.sha256 code) =
        subst (λ v. value_at v.cache v.now (key reset_code user.id) ≡ some (sv.sha256 code)) s2
          (sym val ∙ is' ∙ ap some (sym same)) in
      let few : (bumped (view sv w).cache (view sv w).now (key reset_attempts user.id)).value
          ≤ max_attempts =
        subst (λ v. (bumped v.cache v.now (key reset_attempts user.id)).value ≤ max_attempts) s4
          (subst (λ m. m ≤ max_attempts) count le) in
      subst
        (λ x.
          IsChecked email code (view sv w) x
          × (view sv w' ≡ erased x.id (counted x.id (view sv w))))
        who
        (
          record {
            found = subst (Finds (has_email email) (view sv w).users) is f;
            stored = value;
            attempts = few;
          },
          s6 ∙ ap (erased user.id) (s5 ∙ ap (counted user.id) s4),
        )

  update_password-ok :
      (id : ℕ) (password : Text) (w w' : World sv) (u : Unit {0})
      → update_password sv id password w ≡ (ok u, w')
      → view sv w' ≡ record (view sv w) {
        users =
            map_where
              (λ (u : User). u.id == id)
              (λ (u : User). record u {
                password_hash = sv.hash_password w.draws password;
                updated_at = w.now;
              })
              (view sv w).users;
        draws = suc w.draws;
      }
  unfolding update_password
  update_password-ok id password w w' u h =
      let k = sym (draw-bind sv _ w) ∙ h in
      let k' = sym (read_clock-bind sv _ (record w { draws = suc w.draws })) ∙ k in
      let (l, e) = discard-ok (update_users sv _ _) _ k' in (update_users-ok sv _ _ _ w' l e).1

  apply_reset-ok :
      (user : User) (password : Text) (w w' : World sv) (u : Unit {0})
      → apply_reset sv user password w ≡ (ok u, w')
      → SameButAudits
          (record (view sv w) {
            users =
                map_where
                  (λ (u : User). u.id == user.id)
                  (λ (u : User). record u {
                    password_hash = sv.hash_password w.draws password;
                    updated_at = w.now;
                  })
                  (view sv w).users;
            tokens = filter (λ (r : RefreshToken). not (r.user_id == user.id)) (view sv w).tokens;
            draws = suc w.draws;
          })
          (view sv w')
  unfolding apply_reset revoke_all_refresh_tokens
  apply_reset-ok user password w w' u h =
      let (a, v1, e1, k1) = >>=-eq-ok (update_password sv user.id password) _ w h in
      let (b, v2, e2, k2) = >>=-eq-ok (revoke_all_refresh_tokens sv user.id) _ v1 k1 in
      let s1 = update_password-ok user.id password w v1 a e1 in
      let (l, e3) = discard-ok (delete_tokens sv _) v1 e2 in
      let s2 =
        (delete_tokens-ok sv _ v1 v2 l e3).1
        ∙ ap
            (λ (x : View). record x {
              tokens = filter (λ (r : RefreshToken). not (r.user_id == user.id)) x.tokens;
            })
            s1 in
      let audited = (subst (Audited sv v2) k2 (record_audit-Audited sv _ v2)).1 in
      subst (λ x. SameButAudits x (view sv w')) s2 audited

  -- A password reset that returns was granted to the active user with the address, for the code whose
  -- digest is stored and has not expired, at the fifth attempt or before. Then that user's password
  -- is the new one, with a fresh salt, all of that user's refresh tokens are gone, and so are the code
  -- and its counter. Nothing else has changed but the audit trail.
  pub reset-IsChecked :
      (email code new_password : Text) (w w' : World sv) (u : Unit {0})
      → reset sv email code new_password w ≡ (ok u, w')
      → (user : User) × IsChecked email code (view sv w) user
        × SameButAudits (granted user.id new_password (view sv w)) (view sv w')
  unfolding reset
  reset-IsChecked email code new_password w w' u h =
      let (user, v, e, k) = >>=-eq-ok (check_reset sv email code) _ w h in
      let (checked, s) = check_reset-ok email code w v user e in
      (
        user,
        checked,
        subst
            (λ x.
              SameButAudits
                (record x {
                  users =
                      map_where (λ (u : User). u.id == user.id)
                        (λ (u : User). record u {
                          password_hash = sv.hash_password x.draws new_password;
                          updated_at = x.now;
                        })
                        x.users;
                  tokens = filter (λ (r : RefreshToken). not (r.user_id == user.id)) x.tokens;
                  draws = suc x.draws;
                })
                (view sv w'))
            s (apply_reset-ok user new_password v w' u k),
      )
