-- ===== src/Auth/Totp/Challenge.antt =====
-- What a second factor that is accepted has checked, and what it uses up.
use mathlib.Core.Path.{subst}
use elysiajs_production_api.Base.{
  ℕ, ◌≤◌, ◌≡◌, refl, sym, ap, ◌∙◌, true, false, ◌&&◌, not, Option, none, some, Text, is_some, ltb,
  inl, inr, arith, Bool-cases, if◌then◌else◌, ◌*◌,
}
use elysiajs_production_api.Errors.{unauthorized, ok, >>=-eq-ok, ok_inj, ok_value}
use elysiajs_production_api.Calls.{
  require, require-ok, or_throw, or_throw-ok, throw-ne-ok, is_present,
}
use elysiajs_production_api.Schema.{User}
use elysiajs_production_api.Services.{
  Services, World, View, view, Finds, key, mfa_challenge, mfa_attempts, totp_last, put, bumped,
  value_at, entry_of,
}
use elysiajs_production_api.Services.Actions.{
  cache_get, cache_set, cache_incr, cache_del, read_clock-bind,
}
use elysiajs_production_api.Services.Actions.Laws.{
  find_user-ok, cache_get-ok, cache_set-ok, cache_incr-ok, cache_del-ok,
}
use elysiajs_production_api.Auth.Accounts.{has_id, find_by_id}
use elysiajs_production_api.Auth.Totp.{
  period_seconds, max_attempts, accepted_counter, text_or_empty, is_replay, invalid_challenge,
  validate_code, enrolled_user, open_challenge, close_challenge, consume_login_challenge,
}

module _ (sv : Services) where
  -- The challenge was open for the user, at the fifth attempt or before; two-factor login is enabled;
  -- the code is right for a time step; and that step is later than the last one accepted.
  pub record IsAccepted (hash : ℕ) (code : Text) (v : View) (user_id : ℕ) (user : User)
      (counter : ℕ) : Type 0 where
    pub open_for : value_at v.cache v.now (key mfa_challenge hash) ≡ some user_id
    pub attempts : (bumped v.cache v.now (key mfa_attempts hash)).value ≤ max_attempts
    pub found : Finds (has_id user_id) v.users (some user)
    pub enabled : is_some user.totp_enabled_at ≡ true
    pub right :
        accepted_counter (sv.validate_totp (text_or_empty user.totp_secret) code v.now) v.now
        ≡ some counter
    pub fresh : is_replay (value_at v.cache v.now (key totp_last user_id)) counter ≡ false

  -- The cache after the attempt is counted, and after the challenge is closed.
  abbrev pub counted : ℕ → View → View
  counted hash v = record v {
    cache =
        put v.cache (key mfa_attempts hash) (some (bumped v.cache v.now (key mfa_attempts hash)));
  }

  abbrev pub remembered : ℕ → ℕ → View → View
  remembered user_id counter v = record v {
    cache =
        put v.cache (key totp_last user_id)
          (some (entry_of counter (some (period_seconds * 3)) v.now));
  }

  abbrev pub burnt : ℕ → View → View
  burnt hash v = record v {
    cache = put (put v.cache (key mfa_challenge hash) none) (key mfa_attempts hash) none;
  }

  abbrev pub Opens : ℕ → View → ℕ → User → Type 0
  Opens hash v user_id user =
      (value_at v.cache v.now (key mfa_challenge hash) ≡ some user_id)
      × ((bumped v.cache v.now (key mfa_attempts hash)).value ≤ max_attempts)
      × Finds (has_id user_id) v.users (some user)
      × (is_some user.totp_enabled_at ≡ true)

  enrolled_user-ok :
      (id user_id : ℕ) (user : User) (w w' : World sv)
      → enrolled_user sv id w ≡ (ok (user_id, user), w')
      → (id ≡ user_id)
        × Finds (has_id user_id) (view sv w).users (some user)
        × (is_some user.totp_enabled_at ≡ true)
        × (view sv w' ≡ view sv w)
  unfolding enrolled_user find_by_id
  enrolled_user-ok id user_id user w w' h =
      let (found, v4, e4, k4) = >>=-eq-ok (find_by_id sv id) _ w h in
      let (f, s4) = find_user-ok sv _ w v4 found e4 in
      let (u, v5, e5, k5) = >>=-eq-ok (or_throw found invalid_challenge) _ v4 k4 in
      let (is, at5) = or_throw-ok found invalid_challenge e5 in
      let (t, v6, e6, k6) = >>=-eq-ok (require _ invalid_challenge) _ v5 k5 in
      let (flag, at6) =
        require-ok (is_present u.totp_secret && is_some u.totp_enabled_at) invalid_challenge e6 in
      let still : v4 ≡ w' = at5 ∙ at6 ∙ (ok_inj k6).1 in
      let there : (id ≡ id)
          × Finds (has_id id) (view sv w).users (some u)
          × (is_some u.totp_enabled_at ≡ true) =
        (refl, subst (Finds (has_id id) (view sv w).users) is f, ground arith) in
      let (same_id, same_flag, same_found) =
        subst
          (λ (x : ℕ × User).
            (id ≡ x.0)
            × (is_some x.1.totp_enabled_at ≡ true)
            × Finds (has_id x.0) (view sv w).users (some x.1))
          (ok_value k6) (there.0, there.2, there.1) in
      (same_id, same_found, same_flag, subst (λ x. view sv x ≡ view sv w) still s4)

  open_challenge-ok :
      (hash user_id : ℕ) (user : User) (w w' : World sv)
      → open_challenge sv hash w ≡ (ok (user_id, user), w')
      → Opens hash (view sv w) user_id user × (view sv w' ≡ counted hash (view sv w))
  unfolding open_challenge
  open_challenge-ok hash user_id user w w' h =
      let (o, v1, e1, k1) = >>=-eq-ok (cache_get sv (key mfa_challenge hash)) _ w h in
      let (val, s1) = cache_get-ok sv _ w v1 o e1 in
      let (id, v2, e2, k2) = >>=-eq-ok (or_throw o invalid_challenge) _ v1 k1 in
      let (is, at2) = or_throw-ok o invalid_challenge e2 in
      let s2 : view sv v2 ≡ view sv w = subst (λ x. view sv x ≡ view sv w) at2 s1 in
      let (n, v3, e3, k3) = >>=-eq-ok (cache_incr sv (key mfa_attempts hash)) _ v2 k2 in
      let (count, s3) = cache_incr-ok sv _ v2 v3 n e3 in
      elim (Bool-cases (ltb max_attempts n)) [
        | inl over ↦
            let (a, v, e, k) =
              >>=-eq-ok (cache_del sv (key mfa_challenge hash)) _ v3
                (rw (over, if◌then◌else◌) at k3) in
            absurd (throw-ne-ok _ k)
        | inr within ↦
            let (same, found, flag, s4) =
              enrolled_user-ok id user_id user v3 w' (rw (within, if◌then◌else◌) at k3) in
            let s3' : view sv v3 ≡ counted hash (view sv w) = s3 ∙ ap (counted hash) s2 in
            let few : (bumped (view sv w).cache (view sv w).now (key mfa_attempts hash)).value
                ≤ max_attempts =
              subst (λ v. (bumped v.cache v.now (key mfa_attempts hash)).value ≤ max_attempts) s2
                (subst (λ m. m ≤ max_attempts) count (ground arith)) in
            (
              (
                sym val ∙ is ∙ ap some same,
                few,
                subst (λ v. Finds (has_id user_id) v.users (some user)) s3' found,
                flag,
              ),
              s4 ∙ s3',
            )
      ]

  validate_code-eq :
      (secret : Option Text) (code : Text) (w w' : World sv) (o : Option ℕ)
      → validate_code sv secret code w ≡ (ok o, w')
      → (o ≡ accepted_counter (sv.validate_totp (text_or_empty secret) code w.now) w.now) × (w ≡ w')
  unfolding validate_code
  validate_code-eq secret code w w' o h =
      let k = sym (read_clock-bind sv _ w) ∙ h in (sym (ok_value k), (ok_inj k).1)

  close_challenge-ok :
      (hash user_id : ℕ) (user u : User) (counter : ℕ) (w w' : World sv)
      → close_challenge sv hash user_id user counter w ≡ (ok u, w')
      → (is_replay (value_at (view sv w).cache (view sv w).now (key totp_last user_id)) counter
          ≡ false)
        × (user ≡ u)
        × (view sv w' ≡ burnt hash (remembered user_id counter (view sv w)))
  unfolding close_challenge
  close_challenge-ok hash user_id user u counter w w' h =
      let (last, v1, e1, k1) = >>=-eq-ok (cache_get sv (key totp_last user_id)) _ w h in
      let (val, s1) = cache_get-ok sv _ w v1 last e1 in
      let (a, v2, e2, k2) =
        >>=-eq-ok (require (not (is_replay last counter)) (unauthorized "Code already used")) _ v1
          k1 in
      let (flag, at2) = require-ok _ _ e2 in
      let s2 : view sv v2 ≡ view sv w = ap (view sv) (sym at2) ∙ s1 in
      let (b, v3, e3, k3) =
        >>=-eq-ok (cache_set sv (key totp_last user_id) counter (some (period_seconds * 3))) _ v2
          k2 in
      let s3 = cache_set-ok sv _ _ _ v2 v3 b e3 ∙ ap (remembered user_id counter) s2 in
      let (c, v4, e4, k4) = >>=-eq-ok (cache_del sv (key mfa_challenge hash)) _ v3 k3 in
      let (d, v5, e5, k5) = >>=-eq-ok (cache_del sv (key mfa_attempts hash)) _ v4 k4 in
      let s5 : view sv v5 ≡ burnt hash (view sv v3) =
        cache_del-ok sv _ v4 v5 d e5
        ∙ ap (λ (x : View). record x { cache = put x.cache (key mfa_attempts hash) none })
            (cache_del-ok sv _ v3 v4 c e4) in
      let not_replayed : is_replay last counter ≡ false = ground arith in
      (
        subst (λ x. is_replay x counter ≡ false) val not_replayed,
        ok_value k5,
        ap (view sv) (sym (ok_inj k5).1) ∙ s5 ∙ ap (burnt hash) s3,
      )

  -- A second factor that is accepted was presented with an open challenge of the user, at the fifth
  -- attempt or before; the user is active and has two-factor login enabled; and the code is right for a
  -- time step later than the last one accepted from that user, if one is remembered. Then the step is
  -- remembered, the challenge and its counter are gone, and nothing else has changed.
  pub consume_login_challenge-IsAccepted :
      (mfa_token code : Text) (w w' : World sv) (u : User)
      → consume_login_challenge sv mfa_token code w ≡ (ok u, w')
      → (user_id counter : ℕ) × IsAccepted (sv.sha256 mfa_token) code (view sv w) user_id u counter
        × (view sv w'
            ≡ burnt
                (sv.sha256 mfa_token)
                (remembered user_id counter (counted (sv.sha256 mfa_token) (view sv w))))
  unfolding consume_login_challenge
  consume_login_challenge-IsAccepted mfa_token code w w' u h =
      let hash = sv.sha256 mfa_token in
      let (opened, v1, e1, k1) = >>=-eq-ok (open_challenge sv hash) _ w h in
      let (id, user) = opened in
      let (opens, s1) = open_challenge-ok hash id user w v1 e1 in
      let (o, v2, e2, k2) = >>=-eq-ok (validate_code sv user.totp_secret code) _ v1 k1 in
      let (accepted, at2) = validate_code-eq user.totp_secret code v1 v2 o e2 in
      let (counter, v3, e3, k3) = >>=-eq-ok (or_throw o (unauthorized "Invalid code")) _ v2 k2 in
      let (is, at3) = or_throw-ok o (unauthorized "Invalid code") e3 in
      let s3 : view sv v3 ≡ counted hash (view sv w) =
        subst (λ x. view sv x ≡ counted hash (view sv w)) (at2 ∙ at3) s1 in
      let (not_replayed, who, s4) = close_challenge-ok hash id user u counter v3 w' k3 in
      (
        id,
        counter,
        subst (λ x. IsAccepted hash code (view sv w) id x counter) who
            (record {
              open_for = opens.0;
              attempts = opens.1;
              found = opens.2;
              enabled = opens.3;
              right =
                  subst
                    (λ v.
                      accepted_counter
                        (sv.validate_totp (text_or_empty user.totp_secret) code v.now) v.now
                      ≡ some counter)
                    s1 (sym accepted ∙ is);
              fresh =
                  subst (λ v. is_replay (value_at v.cache v.now (key totp_last id)) counter ≡ false)
                    s3 not_replayed;
            }),
        s4 ∙ ap (λ (v : View). burnt hash (remembered id counter v)) s3,
      )
