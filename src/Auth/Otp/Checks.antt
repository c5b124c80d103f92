-- ===== src/Auth/Otp/Checks.antt =====
-- What a verification code that is accepted has checked.
use mathlib.Core.Path.{subst}
use elysiajs_production_api.Base.{
  ℕ, ◌≤◌, ◌≡◌, sym, ap, ◌∙◌, Bool, true, false, not, Option, none, some, Text, ltb, ◌==◌, inl, inr,
  arith, Bool-cases, if◌then◌else◌,
}
use elysiajs_production_api.Errors.{ok, Call, pure, >>=-eq-ok, ok_inj, ok_value}
use elysiajs_production_api.Calls.{throw-ne-ok}
use elysiajs_production_api.Services.{
  Services, World, View, view, key, otp_code, otp_attempts, put, bumped, value_at,
}
use elysiajs_production_api.Services.Actions.{cache_get, cache_incr, cache_del}
use elysiajs_production_api.Services.Actions.Laws.{cache_get-ok, cache_incr-ok, cache_del-ok}
use elysiajs_production_api.Auth.Otp.{max_attempts, check_code, verify}

module _ (sv : Services) where
  -- The state after the attempt is counted, and after the code is consumed.
  abbrev pub counted : ℕ → View → View
  counted id v = record v {
    cache = put v.cache (key otp_attempts id) (some (bumped v.cache v.now (key otp_attempts id)));
  }

  abbrev pub consumed : ℕ → View → View
  consumed id v = record (counted id v) {
    cache = put (put (counted id v).cache (key otp_code id) none) (key otp_attempts id) none;
  }

  -- The code was right, at the fifth attempt or before, and is consumed.
  pub record IsRight (id : ℕ) (code : Text) (v v' : View) : Type 0 where
    pub stored : value_at v.cache v.now (key otp_code id) ≡ some (sv.sha256 code)
    pub attempts : (bumped v.cache v.now (key otp_attempts id)).value ≤ max_attempts
    pub after : v' ≡ consumed id v

  -- No code is stored, and nothing changes; or the stored one is another, and the attempt is counted.
  pub data IsWrong (id : ℕ) (code : Text) (v v' : View) : Type 0 where
    missing : value_at v.cache v.now (key otp_code id) ≡ none → v' ≡ v → IsWrong id code v v'
    other :
        (digest : ℕ)
        → value_at v.cache v.now (key otp_code id) ≡ some digest
        → (sv.sha256 code == digest) ≡ false
        → v' ≡ counted id v
        → IsWrong id code v v'

  abbrev pub Verdict : ℕ → Text → View → View → Bool → Type 0
  Verdict id code v v' true = IsRight id code v v'
  Verdict id code v v' false = IsWrong id code v v'

  check_code-ok :
      (id digest : ℕ) (code : Text) (w w' : World sv) (b : Bool)
      → value_at (view sv w).cache (view sv w).now (key otp_code id) ≡ some digest
      → check_code sv id code digest w ≡ (ok b, w')
      → Verdict id code (view sv w) (view sv w') b
  unfolding check_code
  check_code-ok id digest code w w' b stored h =
      let (n, v, e, k) = >>=-eq-ok (cache_incr sv (key otp_attempts id)) _ w h in
      let (count, s) = cache_incr-ok sv _ w v n e in
      elim (Bool-cases (ltb max_attempts n)) [
        | inl over ↦
            let (a, v', e', k') =
              >>=-eq-ok (cache_del sv (key otp_code id)) _ v (rw (over, if◌then◌else◌) at k) in
            absurd (throw-ne-ok _ k')
        | inr within ↦ elim (Bool-cases (sv.sha256 code == digest)) [
          | inr different ↦
              let k' : pure {W = World sv} false v ≡ (ok b, w') =
                rw (within, different, not, if◌then◌else◌) at k in
              subst (Verdict id code (view sv w) (view sv w')) (ok_value k') (
                other digest stored different
                  (subst (λ x. view sv x ≡ counted id (view sv w)) (ok_inj k').1 s))
          | inl same ↦
              let (a, v1, e1, k1) =
                >>=-eq-ok (cache_del sv (key otp_code id)) _ v
                  (rw (within, same, not, if◌then◌else◌) at k) in
              let (c, v2, e2, k2) = >>=-eq-ok (cache_del sv (key otp_attempts id)) _ v1 k1 in
              subst (Verdict id code (view sv w) (view sv w')) (ok_value k2) (record {
                stored = stored ∙ ap some (sym (ground arith));
                attempts = subst (λ m. m ≤ max_attempts) count (ground arith);
                after =
                    subst (λ x. view sv x ≡ consumed id (view sv w)) (ok_inj k2).1
                      (cache_del-ok sv _ v1 v2 c e2
                        ∙ ap
                            (λ (x : View). record x {
                              cache = put x.cache (key otp_attempts id) none;
                            })
                            (cache_del-ok sv _ v v1 a e1
                              ∙ ap
                                  (λ (x : View). record x {
                                    cache = put x.cache (key otp_code id) none;
                                  })
                                  s));
              })
        ]
      ]

  -- A verification that returns says true exactly for the code whose digest is stored for the user and
  -- has not expired, at the fifth attempt or before; the code and its counter are then gone. It says
  -- false if no code is stored, and nothing changes, or if the stored code is another, and the attempt
  -- is counted. Nothing else changes.
  pub verify-Verdict :
      (id : ℕ) (code : Text) (w w' : World sv) (b : Bool)
      → verify sv id code w ≡ (ok b, w')
      → Verdict id code (view sv w) (view sv w') b
  unfolding verify
  verify-Verdict id code w w' b h =
      let (o, v, e, k) = >>=-eq-ok (cache_get sv (key otp_code id)) _ w h in
      let (val, s) = cache_get-ok sv _ w v o e in after_get o v val s k
    where
      after_get :
          (o : Option ℕ) (v : World sv)
          → o ≡ value_at (view sv w).cache (view sv w).now (key otp_code id)
          → view sv v ≡ view sv w
          → elim o as (λ o. Call (World sv) Bool) [
            | none ↦ pure false
            | some digest ↦ check_code sv id code digest
          ]
              v
            ≡ (ok b, w')
          → Verdict id code (view sv w) (view sv w') b
      after_get none v val s k =
          subst (Verdict id code (view sv w) (view sv w')) (ok_value k)
            (missing (sym val) (subst (λ x. view sv x ≡ view sv w) (ok_inj k).1 s))
      after_get (some digest) v val s k =
          subst (λ x. Verdict id code x (view sv w') b) s
            (check_code-ok id digest code v w' b
              (subst (λ x. value_at x.cache x.now (key otp_code id) ≡ some digest) (sym s)
                (sym val))
              k)
