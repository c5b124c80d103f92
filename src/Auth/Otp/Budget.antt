-- ===== src/Auth/Otp/Budget.antt =====
-- What each call of otp.service.ts leaves of the attempts at a user's verification code.
use mathlib.Core.Path.{subst}
use elysiajs_production_api.Base.{
  ℕ, ◌≡◌, refl, ◌∙◌, inl, inr, ◌⊎◌, Bool, true, false, not, none, some, Option, Text, ltb, ◌==◌,
  is_some, if◌then◌else◌,
}
use elysiajs_production_api.Errors.{
  bad_request, Result, ok, err, Call, pure, throw, ◌>>◌, >>=-cases,
}
use elysiajs_production_api.Services.{
  Services, World, view, key, otp_code, otp_attempts, otp_cooldown, Entries, value_at,
}
use elysiajs_production_api.Services.Actions.{cache_set, cache_del, cache_exists}
use elysiajs_production_api.Services.Actions.Laws.{cache_exists-ok}
use elysiajs_production_api.Services.Triples.{
  At, Anything, Post, Keeps, Ensures, bind-Keeps, bind-Ensures, returns-Keeps, throws-Ensures,
  if-Keeps, require-Keeps,
}
use elysiajs_production_api.Services.Triples.Statements.{
  draw-Keeps, cache_get-Keeps, cache_exists-Keeps, add_email-Keeps,
}
use elysiajs_production_api.Auth.Attempts.{Left, key_eq-other, key_eq-apart}
use elysiajs_production_api.Auth.Attempts.Calls.{
  consume-Keeps, refuse-Keeps, count-Keeps, set-Keeps, fresh-Ensures,
}
use elysiajs_production_api.Auth.Otp.{
  max_attempts, otp_ttl_seconds, cooldown_seconds, issue, check_code, verify,
}

module _ (sv : Services) (id : ℕ) where
  -- At most `n` comparisons with the code of the user `id` are left.
  abbrev pub Leaves : ℕ → Entries → ℕ → Type 0
  Leaves = Left max_attempts sv otp_code otp_attempts refl id

  -- What follows once the attempt is counted.
  abbrev pub answer : ℕ → Text → ℕ → ℕ → Call (World sv) Bool
  answer user_id code digest attempts =
      if ltb max_attempts attempts
      then (do
        cache_del sv (key otp_code user_id)
        throw (bad_request "Too many attempts — please request a new code"))
      else if not (sv.sha256 code == digest)
      then pure false
      else do
        cache_del sv (key otp_code user_id)
        cache_del sv (key otp_attempts user_id)
        pure true

  pub answer-Keeps :
      (n user_id : ℕ) (code : Text) (digest attempts : ℕ)
      → Keeps sv (Leaves n) (answer user_id code digest attempts)
  answer-Keeps n user_id code digest attempts =
      if-Keeps sv (Leaves n) (ltb max_attempts attempts) _ _
        (refuse-Keeps max_attempts sv otp_code otp_attempts refl refl id n user_id _)
        (if-Keeps sv (Leaves n) (not (sv.sha256 code == digest)) _ _
          (returns-Keeps sv (Leaves n) (ok false))
          (consume-Keeps max_attempts sv otp_code otp_attempts refl refl id n user_id true))

  check_code-Keeps :
      (n user_id : ℕ) (code : Text) (digest : ℕ)
      → Keeps sv (Leaves n) (check_code sv user_id code digest)
  unfolding check_code
  check_code-Keeps n user_id code digest =
      bind-Keeps sv (Leaves n) _ _
        (count-Keeps max_attempts sv otp_code otp_attempts refl refl id n user_id)
        (λ attempts. answer-Keeps n user_id code digest attempts)

  pub verify-Keeps : (n user_id : ℕ) (code : Text) → Keeps sv (Leaves n) (verify sv user_id code)
  unfolding verify
  verify-Keeps n user_id code = bind-Keeps sv (Leaves n) _ _ (cache_get-Keeps sv (Leaves n) _) found
    where
      found :
          (o : Option ℕ)
          → Keeps sv {A = Bool}
              (Leaves n)
              (elim o [ none ↦ pure false | some digest ↦ check_code sv user_id code digest ])
      found none = returns-Keeps sv (Leaves n) (ok false)
      found (some digest) = check_code-Keeps n user_id code digest

  -- The code for another user.
  issue-Keeps :
      (n user_id : ℕ) (email : Text)
      → (id == user_id) ≡ false
      → Keeps sv (Leaves n) (issue sv user_id email)
  unfolding issue
  issue-Keeps n user_id email other =
      let Here = Leaves n in
      bind-Keeps sv Here _ _ (cache_exists-Keeps sv Here _) (λ cooling.
        bind-Keeps sv Here _ _ (require-Keeps sv Here (not cooling) _) (λ u.
          bind-Keeps sv Here _ _ (draw-Keeps sv Here) (λ d.
            bind-Keeps sv Here _ _ (sets otp_code _ _) (λ a.
              bind-Keeps sv Here _ _ (sets otp_attempts _ _) (λ b.
                bind-Keeps sv Here _ _ (sets otp_cooldown _ _) (λ c. add_email-Keeps sv Here _))))))
    where
      sets :
          (p : _) (v : ℕ) (ttl : Option ℕ)
          → Keeps sv (Leaves n) (cache_set sv (key p user_id) v ttl)
      sets p v ttl =
          set-Keeps max_attempts sv otp_code otp_attempts refl refl id n p user_id v ttl
            (key_eq-other otp_code p id user_id other)
            (key_eq-other otp_attempts p id user_id other)

  -- A code that is issued can be compared with five times.
  pub issue-Leaves :
      (email : Text) → Ensures sv Anything (issue sv id email) (λ a. Leaves max_attempts) Anything
  unfolding issue
  issue-Leaves email =
      let Full = Leaves max_attempts in
      bind-Ensures sv Anything Anything (λ c. Anything) (λ a. Full) _ _
        (cache_exists-Keeps sv Anything _)
        (λ cooling.
          bind-Ensures sv Anything Anything (λ u. Anything) (λ a. Full) _ _
            (require-Keeps sv Anything (not cooling) _)
            (λ u.
              bind-Ensures sv Anything Anything (λ d. Anything) (λ a. Full) _ _
                (draw-Keeps sv Anything)
                (λ d.
                  fresh-Ensures max_attempts sv otp_code otp_attempts refl id _ otp_ttl_seconds _ (
                    bind-Keeps sv Full _ _
                      (set-Keeps max_attempts sv otp_code otp_attempts refl refl id max_attempts
                        otp_cooldown id 1 (some cooldown_seconds)
                        (key_eq-apart otp_code otp_cooldown id id refl)
                        (key_eq-apart otp_attempts otp_cooldown id id refl))
                      (λ b. add_email-Keeps sv Full _)))))

  -- The user is another, or was sent a code within the cooldown.
  abbrev pub IsSpared : ℕ → World sv → Type 0
  IsSpared user_id w =
      ((id == user_id) ≡ false)
      ⊎ (is_some (value_at (view sv w).cache w.now (key otp_cooldown user_id)) ≡ true)

  -- Then no code is sent to the user.
  pub issue-Spares :
      (n user_id : ℕ) (email : Text) (w w' : World sv) (r : Result (Unit {0}))
      → IsSpared user_id w
      → issue sv user_id email w ≡ (r, w')
      → At sv (Leaves n) w
      → Post sv (λ a. Leaves n) (Leaves n) r w'
  unfolding issue
  issue-Spares n user_id email w w' r (inl other) h left =
      issue-Keeps n user_id email other w w' r h left
  issue-Spares n user_id email w w' r (inr cooled) h left =
      >>=-cases (cache_exists sv (key otp_cooldown user_id)) _ w
        (λ x. x ≡ (r, w') → Post sv (λ a. Leaves n) (Leaves n) r w')
        (λ b v e k.
          let (is, same) = cache_exists-ok sv _ w v b e in
          let k' = (rw (is ∙ cooled, not) at k) in
          bind-Ensures sv (Leaves n) (Leaves n) (λ u m now. ⊥) (λ u. Leaves n) _ _
            (throws-Ensures sv (Leaves n) (λ u m now. ⊥) _) (λ u x y z same never. absurd never) v
            w' r k' (cache_exists-Keeps sv (Leaves n) _ w v (ok b) e left))
        (λ x v e k.
          subst (λ y. Post sv (λ a. Leaves n) (Leaves n) y.0 y.1) k
            (cache_exists-Keeps sv (Leaves n) _ w v (err x) e left))
        h
