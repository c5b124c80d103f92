-- ===== src/Auth/Otp/Guesses.antt =====
-- How often a verification code can be guessed at: `MAX_ATTEMPTS` of otp.service.ts over any run.
use elysiajs_production_api.Base.{
  ℕ, suc, ◌≤◌, ◌≡◌, refl, sym, ◌∙◌, inl, inr, ◌⊎◌, Bool, true, Bool-cases, ltb, arith, Option, none,
  some, Text,
}
use elysiajs_production_api.Errors.{Result, ok, err, >>=-of_ok, >>=-of_err}
use elysiajs_production_api.Services.{Services, World, view, key, otp_code, otp_attempts}
use elysiajs_production_api.Services.Actions.{cache_get, cache_incr}
use elysiajs_production_api.Services.Triples.{At, in_the_end}
use elysiajs_production_api.Auth.Attempts.{compared-Left}
use elysiajs_production_api.Auth.Attempts.Calls.{later-Left}
use elysiajs_production_api.Auth.Attempts.Runs.{Guesses, at_most, DependsOnCode, IsAlike}
use elysiajs_production_api.Auth.Otp.Budget.{
  Leaves, IsSpared, answer, answer-Keeps, verify-Keeps, issue-Leaves, issue-Spares,
}
use elysiajs_production_api.Auth.Otp.{max_attempts, issue, check_code, verify}

module _ (sv : Services) (id : ℕ) where
  -- A verification gets as far as the comparison of the code with the user's: one is stored, and the
  -- attempt is within the maximum.
  record IsCompared (w : World sv) : Type 0 where
    digest : ℕ
    attempts : ℕ
    read_in : World sv
    counted_in : World sv
    stored : cache_get sv (key otp_code id) w ≡ (ok (some digest), read_in)
    counted : cache_incr sv (key otp_attempts id) read_in ≡ (ok attempts, counted_in)
    few : attempts ≤ max_attempts

  -- A verification for the user, returning or throwing, whose outcome depends on the code.
  pub data Guess (w w' : World sv) : Type 0 where
    guess :
        (code : Text) (r : Result Bool)
        → DependsOnCode (verify sv id) code w
        → verify sv id code w ≡ (r, w')
        → Guess w w'

  -- What may happen besides: a verification that is for another user, or whose outcome does not
  -- depend on the code; an issue that is not for the user, or comes within the cooldown; and anything that leaves the user's
  -- code and counter alone, with the clock going on. The calls may return or throw.
  pub data Happening (w w' : World sv) : Type 0 where
    verifies :
        (user_id : ℕ) (code : Text) (r : Result Bool)
        → ¬ ((id ≡ user_id) × DependsOnCode (verify sv user_id) code w)
        → verify sv user_id code w ≡ (r, w')
        → Happening w w'
    issues :
        (user_id : ℕ) (email : Text) (r : Result (Unit {0}))
        → IsSpared sv id user_id w
        → issue sv user_id email w ≡ (r, w')
        → Happening w w'
    elsewhere :
        (view sv w').cache (key otp_code id) ≡ (view sv w).cache (key otp_code id)
        → (view sv w').cache (key otp_attempts id) ≡ (view sv w).cache (key otp_attempts id)
        → w.now ≤ w'.now
        → Happening w w'

  Happening-Leaves :
      (n : ℕ) (w w' : World sv)
      → Happening w w'
      → At sv (Leaves sv id n) w
      → At sv (Leaves sv id n) w'
  Happening-Leaves n w w' (verifies user_id code r far h) left =
      in_the_end sv (Leaves sv id n) w' r (verify-Keeps sv id n user_id code w w' r h left)
  Happening-Leaves n w w' (issues user_id email r spared h) left =
      in_the_end sv (Leaves sv id n) w' r (issue-Spares sv id n user_id email w w' r spared h left)
  Happening-Leaves n w w' (elsewhere same same' later) left =
      later-Left max_attempts sv otp_code otp_attempts refl refl id n (view sv w).cache
        (view sv w').cache w.now w'.now same same' later left

  verify-counted :
      (code : Text) (digest attempts : ℕ) (w v u : World sv)
      → cache_get sv (key otp_code id) w ≡ (ok (some digest), v)
      → cache_incr sv (key otp_attempts id) v ≡ (ok attempts, u)
      → verify sv id code w ≡ answer sv id id code digest attempts u
  unfolding verify check_code
  verify-counted code digest attempts w v u get incr =
      >>=-of_ok (cache_get sv (key otp_code id)) _ get
      ∙ >>=-of_ok (cache_incr sv (key otp_attempts id)) _ incr

  -- Only a comparison makes the outcome depend on the code: a call that finds no code, that is refused
  -- for too many attempts, or that Redis fails, ends in the same way for all codes.
  comparison_cases : (w : World sv) → IsCompared w ⊎ IsAlike (verify sv id) w
  unfolding verify check_code
  comparison_cases w =
      read (cache_get sv (key otp_code id) w).0 (cache_get sv (key otp_code id) w).1 refl
    where
      refused :
          (digest attempts : ℕ) (u : World sv) (code other : Text)
          → ltb max_attempts attempts ≡ true
          → answer sv id id other digest attempts u ≡ answer sv id id code digest attempts u
      refused digest attempts u code other many = rw many refl

      count :
          (digest : ℕ) (v : World sv) (r : Result ℕ) (u : World sv)
          → cache_get sv (key otp_code id) w ≡ (ok (some digest), v)
          → cache_incr sv (key otp_attempts id) v ≡ (r, u)
          → IsCompared w ⊎ IsAlike (verify sv id) w
      count digest v (err e) u get incr = inr (λ code other.
          >>=-of_ok (cache_get sv (key otp_code id)) _ get
          ∙ >>=-of_err (cache_incr sv (key otp_attempts id)) _ incr
          ∙ sym (
              >>=-of_ok (cache_get sv (key otp_code id)) _ get
              ∙ >>=-of_err (cache_incr sv (key otp_attempts id)) _ incr))
      count digest v (ok attempts) u get incr = elim (Bool-cases (ltb max_attempts attempts)) [
        | inl many ↦ inr (λ code other.
            verify-counted other digest attempts w v u get incr
            ∙ refused digest attempts u code other many
            ∙ sym (verify-counted code digest attempts w v u get incr))
        | inr few ↦ inl (record {
          digest = digest;
          attempts = attempts;
          read_in = v;
          counted_in = u;
          stored = get;
          counted = incr;
          few = ground arith;
        })
      ]

      read :
          (r : Result (Option ℕ)) (v : World sv)
          → cache_get sv (key otp_code id) w ≡ (r, v)
          → IsCompared w ⊎ IsAlike (verify sv id) w
      read (err e) v get = inr (λ code other.
          >>=-of_err (cache_get sv (key otp_code id)) _ get
          ∙ sym (>>=-of_err (cache_get sv (key otp_code id)) _ get))
      read (ok none) v get = inr (λ code other.
          >>=-of_ok (cache_get sv (key otp_code id)) _ get
          ∙ sym (>>=-of_ok (cache_get sv (key otp_code id)) _ get))
      read (ok (some digest)) v get =
          count digest v (cache_incr sv (key otp_attempts id) v).0
            (cache_incr sv (key otp_attempts id) v).1 get refl

  Guess-spends :
      (n : ℕ) (w w' : World sv)
      → Guess w w'
      → At sv (Leaves sv id n) w
      → (m : ℕ) × (n ≡ suc m) × At sv (Leaves sv id m) w'
  Guess-spends n w w' (guess code r (other, differs) h) left = elim (comparison_cases w) [
    | inr alike ↦ absurd (differs (alike code other))
    | inl c ↦
        let (m, less, left') =
          compared-Left max_attempts sv otp_code otp_attempts refl id n c.digest c.attempts w
            c.read_in c.counted_in c.stored c.counted c.few left in
        (
          m,
          less,
          in_the_end sv (Leaves sv id m) w' r (
              answer-Keeps sv id m id code c.digest c.attempts c.counted_in w' r
                (sym (
                    verify-counted code c.digest c.attempts w c.read_in c.counted_in c.stored
                      c.counted)
                  ∙ h)
                left'),
        )
  ]

  -- Once a verification code has been issued to a user, at most five verifications have an outcome that
  -- depends on the code that is tried: with some other code it would not be the same. That holds over any sequence of verifications and issues, returning or throwing, and of other
  -- work that leaves the user's code and counter alone, if the clock does not go back and the user is
  -- issued no other code.
  pub verify-FiveGuesses :
      (email : Text) (k : ℕ) (w w₁ w₂ : World sv)
      → issue sv id email w ≡ (ok tt, w₁)
      → Guesses Guess Happening w₁ k w₂
      → k ≤ max_attempts
  verify-FiveGuesses email k w w₁ w₂ sent run =
      at_most Guess Happening (λ n. At sv (Leaves sv id n)) Guess-spends Happening-Leaves
        max_attempts k run (issue-Leaves sv id email w w₁ (ok tt) sent tt)
