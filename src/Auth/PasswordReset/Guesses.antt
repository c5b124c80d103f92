-- ===== src/Auth/PasswordReset/Guesses.antt =====
-- How often a reset code can be guessed at: `MAX_ATTEMPTS` of password-reset.service.ts over any run.
use mathlib.Core.Path.{subst}
use elysiajs_production_api.Base.{
  ℕ, ◌≤◌, ◌≡◌, refl, sym, suc, none, some, Option, Text, ◌∙◌, inl, inr, ◌⊎◌, true, Bool-cases, ltb,
  arith,
}
use elysiajs_production_api.Errors.{Result, ok, err, ◌>>=◌, >>=-of_err, >>=-same, throw-bind}
use elysiajs_production_api.Schema.{User}
use elysiajs_production_api.Services.{Services, World, view, Finds, key, reset_code, reset_attempts}
use elysiajs_production_api.Services.Actions.{cache_get, cache_incr}
use elysiajs_production_api.Services.Triples.{At, in_the_end, bind-Keeps}
use elysiajs_production_api.Auth.Accounts.{has_email, find_by_email}
use elysiajs_production_api.Auth.Attempts.{compared-Left}
use elysiajs_production_api.Auth.Attempts.Calls.{later-Left}
use elysiajs_production_api.Auth.Attempts.Runs.{Guesses, at_most, DependsOnCode, IsAlike}
use elysiajs_production_api.Auth.PasswordReset.{
  invalid, max_attempts, send_code, request, match_code, check_reset, apply_reset, reset,
}
use elysiajs_production_api.Auth.PasswordReset.Steps.{
  check_reset-addressed, check_reset-stored, check_reset-counting, check_reset-counted,
}
use elysiajs_production_api.Auth.PasswordReset.Budget.{
  Leaves, IsSpared, reset-Keeps, request-KeepsFrom, send_code-Leaves, find_by_email-Keeps,
  match_code-Keeps, apply_reset-Keeps,
}

module _ (sv : Services) (id : ℕ) where
  -- The address is that of the user.
  pub record IsAddressed (email : Text) (w : World sv) : Type 0 where
    pub user : User
    pub found_in : World sv
    pub found : find_by_email sv email w ≡ (ok (some user), found_in)
    pub is_user : user.id ≡ id

  -- A reset gets as far as the comparison of the code with the one that is stored for the user: a code
  -- is stored, and the attempt is within the maximum.
  record IsCompared (user : User) (w : World sv) : Type 0 where
    digest : ℕ
    attempts : ℕ
    read_in : World sv
    counted_in : World sv
    stored : cache_get sv (key reset_code user.id) w ≡ (ok (some digest), read_in)
    counted : cache_incr sv (key reset_attempts user.id) read_in ≡ (ok attempts, counted_in)
    few : attempts ≤ max_attempts

  -- A reset for the user, returning or throwing, whose outcome depends on the code.
  pub data Guess (w w' : World sv) : Type 0 where
    guess :
        (email code new_password : Text) (r : Result (Unit {0}))
        → IsAddressed email w
        → DependsOnCode (λ code. reset sv email code new_password) code w
        → reset sv email code new_password w ≡ (r, w')
        → Guess w w'

  -- What may happen besides: a reset that is not for the user, or whose outcome does not depend on the
  -- code; a request for a code that is not for the user, or comes within the cooldown; and anything that leaves the
  -- user's code and counter alone, with the clock going on. The calls may return or throw.
  pub data Happening (w w' : World sv) : Type 0 where
    resets :
        (email code new_password : Text) (r : Result (Unit {0}))
        → ¬ (IsAddressed email w × DependsOnCode (λ code. reset sv email code new_password) code w)
        → reset sv email code new_password w ≡ (r, w')
        → Happening w w'
    requests :
        (email : Text) (r : Result (Unit {0}))
        → ((u : User)
            → Finds (has_email email) (view sv w).users (some u)
            → IsSpared sv id u (view sv w))
        → request sv email w ≡ (r, w')
        → Happening w w'
    elsewhere :
        (view sv w').cache (key reset_code id) ≡ (view sv w).cache (key reset_code id)
        → (view sv w').cache (key reset_attempts id) ≡ (view sv w).cache (key reset_attempts id)
        → w.now ≤ w'.now
        → Happening w w'

  Happening-Leaves :
      (n : ℕ) (w w' : World sv)
      → Happening w w'
      → At sv (Leaves sv id n) w
      → At sv (Leaves sv id n) w'
  Happening-Leaves n w w' (resets email code new_password r far h) left =
      in_the_end sv (Leaves sv id n) w' r
        (reset-Keeps sv id n email code new_password w w' r h left)
  Happening-Leaves n w w' (requests email r spared h) left =
      in_the_end sv (Leaves sv id n) w' r (request-KeepsFrom sv id n email w spared w' r h left)
  Happening-Leaves n w w' (elsewhere same same' later) left =
      later-Left max_attempts sv reset_code reset_attempts refl refl id n (view sv w).cache
        (view sv w').cache w.now w'.now same same' later left

  module _ (email : Text) (user : User) (w f : World sv)
      (found : find_by_email sv email w ≡ (ok (some user), f)) where
    refused :
        (digest attempts : ℕ) (u : World sv) (code other : Text)
        → ltb max_attempts attempts ≡ true
        → match_code sv user other digest attempts u ≡ match_code sv user code digest attempts u
    unfolding match_code
    refused digest attempts u code other many = rw many refl

    -- Only a comparison makes the outcome depend on the code: a call that finds no code, that is
    -- refused for too many attempts, or that Redis fails, ends in the same way for all codes.
    comparison_cases : IsCompared user f ⊎ IsAlike (check_reset sv email) w
    comparison_cases =
        read (cache_get sv (key reset_code user.id) f).0 (cache_get sv (key reset_code user.id) f).1
          refl
      where
        count :
            (digest : ℕ) (v : World sv) (r : Result ℕ) (u : World sv)
            → cache_get sv (key reset_code user.id) f ≡ (ok (some digest), v)
            → cache_incr sv (key reset_attempts user.id) v ≡ (r, u)
            → IsCompared user f ⊎ IsAlike (check_reset sv email) w
        count digest v (err e) u get incr = inr (λ code other.
            check_reset-counting sv email user w f found other digest v get
            ∙ >>=-of_err (cache_incr sv (key reset_attempts user.id)) _ incr
            ∙ sym (
                check_reset-counting sv email user w f found code digest v get
                ∙ >>=-of_err (cache_incr sv (key reset_attempts user.id)) _ incr))
        count digest v (ok attempts) u get incr = elim (Bool-cases (ltb max_attempts attempts)) [
          | inl many ↦ inr (λ code other.
              check_reset-counted sv email user w f found other digest attempts v u get incr
              ∙ refused digest attempts u code other many
              ∙ sym (check_reset-counted sv email user w f found code digest attempts v u get incr))
          | inr few ↦ inl (record {
            digest = digest;
            attempts = attempts;
            read_in = v;
            counted_in = u;
            stored = get;
            counted = incr;
            few = ground arith;
          })
        ]

        read :
            (r : Result (Option ℕ)) (v : World sv)
            → cache_get sv (key reset_code user.id) f ≡ (r, v)
            → IsCompared user f ⊎ IsAlike (check_reset sv email) w
        read (err e) v get = inr (λ code other.
            check_reset-addressed sv email user w f found other
            ∙ >>=-of_err (cache_get sv (key reset_code user.id)) _ get
            ∙ sym (
                check_reset-addressed sv email user w f found code
                ∙ >>=-of_err (cache_get sv (key reset_code user.id)) _ get))
        read (ok none) v get = inr (λ code other.
            check_reset-stored sv email user w f found other none v get
            ∙ throw-bind invalid _ v
            ∙ sym (
                check_reset-stored sv email user w f found code none v get
                ∙ throw-bind invalid _ v))
        read (ok (some digest)) v get =
            count digest v (cache_incr sv (key reset_attempts user.id) v).0
              (cache_incr sv (key reset_attempts user.id) v).1 get refl

    reset-IsAlike :
        (password : Text)
        → IsAlike (check_reset sv email) w
        → IsAlike (λ code. reset sv email code password) w
    unfolding reset
    reset-IsAlike password alike code other =
        >>=-same (check_reset sv email other) (check_reset sv email code)
          (λ user. apply_reset sv user password) (alike code other)

    -- Then the reset goes on with the comparison.
    reset-compared :
        (code password : Text) (c : IsCompared user f)
        → reset sv email code password w
          ≡ (match_code sv user code c.digest c.attempts >>= (λ user. apply_reset sv user password))
              c.counted_in
    unfolding reset
    reset-compared code password c =
        >>=-same (check_reset sv email code) (match_code sv user code c.digest c.attempts)
          (λ user. apply_reset sv user password)
          (check_reset-counted sv email user w f found code c.digest c.attempts c.read_in
            c.counted_in c.stored c.counted)

  Guess-spends :
      (n : ℕ) (w w' : World sv)
      → Guess w w'
      → At sv (Leaves sv id n) w
      → (m : ℕ) × (n ≡ suc m) × At sv (Leaves sv id m) w'
  Guess-spends n w w' (guess email code new_password r a (other, differs) h) left =
      elim (comparison_cases email a.user w a.found_in a.found) [
        | inr alike ↦ absurd (
            differs (reset-IsAlike email a.user w a.found_in a.found new_password alike code other))
        | inl c ↦
            let (m, less, left') =
              compared-Left max_attempts sv reset_code reset_attempts refl id n c.digest c.attempts
                a.found_in c.read_in c.counted_in
                (subst
                  (λ i.
                    cache_get sv (key reset_code i) a.found_in ≡ (ok (some c.digest), c.read_in))
                  a.is_user c.stored)
                (subst
                  (λ i.
                    cache_incr sv (key reset_attempts i) c.read_in ≡ (ok c.attempts, c.counted_in))
                  a.is_user c.counted)
                c.few
                (find_by_email-Keeps sv id n email w a.found_in (ok (some a.user)) a.found left) in
            (
              m,
              less,
              in_the_end sv (Leaves sv id m) w' r (
                  bind-Keeps sv (Leaves sv id m) _ _
                    (match_code-Keeps sv id m a.user code c.digest c.attempts)
                    (λ user. apply_reset-Keeps sv id m user new_password) c.counted_in w' r
                    (sym (reset-compared email a.user w a.found_in a.found code new_password c) ∙ h)
                    left'),
            )
      ]

module _ (sv : Services) where
  -- Once a code has been sent to a user, at most five resets with the user's address have an outcome
  -- that depends on the code that is tried: with some other code it would not be the same. That holds over any sequence of resets and requests, returning or throwing, and of other work that leaves the
  -- user's code and counter alone, if the clock does not go back and the user is sent no other code.
  pub reset-FiveGuesses :
      (user : User) (email : Text) (k : ℕ) (w w₁ w₂ : World sv)
      → send_code sv user email w ≡ (ok tt, w₁)
      → Guesses (Guess sv user.id) (Happening sv user.id) w₁ k w₂
      → k ≤ max_attempts
  reset-FiveGuesses user email k w w₁ w₂ sent run =
      at_most (Guess sv user.id) (Happening sv user.id) (λ n. At sv (Leaves sv user.id n))
        (Guess-spends sv user.id) (Happening-Leaves sv user.id) max_attempts k run
        (send_code-Leaves sv user email w w₁ (ok tt) sent tt)
