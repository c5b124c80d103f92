-- ===== src/Auth/Totp/Guesses.antt =====
-- How often codes can be tried for a login challenge: `MAX_ATTEMPTS` of totp.service.ts over any run.
use elysiajs_production_api.Base.{
  ℕ, suc, ◌≤◌, ◌≡◌, refl, sym, ap, ◌∙◌, none, some, Option, Text, false, true, ◌==◌, inl, inr, ◌⊎◌,
  Bool-cases, ltb, arith,
}
use elysiajs_production_api.Errors.{
  Result, ok, err, app, Thrown, ◌>>=◌, >>=-of_ok, >>=-of_err, >>=-same, >>=-cases, throw-bind,
}
use elysiajs_production_api.Calls.{or_throw}
use elysiajs_production_api.Schema.{User}
use elysiajs_production_api.Services.{Services, World, view, key, mfa_challenge, mfa_attempts}
use elysiajs_production_api.Services.Actions.{cache_get, cache_incr, cache_del}
use elysiajs_production_api.Services.Triples.{At, in_the_end, bind-Keeps}
use elysiajs_production_api.Auth.Attempts.{compared-Left}
use elysiajs_production_api.Auth.Attempts.Calls.{later-Left}
use elysiajs_production_api.Auth.Attempts.Runs.{Guesses, at_most, DependsOnCode, IsAlike}
use elysiajs_production_api.Auth.Totp.{
  max_attempts, invalid_challenge, open_challenge, consume_login_challenge, create_login_challenge,
}
use elysiajs_production_api.Auth.Totp.Budget.{
  Leaves, go_on, try, go_on-Keeps, try-Keeps, consume_login_challenge-Keeps,
  create_login_challenge-Keeps, create_login_challenge-Leaves,
}

module _ (sv : Services) (id : ℕ) where
  -- An attempt at a challenge is let through: the challenge is stored, and the attempt is within the
  -- maximum.
  record IsLetThrough (w : World sv) : Type 0 where
    user_id : ℕ
    attempts : ℕ
    read_in : World sv
    counted_in : World sv
    stored : cache_get sv (key mfa_challenge id) w ≡ (ok (some user_id), read_in)
    counted : cache_incr sv (key mfa_attempts id) read_in ≡ (ok attempts, counted_in)
    few : attempts ≤ max_attempts

  -- A code is tried, with a token that has the digest, and the outcome depends on it; the call returns
  -- or throws.
  pub data Guess (w w' : World sv) : Type 0 where
    guess :
        (token code : Text) (r : Result User)
        → sv.sha256 token ≡ id
        → DependsOnCode (consume_login_challenge sv token) code w
        → consume_login_challenge sv token code w ≡ (r, w')
        → Guess w w'

  -- What may happen besides: an attempt at another challenge, or one whose outcome does not depend on
  -- the code; a challenge with another digest; and anything that leaves the challenge and its counter alone, with
  -- the clock going on. The calls may return or throw.
  pub data Happening (w w' : World sv) : Type 0 where
    tries :
        (token code : Text) (r : Result User)
        → ¬ ((sv.sha256 token ≡ id) × DependsOnCode (consume_login_challenge sv token) code w)
        → consume_login_challenge sv token code w ≡ (r, w')
        → Happening w w'
    creates :
        (user_id : ℕ) (r : Result Text)
        → (id == sv.sha256 (sv.random_token w.draws)) ≡ false
        → create_login_challenge sv user_id w ≡ (r, w')
        → Happening w w'
    elsewhere :
        (view sv w').cache (key mfa_challenge id) ≡ (view sv w).cache (key mfa_challenge id)
        → (view sv w').cache (key mfa_attempts id) ≡ (view sv w).cache (key mfa_attempts id)
        → w.now ≤ w'.now
        → Happening w w'

  Happening-Leaves :
      (n : ℕ) (w w' : World sv)
      → Happening w w'
      → At sv (Leaves sv id n) w
      → At sv (Leaves sv id n) w'
  Happening-Leaves n w w' (tries token code r far h) left =
      in_the_end sv (Leaves sv id n) w' r
        (consume_login_challenge-Keeps sv id n token code w w' r h left)
  Happening-Leaves n w w' (creates user_id r other h) left =
      in_the_end sv (Leaves sv id n) w' r
        (create_login_challenge-Keeps sv id n user_id w w' r other h left)
  Happening-Leaves n w w' (elsewhere same same' later) left =
      later-Left max_attempts sv mfa_challenge mfa_attempts refl refl id n (view sv w).cache
        (view sv w').cache w.now w'.now same same' later left

  open_challenge-stored :
      (user_id : ℕ) (w v : World sv)
      → cache_get sv (key mfa_challenge id) w ≡ (ok (some user_id), v)
      → open_challenge sv id w
        ≡ (cache_incr sv (key mfa_attempts id) >>= (λ attempts. go_on sv id id user_id attempts)) v
  unfolding open_challenge
  open_challenge-stored user_id w v get =
      >>=-of_ok (cache_get sv (key mfa_challenge id)) _ get
      ∙ >>=-of_ok (or_throw (some user_id) invalid_challenge) _ refl

  open_challenge-counted :
      (user_id attempts : ℕ) (w v u : World sv)
      → cache_get sv (key mfa_challenge id) w ≡ (ok (some user_id), v)
      → cache_incr sv (key mfa_attempts id) v ≡ (ok attempts, u)
      → open_challenge sv id w ≡ go_on sv id id user_id attempts u
  open_challenge-counted user_id attempts w v u get incr =
      open_challenge-stored user_id w v get ∙ >>=-of_ok (cache_incr sv (key mfa_attempts id)) _ incr

  -- A challenge that is not stored, whose attempts are used up, or that Redis fails, is not opened.
  go_on-throws :
      (user_id attempts : ℕ) (u : World sv)
      → ltb max_attempts attempts ≡ true
      → (e : Thrown) × (x : World sv) × (go_on sv id id user_id attempts u ≡ (err e, x))
  go_on-throws user_id attempts u many = rw many (
      >>=-cases (cache_del sv (key mfa_challenge id)) _ u
        (λ r. (e : Thrown) × (x : World sv) × (r ≡ (err e, x))) (λ a v h. (_, v, refl))
        (λ e v h. (e, v, refl)))

  opening_cases :
      (w : World sv)
      → IsLetThrough w ⊎ ((e : Thrown) × (x : World sv) × (open_challenge sv id w ≡ (err e, x)))
  unfolding open_challenge
  opening_cases w =
      read (cache_get sv (key mfa_challenge id) w).0 (cache_get sv (key mfa_challenge id) w).1 refl
    where
      count :
          (user_id : ℕ) (v : World sv) (r : Result ℕ) (u : World sv)
          → cache_get sv (key mfa_challenge id) w ≡ (ok (some user_id), v)
          → cache_incr sv (key mfa_attempts id) v ≡ (r, u)
          → IsLetThrough w ⊎ ((e : Thrown) × (x : World sv) × (open_challenge sv id w ≡ (err e, x)))
      count user_id v (err e) u get incr = inr (
        e,
        u,
        open_challenge-stored user_id w v get
            ∙ >>=-of_err (cache_incr sv (key mfa_attempts id)) _ incr,
      )
      count user_id v (ok attempts) u get incr = elim (Bool-cases (ltb max_attempts attempts)) [
        | inl many ↦
            let (e, x, k) = go_on-throws user_id attempts u many in
            inr (e, x, open_challenge-counted user_id attempts w v u get incr ∙ k)
        | inr few ↦ inl (record {
          user_id = user_id;
          attempts = attempts;
          read_in = v;
          counted_in = u;
          stored = get;
          counted = incr;
          few = ground arith;
        })
      ]

      read :
          (r : Result (Option ℕ)) (v : World sv)
          → cache_get sv (key mfa_challenge id) w ≡ (r, v)
          → IsLetThrough w ⊎ ((e : Thrown) × (x : World sv) × (open_challenge sv id w ≡ (err e, x)))
      read (err e) v get = inr (e, v, >>=-of_err (cache_get sv (key mfa_challenge id)) _ get)
      read (ok none) v get = inr (
        app invalid_challenge,
        v,
        >>=-of_ok (cache_get sv (key mfa_challenge id)) _ get ∙ throw-bind invalid_challenge _ v,
      )
      read (ok (some user_id)) v get =
          count user_id v (cache_incr sv (key mfa_attempts id) v).0
            (cache_incr sv (key mfa_attempts id) v).1 get refl

  consume-opened :
      (token code : Text) (w : World sv)
      → sv.sha256 token ≡ id
      → consume_login_challenge sv token code w ≡ (open_challenge sv id >>= try sv id id code) w
  unfolding consume_login_challenge
  consume-opened token code w e = ap (λ x. (open_challenge sv x >>= try sv id x code) w) e

  -- A challenge that is not opened ends in the same way for all codes.
  consume-IsAlike :
      (token : Text) (w x : World sv) (e : Thrown)
      → sv.sha256 token ≡ id
      → open_challenge sv id w ≡ (err e, x)
      → IsAlike (consume_login_challenge sv token) w
  consume-IsAlike token w x e same shut code other =
      consume-opened token other w same
      ∙ >>=-of_err (open_challenge sv id) _ shut
      ∙ sym (consume-opened token code w same ∙ >>=-of_err (open_challenge sv id) _ shut)

  consume-IsLetThrough :
      (token code : Text) (w : World sv) (e : sv.sha256 token ≡ id) (c : IsLetThrough w)
      → consume_login_challenge sv token code w
        ≡ (go_on sv id id c.user_id c.attempts >>= try sv id id code) c.counted_in
  consume-IsLetThrough token code w e c =
      consume-opened token code w e
      ∙ >>=-same (open_challenge sv id) (go_on sv id id c.user_id c.attempts) (try sv id id code)
          (open_challenge-counted c.user_id c.attempts w c.read_in c.counted_in c.stored c.counted)

  Guess-spends :
      (n : ℕ) (w w' : World sv)
      → Guess w w'
      → At sv (Leaves sv id n) w
      → (m : ℕ) × (n ≡ suc m) × At sv (Leaves sv id m) w'
  Guess-spends n w w' (guess token code r e (other, differs) h) left = elim (opening_cases w) [
    | inr (x, v, shut) ↦ absurd (differs (consume-IsAlike token w v x e shut code other))
    | inl c ↦
        let (m, less, left') =
          compared-Left max_attempts sv mfa_challenge mfa_attempts refl id n c.user_id c.attempts w
            c.read_in c.counted_in c.stored c.counted c.few left in
        (
          m,
          less,
          in_the_end sv (Leaves sv id m) w' r (
              bind-Keeps sv (Leaves sv id m) _ _ (go_on-Keeps sv id m id c.user_id c.attempts)
                (try-Keeps sv id m id code) c.counted_in w' r
                (sym (consume-IsLetThrough token code w e c) ∙ h) left'),
        )
  ]

module _ (sv : Services) where
  -- Once a login challenge has been created, at most five attempts to answer it have an outcome that
  -- depends on the code that is tried: with some other code it would not be the same. That holds over any sequence of attempts and new challenges, returning or throwing, and of
  -- other work that leaves the challenge and its counter alone, if the clock does not go back and no
  -- challenge with the same digest is created anew.
  pub consume_login_challenge-FiveGuesses :
      (user_id k : ℕ) (token : Text) (w w₁ w₂ : World sv)
      → create_login_challenge sv user_id w ≡ (ok token, w₁)
      → Guesses (Guess sv (sv.sha256 token)) (Happening sv (sv.sha256 token)) w₁ k w₂
      → k ≤ max_attempts
  consume_login_challenge-FiveGuesses user_id k token w w₁ w₂ created run =
      at_most (Guess sv (sv.sha256 token)) (Happening sv (sv.sha256 token))
        (λ n. At sv (Leaves sv (sv.sha256 token) n)) (Guess-spends sv (sv.sha256 token))
        (Happening-Leaves sv (sv.sha256 token)) max_attempts k run
        (create_login_challenge-Leaves sv user_id token w w₁ created)
