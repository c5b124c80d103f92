-- ===== src/Auth/Totp/Replay.antt =====
-- A time step that was accepted is not accepted again: `lastCounterKey` of totp.service.ts, which is
-- kept for three periods.
pub mod Steps
pub mod Runs
use mathlib.Core.Path.{subst}
use elysiajs_production_api.Base.{
  ℕ, suc, ◌≡◌, ◌≤◌, ◌<◌, ◌*◌, refl, sym, ap, ◌∙◌, true, false, not, none, some, Option, Text, ◌==◌,
  inl, inr, Bool-cases, if◌then◌else◌, arith, ltb,
}
use elysiajs_production_api.Errors.{app, unauthorized, Result, ok, err, ◌>>=◌, Call}
use elysiajs_production_api.Schema.{User}
use elysiajs_production_api.Services.{
  Services, World, View, view, Key, key, key_eq, Prefix, mfa_challenge, mfa_attempts, totp_last,
  Entries, Entry, Drift, put, entry_of, value_at, bumped, rank,
}
use elysiajs_production_api.Services.Actions.{cache_get, cache_set, cache_del, cache_incr}
use elysiajs_production_api.Services.Triples.{
  At, Post, Keeps, Ensures, bind-Keeps, bind-Ensures, returns-Keeps, returns-Ensures, or_throws,
  or_returns, throws-Ensures, if-Keeps, or_throw-Keeps, or_throw-Ensures, require-Keeps,
  require-Ensures,
}
use elysiajs_production_api.Services.Triples.Statements.{
  read_clock-Reads, cache_get-Keeps, cache_get-Reads, find_user-Keeps, cache_set-Ensures,
  cache_del-Ensures, cache_incr-Keeps,
}
use elysiajs_production_api.Auth.Accounts.{find_by_id}
use elysiajs_production_api.Auth.Attempts.{key_eq-same, key_eq-other, key_eq-apart}
use elysiajs_production_api.Auth.Totp.{
  max_attempts, text_or_empty, period_seconds, is_replay, counter_at, accepted_counter,
  enrolled_user, open_challenge, validate_code, close_challenge, consume_login_challenge,
}
use elysiajs_production_api.Auth.Totp.Budget.{go_on, try}
use Steps.{IsSpent, IsSpent-counter_at, accepted-IsSpent, accepted-counter_at}

module _ (sv : Services) (id c : ℕ) where
  -- The step `c` is spent for the user `id`.
  abbrev pub Spent : Entries → ℕ → Type 0
  Spent m now = IsSpent c (m (key totp_last id)) now

  put-Spent :
      (m : Entries) (now : ℕ) (k : Key) (x : Option Entry)
      → key_eq (key totp_last id) k ≡ false
      → Spent m now
      → Spent (put m k x) now
  put-Spent m now k x apart h = rw (apart, if◌then◌else◌) h

  -- The keys of the challenges are others.
  del-Keeps : (p : Prefix) (n : ℕ) → (8 == rank p) ≡ false → Keeps sv Spent (cache_del sv (key p n))
  del-Keeps p n apart =
      cache_del-Ensures sv Spent Spent Spent (key p n)
        (λ m now. put-Spent m now (key p n) none (key_eq-apart totp_last p id n apart))
        (λ m now h. h) (λ m now h. h)

  incr-Keeps : (n : ℕ) → Keeps sv Spent (cache_incr sv (key mfa_attempts n))
  incr-Keeps n = cache_incr-Keeps sv Spent (key mfa_attempts n) (λ m now.
      put-Spent m now (key mfa_attempts n) (some (bumped m now (key mfa_attempts n)))
        (key_eq-apart totp_last mfa_attempts id n refl))

  -- A counter that was accepted at the time.
  abbrev Stepped : ℕ → Entries → ℕ → Type 0
  Stepped counter m now = Spent m now × ((d : Drift) × (counter ≡ counter_at now d))

  abbrev Validated : Option ℕ → Entries → ℕ → Type 0
  Validated o m now = Spent m now × ((d : Option Drift) × (o ≡ accepted_counter d now))

  -- What is known when the last step has been read, and when it is no replay.
  abbrev Read : ℕ → ℕ → Option ℕ → Entries → ℕ → Type 0
  Read user_id counter last m now =
      Stepped counter m now × (last ≡ value_at m now (key totp_last user_id))

  abbrev Later : ℕ → ℕ → Option ℕ → Entries → ℕ → Type 0
  Later user_id counter last m now =
      Read user_id counter last m now × (not (is_replay last counter) ≡ true)

  validate_code-Ensures :
      (secret : Option Text) (code : Text)
      → Ensures sv Spent (validate_code sv secret code) Validated Spent
  unfolding validate_code
  validate_code-Ensures secret code =
      bind-Ensures sv Spent Spent (λ t m now. Spent m now × (t ≡ now)) Validated _ _
        (read_clock-Reads sv Spent)
        (λ t.
          returns-Ensures sv (λ m now. Spent m now × (t ≡ now)) Validated Spent _
            (λ m now p. (
              p.0,
              (
                sv.validate_totp (text_or_empty secret) code t,
                ap (accepted_counter (sv.validate_totp (text_or_empty secret) code t)) p.1,
              ),
            )))

  remember_own :
      (counter : ℕ) (m : Entries) (now : ℕ)
      → Stepped counter m now
      → is_replay (value_at m now (key totp_last id)) counter ≡ false
      → Spent
          (put m (key totp_last id) (some (entry_of counter (some (period_seconds * 3)) now)))
          now
  remember_own counter m now (spent, step) fresh =
      let (d, is) = step in
      let later =
        IsSpent-counter_at c now (m (key totp_last id)) d spent
          (subst (λ x. is_replay (value_at m now (key totp_last id)) x ≡ false) is fresh) in
      rw (key_eq-same totp_last id id (ground arith), if◌then◌else◌)
        (subst (λ x. IsSpent c (some (entry_of x (some (period_seconds * 3)) now)) now) (sym is)
          (accepted-IsSpent c now d (omega arith)))

  -- Remembering a later step keeps the step spent, of this user or of another.
  remember-Spent :
      (user_id counter : ℕ) (m : Entries) (now : ℕ)
      → Stepped counter m now
      → is_replay (value_at m now (key totp_last user_id)) counter ≡ false
      → Spent
          (put m (key totp_last user_id) (some (entry_of counter (some (period_seconds * 3)) now)))
          now
  remember-Spent user_id counter m now (spent, step) fresh = elim (Bool-cases (id == user_id)) [
    | inl same ↦
        (subst
            (λ u.
              is_replay (value_at m now (key totp_last u)) counter ≡ false
              → Spent
                  (put m (key totp_last u)
                    (some (entry_of counter (some (period_seconds * 3)) now)))
                  now)
            (ground arith) (remember_own counter m now (spent, step)))
          fresh
    | inr other ↦
        put-Spent m now (key totp_last user_id) _
          (key_eq-other totp_last totp_last id user_id other) spent
  ]

  close_challenge-Ensures :
      (hash user_id : ℕ) (user : User) (counter : ℕ)
      → Ensures sv
          (Stepped counter)
          (close_challenge sv hash user_id user counter)
          (λ u. Spent)
          Spent
  unfolding close_challenge
  close_challenge-Ensures hash user_id user counter =
      let k = key totp_last user_id in
      bind-Ensures sv (Stepped counter) Spent (Read user_id counter) (λ u. Spent) _ _
        (or_throws sv (Stepped counter) (Read user_id counter) (Stepped counter) Spent _
          (cache_get-Reads sv (Stepped counter) k) (λ m now p. p.0))
        (λ last.
          bind-Ensures sv (Read user_id counter last) Spent (λ u. Later user_id counter last)
            (λ u. Spent) _ _
            (or_throws sv (Read user_id counter last) (λ u. Later user_id counter last)
              (Read user_id counter last) Spent _
              (require-Ensures sv (Read user_id counter last) (not (is_replay last counter)) _)
              (λ m now p. p.0.0))
            (λ u.
              bind-Ensures sv (Later user_id counter last) Spent (λ a. Spent) (λ b. Spent) _ _
                (cache_set-Ensures sv (Later user_id counter last) Spent Spent k counter
                  (some (period_seconds * 3))
                  (λ m now p. remember-Spent user_id counter m now p.0.0 (fresh last m now p))
                  (λ m now p. p.0.0.0) (λ m now p. p))
                (λ a. bind-Keeps sv Spent _ _ (del-Keeps mfa_challenge hash refl) (λ b.
                  bind-Keeps sv Spent _ _ (del-Keeps mfa_attempts hash refl)
                    (λ d. returns-Keeps sv Spent (ok user))))))
    where
      fresh :
          (last : Option ℕ) (m : Entries) (now : ℕ)
          → Later user_id counter last m now
          → is_replay (value_at m now (key totp_last user_id)) counter ≡ false
      fresh last m now p =
          subst (λ x. is_replay x counter ≡ false) p.0.1 (let n = p.1 in ground arith)

  try-Keeps :
      (hash : ℕ) (code : Text) (opened : ℕ × User) → Keeps sv Spent (try sv id hash code opened)
  try-Keeps hash code (user_id, user) =
      bind-Ensures sv Spent Spent Validated (λ u. Spent) _ _
        (validate_code-Ensures user.totp_secret code)
        (λ accepted.
          bind-Ensures sv (Validated accepted) Spent Stepped (λ u. Spent) _ _
            (or_throws sv (Validated accepted) Stepped (Validated accepted) Spent _
              (or_returns sv (Validated accepted)
                (λ a m now. Validated accepted m now × (accepted ≡ some a)) Stepped
                (Validated accepted) _ (or_throw-Ensures sv (Validated accepted) accepted _)
                (λ counter m now p.
                  (p.0.0, accepted-counter_at p.0.1.0 now counter (sym p.0.1.1 ∙ p.1))))
              (λ m now p. p.0))
            (λ counter. close_challenge-Ensures hash user_id user counter))

  open_challenge-Keeps : (hash : ℕ) → Keeps sv Spent (open_challenge sv hash)
  unfolding open_challenge enrolled_user find_by_id
  open_challenge-Keeps hash = bind-Keeps sv Spent _ _ (cache_get-Keeps sv Spent _) (λ stored.
      bind-Keeps sv Spent _ _ (or_throw-Keeps sv Spent stored _) (λ user_id.
        bind-Keeps sv Spent _ _ (incr-Keeps hash) (λ attempts.
          if-Keeps sv Spent (ltb max_attempts attempts) _ _
            (bind-Keeps sv Spent _ _ (del-Keeps mfa_challenge hash refl)
              (λ a. returns-Keeps sv Spent (err (app _))))
            (bind-Keeps sv Spent _ _ (find_user-Keeps sv Spent _) (λ found.
              bind-Keeps sv Spent _ _ (or_throw-Keeps sv Spent found _) (λ user.
                bind-Keeps sv Spent _ _ (require-Keeps sv Spent _ _)
                  (λ u. returns-Keeps sv Spent (ok (user_id, user)))))))))

  -- A login with a second factor, whether it returns or throws, keeps the step spent.
  pub consume_login_challenge-Keeps :
      (token code : Text) → Keeps sv Spent (consume_login_challenge sv token code)
  unfolding consume_login_challenge
  consume_login_challenge-Keeps token code =
      bind-Keeps sv Spent _ _ (open_challenge-Keeps (sv.sha256 token))
        (λ opened. try-Keeps (sv.sha256 token) code opened)
