-- ===== src/Auth/Totp/Budget.antt =====
-- What each call of the login challenge in totp.service.ts leaves of the attempts at a challenge.
use mathlib.Core.Path.{subst}
use elysiajs_production_api.Base.{
  ℕ, suc, ◌≡◌, refl, sym, ◌∙◌, false, not, some, Text, ltb, ◌==◌, ◌*◌, if◌then◌else◌,
}
use elysiajs_production_api.Errors.{
  unauthorized, Result, ok, Call, pure, throw, ◌>>=◌, ◌>>◌, >>=-eq-ok, ok_value,
}
use elysiajs_production_api.Calls.{or_throw}
use elysiajs_production_api.Schema.{User}
use elysiajs_production_api.Services.{
  Services, World, key, mfa_challenge, mfa_attempts, totp_last, Entries,
}
use elysiajs_production_api.Services.Actions.{cache_set, cache_del, draw-bind}
use elysiajs_production_api.Services.Triples.{
  At, Post, Keeps, bind-Keeps, returns-Keeps, if-Keeps, or_throw-Keeps, require-Keeps,
}
use elysiajs_production_api.Services.Triples.Statements.{
  read_clock-Keeps, cache_get-Keeps, find_user-Keeps,
}
use elysiajs_production_api.Auth.Accounts.{find_by_id}
use elysiajs_production_api.Auth.Attempts.{Left, key_eq-other, key_eq-apart}
use elysiajs_production_api.Auth.Attempts.Calls.{
  consume-Keeps, refuse-Keeps, count-Keeps, set-Keeps, fresh-Ensures,
}
use elysiajs_production_api.Auth.Totp.{
  max_attempts, challenge_ttl_seconds, period_seconds, is_replay, enrolled_user, open_challenge,
  validate_code, close_challenge, consume_login_challenge, create_login_challenge,
}

module _ (sv : Services) (id : ℕ) where
  -- At most `n` codes can be tried for the challenge with the digest `id`.
  abbrev pub Leaves : ℕ → Entries → ℕ → Type 0
  Leaves = Left max_attempts sv mfa_challenge mfa_attempts refl id

  -- What follows once the attempt is counted.
  abbrev pub go_on : ℕ → ℕ → ℕ → Call (World sv) (ℕ × User)
  go_on hash user_id attempts =
      if ltb max_attempts attempts
      then (do
        cache_del sv (key mfa_challenge hash)
        throw (unauthorized "Too many attempts — log in again to get a new challenge"))
      else enrolled_user sv user_id

  -- What follows once the challenge is open.
  abbrev pub try : ℕ → Text → ℕ × User → Call (World sv) User
  try hash code (user_id, user) = do
    accepted ← validate_code sv user.totp_secret code
    counter ← or_throw accepted (unauthorized "Invalid code")
    close_challenge sv hash user_id user counter

  module _ (n : ℕ) where
    abbrev Here : Entries → ℕ → Type 0
    Here = Leaves n

    enrolled_user-Keeps : (user_id : ℕ) → Keeps sv Here (enrolled_user sv user_id)
    unfolding enrolled_user find_by_id
    enrolled_user-Keeps user_id = bind-Keeps sv Here _ _ (find_user-Keeps sv Here _) (λ found.
        bind-Keeps sv Here _ _ (or_throw-Keeps sv Here found _) (λ user.
          bind-Keeps sv Here _ _ (require-Keeps sv Here _ _)
            (λ u. returns-Keeps sv Here (ok (user_id, user)))))

    pub go_on-Keeps : (hash user_id attempts : ℕ) → Keeps sv Here (go_on hash user_id attempts)
    go_on-Keeps hash user_id attempts =
        if-Keeps sv Here (ltb max_attempts attempts) _ _
          (refuse-Keeps max_attempts sv mfa_challenge mfa_attempts refl refl id n hash _)
          (enrolled_user-Keeps user_id)

    open_challenge-Keeps : (hash : ℕ) → Keeps sv Here (open_challenge sv hash)
    unfolding open_challenge
    open_challenge-Keeps hash = bind-Keeps sv Here _ _ (cache_get-Keeps sv Here _) (λ stored.
        bind-Keeps sv Here _ _ (or_throw-Keeps sv Here stored _) (λ user_id.
          bind-Keeps sv Here _ _
            (count-Keeps max_attempts sv mfa_challenge mfa_attempts refl refl id n hash)
            (λ attempts. go_on-Keeps hash user_id attempts)))

    close_challenge-Keeps :
        (hash user_id : ℕ) (user : User) (counter : ℕ)
        → Keeps sv Here (close_challenge sv hash user_id user counter)
    unfolding close_challenge
    close_challenge-Keeps hash user_id user counter =
        bind-Keeps sv Here _ _ (cache_get-Keeps sv Here _) (λ last.
          bind-Keeps sv Here _ _ (require-Keeps sv Here (not (is_replay last counter)) _) (λ u.
            bind-Keeps sv Here _ _
              (set-Keeps max_attempts sv mfa_challenge mfa_attempts refl refl id n totp_last user_id
                counter (some (period_seconds * 3))
                (key_eq-apart mfa_challenge totp_last id user_id refl)
                (key_eq-apart mfa_attempts totp_last id user_id refl))
              (λ a.
                consume-Keeps max_attempts sv mfa_challenge mfa_attempts refl refl id n hash user)))

    pub try-Keeps :
        (hash : ℕ) (code : Text) (opened : ℕ × User) → Keeps sv Here (try hash code opened)
    unfolding validate_code
    try-Keeps hash code (user_id, user) =
        bind-Keeps sv Here _ _
          (bind-Keeps sv Here _ _ (read_clock-Keeps sv Here) (λ now. returns-Keeps sv Here (ok _)))
          (λ accepted.
            bind-Keeps sv Here _ _ (or_throw-Keeps sv Here accepted _)
              (λ counter. close_challenge-Keeps hash user_id user counter))

    pub consume_login_challenge-Keeps :
        (token code : Text) → Keeps sv Here (consume_login_challenge sv token code)
    unfolding consume_login_challenge
    consume_login_challenge-Keeps token code =
        bind-Keeps sv Here _ _ (open_challenge-Keeps (sv.sha256 token))
          (λ opened. try-Keeps (sv.sha256 token) code opened)

    -- A challenge with another digest.
    pub create_login_challenge-Keeps :
        (user_id : ℕ) (w w' : World sv) (r : Result Text)
        → (id == sv.sha256 (sv.random_token w.draws)) ≡ false
        → create_login_challenge sv user_id w ≡ (r, w')
        → At sv Here w
        → Post sv (λ a. Here) Here r w'
    unfolding create_login_challenge
    create_login_challenge-Keeps user_id w w' r other h left =
        bind-Keeps sv Here _ _ (sets mfa_challenge _)
          (λ a. bind-Keeps sv Here _ _ (sets mfa_attempts _) (λ b. returns-Keeps sv Here (ok _)))
          (record w { draws = suc w.draws }) w' r (sym (draw-bind sv _ w) ∙ h) left
      where
        sets :
            (p : _) (v : ℕ)
            → Keeps sv Here (
                cache_set sv
                  (key p (sv.sha256 (sv.random_token w.draws)))
                  v
                  (some challenge_ttl_seconds))
        sets p v =
            set-Keeps max_attempts sv mfa_challenge mfa_attempts refl refl id n p _ v
              (some challenge_ttl_seconds) (key_eq-other mfa_challenge p id _ other)
              (key_eq-other mfa_attempts p id _ other)

module _ (sv : Services) where
  -- A challenge that is handed out can be tried five times.
  pub create_login_challenge-Leaves :
      (user_id : ℕ) (token : Text) (w w' : World sv)
      → create_login_challenge sv user_id w ≡ (ok token, w')
      → At sv (Leaves sv (sv.sha256 token) max_attempts) w'
  unfolding create_login_challenge
  create_login_challenge-Leaves user_id token w w' h =
      let hash = sv.sha256 (sv.random_token w.draws) in
      let Full = Leaves sv hash max_attempts in
      let k = sym (draw-bind sv _ w) ∙ h in
      let (a, v, e, k') = >>=-eq-ok (cache_set sv (key mfa_challenge hash) user_id _) _ _ k in
      let (b, v', e', k'') = >>=-eq-ok (cache_set sv (key mfa_attempts hash) 0 _) _ v k' in
      subst (λ t. At sv (Leaves sv (sv.sha256 t) max_attempts) w') (ok_value k'')
        (fresh-Ensures max_attempts sv mfa_challenge mfa_attempts refl hash user_id
          challenge_ttl_seconds (pure (sv.random_token w.draws))
          (returns-Keeps sv Full (ok (sv.random_token w.draws))) (record w { draws = suc w.draws })
          w' (ok token) k tt)
