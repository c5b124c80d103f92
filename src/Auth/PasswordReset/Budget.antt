-- ===== src/Auth/PasswordReset/Budget.antt =====
-- What each call of password-reset.service.ts leaves of the attempts at a user's reset code.
use mathlib.Core.Path.{subst}
use elysiajs_production_api.Base.{
  ℕ, ◌≡◌, refl, sym, ◌∙◌, inl, inr, ◌⊎◌, true, false, not, none, some, Option, Text, ltb, ◌==◌,
  is_some, if◌then◌else◌,
}
use elysiajs_production_api.Errors.{app, Result, ok, err, Call, pure, ◌>>=◌, >>=-cases}
use elysiajs_production_api.Schema.{User}
use elysiajs_production_api.Services.{
  Services, World, View, view, Finds, key, reset_code, reset_attempts, reset_cooldown, Entries,
  value_at,
}
use elysiajs_production_api.Services.Actions.{cache_set, cache_exists}
use elysiajs_production_api.Services.Actions.Laws.{find_user-ok, cache_exists-ok}
use elysiajs_production_api.Services.Triples.{
  At, Anything, Post, Keeps, Ensures, bind-Keeps, bind-Ensures, returns-Keeps, if-Keeps,
  or_throw-Keeps,
}
use elysiajs_production_api.Services.Triples.Statements.{
  draw-Keeps, read_clock-Keeps, cache_get-Keeps, cache_exists-Keeps, find_user-Keeps,
  update_users-Keeps, delete_tokens-Keeps, add_email-Keeps, record_audit-Keeps,
}
use elysiajs_production_api.Auth.Accounts.{has_email, find_by_email, update_password}
use elysiajs_production_api.Auth.Tokens.{revoke_all_refresh_tokens}
use elysiajs_production_api.Auth.Attempts.{Left, key_eq-other, key_eq-apart}
use elysiajs_production_api.Auth.Attempts.Calls.{
  consume-Keeps, refuse-Keeps, count-Keeps, set-Keeps, fresh-Ensures,
}
use elysiajs_production_api.Auth.PasswordReset.{
  max_attempts, ttl_seconds, cooldown_seconds, invalid, send_code, request, match_code, check_reset,
  apply_reset, reset,
}

module _ (sv : Services) where
  find_by_email-ok :
      (email : Text) (w w' : World sv) (found : Option User)
      → find_by_email sv email w ≡ (ok found, w')
      → Finds (has_email email) (view sv w).users found × (view sv w' ≡ view sv w)
  unfolding find_by_email
  find_by_email-ok email = find_user-ok sv (has_email email)

module _ (sv : Services) (id : ℕ) where
  -- At most `n` comparisons with the code of the user `id` are left.
  abbrev pub Leaves : ℕ → Entries → ℕ → Type 0
  Leaves = Left max_attempts sv reset_code reset_attempts refl id

  -- The user is another, or was sent a code within the cooldown.
  abbrev pub IsSpared : User → View → Type 0
  IsSpared user v =
      ((id == user.id) ≡ false)
      ⊎ (is_some (value_at v.cache v.now (key reset_cooldown user.id)) ≡ true)

  module _ (n : ℕ) where
    abbrev Here : Entries → ℕ → Type 0
    Here = Leaves n

    pub find_by_email-Keeps : (email : Text) → Keeps sv Here (find_by_email sv email)
    unfolding find_by_email
    find_by_email-Keeps email = find_user-Keeps sv Here (has_email email)

    pub match_code-Keeps :
        (user : User) (code : Text) (digest attempts : ℕ)
        → Keeps sv Here (match_code sv user code digest attempts)
    unfolding match_code
    match_code-Keeps user code digest attempts =
        if-Keeps sv Here (ltb max_attempts attempts) _ _
          (refuse-Keeps max_attempts sv reset_code reset_attempts refl refl id n user.id _)
          (if-Keeps sv Here (not (sv.sha256 code == digest)) _ _
            (returns-Keeps sv Here (err (app invalid)))
            (consume-Keeps max_attempts sv reset_code reset_attempts refl refl id n user.id user))

    check_reset-Keeps : (email code : Text) → Keeps sv Here (check_reset sv email code)
    unfolding check_reset
    check_reset-Keeps email code = bind-Keeps sv Here _ _ (find_by_email-Keeps email) (λ found.
        bind-Keeps sv Here _ _ (or_throw-Keeps sv Here found _) (λ user.
          bind-Keeps sv Here _ _ (cache_get-Keeps sv Here _) (λ stored.
            bind-Keeps sv Here _ _ (or_throw-Keeps sv Here stored _) (λ digest.
              bind-Keeps sv Here _ _
                (count-Keeps max_attempts sv reset_code reset_attempts refl refl id n user.id)
                (λ attempts. match_code-Keeps user code digest attempts)))))

    pub apply_reset-Keeps :
        (user : User) (password : Text) → Keeps sv Here (apply_reset sv user password)
    unfolding apply_reset update_password revoke_all_refresh_tokens
    apply_reset-Keeps user password =
        bind-Keeps sv Here _ _
          (bind-Keeps sv Here _ _ (draw-Keeps sv Here) (λ d.
            bind-Keeps sv Here _ _ (read_clock-Keeps sv Here) (λ now.
              bind-Keeps sv Here _ _ (update_users-Keeps sv Here _ _)
                (λ l. returns-Keeps sv Here (ok tt)))))
          (λ a.
            bind-Keeps sv Here _ _
              (bind-Keeps sv Here _ _ (delete_tokens-Keeps sv Here _)
                (λ l. returns-Keeps sv Here (ok tt)))
              (λ b. record_audit-Keeps sv Here _))

    pub reset-Keeps : (email code password : Text) → Keeps sv Here (reset sv email code password)
    unfolding reset
    reset-Keeps email code password =
        bind-Keeps sv Here _ _ (check_reset-Keeps email code)
          (λ user. apply_reset-Keeps user password)

    send_code-Keeps :
        (user : User) (email : Text)
        → (id == user.id) ≡ false
        → Keeps sv Here (send_code sv user email)
    unfolding send_code
    send_code-Keeps user email other = bind-Keeps sv Here _ _ (draw-Keeps sv Here) (λ d.
        bind-Keeps sv Here _ _ (sets reset_code _ _) (λ a.
          bind-Keeps sv Here _ _ (sets reset_attempts _ _) (λ b.
            bind-Keeps sv Here _ _ (sets reset_cooldown _ _) (λ c. add_email-Keeps sv Here _))))
      where
        sets : (p : _) (v : ℕ) (ttl : Option ℕ) → Keeps sv Here (cache_set sv (key p user.id) v ttl)
        sets p v ttl =
            set-Keeps max_attempts sv reset_code reset_attempts refl refl id n p user.id v ttl
              (key_eq-other reset_code p id user.id other)
              (key_eq-other reset_attempts p id user.id other)

    -- The call keeps what is left, from one state.
    abbrev pub KeepsFrom : {A : Type 0} → World sv → Call (World sv) A → Type 0
    KeepsFrom {A} w m =
        (w' : World sv) (r : Result A)
        → m w ≡ (r, w')
        → At sv Here w
        → Post sv (λ a. Here) Here r w'

    cooled-KeepsFrom :
        (user : User) (email : Text) (v : World sv)
        → is_some (value_at (view sv v).cache v.now (key reset_cooldown user.id)) ≡ true
        → KeepsFrom v (do
          cooling ← cache_exists sv (key reset_cooldown user.id)
          if cooling then pure tt else send_code sv user email)
    cooled-KeepsFrom user email v cooled w' r h left =
        >>=-cases (cache_exists sv (key reset_cooldown user.id)) _ v
          (λ x. x ≡ (r, w') → Post sv (λ a. Here) Here r w')
          (λ b u e k.
            let (is, same) = cache_exists-ok sv _ v u b e in
            let k' = (rw (is ∙ cooled, if◌then◌else◌) at k) in
            returns-Keeps sv Here (ok tt) u w' r k'
              (cache_exists-Keeps sv Here _ v u (ok b) e left))
          (λ x u e k.
            subst (λ y. Post sv (λ a. Here) Here y.0 y.1) k
              (cache_exists-Keeps sv Here _ v u (err x) e left))
          h

    answer-KeepsFrom :
        (found : Option User) (email : Text) (v : World sv)
        → ((u : User) → found ≡ some u → IsSpared u (view sv v))
        → KeepsFrom v (elim found [
          | none ↦ pure tt
          | some user ↦ do
            cooling ← cache_exists sv (key reset_cooldown user.id)
            if cooling then pure tt else send_code sv user email
        ])
    answer-KeepsFrom none email v spared w' r h left = returns-Keeps sv Here (ok tt) v w' r h left
    answer-KeepsFrom (some user) email v spared w' r h left = elim (spared user refl) [
      | inl other ↦
          bind-Keeps sv Here _ _ (cache_exists-Keeps sv Here _)
            (λ b.
              if-Keeps sv Here b _ _ (returns-Keeps sv Here (ok tt))
                (send_code-Keeps user email other))
            v w' r h left
      | inr cooled ↦ cooled-KeepsFrom user email v cooled w' r h left
    ]

    -- A request that sends the user no code, as the user is another or has had one lately.
    pub request-KeepsFrom :
        (email : Text) (w : World sv)
        → ((u : User) → Finds (has_email email) (view sv w).users (some u) → IsSpared u (view sv w))
        → KeepsFrom w (request sv email)
    unfolding request
    request-KeepsFrom email w spared w' r h left =
        >>=-cases (find_by_email sv email) _ w (λ x. x ≡ (r, w') → Post sv (λ a. Here) Here r w')
          (λ found v e k.
            let (is, same) = find_by_email-ok sv email w v found e in
            answer-KeepsFrom found email v
              (λ u this.
                subst (IsSpared u) (sym same)
                  (spared u (subst (Finds (has_email email) (view sv w).users) this is)))
              w' r k (find_by_email-Keeps email w v (ok found) e left))
          (λ x v e k.
            subst (λ y. Post sv (λ a. Here) Here y.0 y.1) k
              (find_by_email-Keeps email w v (err x) e left))
          h

module _ (sv : Services) where
  -- A code that is sent to the user can be compared with five times.
  pub send_code-Leaves :
      (user : User) (email : Text)
      → Ensures sv Anything (send_code sv user email) (λ a. Leaves sv user.id max_attempts) Anything
  unfolding send_code
  send_code-Leaves user email =
      let Full = Leaves sv user.id max_attempts in
      bind-Ensures sv Anything Anything (λ d. Anything) (λ a. Full) _ _ (draw-Keeps sv Anything)
        (λ d. fresh-Ensures max_attempts sv reset_code reset_attempts refl user.id _ ttl_seconds _ (
          bind-Keeps sv Full _ _
            (set-Keeps max_attempts sv reset_code reset_attempts refl refl user.id max_attempts
              reset_cooldown user.id 1 (some cooldown_seconds)
              (key_eq-apart reset_code reset_cooldown user.id user.id refl)
              (key_eq-apart reset_attempts reset_cooldown user.id user.id refl))
            (λ b. add_email-Keeps sv Full _)))
