-- ===== src/RateLimit/FailOpen.antt =====
-- What `increment` of the store answers, with Redis and without.
use mathlib.Core.Path.{subst}
use elysiajs_production_api.Base.{
  ℕ, ◌+◌, ◌/◌, ◌==◌, ◌≡◌, refl, sym, ◌⊎◌, inl, inr, true, false, Option, Text, codes, ◌++◌,
  Bool-cases, if◌then◌else◌, arith,
}
use elysiajs_production_api.Errors.{
  Thrown, Result, ok, err, try_catch-cases, >>=-eq-ok, >>=-eq-err, ok_inj,
}
use elysiajs_production_api.RateLimit.{
  RateStoreClient, Window, window_ms, start_window, hit, increment,
}

module _ (client : RateStoreClient) (prefix : Text) (k : Text) (duration time : ℕ) where
  -- What the commands are given: the key behind the prefix, and the window in whole seconds.
  abbrev stored_key : Text
  stored_key = prefix ++ (codes ":" ++ k)

  abbrev seconds : ℕ
  seconds = (duration + 999) / 1000

  -- The window starts with the first request that is counted, and only with it.
  abbrev Starts : ℕ → client.State → client.State → Type 0
  Starts c s s' =
      (((c == 1) ≡ true) × (client.expire stored_key seconds s ≡ (ok tt, s')))
      ⊎ (((c == 1) ≡ false) × (s' ≡ s))

  -- All commands are answered.
  abbrev Counts : client.State → Window → client.State → Type 0
  Counts s win s' =
      (c : ℕ) × (s₁ s₂ : client.State) × (left : Option ℕ) × (client.incr stored_key s ≡ (ok c, s₁))
      × Starts c s₁ s₂
      × (client.ttl stored_key s₂ ≡ (ok left, s'))
      × (win ≡ record { count = c; next_reset = time + window_ms left duration; start = time })

  -- Some command is rejected, and none is sent after it.
  abbrev IsRejected : client.State → client.State → Type 0
  IsRejected s s' =
      ((e : Thrown) × (client.incr stored_key s ≡ (err e, s')))
      ⊎ ((s₁ : client.State) × (e : Thrown) × (client.incr stored_key s ≡ (ok 1, s₁))
          × (client.expire stored_key seconds s₁ ≡ (err e, s')))
      ⊎ ((c : ℕ) × (s₁ s₂ : client.State) × (e : Thrown) × (client.incr stored_key s ≡ (ok c, s₁))
          × Starts c s₁ s₂
          × (client.ttl stored_key s₂ ≡ (err e, s')))

  abbrev FailsOpen : client.State → Window → client.State → Type 0
  FailsOpen s win s' =
      IsRejected s s' × (win ≡ record { count = 1; next_reset = time + duration; start = time })

  -- What an increment answers, and the state it leaves: always a window.
  abbrev pub Answers : client.State → Result Window × client.State → Type 0
  Answers s (ok win, s') = Counts s win s' ⊎ FailsOpen s win s'
  Answers s (err e, s') = ⊥

  start_window-Starts :
      (c : ℕ) (s s' : client.State)
      → start_window client prefix stored_key c duration s ≡ (ok tt, s')
      → Starts c s s'
  start_window-Starts c s s' h = elim (Bool-cases (c == 1)) [
    | inl first ↦ inl (first, (rw (first, if◌then◌else◌) at h))
    | inr later ↦
        let k = (rw (later, if◌then◌else◌) at h) in
        let (u, same) = ok_inj k in inr (later, sym same)
  ]

  start_window-err :
      (c : ℕ) (s s' : client.State) (e : Thrown)
      → start_window client prefix stored_key c duration s ≡ (err e, s')
      → (c ≡ 1) × (client.expire stored_key seconds s ≡ (err e, s'))
  start_window-err c s s' e h = elim (Bool-cases (c == 1)) [
    | inl first ↦ (ground arith, (rw (first, if◌then◌else◌) at h))
    | inr later ↦ absurd (let k = (rw (later, if◌then◌else◌) at h) in cc)
  ]

  hit-Counts :
      (s s' : client.State) (win : Window)
      → hit client prefix stored_key duration time s ≡ (ok win, s')
      → Counts s win s'
  unfolding hit
  hit-Counts s s' win h =
      let (c, s₁, e₁, k₁) = >>=-eq-ok (client.incr stored_key) _ s h in
      let (u, s₂, e₂, k₂) = >>=-eq-ok (start_window client prefix stored_key c duration) _ s₁ k₁ in
      let (left, s₃, e₃, k₃) = >>=-eq-ok (client.ttl stored_key) _ s₂ k₂ in
      let (made, same) = ok_inj k₃ in
      (
        c,
        s₁,
        s₂,
        left,
        e₁,
        start_window-Starts c s₁ s₂ e₂,
        subst (λ x. client.ttl stored_key s₂ ≡ (ok left, x)) same e₃,
        sym made,
      )

  hit-IsRejected :
      (s s' : client.State) (e : Thrown)
      → hit client prefix stored_key duration time s ≡ (err e, s')
      → IsRejected s s'
  unfolding hit
  hit-IsRejected s s' e h = elim (>>=-eq-err (client.incr stored_key) _ s h) [
    | inl k ↦ inl (e, k)
    | inr (c, s₁, e₁, k₁) ↦
        elim (>>=-eq-err (start_window client prefix stored_key c duration) _ s₁ k₁) [
          | inl k ↦
              let (first, rejected) = start_window-err c s₁ s' e k in
              inr
                (inl (s₁, e, subst (λ n. client.incr stored_key s ≡ (ok n, s₁)) first e₁, rejected))
          | inr (u, s₂, e₂, k₂) ↦ elim (>>=-eq-err (client.ttl stored_key) _ s₂ k₂) [
            | inl k ↦ inr (inr (c, s₁, s₂, e, e₁, start_window-Starts c s₁ s₂ e₂, k))
            | inr (left, s₃, e₃, k₃) ↦ absurd (cc)
          ]
        ]
  ]

  -- Counting a request always returns a window. If Redis answers every command, the window holds the
  -- count of INCR and ends with the lifetime of TTL, in the state these commands leave; EXPIRE has
  -- started the window if and only if the count is 1. Otherwise the first command that was rejected
  -- was the last one that was sent, and it is a window of a single request that starts now.
  pub increment-Answers : (s : client.State) → Answers s (increment client prefix k duration time s)
  unfolding increment
  increment-Answers s =
      try_catch-cases (hit client prefix stored_key duration time) _ s (Answers s)
        (λ win s' h. inl (hit-Counts s s' win h)) (λ e s' h. inr (hit-IsRejected s s' e h, refl))
