-- ===== src/RateLimit/Lifetime.antt =====
-- A counter whose window was never started: what the two commands of a first hit risk.
use mathlib.Core.Path.{subst}
use elysiajs_production_api.Base.{
  ℕ, suc, ◌≤◌, ◌<◌, ◌≡◌, refl, sym, ap, ◌∙◌, ◌⊎◌, inl, inr, Bool, false, Option, none, some, List,
  [], ◌∷◌, Text, ◌==◌, arith,
}
use elysiajs_production_api.Errors.{
  Result, ok, err, Thrown, pure, ◌>>=◌, >>=-of_ok, >>=-cases, try_catch-cases,
}
use elysiajs_production_api.RateLimit.{RateStoreClient, store_key, start_window, hit, increment}

abbrev pub value_of : Option (ℕ × Bool) → ℕ
value_of none = 0
value_of (some (n, timed)) = n

abbrev pub is_timed : Option (ℕ × Bool) → Bool
is_timed none = false
is_timed (some (n, timed)) = timed

-- What INCR and TTL do to a counter of Redis, which is its value, and whether it has a lifetime. A
-- command that is rejected may have been carried out.
pub record Counters (client : RateStoreClient) : Type 0 where
  pub entry : client.State → Text → Option (ℕ × Bool)
  pub incr_ok :
      (k : Text) (s s' : client.State) (n : ℕ)
      → client.incr k s ≡ (ok n, s')
      → (n ≡ suc (value_of (entry s k))) × (entry s' k ≡ some (n, is_timed (entry s k)))
  pub incr_err :
      (k : Text) (s s' : client.State) (e : Thrown)
      → client.incr k s ≡ (err e, s')
      → (entry s' k ≡ entry s k)
        ⊎ (entry s' k ≡ some (suc (value_of (entry s k)), is_timed (entry s k)))
  pub ttl_keeps :
      (k : Text) (s s' : client.State) (r : Result (Option ℕ))
      → client.ttl k s ≡ (r, s')
      → entry s' k ≡ entry s k

module _ (client : RateStoreClient) (counters : Counters client) (prefix k : Text) where
  abbrev key : Text
  key = store_key client prefix k

  -- The counter has a value of at least `n`, and no lifetime.
  abbrev pub IsStuck : ℕ → client.State → Type 0
  IsStuck n s = (m : ℕ) × (n ≤ m) × (counters.entry s key ≡ some (m, false))

  -- The state after some hits, each with the duration of the window and the time.
  abbrev pub after_hits : List (ℕ × ℕ) → client.State → client.State
  after_hits [] s = s
  after_hits ((duration, time) ∷ hits) s =
      after_hits hits (increment client prefix k duration time s).1

  window_started :
      (n duration : ℕ) (s : client.State)
      → 1 < n
      → start_window client prefix key n duration s ≡ (ok tt, s)
  window_started n duration s h = let later : (n == 1) ≡ false = ground arith in rw later refl

  ttl-IsStuck :
      {A : Type 0} (m n : ℕ) (s : client.State)
      → m ≤ n
      → counters.entry s key ≡ some (n, false)
      → (f : Option ℕ → A) → IsStuck m ((client.ttl key >>= (λ left. pure (f left))) s).1
  ttl-IsStuck m n s le e f =
      >>=-cases (client.ttl key) _ s (λ r. IsStuck m r.1)
        (λ left v h. (n, le, counters.ttl_keeps key s v (ok left) h ∙ e))
        (λ x v h. (n, le, counters.ttl_keeps key s v (err x) h ∙ e))

  hit-IsStuck :
      (m duration time : ℕ) (s : client.State)
      → 1 ≤ m
      → counters.entry s key ≡ some (m, false)
      → IsStuck m (hit client prefix key duration time s).1
  unfolding hit
  hit-IsStuck m duration time s pos e =
      >>=-cases (client.incr key) _ s (λ r. IsStuck m r.1)
        (λ n v h.
          let (is, e') = counters.incr_ok key s v n h in
          let n_is : n ≡ suc m = is ∙ ap (λ o. suc (value_of o)) e in
          let at_n : counters.entry v key ≡ some (n, false) =
            e' ∙ ap (λ o. some (n, is_timed o)) e in
          subst (λ x. IsStuck m x.1)
            (sym (
              >>=-of_ok (start_window client prefix key n duration) _
                (window_started n duration v (omega arith))))
            (ttl-IsStuck m n v (omega arith) at_n _))
        (λ x v h. elim (counters.incr_err key s v x h) [
          | inl same ↦ (m, omega arith, same ∙ e)
          | inr bumped ↦
              (suc m, omega arith, bumped ∙ ap (λ o. some (suc (value_of o), is_timed o)) e)
        ])

  increment-IsStuck :
      (m duration time : ℕ) (s : client.State)
      → 1 ≤ m
      → counters.entry s key ≡ some (m, false)
      → IsStuck m (increment client prefix k duration time s).1
  unfolding increment
  increment-IsStuck m duration time s pos e =
      let after = hit-IsStuck m duration time s pos e in
      try_catch-cases (hit client prefix key duration time) _ s (λ r. IsStuck m r.1)
        (λ win v h. subst (λ x. IsStuck m x.1) h after)
        (λ x v h. subst (λ r. IsStuck m r.1) h after)

  -- A counter that has a value and no lifetime, as a first hit leaves it when its EXPIRE is rejected, never
  -- gets one: after any number of hits, at whatever times, with any durations and with any commands
  -- rejected, it still has no lifetime, and its value has not gone down.
  pub after_hits-IsStuck :
      (hits : List (ℕ × ℕ)) (n : ℕ) (s : client.State)
      → 1 ≤ n
      → IsStuck n s
      → IsStuck n (after_hits hits s)
  after_hits-IsStuck [] n s pos stuck = stuck
  after_hits-IsStuck ((duration, time) ∷ hits) n s pos (m, le, e) =
      let (m', le', e') = increment-IsStuck m duration time s (omega arith) e in
      after_hits-IsStuck hits n _ pos (m', omega arith, e')
