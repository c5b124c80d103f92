-- ===== src/Auth/Totp/Replay/Runs.antt =====
-- No time step is accepted twice from a user, over any run.
use mathlib.Core.Path.{subst}
use elysiajs_production_api.Base.{
  ℕ, ◌≤◌, ◌<◌, ◌≡◌, sym, some, Text, ◌*◌, false, if◌then◌else◌, arith,
}
use elysiajs_production_api.Errors.{Result, ok}
use elysiajs_production_api.Schema.{User}
use elysiajs_production_api.Services.{
  Services, World, View, view, key, totp_last, entry_of, value_at,
}
use elysiajs_production_api.Services.Triples.{At, in_the_end}
use elysiajs_production_api.Auth.Attempts.{key_eq-same}
use elysiajs_production_api.Auth.Totp.{is_replay, period_seconds, consume_login_challenge}
use elysiajs_production_api.Auth.Totp.Challenge.{
  IsAccepted, burnt, remembered, counted, consume_login_challenge-IsAccepted,
}
use elysiajs_production_api.Auth.Totp.Replay.{Spent, consume_login_challenge-Keeps}
use elysiajs_production_api.Auth.Totp.Replay.Steps.{
  IsSpent, IsSpent-later, IsSpent-counter_at, accepted-IsSpent, accepted-counter_at,
}

module _ (sv : Services) where
  -- What may happen in between: any attempt to log in with a second factor, by anyone, returning or
  -- throwing; and anything that leaves the user's last step alone, with the clock going on.
  pub data Happening (id : ℕ) (w w' : World sv) : Type 0 where
    tries :
        (token code : Text) (r : Result User)
        → consume_login_challenge sv token code w ≡ (r, w')
        → Happening id w w'
    elsewhere :
        (view sv w').cache (key totp_last id) ≡ (view sv w).cache (key totp_last id)
        → w.now ≤ w'.now
        → Happening id w w'

  pub data Run (id : ℕ) (w : World sv) : World sv → Type 0 where
    start : Run id w w
    goes_on : {v v' : World sv} → Run id w v → Happening id v v' → Run id w v'

  Spent-Run :
      (id c : ℕ) {w w' : World sv}
      → Run id w w'
      → At sv (Spent sv id c) w
      → At sv (Spent sv id c) w'
  Spent-Run id c start h = h
  Spent-Run id c (goes_on {v} {v'} run (tries token code r e)) h =
      in_the_end sv (Spent sv id c) v' r
        (consume_login_challenge-Keeps sv id c token code v v' r e (Spent-Run id c run h))
  Spent-Run id c (goes_on {v} {v'} run (elsewhere same later)) h =
      subst (λ o. IsSpent c o v'.now) (sym same)
        (IsSpent-later c ((view sv v).cache (key totp_last id)) later (Spent-Run id c run h))

  -- The step of a code that is accepted is spent after that.
  accepted-Spent :
      (hash id c : ℕ) (code : Text) (u : User) (w w' : World sv)
      → IsAccepted sv hash code (view sv w) id u c
      → view sv w' ≡ burnt sv hash (remembered sv id c (counted sv hash (view sv w)))
      → At sv (Spent sv id c) w'
  accepted-Spent hash id c code u w w' accepted after =
      let (d, is) = accepted-counter_at _ w.now c accepted.right in
      subst (λ (v : View). Spent sv id c v.cache v.now) (sym after)
        (rw (key_eq-same totp_last id id (ground arith), if◌then◌else◌)
          (subst (λ x. IsSpent c (some (entry_of x (some (period_seconds * 3)) w.now)) w.now)
            (sym is) (accepted-IsSpent c w.now d (omega arith))))

  -- The next step to be accepted is a later one.
  later :
      (c c' : ℕ) (token code : Text) (w : World sv) (id : ℕ) (u : User)
      → At sv (Spent sv id c) w
      → IsAccepted sv (sv.sha256 token) code (view sv w) id u c'
      → c < c'
  later c c' token code w id u spent accepted =
      let (d, is) = accepted-counter_at _ w.now c' accepted.right in
      subst (λ x. c < x) (sym is)
        (IsSpent-counter_at c w.now ((view sv w).cache (key totp_last id)) d spent (
          subst (λ x. is_replay (value_at (view sv w).cache w.now (key totp_last id)) x ≡ false) is
            accepted.fresh))

  -- If a user logs in twice with a second factor, then the second code is right for a later time step
  -- than the first, whatever attempts to log in, returning or throwing, and whatever work that leaves
  -- the user's last step alone lie in between, if the clock does not go back. So no code is accepted
  -- twice for the same time step.
  pub consume_login_challenge-NoReplay :
      (token token' code code' : Text) (w w₁ w₂ w₃ : World sv) (u u' : User)
      → consume_login_challenge sv token code w ≡ (ok u, w₁)
      → Run u.id w₁ w₂
      → consume_login_challenge sv token' code' w₂ ≡ (ok u', w₃)
      → u'.id ≡ u.id
      → (c c' : ℕ) × IsAccepted sv (sv.sha256 token) code (view sv w) u.id u c
        × IsAccepted sv (sv.sha256 token') code' (view sv w₂) u.id u' c'
        × (c < c')
  consume_login_challenge-NoReplay token token' code code' w w₁ w₂ w₃ u u' first run second same =
      let (id, c, accepted, after) =
        consume_login_challenge-IsAccepted sv token code w w₁ u first in
      let (id', c', accepted', after') =
        consume_login_challenge-IsAccepted sv token' code' w₂ w₃ u' second in
      let mine : id ≡ u.id = (let found = accepted.found.0 in ground arith) in
      let mine' : id' ≡ u.id = (let found = accepted'.found.0 in ground arith) in
      let right =
        subst (λ i. IsAccepted sv (sv.sha256 token) code (view sv w) i u c) mine accepted in
      let right' =
        subst (λ i. IsAccepted sv (sv.sha256 token') code' (view sv w₂) i u' c') mine' accepted' in
      let spent = Spent-Run u.id c run (
        accepted-Spent (sv.sha256 token) u.id c code u w w₁ right (
          subst
            (λ i.
              view sv w₁
              ≡ burnt sv (sv.sha256 token)
                  (remembered sv i c (counted sv (sv.sha256 token) (view sv w))))
            mine after)) in
      (c, c', right, right', later c c' token' code' w₂ u.id u' spent right')
