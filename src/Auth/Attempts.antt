-- ===== src/Auth/Attempts.antt =====
-- The scheme that otp.service.ts and password-reset.service.ts of src/modules/auth/ share: a code and
-- a counter of attempts under two keys of Redis, with the same lifetime. How many comparisons with
-- the code are left, over the commands and over runs.
pub mod Runs
pub mod Calls
use mathlib.Core.Path.{subst}
use mathlib.Core.Bool.{and-false}
use elysiajs_production_api.Base.{
  ℕ, zero, suc, ◌+◌, ◌≤◌, ◌≡◌, refl, sym, ap, ◌∙◌, inl, inr, ◌⊎◌, Bool, true, false, ◌&&◌, Option,
  some, none, ◌==◌, ltb, leb, arith, Bool-cases, if◌then◌else◌,
}
use elysiajs_production_api.Errors.{ok, Result}
use elysiajs_production_api.Services.{
  Services, World, View, view, Prefix, rank, Key, key, key_eq, Entry, Entries, put, entry_of,
  bumped, bumped_live, expiry_live, is_live, value_at, live_value,
}
use elysiajs_production_api.Services.Actions.{cache_get, cache_incr}
use elysiajs_production_api.Services.Actions.Laws.{cache_get-ok, cache_incr-ok}
use elysiajs_production_api.Services.Triples.{At}

-- When two keys are the same key.
pub key_eq-same : (p : Prefix) (a b : ℕ) → (a == b) ≡ true → key_eq (key p a) (key p b) ≡ true
key_eq-same p a b h = let r : (rank p == rank p) ≡ true = ground arith in rw (r, h) refl

pub key_eq-apart :
    (p q : Prefix) (a b : ℕ) → (rank p == rank q) ≡ false → key_eq (key p a) (key q b) ≡ false
key_eq-apart p q a b h = rw (h) refl

pub key_eq-other : (p q : Prefix) (a b : ℕ) → (a == b) ≡ false → key_eq (key p a) (key q b) ≡ false
key_eq-other p q a b h = rw (h) (and-false (rank p == rank q))

-- `max` attempts are allowed.
module _ (max : ℕ) where
  -- The counter stands at `max - n` or more, and does not expire before the code.
  abbrev pub IsCounted : ℕ → Option Entry → Option ℕ → Type 0
  IsCounted n none expires = ⊥
  IsCounted n (some a) expires =
      (max ≤ a.value + n) × ((t : ℕ) → is_live t expires ≡ true → is_live t a.expires ≡ true)

  -- At most `n` comparisons are left: the code is not there, or has expired, or is counted.
  abbrev pub IsBudget : ℕ → Option Entry → Option Entry → ℕ → Type 0
  IsBudget n none a now = Unit
  IsBudget n (some e) a now = is_live now e.expires ≡ true → IsCounted n a e.expires

  IsBudget-later :
      (n : ℕ) (c a : Option Entry) {now now' : ℕ}
      → now ≤ now'
      → IsBudget n c a now
      → IsBudget n c a now'
  IsBudget-later n none a le h = tt
  IsBudget-later n (some e) a {now} {now'} le h = λ live. h (earlier e.expires live)
    where
      earlier : (x : Option ℕ) → is_live now' x ≡ true → is_live now x ≡ true
      earlier none live = refl
      earlier (some t) live = ground arith

  IsCounted-bumped :
      (n now : ℕ) (a : Option Entry) (x : Option ℕ)
      → is_live now x ≡ true
      → IsCounted (suc n) a x
      → IsCounted n (some (bumped_live a (expiry_live a now))) x
  IsCounted-bumped n now none x live h = absurd h
  IsCounted-bumped n now (some a) x live h =
      let le = h.0 in rw (h.1 now live, if◌then◌else◌) ((omega arith, h.1))

  IsCounted-more :
      (n : ℕ) (a : Option Entry) (x : Option ℕ) → IsCounted n a x → IsCounted (suc n) a x
  IsCounted-more n none x h = absurd h
  IsCounted-more n (some a) x h = let le = h.0 in (omega arith, h.1)

  -- Counting an attempt takes one.
  IsBudget-bumped :
      (n now : ℕ) (c a : Option Entry)
      → IsBudget (suc n) c a now
      → IsBudget n c (some (bumped_live a (expiry_live a now))) now
  IsBudget-bumped n now none a h = tt
  IsBudget-bumped n now (some e) a h = λ live. IsCounted-bumped n now a e.expires live (h live)

  IsBudget-more : (n now : ℕ) (c a : Option Entry) → IsBudget n c a now → IsBudget (suc n) c a now
  IsBudget-more n now none a h = tt
  IsBudget-more n now (some e) a h = λ live. IsCounted-more n a e.expires (h live)

  none_counted :
      (now : ℕ) (a : Option Entry) (x : Option ℕ)
      → is_live now x ≡ true
      → IsCounted 0 a x
      → ¬ ((bumped_live a (expiry_live a now)).value ≤ max)
  none_counted now none x live h few = h
  none_counted now (some a) x live h few =
      let le = h.0 in let few' = (rw (h.1 now live, if◌then◌else◌) at few) in omega arith

  -- With none left, the next attempt at a live code is counted above `max`.
  none_left :
      (now d : ℕ) (c a : Option Entry)
      → live_value now c ≡ some d
      → (bumped_live a (expiry_live a now)).value ≤ max
      → ¬ IsBudget 0 c a now
  none_left now d none a stored few h = absurd (cc)
  none_left now d (some e) a stored few h = elim (Bool-cases (is_live now e.expires)) [
    | inl live ↦ none_counted now a e.expires live (h live) few
    | inr dead ↦ absurd (let e = (rw (dead, if◌then◌else◌) at stored) in cc)
  ]

  -- A fresh code with a fresh counter.
  IsBudget-fresh :
      (v now seconds : ℕ)
      → IsBudget max
          (some (entry_of v (some seconds) now))
          (some (entry_of 0 (some seconds) now))
          now
  IsBudget-fresh v now seconds = λ live. (omega arith, λ t h. h)

  module _ (sv : Services) (code count : Prefix) (apart : (rank code == rank count) ≡ false)
      (id : ℕ) where
    -- At most `n` comparisons with the code stored for an id are left.
    abbrev pub Left : ℕ → Entries → ℕ → Type 0
    Left n m now = IsBudget n (m (key code id)) (m (key count id)) now

    -- A key of another prefix or id.
    pub put-Left :
        (n : ℕ) (m : Entries) (now : ℕ) (k : Key) (x : Option Entry)
        → key_eq (key code id) k ≡ false
        → key_eq (key count id) k ≡ false
        → Left n m now
        → Left n (put m k x) now
    put-Left n m now k x j l h = rw (j, l, if◌then◌else◌) h

    -- The code is deleted.
    pub put_code-Left :
        (n : ℕ) (m : Entries) (now u : ℕ) → Left n m now → Left n (put m (key code u) none) now
    put_code-Left n m now u h = elim (Bool-cases (id == u)) [
      | inl same ↦ rw (key_eq-same code id u same, if◌then◌else◌) tt
      | inr other ↦
          put-Left n m now (key code u) none (key_eq-other code code id u other)
            (key_eq-other count code id u other) h
    ]

    spent_own :
        (n : ℕ) (m : Entries) (now : ℕ)
        → Left (suc n) m now
        → Left n (put m (key count id) (some (bumped m now (key count id)))) now
    spent_own n m now h =
        rw
          (
            key_eq-apart code count id id apart,
            key_eq-same count id id (ground arith),
            if◌then◌else◌,
          )
          (IsBudget-bumped n now (m (key code id)) (m (key count id)) h)

    -- None are left of none.
    spend :
        (n d : ℕ) (m : Entries) (now : ℕ)
        → value_at m now (key code id) ≡ some d
        → (bumped m now (key count id)).value ≤ max
        → Left n m now
        → (k : ℕ) × (n ≡ suc k)
          × Left k (put m (key count id) (some (bumped m now (key count id)))) now
    spend zero d m now stored few h =
        absurd (none_left now d (m (key code id)) (m (key count id)) stored few h)
    spend (suc n) d m now stored few h = (n, refl, spent_own n m now h)

    put_own :
        (n : ℕ) (m : Entries) (now : ℕ)
        → Left n m now
        → Left n (put m (key count id) (some (bumped m now (key count id)))) now
    put_own n m now h =
        spent_own n m now (IsBudget-more n now (m (key code id)) (m (key count id)) h)

    pub counted-Left :
        (n : ℕ) (m : Entries) (now u : ℕ)
        → Left n m now
        → Left n (put m (key count u) (some (bumped m now (key count u)))) now
    counted-Left n m now u h = elim (Bool-cases (id == u)) [
      | inl same ↦
          let e : u ≡ id = ground arith in
          subst (λ u. Left n (put m (key count u) (some (bumped m now (key count u)))) now) (sym e)
            (put_own n m now h)
      | inr other ↦
          put-Left n m now (key count u) (some (bumped m now (key count u)))
            (key_eq-other code count id u other) (key_eq-other count count id u other) h
    ]

    -- A code that is sent anew, with its counter.
    pub put_fresh-Left :
        (m : Entries) (now v seconds : ℕ)
        → Left max
            (put
              (put m (key code id) (some (entry_of v (some seconds) now)))
              (key count id)
              (some (entry_of 0 (some seconds) now)))
            now
    put_fresh-Left m now v seconds =
        rw
          (
            key_eq-apart code count id id apart,
            key_eq-same count id id (ground arith),
            key_eq-same code id id (ground arith),
            if◌then◌else◌,
          )
          (IsBudget-fresh v now seconds)

    -- A comparison with a stored code takes one, and there is one.
    pub compared-Left :
        (n d a : ℕ) (w₁ w₂ w₃ : World sv)
        → cache_get sv (key code id) w₁ ≡ (ok (some d), w₂)
        → cache_incr sv (key count id) w₂ ≡ (ok a, w₃)
        → a ≤ max
        → At sv (Left n) w₁
        → (m : ℕ) × (n ≡ suc m) × At sv (Left m) w₃
    compared-Left n d a w₁ w₂ w₃ get incr few h =
        let (stored, same) = cache_get-ok sv (key code id) w₁ w₂ (some d) get in
        let (counted, e) = cache_incr-ok sv (key count id) w₂ w₃ a incr in
        let (m, less, left) =
          spend n d (view sv w₂).cache w₂.now
            (subst (λ (v : View). value_at v.cache v.now (key code id) ≡ some d) (sym same)
              (sym stored))
            (subst (λ x. x ≤ max) counted few)
            (subst (λ (v : View). Left n v.cache v.now) (sym same) h) in
        (m, less, subst (λ (v : View). Left m v.cache v.now) (sym e) left)
