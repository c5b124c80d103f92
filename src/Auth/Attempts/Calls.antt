-- ===== src/Auth/Attempts/Calls.antt =====
-- The calls that otp.service.ts and password-reset.service.ts of src/modules/auth/ make of Redis keep
-- what is left of the attempts.
use mathlib.Core.Path.{subst}
use elysiajs_production_api.Base.{
  sym, ℕ, ◌≤◌, ◌≡◌, refl, inl, inr, true, false, Option, some, none, ◌==◌, Bool-cases,
  if◌then◌else◌,
}
use elysiajs_production_api.Errors.{app, AppError, ok, err, Call, pure, throw, ◌>>◌}
use elysiajs_production_api.Services.{
  Services, World, Prefix, rank, key, key_eq, Entries, put, entry_of,
}
use elysiajs_production_api.Services.Actions.{cache_set, cache_del, cache_incr}
use elysiajs_production_api.Services.Triples.{
  Anything, Keeps, Ensures, bind-Keeps, if_returns, bind-Ensures, returns-Keeps,
}
use elysiajs_production_api.Services.Triples.Statements.{
  cache_set-Ensures, cache_del-Ensures, cache_incr-Keeps,
}
use elysiajs_production_api.Auth.Attempts.{
  IsBudget-later, put_fresh-Left, Left, put-Left, put_code-Left, counted-Left, key_eq-same,
  key_eq-apart, key_eq-other,
}

module _ (max : ℕ) (sv : Services) (code count : Prefix) (apart : (rank code == rank count) ≡ false)
    (apart' : (rank count == rank code) ≡ false) (id n : ℕ) where
  abbrev Here : Entries → ℕ → Type 0
  Here = Left max sv code count apart id n

  -- The code of `u` is gone, if `u` is the user that is meant.
  abbrev Gone : ℕ → Entries → ℕ → Type 0
  Gone u m now = ((id == u) ≡ true → m (key code id) ≡ none) × Here m now

  pub del_code-Gone : (u : ℕ) → Keeps sv Here (cache_del sv (key code u))
  del_code-Gone u =
      cache_del-Ensures sv Here Here Here (key code u)
        (λ m now. put_code-Left max sv code count apart id n m now u) (λ m now h. h) (λ m now h. h)

  -- The counter is deleted after its code.
  del_count-Left :
      (u : ℕ) (m : Entries) (now : ℕ) → Gone u m now → Here (put m (key count u) none) now
  del_count-Left u m now (gone, h) = elim (Bool-cases (id == u)) [
    | inl same ↦ rw (key_eq-apart code count id u apart, if◌then◌else◌, gone same) tt
    | inr other ↦
        put-Left max sv code count apart id n m now (key count u) none
          (key_eq-other code count id u other) (key_eq-other count count id u other) h
  ]

  -- The code and its counter are consumed.
  pub consume-Keeps :
      {A : Type 0} (u : ℕ) (a : A)
      → Keeps sv Here (do cache_del sv (key code u); cache_del sv (key count u); pure a)
  consume-Keeps u a =
      bind-Ensures sv Here Here (λ x. Gone u) (λ x. Here) _ _
        (cache_del-Ensures sv Here (Gone u) Here (key code u)
          (λ m now h. (
            λ same. rw (key_eq-same code id u same, if◌then◌else◌) refl,
            put_code-Left max sv code count apart id n m now u h,
          ))
          (λ m now h. h) (λ m now h. h.1))
        (λ x.
          bind-Ensures sv (Gone u) Here (λ y. Here) (λ y. Here) _ _
            (cache_del-Ensures sv (Gone u) Here Here (key count u) (del_count-Left u)
              (λ m now h. h.1) (λ m now h. h))
            (λ y. returns-Keeps sv Here (ok a)))

  -- Too many attempts: the code is deleted.
  pub refuse-Keeps :
      {A : Type 0} (u : ℕ) (e : AppError)
      → Keeps sv Here (cache_del sv (key code u) >> throw {A = A} e)
  refuse-Keeps u e =
      bind-Keeps sv Here _ _ (del_code-Gone u) (λ x. returns-Keeps sv Here (err (app e)))

  pub count-Keeps : (u : ℕ) → Keeps sv Here (cache_incr sv (key count u))
  count-Keeps u =
      cache_incr-Keeps sv Here (key count u)
        (λ m now. counted-Left max sv code count apart id n m now u)

  -- Another user's code, or another entry of the user's.
  pub set-Keeps :
      (p : Prefix) (u v : ℕ) (ttl : Option ℕ)
      → key_eq (key code id) (key p u) ≡ false
      → key_eq (key count id) (key p u) ≡ false
      → Keeps sv Here (cache_set sv (key p u) v ttl)
  set-Keeps p u v ttl j l =
      cache_set-Ensures sv Here Here Here (key p u) v ttl
        (λ m now. put-Left max sv code count apart id n m now (key p u) _ j l) (λ m now h. h)
        (λ m now h. h)

  -- Time passes, and other entries change.
  pub later-Left :
      (m m' : Entries) (now now' : ℕ)
      → m' (key code id) ≡ m (key code id)
      → m' (key count id) ≡ m (key count id)
      → now ≤ now'
      → Here m now
      → Here m' now'
  later-Left m m' now now' same same' le h =
      rw (same, same') (IsBudget-later max n (m (key code id)) (m (key count id)) le h)

module _ (max : ℕ) (sv : Services) (code count : Prefix) (apart : (rank code == rank count) ≡ false)
    (id : ℕ) where
  abbrev Fresh : ℕ → ℕ → Entries → ℕ → Type 0
  Fresh v seconds m now =
      (m' : Entries) × (m ≡ put m' (key code id) (some (entry_of v (some seconds) now)))

  -- A code is stored anew, and then its counter: `max` comparisons are left.
  pub fresh-Ensures :
      {A : Type 0} (v seconds : ℕ) (f : Call (World sv) A)
      → Keeps sv (Left max sv code count apart id max) f
      → Ensures sv Anything
          (do
            cache_set sv (key code id) v (some seconds)
            cache_set sv (key count id) 0 (some seconds)
            f)
          (λ a. Left max sv code count apart id max)
          Anything
  fresh-Ensures v seconds f rest =
      bind-Ensures sv Anything Anything (λ a. Fresh v seconds)
        (λ a. Left max sv code count apart id max) _ _
        (cache_set-Ensures sv Anything (Fresh v seconds) Anything (key code id) v (some seconds)
          (λ m now p. (m, refl)) (λ m now p. tt) (λ m now p. tt))
        (λ a.
          bind-Ensures sv (Fresh v seconds) Anything (λ b. Left max sv code count apart id max)
            (λ b. Left max sv code count apart id max) _ _
            (cache_set-Ensures sv (Fresh v seconds) (Left max sv code count apart id max) Anything
              (key count id) 0 (some seconds)
              (λ m now fresh.
                subst
                  (λ x.
                    Left max sv code count apart id max
                      (put x (key count id) (some (entry_of 0 (some seconds) now))) now)
                  (sym fresh.1) (put_fresh-Left max sv code count apart id fresh.0 now v seconds))
              (λ m now p. tt) (λ m now p. tt))
            (λ b. if_returns sv (Left max sv code count apart id max) f rest))
