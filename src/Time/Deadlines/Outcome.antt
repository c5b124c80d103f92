-- ===== src/Time/Deadlines/Outcome.antt =====
-- How a promise with a deadline ends.
use elysiajs_production_api.Base.{
  ℕ, zero, suc, ◌-◌, ◌≤◌, ◌≡◌, refl, Bool, true, false, Option, none, some, List, [], ◌∷◌, length,
  leb, ◌==◌, if◌then◌else◌, arith, Bool-cases, inl, inr, ap, sym, ◌∙◌,
}
use elysiajs_production_api.Time.Deadlines.{
  Settled, timed_out, Deadline, with_deadline, on_work, on_timer, less_one, pass, pass_all,
}

due : (k : ℕ) → leb 1 (suc k) ≡ true
due k = ground arith

same : (n k : ℕ) → leb (suc n) k ≡ leb (suc (suc n)) (suc k)
same n k = ground arith

module _ {A E : Type 0} where
  -- The first settlement of the work within a number of milliseconds.
  abbrev pub first_within : ℕ → List (Option (Settled A E)) → Option (Settled A E)
  first_within zero works = none
  first_within (suc n) [] = none
  first_within (suc n) (some s ∷ works) = some s
  first_within (suc n) (none ∷ works) = first_within n works

  -- That settlement, if there is one; otherwise the error of the deadline, if it has passed.
  abbrev pub verdict : Bool → ℕ → Option (Settled A E) → Option (Settled A E)
  verdict passed ms (some s) = some s
  verdict passed ms none = if passed then some (timed_out ms) else none

  on_work-settled :
      (s : Settled A E) (work : Option (Settled A E)) (d : Deadline A E)
      → d.promise ≡ some s
      → (on_work work d).promise ≡ some s
  on_work-settled s none d h = h
  on_work-settled s (some t) d h = rw h refl

  on_timer-settled :
      (s : Settled A E) (left : Option ℕ) (d : Deadline A E)
      → d.promise ≡ some s
      → (on_timer left d).promise ≡ some s
  on_timer-settled s none d h = h
  on_timer-settled s (some n) d h = elim (Bool-cases (n == 0)) [
    | inl due ↦ rw (due, if◌then◌else◌, h) refl
    | inr early ↦ rw (early, if◌then◌else◌) h
  ]

  -- A promise that has settled stays as it is, whatever the work does.
  pass_all-settled :
      (s : Settled A E) (works : List (Option (Settled A E))) (d : Deadline A E)
      → d.promise ≡ some s
      → (pass_all works d).promise ≡ some s
  unfolding pass_all pass
  pass_all-settled s [] d h = h
  pass_all-settled s (work ∷ works) d h = pass_all-settled s works (pass work d) (
      on_timer-settled s (less_one (on_work work d).timer) (on_work work d)
        (on_work-settled s work d h))

  abbrev waiting : ℕ → ℕ → Deadline A E
  waiting left ms = record { promise = none; timer = some left; ms = ms }

  waiting-last : (ms : ℕ) → (pass none (waiting 1 ms)).promise ≡ some (timed_out ms)
  unfolding pass
  waiting-last ms = refl

  waiting-more : (n ms : ℕ) → pass none (waiting (suc (suc n)) ms) ≡ waiting (suc n) ms
  unfolding pass
  waiting-more n ms =
      let e : suc (suc n) - 1 ≡ suc n = omega arith in
      let more : (suc n == 0) ≡ false = ground arith in rw (e, more, if◌then◌else◌) refl

  waiting-verdict :
      (n ms : ℕ) (works : List (Option (Settled A E)))
      → (pass_all works (waiting (suc n) ms)).promise
        ≡ verdict (leb (suc n) (length works)) ms (first_within (suc n) works)
  unfolding pass_all
  waiting-verdict n ms [] =
      let e : leb (suc n) 0 ≡ false = ground arith in rw (e, if◌then◌else◌) refl
  waiting-verdict n ms (some s ∷ works) =
      pass_all-settled s works (pass (some s) (waiting (suc n) ms)) refl
  waiting-verdict zero ms (none ∷ works) =
      pass_all-settled (timed_out ms) works (pass none (waiting 1 ms)) (waiting-last ms)
      ∙ ap (λ (b : Bool). if b then some (timed_out ms) else none) (sym (due (length works)))
  waiting-verdict (suc n) ms (none ∷ works) =
      ap (λ (d : Deadline A E). (pass_all works d).promise) (waiting-more n ms)
      ∙ waiting-verdict n ms works
      ∙ ap (λ (b : Bool). verdict b ms (first_within (suc n) works)) (same n (length works))

  -- After a number of milliseconds, the promise has settled with what the work first settled with, if
  -- that was within the deadline; otherwise it has been rejected with the error of the deadline, if the
  -- deadline has passed, and is pending before that. So it settles by the deadline, and only once: what
  -- the work does later makes no difference. The deadline is at least a millisecond.
  pub with_deadline-verdict :
      (ms : ℕ) (works : List (Option (Settled A E)))
      → 1 ≤ ms
      → (pass_all works (with_deadline ms)).promise
        ≡ verdict (leb ms (length works)) ms (first_within ms works)
  unfolding with_deadline
  with_deadline-verdict zero works h = absurd (omega arith)
  with_deadline-verdict (suc n) works h = waiting-verdict n (suc n) works
