-- ===== src/Readiness/Wait.antt =====
-- The wait ends after its attempts, and says what the checks said.
use mathlib.Core.Path.{subst}
use elysiajs_production_api.Base.{
  List-cases, ℕ, zero, suc, ◌≤◌, ◌<◌, ◌≡◌, ◌≢◌, refl, sym, inl, inr, List, [], ◌∷◌, Text, arith,
}
use elysiajs_production_api.Readiness.{
  DependencyCheck, Ready, ready, unavailable, attempt, wait_rounds, wait_for_dependencies,
}

module _ {S : Type 0} (checks : List (DependencyCheck S)) (sleep : S → S) where
  -- The state in which an attempt starts, the first being 0, if the ones before it failed.
  abbrev pub start_of : ℕ → S → S
  start_of zero s = s
  start_of (suc k) s = start_of k (sleep (attempt checks sleep s).1)

  abbrev pub failed_at : ℕ → S → List Text
  failed_at k s = (attempt checks sleep (start_of k s)).0

  -- The checks of all attempts below a number fail.
  abbrev pub AllFail : ℕ → S → Type 0
  AllFail zero s = Unit
  AllFail (suc n) s = (failed_at 0 s ≢ []) × AllFail n (start_of 1 s)

  AllFail-at : (k n : ℕ) (s : S) → k < n → AllFail n s → failed_at k s ≢ []
  AllFail-at zero (suc n) s h all = all.0
  AllFail-at (suc k) (suc n) s h all = AllFail-at k n (start_of 1 s) (omega arith) all.1
  AllFail-at k zero s h all = absurd (omega arith)

  abbrev pub Outcome : ℕ → S → Ready → Type 0
  Outcome last s ready = (k : ℕ) × (k ≤ last) × (failed_at k s ≡ []) × AllFail k s
  Outcome last s (unavailable names) = (names ≡ failed_at last s) × AllFail (suc last) s

  Outcome-suc :
      (last : ℕ) (s : S) (r : Ready)
      → (attempt checks sleep s).0 ≢ []
      → Outcome last (sleep (attempt checks sleep s).1) r
      → Outcome (suc last) s r
  Outcome-suc last s ready first (k, le, passes, before) =
      (suc k, omega arith, passes, (first, before))
  Outcome-suc last s (unavailable names) first (same, all) = (same, (first, all))

  -- One attempt of the loop: the checks pass, or they fail and it was the last one, or it goes on.
  wait_rounds-passed :
      (left : ℕ) (s : S) → failed_at 0 s ≡ [] → (wait_rounds checks sleep (suc left) s).0 ≡ ready
  unfolding wait_rounds
  wait_rounds-passed left s e = rw (e, wait_rounds) refl

  wait_rounds-last :
      (s : S) (name : Text) (names : List Text)
      → failed_at 0 s ≡ name ∷ names
      → (wait_rounds checks sleep 1 s).0 ≡ unavailable (name ∷ names)
  unfolding wait_rounds
  wait_rounds-last s name names e = rw (e, wait_rounds) refl

  wait_rounds-next :
      (left : ℕ) (s : S) (name : Text) (names : List Text)
      → failed_at 0 s ≡ name ∷ names
      → (wait_rounds checks sleep (suc (suc left)) s).0
        ≡ (wait_rounds checks sleep (suc left) (start_of 1 s)).0
  unfolding wait_rounds
  wait_rounds-next left s name names e = rw (e, wait_rounds) refl

  wait_rounds-Outcome :
      (last : ℕ) (s : S) → Outcome last s (wait_rounds checks sleep (suc last) s).0
  wait_rounds-Outcome zero s = elim (List-cases (failed_at 0 s)) [
    | inl e ↦ subst (Outcome 0 s) (sym (wait_rounds-passed 0 s e)) (0, omega arith, e, tt)
    | inr (name, names, e) ↦
        subst (Outcome 0 s) (sym (wait_rounds-last s name names e)) (sym e, (λ h. cc, tt))
  ]
  wait_rounds-Outcome (suc last) s = elim (List-cases (failed_at 0 s)) [
    | inl e ↦
        subst (Outcome (suc last) s) (sym (wait_rounds-passed (suc last) s e))
          (0, omega arith, e, tt)
    | inr (name, names, e) ↦
        subst (Outcome (suc last) s) (sym (wait_rounds-next last s name names e))
          (Outcome-suc last s _ (λ h. cc) (wait_rounds-Outcome last (start_of 1 s)))
  ]

  -- With at least one attempt, the wait ends. It ends well if the checks of some attempt within the
  -- number all pass, the first such attempt. Otherwise it reports the checks that failed at the last
  -- attempt, and at every attempt some check had failed.
  pub wait_for_dependencies-Outcome :
      (last : ℕ) (s : S) → Outcome last s (wait_for_dependencies checks sleep (suc last) s).0
  unfolding wait_for_dependencies
  wait_for_dependencies-Outcome = wait_rounds-Outcome

  not_unavailable :
      (k last : ℕ) (s : S) (r : Ready)
      → k ≤ last
      → failed_at k s ≡ []
      → Outcome last s r
      → r ≡ ready
  not_unavailable k last s ready le passes o = refl
  not_unavailable k last s (unavailable names) le passes (same, all) =
      absurd (AllFail-at k (suc last) s (omega arith) all passes)

  -- If the dependencies come up in time, the wait ends well: whenever the checks of an attempt within
  -- the number would all pass.
  pub wait_for_dependencies-ready :
      (k last : ℕ) (s : S)
      → k ≤ last
      → failed_at k s ≡ []
      → (wait_for_dependencies checks sleep (suc last) s).0 ≡ ready
  wait_for_dependencies-ready k last s le passes =
      not_unavailable k last s _ le passes (wait_for_dependencies-Outcome last s)
