-- ===== src/Auth/Attempts/Runs.antt =====
-- Runs in which guesses at a code are counted, and the bound on them.
use elysiajs_production_api.Base.{ℕ, zero, suc, ◌+◌, ◌≤◌, ◌≡◌, Text, arith}
use elysiajs_production_api.Errors.{Call}

-- A call is a guess if what it returns or throws, and the state it leaves, depend on the code that it
-- is given: with some other code they would not be the same.
abbrev pub DependsOnCode : {A W : Type 0} → (Text → Call W A) → Text → W → Type 0
DependsOnCode f code w = (other : Text) × ¬ (f other w ≡ f code w)

-- All codes lead to the same.
abbrev pub IsAlike : {A W : Type 0} → (Text → Call W A) → W → Type 0
IsAlike f w = (code other : Text) → f other w ≡ f code w

module _ {W : Type 0} (Compares Other : W → W → Type 0) where
  -- A run with a number of comparisons, and other steps among them.
  pub data Guesses (w : W) : ℕ → W → Type 0 where
    none_yet : Guesses w 0 w
    compared : {k : ℕ} {v v' : W} → Guesses w k v → Compares v v' → Guesses w (suc k) v'
    meanwhile : {k : ℕ} {v v' : W} → Guesses w k v → Other v v' → Guesses w k v'

  module _ (Left : ℕ → W → Type 0)
      (spends : (n : ℕ) (v v' : W) → Compares v v' → Left n v → (m : ℕ) × (n ≡ suc m) × Left m v')
      (keeps : (n : ℕ) (v v' : W) → Other v v' → Left n v → Left n v') where
    rest_after :
        {w : W} (n k : ℕ) {w' : W} → Guesses w k w' → Left n w → (m : ℕ) × (k + m ≡ n) × Left m w'
    rest_after n zero none_yet h = (n, omega arith, h)
    rest_after n (suc k) (compared run step) h =
        let (m, sum, left) = rest_after n k run h in
        let (l, less, left') = spends m _ _ step left in (l, omega arith, left')
    rest_after n k (meanwhile run step) h =
        let (m, sum, left) = rest_after n k run h in (m, sum, keeps m _ _ step left)

    -- If each comparison takes one of what is left and no other step adds to it, no more are made than
    -- were left at the start.
    pub at_most : {w : W} (n k : ℕ) {w' : W} → Guesses w k w' → Left n w → k ≤ n
    at_most n k run h = let (m, sum, left) = rest_after n k run h in omega arith
