-- ===== src/Auth/Tokens/Histories/SingleUse.antt =====
-- A refresh token is used once, whatever the service does in between: the operations of the program are
-- steps, and other work and the passage of time lie between them.
use mathlib.Core.Path.{subst}
use elysiajs_production_api.Base.{
  ℕ, ◌≤◌, ◌≡◌, sym, inl, inr, true, false, List, [], ◌∷◌, Text, Any, ◌==◌,
}
use elysiajs_production_api.Errors.{Result, ok}
use elysiajs_production_api.Schema.{RefreshToken}
use elysiajs_production_api.Services.{Services, World, view}
use elysiajs_production_api.Auth.Tokens.{
  is_claimable, mark_used, use_refresh_token, store_refresh_token, revoke_refresh_token,
  revoke_all_refresh_tokens, delete_expired_refresh_tokens,
}
use elysiajs_production_api.Auth.Tokens.Rotation.{Uses, use_refresh_token-Uses}
use elysiajs_production_api.Auth.Tokens.OneUse.{
  Spent, Spent-later, Spent-after_claim, Spent-history,
}
use elysiajs_production_api.Auth.Tokens.Histories.{
  IsHistory, use_refresh_token-Moves, store_refresh_token-Moves, revoke_refresh_token-Moves,
  revoke_all_refresh_tokens-Moves, delete_expired_refresh_tokens-Moves,
}

module _ (sv : Services) where
  -- What may happen between two uses of a token with a digest: any operation on refresh tokens,
  -- returning or throwing, as long as no token with the same digest is stored anew; and anything that
  -- leaves the refresh tokens alone, with the clock going on.
  pub data Happening (hash : ℕ) (w w' : World sv) : Type 0 where
    uses :
        (token : Text) (r : Result RefreshToken)
        → use_refresh_token sv token w ≡ (r, w')
        → Happening hash w w'
    stores :
        (user_id : ℕ) (token : Text) (expires_at family : ℕ) (r : Result (Unit {0}))
        → (sv.sha256 token == hash) ≡ false
        → store_refresh_token sv user_id token expires_at family w ≡ (r, w')
        → Happening hash w w'
    revokes :
        (token : Text) (r : Result (Unit {0}))
        → revoke_refresh_token sv token w ≡ (r, w')
        → Happening hash w w'
    revokes_all :
        (user_id : ℕ) (r : Result (Unit {0}))
        → revoke_all_refresh_tokens sv user_id w ≡ (r, w')
        → Happening hash w w'
    sweeps : (r : Result ℕ) → delete_expired_refresh_tokens sv w ≡ (r, w') → Happening hash w w'
    elsewhere : (view sv w').tokens ≡ (view sv w).tokens → w.now ≤ w'.now → Happening hash w w'

  pub data Run (hash : ℕ) (w : World sv) : World sv → Type 0 where
    start : Run hash w w
    then : {v v' : World sv} → Run hash w v → Happening hash v v' → Run hash w v'

  -- A digest that cannot be claimed, now or later.
  abbrev pub IsSpent : ℕ → World sv → Type 0
  IsSpent hash w = Spent hash w.now (view sv w).tokens

  IsSpent-history :
      (hash : ℕ) (w w' : World sv)
      → IsHistory hash (view sv w) (view sv w')
      → IsSpent hash w
      → IsSpent hash w'
  IsSpent-history hash w w' (past, time) h =
      subst (λ t. Spent hash t (view sv w').tokens) (sym time) (Spent-history hash w.now past h)

  IsSpent-Happening :
      (hash : ℕ) (w w' : World sv) → Happening hash w w' → IsSpent hash w → IsSpent hash w'
  IsSpent-Happening hash w w' (uses token r h) =
      IsSpent-history hash w w' (use_refresh_token-Moves sv hash token w w' r h)
  IsSpent-Happening hash w w' (stores user_id token expires_at family r other h) =
      IsSpent-history hash w w'
        (store_refresh_token-Moves sv hash user_id token expires_at family other w w' r h)
  IsSpent-Happening hash w w' (revokes token r h) =
      IsSpent-history hash w w' (revoke_refresh_token-Moves sv hash token w w' r h)
  IsSpent-Happening hash w w' (revokes_all user_id r h) =
      IsSpent-history hash w w' (revoke_all_refresh_tokens-Moves sv hash user_id w w' r h)
  IsSpent-Happening hash w w' (sweeps r h) =
      IsSpent-history hash w w' (delete_expired_refresh_tokens-Moves sv hash w w' r h)
  IsSpent-Happening hash w w' (elsewhere same later) = λ spent.
      Spent-later hash (view sv w').tokens later (subst (λ l. Spent hash w.now l) (sym same) spent)

  IsSpent-Run : (hash : ℕ) {w w' : World sv} → Run hash w w' → IsSpent hash w → IsSpent hash w'
  IsSpent-Run hash start h = h
  IsSpent-Run hash (then run step) h = IsSpent-Happening hash _ _ step (IsSpent-Run hash run h)

  no_claimable :
      (hash now : ℕ) (l : List RefreshToken) (r : RefreshToken)
      → Spent hash now l
      → ¬ Any (λ x. (is_claimable hash now x ≡ true) × (r ≡ mark_used now x)) l
  no_claimable hash now [] r h k = k
  no_claimable hash now (x ∷ l) r h k = elim k [
    | inl (can, e) ↦ absurd (let none = h.0 in cc)
    | inr rest ↦ no_claimable hash now l r h.1 rest
  ]

  used-IsSpent :
      (token : Text) (w w' : World sv) (r : RefreshToken)
      → use_refresh_token sv token w ≡ (ok r, w')
      → IsSpent (sv.sha256 token) w'
  used-IsSpent token w w' r h =
      let (found, e) =
        subst (Uses sv (sv.sha256 token) (view sv w)) h (use_refresh_token-Uses sv token w) in
      subst (λ v. Spent (sv.sha256 token) v.now v.tokens) (sym e)
        (Spent-after_claim (sv.sha256 token) w.now (view sv w).tokens)

  -- A digest that cannot be claimed is not used successfully later.
  pub unusable :
      (token : Text) (w w₁ w₂ : World sv) (r : RefreshToken)
      → IsSpent (sv.sha256 token) w
      → Run (sv.sha256 token) w w₁
      → ¬ (use_refresh_token sv token w₁ ≡ (ok r, w₂))
  unusable token w w₁ w₂ r spent run h =
      let (found, e) =
        subst (Uses sv (sv.sha256 token) (view sv w₁)) h (use_refresh_token-Uses sv token w₁) in
      no_claimable (sv.sha256 token) w₁.now (view sv w₁).tokens r
        (IsSpent-Run (sv.sha256 token) run spent) found

  -- A refresh token that has been used successfully is never used successfully again: not after any
  -- sequence of uses of any tokens, issues, logouts, revocations and sweeps, whether they return or
  -- throw, and of other work that leaves the refresh tokens alone, if the clock does not go back and
  -- no token with the same digest is stored anew.
  pub use_refresh_token-SingleUse :
      (token : Text) (w w₁ w₂ w₃ : World sv) (r r' : RefreshToken)
      → use_refresh_token sv token w ≡ (ok r, w₁)
      → Run (sv.sha256 token) w₁ w₂
      → ¬ (use_refresh_token sv token w₂ ≡ (ok r', w₃))
  use_refresh_token-SingleUse token w w₁ w₂ w₃ r r' first run second =
      unusable token w₁ w₂ w₃ r' (used-IsSpent token w w₁ r first) run second
