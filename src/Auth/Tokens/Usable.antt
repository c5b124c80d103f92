-- ===== src/Auth/Tokens/Usable.antt =====
-- A token that has just been stored can be used.
use mathlib.Core.Path.{subst}
use elysiajs_production_api.Base.{
  ℕ, suc, ◌<◌, ◌≡◌, refl, ap, inl, inr, true, false, some, List, [], ◌∷◌, Text, All, Any, ◌==◌,
  arith,
}
use elysiajs_production_api.Errors.{ok, discard-ok, >>=-of_ok}
use elysiajs_production_api.Schema.{RefreshToken, refresh_token_row, refresh_token_clash}
use elysiajs_production_api.Services.{Services, World, view, Returns}
use elysiajs_production_api.Services.Actions.{insert_token}
use elysiajs_production_api.Services.Actions.Laws.{insert_token-ok}
use elysiajs_production_api.Auth.Tokens.{
  is_claimable, mark_used, store_refresh_token, claim, answer_claim, use_refresh_token,
}
use elysiajs_production_api.Auth.Tokens.Rotation.{claim-ok}

module _ (hash now : ℕ) (a : RefreshToken) where
  -- Only `a` can be claimed, if no other row has its digest.
  only_claimable :
      (l : List RefreshToken) (r : RefreshToken)
      → (a.token == hash) ≡ true
      → All (λ x. refresh_token_clash a x ≡ false) l
      → ¬ Any (λ x. (is_claimable hash now x ≡ true) × (r ≡ mark_used now x)) l
  only_claimable [] r same h k = k
  only_claimable (x ∷ l) r same h (inl (can, e)) =
      absurd (let clash : (a.token == x.token) ≡ false = h.0 in ground arith)
  only_claimable (x ∷ l) r same h (inr k) = only_claimable l r same h.1 k

  claimed_row :
      (l : List RefreshToken) (r : RefreshToken)
      → (a.token == hash) ≡ true
      → All (λ x. refresh_token_clash a x ≡ false) l
      → Any (λ x. (is_claimable hash now x ≡ true) × (r ≡ mark_used now x)) (a ∷ l)
      → r ≡ mark_used now a
  claimed_row l r same h (inl (can, e)) = e
  claimed_row l r same h (inr k) = absurd (only_claimable l r same h k)

  returned_row :
      (l rows : List RefreshToken)
      → (a.token == hash) ≡ true
      → is_claimable hash now a ≡ true
      → All (λ x. refresh_token_clash a x ≡ false) l
      → Returns (is_claimable hash now) (mark_used now) (a ∷ l) rows
      → (rest : List RefreshToken) × (rows ≡ mark_used now a ∷ rest)
  returned_row l [] same can h (come, many) =
      absurd (let z : 0 ≡ suc _ = rw can at many in omega arith)
  returned_row l (r ∷ rest) same can h (come, many) =
      (rest, ap (λ x. x ∷ rest) (claimed_row l r same h come.0))

module _ (sv : Services) where
  -- The marked row of the token that was stored.
  abbrev pub IsMarked : ℕ → ℕ → ℕ → ℕ → ℕ → RefreshToken → Type 0
  IsMarked hash user_id family expires_at now r =
      (r.token ≡ hash)
      × (r.user_id ≡ user_id)
      × (r.family_id ≡ family)
      × (r.expires_at ≡ expires_at)
      × (r.used_at ≡ some now)

  -- A refresh token that has just been stored, with an expiry in the future, can be used: if the database
  -- answers the claim, the use returns, in the state after the claim, the row of that user, family and
  -- expiry, marked as used now.
  pub use_refresh_token-store_refresh_token :
      (user_id : ℕ) (token : Text) (expires_at family : ℕ) (w w₁ w₂ : World sv) (u : Unit {0})
      (l : List RefreshToken)
      → w.now < expires_at
      → store_refresh_token sv user_id token expires_at family w ≡ (ok u, w₁)
      → claim sv (sv.sha256 token) w₁ ≡ (ok l, w₂)
      → (r : RefreshToken) × (use_refresh_token sv token w₁ ≡ (ok r, w₂))
        × IsMarked (sv.sha256 token) user_id family expires_at w.now r
  unfolding store_refresh_token use_refresh_token answer_claim
  use_refresh_token-store_refresh_token user_id token expires_at family w w₁ w₂ u l future stored
        claimed =
      let (a, inserted) = discard-ok (insert_token sv _) w stored in
      let (id, row, fresh, unique, e) = insert_token-ok sv _ w w₁ a inserted in
      let now_is : w₁.now ≡ w.now = ap (λ v. v.now) e in
      let (returned, after) = claim-ok sv (sv.sha256 token) w₁ w₂ l claimed in
      answered id l a row unique
        (subst
          (λ t. Returns (is_claimable (sv.sha256 token) t) (mark_used t) (a ∷ (view sv w).tokens) l)
          now_is
          (subst
            (λ v. Returns (is_claimable (sv.sha256 token) w₁.now) (mark_used w₁.now) v.tokens l) e
            returned))
        claimed
    where
      stored_row : ℕ → RefreshToken
      stored_row id =
          refresh_token_row
            (record {
              token = sv.sha256 token;
              user_id = user_id;
              family_id = family;
              expires_at = expires_at;
            })
            id w.now

      answered :
          (id : ℕ) (l : List RefreshToken) (a : RefreshToken)
          → a ≡ stored_row id
          → All (λ x. refresh_token_clash a x ≡ false) (view sv w).tokens
          → Returns
              (is_claimable (sv.sha256 token) w.now)
              (mark_used w.now)
              (a ∷ (view sv w).tokens)
              l
          → claim sv (sv.sha256 token) w₁ ≡ (ok l, w₂)
          → (r : RefreshToken) × (use_refresh_token sv token w₁ ≡ (ok r, w₂))
            × IsMarked (sv.sha256 token) user_id family expires_at w.now r
      answered id l a row unique returned claimed =
          let same : (a.token == sv.sha256 token) ≡ true = rw row (ground arith) in
          let can : is_claimable (sv.sha256 token) w.now a ≡ true = rw row (ground arith) in
          let (rest, is) =
            returned_row (sv.sha256 token) w.now a (view sv w).tokens l same can unique returned in
          (
            mark_used w.now a,
            >>=-of_ok (claim sv (sv.sha256 token)) (answer_claim sv (sv.sha256 token))
                (subst (λ x. claim sv (sv.sha256 token) w₁ ≡ (ok x, w₂)) is claimed),
            rw row (refl, refl, refl, refl, refl),
          )
