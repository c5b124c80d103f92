-- ===== src/Auth/Tokens.antt =====
-- src/modules/auth/service.ts: refresh tokens, their rotation with theft detection, and revocation.
pub mod Rotation
pub mod OneUse
pub mod Histories
pub mod Usable
use elysiajs_production_api.Base.{
  Option, ℕ, Bool, ◌&&◌, not, none, some, List, [], ◌∷◌, Text, length, is_some, ltb, ◌==◌,
  if◌then◌else◌,
}
use elysiajs_production_api.Errors.{unauthorized, Call, pure, throw, ◌>>=◌, ◌>>◌}
use elysiajs_production_api.Calls.{or_throw}
use elysiajs_production_api.Schema.{RefreshToken}
use elysiajs_production_api.Services.{Services, World}
use elysiajs_production_api.Services.Actions.{
  find_token, insert_token, update_tokens, delete_tokens, read_clock,
}
use elysiajs_production_api.Audit.{record_audit}

-- `eq(token, hash) and used_at is null and expires_at > now`
abbrev pub is_claimable : ℕ → ℕ → RefreshToken → Bool
is_claimable hash now r = r.token == hash && (not (is_some r.used_at) && ltb now r.expires_at)

abbrev pub mark_used : ℕ → RefreshToken → RefreshToken
mark_used now r = record r { used_at = some now }

module _ (sv : Services) where
  -- Only the digest is stored.
  unfoldable pub store_refresh_token : ℕ → Text → ℕ → ℕ → Call (World sv) (Unit {0})
  store_refresh_token user_id token expires_at family_id = do
    insert_token sv (record {
      token = sv.sha256 token;
      user_id = user_id;
      family_id = family_id;
      expires_at = expires_at;
    })
    pure tt

  -- The claim: one conditional `UPDATE … RETURNING`.
  unfoldable pub claim : ℕ → Call (World sv) (List RefreshToken)
  claim hash = do now ← read_clock sv; update_tokens sv (is_claimable hash now) (mark_used now)

  unfoldable pub revoke_family : ℕ → Call (World sv) (Unit {0})
  revoke_family family_id = do delete_tokens sv (λ r. r.family_id == family_id); pure tt

  -- A used token was presented again: the whole family goes.
  unfoldable pub burn_family : RefreshToken → Call (World sv) RefreshToken
  unfolding revoke_family
  burn_family row = do
    revoke_family row.family_id
    record_audit sv (record {
      action = "security.token_reuse_detected";
      actor_id = some row.user_id;
      target_type = some "refresh_token_family";
      target_id = some row.family_id;
      metadata = none;
      ip = none;
    })
    throw (unauthorized "Refresh token reuse detected")

  -- An unused token that could not be claimed has expired: its row goes.
  unfoldable pub drop_expired : RefreshToken → Call (World sv) RefreshToken
  drop_expired row = do
    delete_tokens sv (λ r. r.id == row.id)
    throw (unauthorized "Invalid or expired refresh token")

  -- The claim failed: unknown token, reuse or a lost race, or expired.
  unfoldable pub explain : Option RefreshToken → Call (World sv) RefreshToken
  unfolding burn_family drop_expired
  explain found = do
    row ← or_throw found (unauthorized "Invalid refresh token")
    if is_some row.used_at then burn_family row else drop_expired row

  unfoldable pub refuse : ℕ → Call (World sv) RefreshToken
  unfolding explain
  refuse hash = do found ← find_token sv (λ r. r.token == hash); explain found

  -- Whoever flipped `used_at` goes on with the claimed row.
  unfoldable pub answer_claim : ℕ → List RefreshToken → Call (World sv) RefreshToken
  unfolding refuse
  answer_claim hash [] = refuse hash
  answer_claim hash (row ∷ rest) = pure row

  unfoldable pub use_refresh_token : Text → Call (World sv) RefreshToken
  unfolding claim answer_claim
  use_refresh_token token = do
    claimed ← claim (sv.sha256 token)
    answer_claim (sv.sha256 token) claimed

  -- Logging out deletes the token's whole family; an unknown token is no error.
  unfoldable pub revoke_refresh_token : Text → Call (World sv) (Unit {0})
  unfolding revoke_family
  revoke_refresh_token token = do
    found ← find_token sv (λ r. r.token == sv.sha256 token)
    elim found [ none ↦ pure tt | some row ↦ revoke_family row.family_id ]

  unfoldable pub revoke_all_refresh_tokens : ℕ → Call (World sv) (Unit {0})
  revoke_all_refresh_tokens user_id = do delete_tokens sv (λ r. r.user_id == user_id); pure tt

  unfoldable pub delete_expired_refresh_tokens : Call (World sv) ℕ
  delete_expired_refresh_tokens = do
    now ← read_clock sv
    deleted ← delete_tokens sv (λ r. ltb r.expires_at now)
    pure (length deleted)
