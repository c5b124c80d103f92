-- ===== src/Auth/Tokens/OneUse.antt =====
-- A refresh token is good for one rotation, whatever other requests do in between. The claim is one
-- statement, so requests that run at the same time are a sequence of steps on the table.
use mathlib.Core.Path.{subst}
use elysiajs_production_api.Base.{
  ℕ, ◌≤◌, ◌≡◌, sym, ◌∙◌, Bool, false, List, [], ◌∷◌, filter, map_where, All, All-map, All-map_where,
  All-filter, All-intro, count-none, nil_of_length, ◌==◌, arith,
}
use elysiajs_production_api.Errors.{ok}
use elysiajs_production_api.Schema.{RefreshToken}
use elysiajs_production_api.Services.{Services, World, view}
use elysiajs_production_api.Auth.Tokens.{is_claimable, mark_used, claim}
use elysiajs_production_api.Auth.Tokens.Rotation.{claim-ok}

-- What any request may do to the table of refresh tokens: issue a token with another digest, claim
-- tokens, delete some.
pub data TokenStep (hash : ℕ) (l l' : List RefreshToken) : Type 0 where
  issue : (r : RefreshToken) → (r.token == hash) ≡ false → l' ≡ r ∷ l → TokenStep hash l l'
  claims :
      (other now : ℕ)
      → l' ≡ map_where (is_claimable other now) (mark_used now) l
      → TokenStep hash l l'
  deletes : (keep : RefreshToken → Bool) → l' ≡ filter keep l → TokenStep hash l l'

pub data TokenHistory (hash : ℕ) (l : List RefreshToken) : List RefreshToken → Type 0 where
  here : TokenHistory hash l l
  next :
      {l' l'' : List RefreshToken}
      → TokenHistory hash l l'
      → TokenStep hash l' l''
      → TokenHistory hash l l''

-- No row with the digest can be claimed, now or later.
abbrev pub Spent : ℕ → ℕ → List RefreshToken → Type 0
Spent hash now = All (λ r. is_claimable hash now r ≡ false)

pub Spent-later :
    (hash : ℕ) {now later : ℕ} (l : List RefreshToken)
    → now ≤ later
    → Spent hash now l
    → Spent hash later l
Spent-later hash l h = All-map _ _ (λ r e. ground arith) l

Spent-claimed :
    (hash now other t : ℕ) (l : List RefreshToken)
    → Spent hash now l
    → Spent hash now (map_where (is_claimable other t) (mark_used t) l)
Spent-claimed hash now other t =
    All-map_where _ _ (is_claimable other t) (mark_used t) (λ r e c. ground arith) (λ r e c. e)

-- After a claim, whichever rows it found.
pub Spent-after_claim :
    (hash now : ℕ) (l : List RefreshToken)
    → Spent hash now (map_where (is_claimable hash now) (mark_used now) l)
Spent-after_claim hash now l =
    All-map_where (λ r. Unit {0}) _ (is_claimable hash now) (mark_used now) (λ r e c. ground arith)
      (λ r e c. c) l (All-intro (λ r. Unit {0}) (λ r. tt) l)

Spent-step :
    (hash now : ℕ) (l l' : List RefreshToken)
    → TokenStep hash l l'
    → Spent hash now l
    → Spent hash now l'
Spent-step hash now l l' (issue r other e) h = rw e (ground arith, h)
Spent-step hash now l l' (claims other t e) h = rw e (Spent-claimed hash now other t l h)
Spent-step hash now l l' (deletes keep e) h = rw e (All-filter _ keep l h)

pub Spent-history :
    (hash now : ℕ) {l l' : List RefreshToken}
    → TokenHistory hash l l'
    → Spent hash now l
    → Spent hash now l'
Spent-history hash now here h = h
Spent-history hash now (next past step) h =
    Spent-step hash now _ _ step (Spent-history hash now past h)

module _ (sv : Services) where
  -- Once a token's digest has been claimed, no later claim of it that returns finds a row: not after
  -- any sequence of issues of tokens with other digests, claims and deletions, by whatever requests, if
  -- the clock has not gone back.
  pub claim_once :
      (hash : ℕ) (w w₁ w₂ w₃ : World sv) (l₁ l₂ : List RefreshToken)
      → claim sv hash w ≡ (ok l₁, w₁)
      → TokenHistory hash (view sv w₁).tokens (view sv w₂).tokens
      → w.now ≤ w₂.now
      → claim sv hash w₂ ≡ (ok l₂, w₃)
      → l₂ ≡ []
  claim_once hash w w₁ w₂ w₃ l₁ l₂ first past later second =
      let after : Spent hash w.now (view sv w₁).tokens =
        subst (λ v. Spent hash w.now v.tokens) (sym (claim-ok sv hash w w₁ l₁ first).1)
          (Spent-after_claim hash w.now (view sv w).tokens) in
      let spent = Spent-later hash _ later (Spent-history hash w.now past after) in
      nil_of_length l₂ ((claim-ok sv hash w₂ w₃ l₂ second).0.1 ∙ count-none _ _ spent)
