-- ===== src/Jwt/Rotation.antt =====
-- Access tokens outlive a rotation of the secret, and only this service's claims are believed.
use mathlib.Core.Path.{subst}
use elysiajs_production_api.Base.{
  Any-filter, arith, ℕ, ◌≡◌, refl, sym, ap, ◌∙◌, ◌⊎◌, inl, inr, false, not, none, some, List, [],
  ◌∷◌, Text, filter, is_empty, Bool-cases, Option-cases, if◌then◌else◌, Any,
}
use elysiajs_production_api.Permissions.{Role, user, admin}
use elysiajs_production_api.Config.{Env}
use elysiajs_production_api.Services.{Services, AccessPayload, Claims}
use elysiajs_production_api.Jwt.{
  role_text, role_of, payload_of, sign_access_token, verify_with, verify_access_token,
}

-- The claims that signing writes.
abbrev pub claims_of : AccessPayload → Claims
claims_of p = record { sub = some p.sub; role = some (role_text p.role) }

role_of-role_text : (r : Role) → role_of (some (role_text r)) ≡ some r
role_of-role_text user = refl
role_of-role_text admin = refl

payload_of-claims_of : (p : AccessPayload) → payload_of (claims_of p) ≡ some p
payload_of-claims_of p = rw (role_of-role_text p.role) refl

module _ (sv : Services) (env : Env) where
  verify_with-first :
      (s : Text) (l : List Text) (token : Text) (now : ℕ) (c : Claims)
      → sv.verify_jwt s token now ≡ some c
      → verify_with sv env (s ∷ l) token now ≡ payload_of c
  unfolding verify_with
  verify_with-first s l token now c h = rw (h, verify_with) refl

  verify_with-next :
      (s : Text) (l : List Text) (token : Text) (now : ℕ)
      → sv.verify_jwt s token now ≡ none
      → verify_with sv env (s ∷ l) token now ≡ verify_with sv env l token now
  unfolding verify_with
  verify_with-next s l token now h = rw (h, verify_with) refl

  verify_with-nil : (token : Text) (now : ℕ) → verify_with sv env [] token now ≡ none
  unfolding verify_with
  verify_with-nil token now = refl

  -- The payload comes from claims that one of the secrets verifies.
  abbrev pub Verified : Text → ℕ → AccessPayload → Text → Type 0
  Verified token now p s =
      (c : Claims) × (sv.verify_jwt s token now ≡ some c) × (payload_of c ≡ some p)

  verify_with-Verified :
      (l : List Text) (token : Text) (now : ℕ) (p : AccessPayload)
      → verify_with sv env l token now ≡ some p
      → Any (Verified token now p) l
  verify_with-Verified [] token now p h = let e = sym (verify_with-nil token now) ∙ h in absurd (cc)
  verify_with-Verified (s ∷ l) token now p h = elim (Option-cases (sv.verify_jwt s token now)) [
    | inl e ↦ inr (verify_with-Verified l token now p (sym (verify_with-next s l token now e) ∙ h))
    | inr (c, e) ↦ inl (c, e, sym (verify_with-first s l token now c e) ∙ h)
  ]

  abbrev secrets : List Text
  secrets = filter (λ s. not (is_empty s)) (env.jwt_secret ∷ env.jwt_secret_previous ∷ [])

  -- A secret in use is one of the two of the settings, and not empty.
  secrets-Any :
      (P : Text → Type 0)
      → Any P secrets
      → (s : Text) × ((s ≡ env.jwt_secret) ⊎ (s ≡ env.jwt_secret_previous))
        × (is_empty s ≡ false)
        × P s
  secrets-Any P h =
      let kept =
        Any-filter P (λ s. not (is_empty s)) (env.jwt_secret ∷ env.jwt_secret_previous ∷ []) h in
      elim kept [
        | inl (full, at) ↦ (env.jwt_secret, inl refl, ground arith, at)
        | inr (inl (full, at)) ↦ (env.jwt_secret_previous, inr refl, ground arith, at)
        | inr (inr nowhere) ↦ absurd nowhere
      ]

  -- A payload that is accepted comes from claims that a secret in use verifies: the current one or the
  -- previous one, and never an empty one. The claims have the subject and the role of the payload.
  pub verify_access_token-Verified :
      (token : Text) (now : ℕ) (p : AccessPayload)
      → verify_access_token sv env token now ≡ some p
      → (s : Text) × ((s ≡ env.jwt_secret) ⊎ (s ≡ env.jwt_secret_previous))
        × (is_empty s ≡ false)
        × Verified token now p s
  unfolding verify_access_token
  verify_access_token-Verified token now p h =
      secrets-Any (Verified token now p) (verify_with-Verified secrets token now p h)

  -- With the signing secret in front, or behind one that does not verify the token.
  verify_access_token-at :
      (token : Text) (now : ℕ) (s : Text) (c : Claims)
      → is_empty s ≡ false
      → (env.jwt_secret ≡ s)
        ⊎ ((env.jwt_secret_previous ≡ s) × (sv.verify_jwt env.jwt_secret token now ≡ none))
      → sv.verify_jwt s token now ≡ some c
      → verify_access_token sv env token now ≡ payload_of c
  unfolding verify_access_token
  verify_access_token-at token now s c full (inl same) h =
      let e : is_empty env.jwt_secret ≡ false = ap is_empty same ∙ full in
      let h' = subst (λ x. sv.verify_jwt x token now ≡ some c) (sym same) h in
      rw (e, not, if◌then◌else◌)
        (verify_with-first env.jwt_secret
          (filter (λ s. not (is_empty s)) (env.jwt_secret_previous ∷ [])) token now c h')
  verify_access_token-at token now s c full (inr (same, other)) h =
      let e : is_empty env.jwt_secret_previous ≡ false = ap is_empty same ∙ full in
      let h' = subst (λ x. sv.verify_jwt x token now ≡ some c) (sym same) h in
      let last = verify_with-first env.jwt_secret_previous [] token now c h' in
      elim (Bool-cases (is_empty env.jwt_secret)) [
        | inl empty ↦ rw (empty, e, not, if◌then◌else◌) last
        | inr there ↦
            rw (there, e, not, if◌then◌else◌)
              (verify_with-next env.jwt_secret (env.jwt_secret_previous ∷ []) token now other
                ∙ last)
      ]

module _ (sv : Services) where
  -- A token of this service is accepted, and gives back the payload that was signed, if the secret it
  -- was signed under (not an empty one) is the current one, or the previous one and the current one
  -- does not verify it; and if the signature verifies under that secret with the claims as signed.
  pub verify_access_token-sign_access_token :
      (old new : Env) (p : AccessPayload) (signed now : ℕ)
      → is_empty old.jwt_secret ≡ false
      → (new.jwt_secret ≡ old.jwt_secret)
        ⊎ ((new.jwt_secret_previous ≡ old.jwt_secret)
            × (sv.verify_jwt new.jwt_secret (sign_access_token sv old p signed) now ≡ none))
      → sv.verify_jwt old.jwt_secret (sign_access_token sv old p signed) now ≡ some (claims_of p)
      → verify_access_token sv new (sign_access_token sv old p signed) now ≡ some p
  verify_access_token-sign_access_token old new p signed now full secret verifies =
      verify_access_token-at sv new _ now old.jwt_secret (claims_of p) full secret verifies
      ∙ payload_of-claims_of p
