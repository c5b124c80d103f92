-- ===== src/Guards/Matrix.antt =====
-- The behaviour matrix of the guards: whom each lets through, and why it refuses.
use mathlib.Core.Path.{subst}
use elysiajs_production_api.Base.{
  ap, arith, ℕ, ◌≡◌, refl, sym, ◌∙◌, ◌⊎◌, inl, inr, Bool, true, false, not, Option, none, some,
  Text, String, is_empty, is_some, Bool-cases, Option-cases, if◌then◌else◌,
}
use elysiajs_production_api.Errors.{Result, ok, err, pure, >>=-cases, >>=-eq-ok, ok_inj, ok_value}
use elysiajs_production_api.Permissions.{Operation, Scope, all, own, resolve_scope}
use elysiajs_production_api.Config.{Env}
use elysiajs_production_api.Schema.{User}
use elysiajs_production_api.Services.{Services, World, View, view, AccessPayload, Finds}
use elysiajs_production_api.Services.Actions.{find_user, read_clock-bind}
use elysiajs_production_api.Services.Actions.Laws.{find_user-ok}
use elysiajs_production_api.Auth.Accounts.{has_id}
use elysiajs_production_api.Jwt.{verify_access_token}
use elysiajs_production_api.Guards.{
  Decision, allowed, denied, email_not_verified, Grant, is_verified_row, owns, authorize,
  resolve_user, is_email_verified, passes_verification_gate, judge, can,
}

-- Whose resources a grant covers: everybody's at scope `all`, and at scope `own` the ones that the
-- route does not tie to an owner, or ties to the user.
abbrev pub MayTouch : Scope → Option (Option ℕ) → ℕ → Type 0
MayTouch scope param sub = (scope ≡ all) ⊎ ((param ≡ none) ⊎ (param ≡ some (some sub)))

owns-MayTouch :
    (scope : Scope) (param : Option (Option ℕ)) (sub : ℕ)
    → owns scope param sub ≡ true
    → MayTouch scope param sub
owns-MayTouch all param sub h = inl refl
owns-MayTouch own none sub h = inr (inl refl)
owns-MayTouch own (some none) sub h = absurd (cc)
owns-MayTouch own (some (some target)) sub h =
    inr (inr (ap (λ (n : ℕ). some (some n)) (ground arith)))

owns-MayTouch-not :
    (scope : Scope) (param : Option (Option ℕ)) (sub : ℕ)
    → owns scope param sub ≡ false
    → ¬ MayTouch scope param sub
owns-MayTouch-not all param sub h may = absurd (cc)
owns-MayTouch-not own param sub h (inl e) = cc
owns-MayTouch-not own none sub h (inr e) = absurd (cc)
owns-MayTouch-not own (some none) sub h (inr (inl e)) = cc
owns-MayTouch-not own (some none) sub h (inr (inr e)) = cc
owns-MayTouch-not own (some (some target)) sub h (inr (inl e)) = cc
owns-MayTouch-not own (some (some target)) sub h (inr (inr e)) =
    let same : target ≡ sub = cc in absurd (ground arith)

module _ (sv : Services) (env : Env) where
  -- The payload of the presented token, if there is one and it verifies.
  abbrev pub payload_at : Option Text → ℕ → Option AccessPayload
  payload_at none now = none
  payload_at (some token) now =
      if is_empty token then none else verify_access_token sv env token now

  resolve_user-eq :
      (bearer : Option Text) (w : World sv)
      → resolve_user sv env bearer w ≡ (ok (payload_at bearer w.now), w)
  unfolding resolve_user
  resolve_user-eq none w = refl
  resolve_user-eq (some token) w = elim (Bool-cases (is_empty token)) [
    | inl e ↦ rw (e, if◌then◌else◌) refl
    | inr e ↦ rw (e, if◌then◌else◌) (read_clock-bind sv _ w)
  ]

  -- The address of a user is verified as far as the settings ask for it.
  abbrev pub MayPass : ℕ → View → Type 0
  MayPass sub v =
      (env.require_verified_email ≡ false)
      ⊎ ((u : User) × Finds (has_id sub) v.users (some u) × (is_some u.email_verified_at ≡ true))

  abbrev pub MustVerify : ℕ → View → Type 0
  MustVerify sub v =
      (env.require_verified_email ≡ true)
      × ((o : Option User) × Finds (has_id sub) v.users o × (is_verified_row o ≡ false))

  abbrev Gated : ℕ → View → Bool → Type 0
  Gated sub v true = MayPass sub v
  Gated sub v false = MustVerify sub v

  verified-Gated :
      (sub : ℕ) (v : View) (o : Option User)
      → env.require_verified_email ≡ true
      → Finds (has_id sub) v.users o
      → Gated sub v (is_verified_row o)
  verified-Gated sub v none flag f = (flag, (none, f, refl))
  verified-Gated sub v (some u) flag f = elim (Bool-cases (is_some u.email_verified_at)) [
    | inl e ↦ rw e (inr (u, f, e))
    | inr e ↦ rw e (flag, (some u, f, e))
  ]

  passes_gate-Gated :
      (sub : ℕ) (w w' : World sv) (b : Bool)
      → passes_verification_gate sv env sub w ≡ (ok b, w')
      → Gated sub (view sv w) b × (view sv w' ≡ view sv w)
  unfolding passes_verification_gate is_email_verified
  passes_gate-Gated sub w w' b h = elim (Bool-cases env.require_verified_email) [
    | inl flag ↦
        let (o, v, found, rest) =
          >>=-eq-ok (find_user sv (has_id sub)) _ w (rw (flag, not, if◌then◌else◌) at h) in
        let (f, same) = find_user-ok sv _ w v o found in
        (
          subst (Gated sub (view sv w)) (ok_value rest) (verified-Gated sub (view sv w) o flag f),
          subst (λ x. view sv x ≡ view sv w) (ok_inj rest).1 same,
        )
    | inr flag ↦
        let now_open : pure {W = World sv} true w ≡ (ok b, w') =
          rw (flag, not, if◌then◌else◌) at h in
        (
          subst (Gated sub (view sv w)) (ok_value now_open) (inl flag),
          subst (λ x. view sv x ≡ view sv w) (ok_inj now_open).1 refl,
        )
  ]

  -- What a request that `can` lets through has shown.
  pub record IsGranted (model : Text) (op : Operation) (param : Option (Option ℕ))
      (bearer : Option Text) (v : View) (g : Grant) : Type 0 where
    pub token : payload_at bearer v.now ≡ some g.user
    pub email : MayPass g.user.sub v
    pub scope : resolve_scope g.user.role model op ≡ some g.scope
    pub owned : MayTouch g.scope param g.user.sub

  -- Why the permission is lacking: no scope is granted, or the resource is another user's.
  abbrev pub IsForbidden : Text → Operation → Option (Option ℕ) → AccessPayload → Type 0
  IsForbidden model op param user =
      (resolve_scope user.role model op ≡ none)
      ⊎ ((s : Scope) × (resolve_scope user.role model op ≡ some s) × (¬ MayTouch s param user.sub))

  -- Why `can` refuses, and with which answer: no valid token (401), then an address that is not
  -- verified (403), then a permission that is lacking (403).
  abbrev pub IsDenied :
      Text → Operation → Option (Option ℕ) → Option Text → View → ℕ → String → Type 0
  IsDenied model op param bearer v status code =
      ((status ≡ 401) × (code ≡ "UNAUTHORIZED") × (payload_at bearer v.now ≡ none))
      ⊎ ((user : AccessPayload) × (payload_at bearer v.now ≡ some user)
          × (status ≡ 403)
          × (((code ≡ "EMAIL_NOT_VERIFIED") × MustVerify user.sub v)
              ⊎ ((code ≡ "FORBIDDEN") × MayPass user.sub v × IsForbidden model op param user)))

  abbrev pub Judges :
      Text
      → Operation
      → Option (Option ℕ)
      → Option Text
      → View
      → Result (Decision Grant) × World sv
      → Type 0
  Judges model op param bearer v (ok (allowed g), w) =
      IsGranted model op param bearer v g × (view sv w ≡ v)
  Judges model op param bearer v (ok (denied status code), w) =
      IsDenied model op param bearer v status code × (view sv w ≡ v)
  Judges model op param bearer v (err e, w) = Unit

  authorize-Judges :
      (model : Text) (op : Operation) (param : Option (Option ℕ)) (bearer : Option Text) (v : View)
      (user : AccessPayload) (w : World sv)
      → payload_at bearer v.now ≡ some user
      → MayPass user.sub v
      → view sv w ≡ v
      → Judges model op param bearer v (ok (authorize model op param user), w)
  authorize-Judges model op param bearer v user w token may same =
      elim (Option-cases (resolve_scope user.role model op)) [
        | inl e ↦ rw (e, authorize) (inr (user, token, refl, inr (refl, may, inl e)), same)
        | inr (s, e) ↦ elim (Bool-cases (owns s param user.sub)) [
          | inl owned ↦
              rw (e, authorize)
                (rw owned (
                  record {
                    token = token;
                    email = may;
                    scope = e;
                    owned = owns-MayTouch s param user.sub owned;
                  },
                  same,
                ))
          | inr other ↦
              rw (e, authorize)
                (rw other (
                  inr (
                    user,
                    token,
                    refl,
                    inr (refl, may, inr (s, e, owns-MayTouch-not s param user.sub other)),
                  ),
                  same,
                ))
        ]
      ]

  Gated-Judges :
      (model : Text) (op : Operation) (param : Option (Option ℕ)) (bearer : Option Text) (v : View)
      (user : AccessPayload) (b : Bool) (w : World sv)
      → payload_at bearer v.now ≡ some user
      → Gated user.sub v b
      → view sv w ≡ v
      → Judges model op param bearer v
          (ok (if not b then email_not_verified else authorize model op param user), w)
  Gated-Judges model op param bearer v user true w token may same =
      authorize-Judges model op param bearer v user w token may same
  Gated-Judges model op param bearer v user false w token must same =
      (inr (user, token, refl, inl (refl, must)), same)

  resolved-Judges :
      (model : Text) (op : Operation) (param : Option (Option ℕ)) (bearer : Option Text)
      (resolved : Option AccessPayload) (w : World sv)
      → payload_at bearer w.now ≡ resolved
      → Judges model op param bearer (view sv w) (judge sv env model op param resolved w)
  unfolding judge
  resolved-Judges model op param bearer none w token = (inl (refl, refl, token), refl)
  resolved-Judges model op param bearer (some user) w token =
      >>=-cases (passes_verification_gate sv env user.sub) _ w
        (Judges model op param bearer (view sv w))
        (λ b v h.
          let (gated, same) = passes_gate-Gated user.sub w v b h in
          Gated-Judges model op param bearer (view sv w) user b v token gated same)
        (λ e v h. tt)

  -- The guard `can`, if the database answers: it lets a request through only with a token that
  -- verifies, with a verified address where the settings ask for one, with a scope that the token's
  -- role is granted for the model and the operation, and, at scope `own`, for the user's own resource
  -- or where the route names no owner. It refuses with 401 only if there is no such token, and with
  -- 403 only if there is one, for the reason that it finds first: the address, or the permission. It
  -- changes nothing.
  pub can-Judges :
      (model : Text) (op : Operation) (param : Option (Option ℕ)) (bearer : Option Text)
      (w : World sv)
      → Judges model op param bearer (view sv w) (can sv env model op param bearer w)
  unfolding can
  can-Judges model op param bearer w =
      >>=-cases (resolve_user sv env bearer) _ w (Judges model op param bearer (view sv w))
        (λ r v h.
          let answered = sym (resolve_user-eq bearer w) ∙ h in
          subst (λ x. Judges model op param bearer (view sv w) (judge sv env model op param r x))
            (ok_inj answered).1 (resolved-Judges model op param bearer r w (ok_value answered)))
        (λ e v h. tt)
