-- ===== src/Auth/Tokens/Rotation.antt =====
-- What presenting a refresh token does, on every branch of `useRefreshToken`.
use mathlib.Core.Path.{subst}
use elysiajs_production_api.Base.{
  ℕ, ◌≡◌, refl, sym, ap, ◌∙◌, ◌⊎◌, inl, inr, true, false, not, Option, none, some, List, [], ◌∷◌,
  Text, filter, map_where, map_where-none, count-eq_zero, All, Any, is_some, ◌==◌, Bool-cases,
  if◌then◌else◌,
}
use elysiajs_production_api.Errors.{
  AppError, unauthorized, Thrown, app, driver, throw-bind, Result, ok, err, discard-ok, discard-err,
  pure-bind, >>=-cases,
}
use elysiajs_production_api.Schema.{RefreshToken}
use elysiajs_production_api.Services.{Services, World, View, view, IsDriver, Returns, Finds}
use elysiajs_production_api.Services.Actions.{find_token, delete_tokens, read_clock-bind}
use elysiajs_production_api.Services.Actions.Laws.{
  find_token-ok, find_token-err, update_tokens-ok, update_tokens-err, delete_tokens-ok,
  delete_tokens-err,
}
use elysiajs_production_api.Audit.BestEffort.{SameButAudits, record_audit-cases}
use elysiajs_production_api.Auth.Tokens.{
  is_claimable, mark_used, claim, revoke_family, burn_family, drop_expired, refuse, explain,
  answer_claim, use_refresh_token,
}

-- The state after a claim, after a family is burnt, and after an expired row is dropped.
abbrev pub claimed_view : ℕ → View → View
claimed_view hash v = record v {
  tokens = map_where (is_claimable hash v.now) (mark_used v.now) v.tokens;
}

abbrev pub burnt_view : ℕ → View → View
burnt_view family_id v = record v {
  tokens = filter (λ (r : RefreshToken). not (r.family_id == family_id)) v.tokens;
}

abbrev pub dropped_view : ℕ → View → View
dropped_view id v = record v { tokens = filter (λ (r : RefreshToken). not (r.id == id)) v.tokens }

-- The three reasons for which a token is refused, with what each does to the state.
pub record IsUnknown (hash : ℕ) (v v' : View) (e : AppError) : Type 0 where
  pub error : e ≡ unauthorized "Invalid refresh token"
  pub absent : All (λ (r : RefreshToken). (r.token == hash) ≡ false) v.tokens
  pub same : v' ≡ v

pub record IsReuse (hash : ℕ) (v v' : View) (e : AppError) : Type 0 where
  pub row : RefreshToken
  pub error : e ≡ unauthorized "Refresh token reuse detected"
  pub listed : Any (λ r. r ≡ row) v.tokens
  pub token : (row.token == hash) ≡ true
  pub used : is_some row.used_at ≡ true
  pub burnt : SameButAudits (burnt_view row.family_id v) v'

pub record IsExpiry (hash : ℕ) (v v' : View) (e : AppError) : Type 0 where
  pub row : RefreshToken
  pub error : e ≡ unauthorized "Invalid or expired refresh token"
  pub listed : Any (λ r. r ≡ row) v.tokens
  pub token : (row.token == hash) ≡ true
  pub unused : is_some row.used_at ≡ false
  pub dropped : v' ≡ dropped_view row.id v

abbrev pub IsRefused : ℕ → View → View → AppError → Type 0
IsRefused hash v v' e = IsUnknown hash v v' e ⊎ (IsReuse hash v v' e ⊎ IsExpiry hash v v' e)

module _ (sv : Services) where
  -- An answer to a presented token: a row that could be claimed, marked as used, or a reason.
  abbrev pub Uses : ℕ → View → Result RefreshToken × World sv → Type 0
  Uses hash v (ok r, w) =
      Any (λ x. (is_claimable hash v.now x ≡ true) × (r ≡ mark_used v.now x)) v.tokens
      × (view sv w ≡ claimed_view hash v)
  Uses hash v (err (app e), w) =
      All (λ x. is_claimable hash v.now x ≡ false) v.tokens × IsRefused hash v (view sv w) e
  Uses hash v (err (driver code cause), w) = Unit

  abbrev pub Refuses : ℕ → View → Result RefreshToken × World sv → Type 0
  Refuses hash v (ok r, w) = ⊥
  Refuses hash v (err (app e), w) = IsRefused hash v (view sv w) e
  Refuses hash v (err (driver code cause), w) = Unit

  Refuses-driver :
      (hash : ℕ) (v : View) (e : Thrown) (w : World sv) → IsDriver e → Refuses hash v (err e, w)
  Refuses-driver hash v (app e) w d = absurd d
  Refuses-driver hash v (driver code cause) w d = tt

  Uses-driver :
      (hash : ℕ) (v : View) (e : Thrown) (w : World sv) → IsDriver e → Uses hash v (err e, w)
  Uses-driver hash v (app e) w d = absurd d
  Uses-driver hash v (driver code cause) w d = tt

  Uses-Refuses :
      (hash : ℕ) (v : View) (out : Result RefreshToken × World sv)
      → All (λ x. is_claimable hash v.now x ≡ false) v.tokens
      → Refuses hash v out
      → Uses hash v out
  Uses-Refuses hash v (ok r, w) h k = absurd k
  Uses-Refuses hash v (err (app e), w) h k = (h, k)
  Uses-Refuses hash v (err (driver code cause), w) h k = tt

  pub claim-ok :
      (hash : ℕ) (w w' : World sv) (l : List RefreshToken)
      → claim sv hash w ≡ (ok l, w')
      → Returns (is_claimable hash w.now) (mark_used w.now) (view sv w).tokens l
        × (view sv w' ≡ claimed_view hash (view sv w))
  unfolding claim
  claim-ok hash w w' l h = update_tokens-ok sv _ _ w w' l (sym (read_clock-bind sv _ w) ∙ h)

  claim-err : (hash : ℕ) (w w' : World sv) (e : Thrown) → claim sv hash w ≡ (err e, w') → IsDriver e
  unfolding claim
  claim-err hash w w' e h = (update_tokens-err sv _ _ w w' e (sym (read_clock-bind sv _ w) ∙ h)).0

  revoke_family-ok :
      (family_id : ℕ) (w w' : World sv) (u : Unit {0})
      → revoke_family sv family_id w ≡ (ok u, w')
      → view sv w' ≡ burnt_view family_id (view sv w)
  unfolding revoke_family
  revoke_family-ok family_id w w' u h =
      let (l, e) = discard-ok (delete_tokens sv _) w h in (delete_tokens-ok sv _ w w' l e).1

  burn_family-Refuses :
      (hash : ℕ) (row : RefreshToken) (w : World sv)
      → Any (λ r. r ≡ row) (view sv w).tokens
      → (row.token == hash) ≡ true
      → is_some row.used_at ≡ true
      → Refuses hash (view sv w) (burn_family sv row w)
  unfolding burn_family
  burn_family-Refuses hash row w listed token used =
      >>=-cases (revoke_family sv row.family_id) _ w (Refuses hash (view sv w))
        (λ u v h. record_audit-cases sv _ _ v (Refuses hash (view sv w)) (λ v' same. inr (
          inl (record {
            row = row;
            error = refl;
            listed = listed;
            token = token;
            used = used;
            burnt =
                subst (λ x. SameButAudits x (view sv v')) (revoke_family-ok row.family_id w v u h)
                  same;
          }))))
        (λ e v h.
          Refuses-driver hash _ e v
            (delete_tokens-err sv _ w v e (discard-err (delete_tokens sv _) w h)).0)

  drop_expired-Refuses :
      (hash : ℕ) (row : RefreshToken) (w : World sv)
      → Any (λ r. r ≡ row) (view sv w).tokens
      → (row.token == hash) ≡ true
      → is_some row.used_at ≡ false
      → Refuses hash (view sv w) (drop_expired sv row w)
  unfolding drop_expired
  drop_expired-Refuses hash row w listed token unused =
      >>=-cases (delete_tokens sv _) _ w (Refuses hash (view sv w))
        (λ l v h. inr (
          inr (record {
            row = row;
            error = refl;
            listed = listed;
            token = token;
            unused = unused;
            dropped = (delete_tokens-ok sv _ w v l h).1;
          })))
        (λ e v h. Refuses-driver hash _ e v (delete_tokens-err sv _ w v e h).0)

  -- A found row is a replay or has expired.
  explain-Refuses :
      (hash : ℕ) (o : Option RefreshToken) (w : World sv)
      → Finds (λ r. r.token == hash) (view sv w).tokens o
      → Refuses hash (view sv w) (explain sv o w)
  unfolding explain
  explain-Refuses hash none w absent =
      rw (throw-bind (unauthorized "Invalid refresh token") _ w)
        (inl (record { error = refl; absent = absent; same = refl }))
  explain-Refuses hash (some row) w (token, listed) =
      rw pure-bind (elim (Bool-cases (is_some row.used_at)) [
        | inl used ↦ rw (used, if◌then◌else◌) (burn_family-Refuses hash row w listed token used)
        | inr unused ↦
            rw (unused, if◌then◌else◌) (drop_expired-Refuses hash row w listed token unused)
      ])

  refuse-Refuses : (hash : ℕ) (w : World sv) → Refuses hash (view sv w) (refuse sv hash w)
  unfolding refuse
  refuse-Refuses hash w =
      >>=-cases (find_token sv _) _ w (Refuses hash (view sv w))
        (λ o v h.
          let (found, same) = find_token-ok sv _ w v o h in
          subst (λ x. Refuses hash x (explain sv o v)) same
            (explain-Refuses hash o v
              (subst (λ x. Finds (λ r. r.token == hash) x.tokens o) (sym same) found)))
        (λ e v h. Refuses-driver hash _ e v (find_token-err sv _ w v e h).0)

  answer-Uses :
      (hash : ℕ) (l : List RefreshToken) (w w' : World sv)
      → Returns (is_claimable hash w.now) (mark_used w.now) (view sv w).tokens l
      → view sv w' ≡ claimed_view hash (view sv w)
      → Uses hash (view sv w) (answer_claim sv hash l w')
  unfolding answer_claim
  answer-Uses hash [] w w' returned e =
      let none_claimable = count-eq_zero _ (view sv w).tokens (sym returned.1) in
      let same : view sv w' ≡ view sv w =
        e
        ∙ ap (λ (l : List RefreshToken). record (view sv w) { tokens = l })
            (map_where-none _ _ _ none_claimable) in
      Uses-Refuses hash (view sv w) (refuse sv hash w') none_claimable
        (subst (λ x. Refuses hash x (refuse sv hash w')) same (refuse-Refuses hash w'))
  answer-Uses hash (r ∷ l) w w' returned e = (returned.0.0, e)

  -- A presented refresh token is answered by the marked row if some row could be claimed: stored under
  -- the token's digest, unused and not expired. Otherwise it is refused, for one of three reasons: the
  -- digest is unknown, and nothing changes; the row was used, and the rows of its whole family are
  -- deleted; the row has expired, and it is deleted. In the last two cases nothing else changes but
  -- the audit trail. Nothing is said of a run in
  -- which a service throws.
  pub use_refresh_token-Uses :
      (token : Text) (w : World sv)
      → Uses (sv.sha256 token) (view sv w) (use_refresh_token sv token w)
  unfolding use_refresh_token
  use_refresh_token-Uses token w =
      >>=-cases (claim sv (sv.sha256 token)) _ w (Uses (sv.sha256 token) (view sv w))
        (λ l v h.
          let (returned, e) = claim-ok (sv.sha256 token) w v l h in
          answer-Uses (sv.sha256 token) l w v returned e)
        (λ e v h. Uses-driver (sv.sha256 token) (view sv w) e v (claim-err _ w v e h))
