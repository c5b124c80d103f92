-- ===== src/Auth/Tokens/Histories.antt =====
-- What the operations of the service do to the table of refresh tokens, whatever becomes of them: steps
-- of the history that a single use is proved for.
pub mod SingleUse
use mathlib.Core.Path.{subst}
use elysiajs_production_api.Base.{
  ℕ, ◌≡◌, refl, sym, ap, ◌∙◌, inl, inr, Bool, true, false, not, Option, none, some, List, [], ◌∷◌,
  Text, filter, is_some, ltb, ◌==◌, if◌then◌else◌,
}
use elysiajs_production_api.Errors.{
  app, AppError, unauthorized, Result, ok, err, Call, pure, throw, ◌>>=◌, ◌>>◌, >>=-cases, ok_inj,
}
use elysiajs_production_api.Calls.{or_throw}
use elysiajs_production_api.Schema.{RefreshToken, NewRefreshToken, refresh_token_row, NewAuditLog}
use elysiajs_production_api.Services.{Services, World, View, view}
use elysiajs_production_api.Services.Actions.{
  find_token, insert_token, update_tokens, delete_tokens, read_clock, read_clock-bind,
}
use elysiajs_production_api.Services.Actions.Laws.{
  find_token-ok, find_token-err, insert_token-ok, insert_token-err, update_tokens-ok,
  update_tokens-err, delete_tokens-ok, delete_tokens-err,
}
use elysiajs_production_api.Audit.{record_audit}
use elysiajs_production_api.Audit.BestEffort.{SameButAudits, record_audit-Audited}
use elysiajs_production_api.Auth.Tokens.{
  is_claimable, mark_used, store_refresh_token, claim, revoke_family, burn_family, drop_expired,
  explain, refuse, answer_claim, use_refresh_token, revoke_refresh_token, revoke_all_refresh_tokens,
  delete_expired_refresh_tokens,
}
use elysiajs_production_api.Auth.Tokens.OneUse.{
  TokenStep, issue, claims, deletes, TokenHistory, here, next,
}

after_history :
    {hash : ℕ} {l k m : List RefreshToken}
    → TokenHistory hash l k
    → TokenHistory hash k m
    → TokenHistory hash l m
after_history past here = past
after_history past (next more step) = next (after_history past more) step

-- The table has had a history, and no time has passed.
abbrev pub IsHistory : ℕ → View → View → Type 0
IsHistory hash v v' = TokenHistory hash v.tokens v'.tokens × (v'.now ≡ v.now)

IsHistory-same : (hash : ℕ) (v v' : View) → v' ≡ v → IsHistory hash v v'
IsHistory-same hash v v' e = subst (IsHistory hash v) (sym e) (here, refl)

module _ (sv : Services) (hash : ℕ) where
  -- Whether the call returns or throws, the table has had a history.
  abbrev pub Moves : {A : Type 0} → Call (World sv) A → Type 0
  Moves {A} m =
      (w w' : World sv) (r : Result A) → m w ≡ (r, w') → IsHistory hash (view sv w) (view sv w')

  result_inj :
      {A : Type 0} {a b : Result A} {w w' : World sv}
      → ◌≡◌ {A = Result A × World sv} (a, w) (b, w')
      → w ≡ w'
  result_inj h = λ i. (h i).1

  still : {A : Type 0} (r : Result A) → Moves (λ w. (r, w))
  still r w w' r' h = IsHistory-same hash _ _ (ap (view sv) (sym (result_inj h)))

  bind-Moves :
      {A B : Type 0} (m : Call (World sv) A) (f : A → Call (World sv) B)
      → Moves m
      → ((a : A) → Moves (f a))
      → Moves (m >>= f)
  bind-Moves {A} {B} m f first rest w w' r =
      >>=-cases m f w (λ x. x ≡ (r, w') → IsHistory hash (view sv w) (view sv w'))
        (λ a v h k.
          let (past, time) = first w v (ok a) h in
          let (more, time') = rest a v w' r k in (after_history past more, time' ∙ time))
        (λ e v h k.
          subst (λ x. IsHistory hash (view sv w) (view sv x)) (result_inj k) (first w v (err e) h))

  if-Moves :
      {A : Type 0} (b : Bool) (m n : Call (World sv) A)
      → Moves m
      → Moves n
      → Moves (if b then m else n)
  if-Moves true m n p q = p
  if-Moves false m n p q = q

  or_throw-Moves : {A : Type 0} (o : Option A) (e : AppError) → Moves (or_throw o e)
  or_throw-Moves none e = still (err (app e))
  or_throw-Moves (some a) e = still (ok a)

  find_token-Moves : (p : RefreshToken → Bool) → Moves (find_token sv p)
  find_token-Moves p w w' (ok a) h = IsHistory-same hash _ _ (find_token-ok sv p w w' a h).1
  find_token-Moves p w w' (err e) h = IsHistory-same hash _ _ (find_token-err sv p w w' e h).1

  delete_tokens-Moves : (p : RefreshToken → Bool) → Moves (delete_tokens sv p)
  delete_tokens-Moves p w w' (ok a) h =
      subst (IsHistory hash (view sv w)) (sym (delete_tokens-ok sv p w w' a h).1)
        (next here (deletes (λ r. not (p r)) refl), refl)
  delete_tokens-Moves p w w' (err e) h = IsHistory-same hash _ _ (delete_tokens-err sv p w w' e h).1

  insert_token-Moves : (v : NewRefreshToken) → (v.token == hash) ≡ false → Moves (insert_token sv v)
  insert_token-Moves v other w w' (ok a) h =
      let (id, row, fresh, unique, e) = insert_token-ok sv v w w' a h in
      subst (IsHistory hash (view sv w)) (sym e) (next here (issue a (rw row other) refl), refl)
  insert_token-Moves v other w w' (err e) h =
      IsHistory-same hash _ _ (insert_token-err sv v w w' e h).1

  claim-Moves : (other : ℕ) → Moves (claim sv other)
  unfolding claim
  claim-Moves other w w' (ok a) h =
      subst (IsHistory hash (view sv w))
        (sym (update_tokens-ok sv _ _ w w' a (sym (read_clock-bind sv _ w) ∙ h)).1)
        (next here (claims other w.now refl), refl)
  claim-Moves other w w' (err e) h =
      IsHistory-same hash _ _ (update_tokens-err sv _ _ w w' e (sym (read_clock-bind sv _ w) ∙ h)).1

  read_clock-Moves : Moves (read_clock sv)
  unfolding read_clock
  read_clock-Moves w w' r h = IsHistory-same hash _ _ (ap (view sv) (sym (result_inj h)))

  record_audit-Moves : (entry : NewAuditLog) → Moves (record_audit sv entry)
  record_audit-Moves entry w w' r h =
      let same : SameButAudits (view sv w) (view sv w') =
        subst (λ x. SameButAudits (view sv w) (view sv x)) (λ i. (h i).1)
          (record_audit-Audited sv entry w).1 in
      subst (IsHistory hash (view sv w)) (sym same) (here, refl)

  revoke_family-Moves : (family : ℕ) → Moves (revoke_family sv family)
  unfolding revoke_family
  revoke_family-Moves family = bind-Moves _ _ (delete_tokens-Moves _) (λ l. still (ok tt))

  explain-Moves : (found : Option RefreshToken) → Moves (explain sv found)
  unfolding explain burn_family drop_expired
  explain-Moves found = bind-Moves _ _ (or_throw-Moves found _) (λ row.
      if-Moves (is_some row.used_at) _ _
        (bind-Moves _ _ (revoke_family-Moves row.family_id)
          (λ a. bind-Moves _ _ (record_audit-Moves _) (λ b. still (err (app _)))))
        (bind-Moves _ _ (delete_tokens-Moves _) (λ l. still (err (app _)))))

  answer_claim-Moves :
      (other : ℕ) (claimed : List RefreshToken) → Moves (answer_claim sv other claimed)
  unfolding answer_claim refuse
  answer_claim-Moves other [] = bind-Moves _ _ (find_token-Moves _) explain-Moves
  answer_claim-Moves other (row ∷ rest) = still (ok row)

  pub use_refresh_token-Moves : (token : Text) → Moves (use_refresh_token sv token)
  unfolding use_refresh_token
  use_refresh_token-Moves token =
      bind-Moves _ _ (claim-Moves (sv.sha256 token)) (answer_claim-Moves (sv.sha256 token))

  pub store_refresh_token-Moves :
      (user_id : ℕ) (token : Text) (expires_at family : ℕ)
      → (sv.sha256 token == hash) ≡ false
      → Moves (store_refresh_token sv user_id token expires_at family)
  unfolding store_refresh_token
  store_refresh_token-Moves user_id token expires_at family other =
      bind-Moves _ _ (insert_token-Moves _ other) (λ r. still (ok tt))

  pub revoke_refresh_token-Moves : (token : Text) → Moves (revoke_refresh_token sv token)
  unfolding revoke_refresh_token
  revoke_refresh_token-Moves token = bind-Moves _ _ (find_token-Moves _) found
    where
      found :
          (o : Option RefreshToken)
          → Moves {A = Unit {0}}
              (elim o [ none ↦ pure tt | some row ↦ revoke_family sv row.family_id ])
      found none = still (ok tt)
      found (some row) = revoke_family-Moves row.family_id

  pub revoke_all_refresh_tokens-Moves : (user_id : ℕ) → Moves (revoke_all_refresh_tokens sv user_id)
  unfolding revoke_all_refresh_tokens
  revoke_all_refresh_tokens-Moves user_id =
      bind-Moves _ _ (delete_tokens-Moves _) (λ l. still (ok tt))

  pub delete_expired_refresh_tokens-Moves : Moves (delete_expired_refresh_tokens sv)
  unfolding delete_expired_refresh_tokens
  delete_expired_refresh_tokens-Moves =
      bind-Moves _ _ read_clock-Moves
        (λ now. bind-Moves _ _ (delete_tokens-Moves _) (λ l. still (ok _)))
