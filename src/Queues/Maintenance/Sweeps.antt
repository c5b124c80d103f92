-- ===== src/Queues/Maintenance/Sweeps.antt =====
-- What a maintenance job removes, and what it keeps.
use mathlib.Core.Path.{subst}
use elysiajs_production_api.Base.{
  length, ℕ, zero, suc, ◌+◌, ◌*◌, ◌-◌, ◌≤◌, ◌≡◌, refl, sym, ap, ◌∙◌, inl, inr, Bool, true, false,
  not, ◌||◌, Option, List, [], ◌∷◌, filter, filter-All, All, All-map, ltb, leb, ◌==◌, Bool-cases,
  arith, if◌then◌else◌,
}
use elysiajs_production_api.Errors.{Call, ◌>>=◌, ok, pure, ok_inj, >>=-eq-ok, discard-ok}
use elysiajs_production_api.Config.{Env}
use elysiajs_production_api.Schema.{RefreshToken, AuditLog}
use elysiajs_production_api.Services.{Services, World, View, view}
use elysiajs_production_api.Services.Actions.{
  delete_tokens, delete_audits, read_clock, read_clock-bind,
}
use elysiajs_production_api.Services.Actions.Laws.{delete_tokens-ok, delete_audits-ok}
use elysiajs_production_api.Audit.{delete_old_audit_logs}
use elysiajs_production_api.Auth.Tokens.{delete_expired_refresh_tokens, is_claimable}
use elysiajs_production_api.Queues.{Connection}
use elysiajs_production_api.Queues.Maintenance.{
  clean_tokens, retain_audits, token_cleanup_queue, audit_retention_queue,
}

abbrev pub is_expired : ℕ → RefreshToken → Bool
is_expired now r = ltb r.expires_at now

-- To select what a filter keeps anyway, after it.
filter-filter :
    {A : Type 0} (p q : A → Bool)
    → ((a : A) → p a ≡ true → q a ≡ true)
    → (l : List A) → filter p (filter q l) ≡ filter p l
filter-filter p q h [] = refl
filter-filter p q h (a ∷ l) = elim (Bool-cases (q a)) [
  | inl e ↦ rw e (ap (λ x. if p a then a ∷ x else x) (filter-filter p q h l))
  | inr e ↦ elim (Bool-cases (p a)) [
    | inl k ↦ absurd (let kept : q a ≡ true = h a k in cc)
    | inr k ↦ rw (e, k) (filter-filter p q h l)
  ]
]

-- No expired token is left, and the rows with the digest that can be claimed at a time are the same. Rows that have
-- been used are not among those: the sweep takes them from the detection of reuse once they expire.
abbrev pub KeepsClaims : ℕ → ℕ → View → View → Type 0
KeepsClaims hash t v v' =
    All (λ r. is_expired v.now r ≡ false) v'.tokens
    × (filter (is_claimable hash t) v'.tokens ≡ filter (is_claimable hash t) v.tokens)
    × (record v' { tokens = v.tokens } ≡ v)

swept-KeepsClaims :
    (hash t : ℕ) (v : View)
    → v.now ≤ t
    → KeepsClaims hash t v (record v { tokens = filter (λ r. not (is_expired v.now r)) v.tokens })
swept-KeepsClaims hash t v le = (
  All-map _ _ (λ r k. ground arith) _ (filter-All _ v.tokens),
  filter-filter (is_claimable hash t) _ (λ r k. ground arith) v.tokens,
  refl,
)

-- Is an entry to be kept, when entries are kept for so many days? For 0 days, forever.
abbrev pub is_retained : ℕ → ℕ → AuditLog → Bool
is_retained days now a = (days == 0) || leb now (a.created_at + days * 86400000)

retained-all : (now : ℕ) (l : List AuditLog) → filter (is_retained 0 now) l ≡ l
retained-all now [] = refl
retained-all now (a ∷ l) = ap (λ x. a ∷ x) (retained-all now l)

retained-eq :
    (days now : ℕ) (l : List AuditLog)
    → 1 ≤ days
    → filter (λ a. not (ltb a.created_at (now - days * 86400000))) l
      ≡ filter (is_retained days now) l
retained-eq days now [] h = refl
retained-eq days now (a ∷ l) h = rw (retained-eq days now l h) (
    ap (λ b. if b then a ∷ filter (is_retained days now) l else filter (is_retained days now) l)
      (ground arith))

module _ (sv : Services) where
  -- A run of the token cleanup that returns leaves no expired refresh token. The rows that a use of
  -- a token could claim, then or later, are the same as without the run, for every digest. Nothing but
  -- the refresh tokens has changed.
  pub token_cleanup-KeepsClaims :
      (conn : Option Connection) (hash t : ℕ) (w w' : World sv)
      → w.now ≤ t
      → (token_cleanup_queue sv conn).processor tt w ≡ (ok tt, w')
      → KeepsClaims hash t (view sv w) (view sv w')
  unfolding clean_tokens delete_expired_refresh_tokens
  token_cleanup-KeepsClaims conn hash t w w' le h =
      let (n, e) = discard-ok (delete_expired_refresh_tokens sv) w h in
      let (l, v, e1, k1) =
        >>=-eq-ok (delete_tokens sv (is_expired w.now)) _ w (sym (read_clock-bind sv _ w) ∙ e) in
      let same : v ≡ w' = (ok_inj k1).1 in
      subst (KeepsClaims hash t (view sv w))
        (sym (delete_tokens-ok sv _ w v l e1).1 ∙ ap (view sv) same)
        (swept-KeepsClaims hash t (view sv w) le)

  -- The statement behind the test of `days`.
  abbrev purge : ℕ → Call (World sv) ℕ
  purge days = do
    now ← read_clock sv
    deleted ← delete_audits sv (λ a. ltb a.created_at (now - days * 86400000))
    pure (length deleted)

  purge-retained :
      (days n : ℕ) (w w' : World sv)
      → 1 ≤ days
      → purge days w ≡ (ok n, w')
      → view sv w'
        ≡ record (view sv w) { audits = filter (is_retained days w.now) (view sv w).audits }
  purge-retained days n w w' pos e =
      let (l, v, e1, k1) = >>=-eq-ok (delete_audits sv _) _ w (sym (read_clock-bind sv _ w) ∙ e) in
      let same : v ≡ w' = (ok_inj k1).1 in
      sym (ap (view sv) same)
      ∙ (delete_audits-ok sv _ w v l e1).1
      ∙ ap (λ (l : List AuditLog). record (view sv w) { audits = l })
          (retained-eq days w.now (view sv w).audits pos)

  -- A run of the audit retention that returns keeps the entries that are no older than the days of
  -- AUDIT_RETENTION_DAYS, every entry if that is 0, and removes all others. Nothing else has changed.
  pub audit_retention-retained :
      (env : Env) (conn : Option Connection) (w w' : World sv)
      → (audit_retention_queue sv conn env).processor tt w ≡ (ok tt, w')
      → view sv w' ≡ record (view sv w) {
        audits = filter (is_retained env.audit_retention_days w.now) (view sv w).audits;
      }
  unfolding retain_audits delete_old_audit_logs
  audit_retention-retained env conn w w' h =
      let (n, e) = discard-ok (delete_old_audit_logs sv env.audit_retention_days) w h in
      deleted env.audit_retention_days n e
    where
      deleted :
          (days n : ℕ)
          → delete_old_audit_logs sv days w ≡ (ok n, w')
          → view sv w'
            ≡ record (view sv w) { audits = filter (is_retained days w.now) (view sv w).audits }
      deleted zero n e =
          rw (retained-all w.now (view sv w).audits) (sym (ap (view sv) (ok_inj e).1))
      deleted (suc d) n e =
          let some_days : (suc d == 0) ≡ false = ground arith in
          purge-retained (suc d) n w w' (omega arith)
            (subst (λ b. (if b then pure 0 else purge (suc d)) w ≡ (ok n, w')) some_days e)
