-- ===== src/Audit/BestEffort.antt =====
-- `recordAudit` never throws, and touches nothing but the audit trail.
use elysiajs_production_api.Base.{◌≡◌, refl, inl, inr, sym, ap, ◌∙◌, List}
use mathlib.Core.Path.{subst}
use elysiajs_production_api.Errors.{
  Thrown, Call, ◌>>=◌, >>=-cases, Result, ok, err, try_catch-cases, >>=-eq-ok, >>=-eq-err, ok_inj,
}
use elysiajs_production_api.Schema.{NewAuditLog, AuditLog}
use elysiajs_production_api.Services.{Services, World, View, view}
use elysiajs_production_api.Services.Actions.{insert_audit}
use elysiajs_production_api.Services.Actions.Laws.{insert_audit-ok, insert_audit-err}
use elysiajs_production_api.Audit.{record_audit}

-- Nothing but the audit trail differs.
abbrev pub SameButAudits : View → View → Type 0
SameButAudits v v' = v' ≡ record v { audits = v'.audits }

err_not_ok : {A : Type 0} {e : Thrown} {a : A} → ¬ (◌≡◌ {A = Result A} (err e) (ok a))
err_not_ok h = cc

module _ (sv : Services) where
  abbrev pub Audited : World sv → Result (Unit {0}) × World sv → Type 0
  Audited w (r, w') = (r ≡ ok tt) × SameButAudits (view sv w) (view sv w')

  pub same_but_audits :
      (w w' : World sv) {l : List AuditLog}
      → view sv w' ≡ record (view sv w) { audits = l }
      → SameButAudits (view sv w) (view sv w')
  same_but_audits w w' e = e ∙ ap (λ (v : View). record (view sv w) { audits = v.audits }) (sym e)

  -- Whatever the database does, recording an entry returns and leaves all else as it was.
  pub record_audit-Audited :
      (entry : NewAuditLog) (w : World sv) → Audited w (record_audit sv entry w)
  unfolding record_audit
  record_audit-Audited entry w =
      try_catch-cases _ _ w (Audited w)
        (λ a v h.
          let (row, u, inserted, rest) = >>=-eq-ok (insert_audit sv entry) _ w h in
          let same : u ≡ v = (ok_inj rest).1 in
          (
            refl,
            subst (λ x. SameButAudits (view sv w) (view sv x)) same
                (same_but_audits w u (insert_audit-ok sv entry w u row inserted).3),
          ))
        (λ e v h. elim (>>=-eq-err (insert_audit sv entry) _ w h) [
          | inl threw ↦ (refl, same_but_audits w v (insert_audit-err sv entry w v e threw).1)
          | inr (row, u, inserted, rest) ↦ absurd (cc)
        ])

  -- So what follows an entry always runs.
  pub record_audit-cases :
      {B : Type 0} (entry : NewAuditLog) (f : Unit {0} → Call (World sv) B) (w : World sv)
      (Q : Result B × World sv → Type 0)
      → ((v : World sv) → SameButAudits (view sv w) (view sv v) → Q (f tt v))
      → Q ((record_audit sv entry >>= f) w)
  record_audit-cases entry f w Q then_ =
      >>=-cases (record_audit sv entry) f w Q
        (λ u v h. then_ v (subst (Audited w) h (record_audit-Audited entry w)).1)
        (λ e v h. absurd (err_not_ok (subst (Audited w) h (record_audit-Audited entry w)).0))
