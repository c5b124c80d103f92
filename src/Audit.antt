-- ===== src/Audit.antt =====
-- src/lib/audit.ts: the audit trail. An entry is best-effort; old ones are purged.
pub mod BestEffort
use elysiajs_production_api.Base.{ℕ, ◌-◌, ◌*◌, length, ◌==◌, ltb, if◌then◌else◌}
use elysiajs_production_api.Errors.{Call, pure, ◌>>=◌, ◌>>◌, try_catch}
use elysiajs_production_api.Schema.{NewAuditLog}
use elysiajs_production_api.Services.{Services, World}
use elysiajs_production_api.Services.Actions.{insert_audit, delete_audits, read_clock}

module _ (sv : Services) where
  -- A failed write is logged and swallowed.
  unfoldable pub record_audit : NewAuditLog → Call (World sv) (Unit {0})
  record_audit entry = try_catch (do insert_audit sv entry; pure tt) (λ e. pure tt)

  -- `days` is at least 0 here; 0 keeps everything.
  unfoldable pub delete_old_audit_logs : ℕ → Call (World sv) ℕ
  delete_old_audit_logs days = if days == 0 then pure 0 else do
    now ← read_clock sv
    deleted ← delete_audits sv (λ a. ltb a.created_at (now - days * 86400000))
    pure (length deleted)
