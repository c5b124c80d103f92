-- ===== src/Queues/Maintenance.antt =====
-- src/queue/maintenance.queue.ts, src/queue/email.queue.ts and the start of src/worker.ts: the queues of
-- the program, and what the worker registers.
pub mod Sweeps
use elysiajs_production_api.Base.{ℕ, ◌*◌, Bool, Option, none, some, [], Text, codes}
use elysiajs_production_api.Errors.{Call, pure, ◌>>=◌, ◌>>◌}
use elysiajs_production_api.Config.{Env}
use elysiajs_production_api.Services.{Services, World}
use elysiajs_production_api.Audit.{delete_old_audit_logs}
use elysiajs_production_api.Auth.Tokens.{delete_expired_refresh_tokens}
use elysiajs_production_api.Mail.{Mailer, send}
use elysiajs_production_api.Mail.Templates.{Message}
use elysiajs_production_api.Queues.{
  Connection, JobsOptions, no_options, QueueDef, define_queue, schedule_repeatable,
}

-- `emailQueue`
abbrev pub email_queue :
    {S : Type 0}
    → (Text → Message → Call S (Unit {0}))
    → Option Connection
    → Env
    → QueueDef (Mailer S) Message
email_queue send_mail conn env = define_queue conn (codes "email") (send send_mail env) no_options

abbrev pub token_cleanup_interval_ms : ℕ
token_cleanup_interval_ms = 60 * 60 * 1000

abbrev pub audit_retention_interval_ms : ℕ
audit_retention_interval_ms = 24 * 60 * 60 * 1000

-- What the sweeps count is written to the log.
module _ (sv : Services) (conn : Option Connection) where
  unfoldable pub clean_tokens : Unit {0} → Call (World sv) (Unit {0})
  unfolding delete_expired_refresh_tokens
  clean_tokens u = do removed ← delete_expired_refresh_tokens sv; pure tt

  abbrev pub token_cleanup_queue : QueueDef (World sv) (Unit {0})
  token_cleanup_queue = define_queue conn (codes "token-cleanup") clean_tokens no_options

  unfoldable pub retain_audits : Env → Unit {0} → Call (World sv) (Unit {0})
  unfolding delete_old_audit_logs
  retain_audits env u = do removed ← delete_old_audit_logs sv env.audit_retention_days; pure tt

  abbrev pub audit_retention_queue : Env → QueueDef (World sv) (Unit {0})
  audit_retention_queue env =
      define_queue conn (codes "audit-retention") (retain_audits env) no_options

  module _ (bull_add : Text → Unit {0} → JobsOptions → Call (World sv) (Unit {0})) where
    -- The two `await scheduleRepeatable(…)` of the worker.
    unfoldable pub schedule_maintenance : Env → Call (World sv) (Unit {0})
    unfolding schedule_repeatable
    schedule_maintenance env = do
      schedule_repeatable bull_add token_cleanup_queue tt token_cleanup_interval_ms
      schedule_repeatable bull_add (audit_retention_queue env) tt audit_retention_interval_ms
