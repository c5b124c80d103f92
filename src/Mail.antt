-- ===== src/Mail.antt =====
-- src/lib/mailer.ts: the transport of messages, and the outbox that keeps the last ones. nodemailer's
-- `sendMail` is a parameter; writing a message to the log is output.
pub mod Templates
pub mod Outbox
use mathlib.Core.List.{reverse}
use elysiajs_production_api.Base.{
  ℕ, Bool, ◌||◌, Option, none, some, List, [], ◌∷◌, ◌++◌, Text, text_eq, is_empty, length, drop,
  ltb, if◌then◌else◌,
}
use elysiajs_production_api.Errors.{Call, pure, ◌>>=◌, ◌>>◌, try_catch}
use elysiajs_production_api.Config.{Env, MailTransport, auto, log, smtp, is_test, is_production}
use elysiajs_production_api.Mail.Templates.{Message}

pub data Mode : Type 0 where
  capture logged sent : Mode

-- `env.MAIL_TRANSPORT`, with "auto" settled by the environment
abbrev pub wanted : Env → Mode
wanted env = elim env.mail_transport [
  | auto ↦ if is_production env.node_env then sent else logged
  | log ↦ logged
  | smtp ↦ sent
]

-- SMTP without credentials falls back to the log.
abbrev pub with_credentials : Env → Mode → Mode
with_credentials env sent =
    if is_empty env.smtp_host || is_empty env.smtp_user then logged else sent
with_credentials env mode = mode

unfoldable pub resolve_mode : Env → Mode
resolve_mode env = if is_test env.node_env then capture else with_credentials env (wanted env)

abbrev pub outbox_limit : ℕ
outbox_limit = 50

-- `outbox.push(mail)`, and `outbox.shift()` above the limit
unfoldable pub push : Message → List Message → List Message
push mail outbox =
    let pushed = outbox ++ (mail ∷ []) in
    if ltb outbox_limit (length pushed) then drop 1 pushed else pushed

-- The state of the process: nodemailer's, and the outbox.
pub record Mailer (S : Type 0) : Type 0 where
  pub transporter : S
  pub outbox : List Message

module _ {S : Type 0} (send_mail : Text → Message → Call S (Unit {0})) where
  -- `transport(mail)`
  unfoldable pub transport : Env → Mode → Message → Call (Mailer S) (Unit {0})
  transport env sent mail m =
      let (r, s) = send_mail env.email_from mail m.transporter in (r, record m { transporter = s })
  transport env logged mail m = pure tt m
  transport env capture mail m = pure tt m

  abbrev pub keep : Message → Call (Mailer S) (Unit {0})
  keep mail m = pure tt (record m { outbox = push mail m.outbox })

  -- `mailer.send`
  unfoldable pub send : Env → Message → Call (Mailer S) (Unit {0})
  unfolding transport push
  send env mail = do transport env (resolve_mode env) mail; keep mail

-- `mailer.lastTo`: the loop from the end of the outbox
unfoldable pub first_to : Text → List Message → Option Message
first_to to [] = none
first_to to (m ∷ outbox) = if text_eq m.to to then some m else first_to to outbox

unfoldable pub last_to : Text → List Message → Option Message
unfolding first_to
last_to to outbox = first_to to (reverse outbox)
