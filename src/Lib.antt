-- ===== src/Lib.antt =====
-- The core of an HTTP API for accounts and sessions: registration and login, access tokens (JWT) and
-- refresh tokens with rotation and theft detection, codes by email, two-factor login, permissions,
-- the users resource, the audit trail and rate limits; and what surrounds it: request schemas, error
-- answers, mail, background jobs, the seed, the wait for Postgres and Redis at boot, and metrics.
--
-- How the parts interact. A request runs a guard (Guards), which reads the access token (Jwt), the
-- settings (Config) and the user, and then a handler (Routes), which calls the services (Auth, Users,
-- Audit); these work on Postgres, Redis and the mail queue (Services). A handler returns or throws
-- (Errors); what was written before a throw stays written, and the error plugin answers the client
-- (ErrorPlugin). The body and the query have passed their schema (Models). The worker runs the jobs of
-- the queues (Queues): mails, and the two sweeps of the tables.
--
-- The modules, and the code they are about:
--   Errors          src/lib/errors.ts, src/lib/db-errors.ts; calls that may throw
--   Schema          src/db/schema/: rows, defaults, unique indexes
--   Permissions     src/lib/permissions.ts
--   Config          src/config/env.ts: the settings and their defaults
--   Services        interfaces with laws: the tables (Services.Tables), Redis as src/lib/cache.ts uses
--                   it, the mail queue (Services.Cache), hashing, random values, jose and otpauth
--                   (Services.State); the statements as calls (Services.Actions) and their laws
--   Audit           src/lib/audit.ts
--   Auth.Accounts, Auth.Tokens   src/modules/auth/service.ts (AuthService)
--   Auth.Otp        src/modules/auth/otp.service.ts (OtpService)
--   Auth.PasswordReset   src/modules/auth/password-reset.service.ts (PasswordResetService)
--   Auth.Totp       src/modules/auth/totp.service.ts (TotpService)
--   Auth.Attempts   the scheme of these three: a code and its counter under two keys of Redis
--   Users           src/lib/user-public.ts, src/modules/user/service.ts (UserService)
--   Jwt             src/lib/jwt.ts
--   Guards          src/plugins/auth.ts (authPlugin)
--   Time, Requests  src/lib/time.ts (Time.Deadlines is `withDeadline`), src/lib/ip.ts, src/lib/origin.ts
--   RateLimit       src/plugins/rate-limit-store.ts (RedisRateStore); RateLimit.Limits is
--                   src/plugins/rate-limit.ts
--   Http            src/plugins/cors.ts, src/plugins/security-headers.ts
--   Models          src/modules/auth/model.ts, src/modules/user/model.ts, src/lib/sanitize.ts
--   ErrorPlugin     src/plugins/error.ts; ErrorPlugin.Raises puts the errors of a call together,
--                   ErrorPlugin.Refusals their causes and the answers to them
--   Mail            src/lib/mailer.ts; Mail.Templates is src/lib/mail-templates.ts
--   Alert           src/lib/alert.ts
--   Queues          src/queue/connection.ts, define.ts and runtime.ts; Queues.Maintenance is
--                   src/queue/maintenance.queue.ts, email.queue.ts and the start of src/worker.ts
--   Seed            src/db/seed.ts
--   Readiness       src/lib/readiness.ts, src/plugins/health.ts
--   Metrics         src/plugins/metrics.ts
--   Logger          src/lib/logger.ts: the names of the log files
--   Routes          src/modules/auth/index.ts, src/modules/user/index.ts: the handlers and their guards
--   Base, Calls     shared lists, tests, texts, and forms of early exit
--   Examples        services that live in memory and meet every law, and each result at a request
--
-- The state. `World` holds the states of the services, the time and the number of random draws; `view`
-- gives its abstract contents, in which the theorems speak. A statement of Postgres that throws has
-- changed nothing; a command of Redis, or a message to the queue, that is rejected may have been carried
-- out by then; that it is carried out later still is not modelled. What a service throws is an error of
-- a driver, never a domain error. Claiming a refresh token is one statement, so requests that run at the
-- same time are a sequence of steps on the table. In the runs of Auth.*.Guesses, Auth.Totp.Replay,
-- Routes.Endings and Users.Addresses a whole request, or an operation of a service, is one step.
--
-- Choices. Uuids and SHA-256 digests are numbers, as they are only compared and stored; a text is the
-- list of its code points; times are milliseconds, and the integers never wrap. A request reads the clock
-- once. A Redis key is a prefix and an id, and a value is a number. The decimal digits of a number are
-- written with fuel one above the number, which is enough, since each digit divides it by ten.
--
-- A length counts code points, where the source counts UTF-16 units; durations of metrics stay in
-- milliseconds. The wait at boot is a recursion on the attempts that are left, so it needs no fuel.
--
-- Parameters. What the program calls and does not contain is an argument: the services above, nodemailer
-- (`send_mail`), `fetch`, BullMQ (`bull_add`), `new URL` and `Number`, sanitize-html, the check of an
-- address, and the two pings. Their calls may throw. In the mail queue of Services a message is its kind
-- and its code; the text of a message is made in Mail.Templates. The queue of the services and the one
-- of Queues are two views: the first is what a handler relies on, the second what runs behind it.
--
-- Not modelled: what TypeBox checks of a value's shape, the formats, and the response schemas; the
-- counting of elysia-rate-limit against a maximum; what is logged, and when files rotate; tracing; the
-- OpenAPI pages; what the CORS plugin makes of its options; the shutdown of the processes. The
-- verification of a password against a dummy hash is a parameter of which only a throw is seen; the
-- verification against the hash of an account, and hashing, are taken to return.
pub mod Base
pub mod ErrorPlugin
pub mod Errors
pub mod Schema
pub mod Metrics
pub mod Http
pub mod Logger
pub mod Models
pub mod Permissions
pub mod Services
pub mod Config
pub mod Calls
pub mod Audit
pub mod Auth
pub mod Users
pub mod Jwt
pub mod Guards
pub mod Alert
pub mod Mail
pub mod Queues
pub mod Seed
pub mod Readiness
pub mod Time
pub mod Requests
pub mod RateLimit
pub mod Routes
pub mod Examples
