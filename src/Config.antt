-- ===== src/Config.antt =====
-- src/config/env.ts: the settings, `EnvSchema`, with the defaults of the schema and what it asks of a
-- value. Reading `process.env`, and converting texts to numbers, is TypeBox's.
use elysiajs_production_api.Base.{ℕ, Bool, true, false, ◌&&◌, [], Text, codes, leb, length}

pub data NodeEnv : Type 0 where
  development production test : NodeEnv

pub data Transport : Type 0 where
  bearer cookie : Transport

pub data MailTransport : Type 0 where
  auto log smtp : MailTransport

pub data QueueDriver : Type 0 where
  redis sync : QueueDriver

pub record Env : Type 0 where
  pub node_env : NodeEnv
  pub port : ℕ
  pub app_name : Text
  pub database_url : Text
  pub db_pool_max : ℕ
  pub db_idle_timeout : ℕ
  pub db_connect_timeout : ℕ
  pub db_statement_timeout : ℕ
  pub jwt_secret : Text
  pub jwt_secret_previous : Text
  pub jwt_access_exp : Text
  pub jwt_refresh_exp : Text
  pub auth_transport : Transport
  pub require_verified_email : Bool
  pub cors_origin : Text
  pub log_level : Text
  pub log_dir : Text
  pub log_file : Text
  pub log_rotate_size : Text
  pub log_rotate_interval : Text
  pub log_max_files : ℕ
  pub log_compress : Bool
  pub otel_enabled : Bool
  pub otel_service_name : Text
  pub otel_exporter_otlp_endpoint : Text
  pub trust_proxy : Bool
  pub max_body_size : ℕ
  pub request_idle_timeout : ℕ
  pub redis_url : Text
  pub mail_transport : MailTransport
  pub email_from : Text
  pub smtp_host : Text
  pub smtp_port : ℕ
  pub smtp_user : Text
  pub smtp_pass : Text
  pub smtp_secure : Bool
  pub queue_driver : QueueDriver
  pub alert_webhook_url : Text
  pub audit_retention_days : ℕ
  pub seed_admin_email : Text
  pub seed_admin_password : Text

-- `Value.Default` where only the settings without a default are given.
abbrev pub default_env : Text → Text → Env
default_env database_url jwt_secret = record {
  node_env = development;
  port = 3000;
  app_name = codes "App";
  database_url = database_url;
  db_pool_max = 10;
  db_idle_timeout = 30;
  db_connect_timeout = 30;
  db_statement_timeout = 30000;
  jwt_secret = jwt_secret;
  jwt_secret_previous = [];
  jwt_access_exp = codes "15m";
  jwt_refresh_exp = codes "7d";
  auth_transport = bearer;
  require_verified_email = false;
  cors_origin = codes "*";
  log_level = codes "info";
  log_dir = codes "logs";
  log_file = codes "app.log";
  log_rotate_size = codes "20M";
  log_rotate_interval = codes "1d";
  log_max_files = 14;
  log_compress = true;
  otel_enabled = false;
  otel_service_name = codes "app";
  otel_exporter_otlp_endpoint = codes "http://localhost:4318";
  trust_proxy = false;
  max_body_size = 1048576;
  request_idle_timeout = 30;
  redis_url = codes "redis://localhost:6379";
  mail_transport = auto;
  email_from = codes "no-reply@example.com";
  smtp_host = codes "sandbox.smtp.mailtrap.io";
  smtp_port = 2525;
  smtp_user = [];
  smtp_pass = [];
  smtp_secure = false;
  queue_driver = redis;
  alert_webhook_url = [];
  audit_retention_days = 90;
  seed_admin_email = codes "admin@example.com";
  seed_admin_password = [];
}

-- The lengths that `Value.Check` asks for; the rest of the schema is in the types.
abbrev pub is_accepted : Env → Bool
is_accepted e = leb 1 (length e.database_url) && leb 16 (length e.jwt_secret)

abbrev pub is_production : NodeEnv → Bool
is_production production = true
is_production _ = false

abbrev pub is_test : NodeEnv → Bool
is_test test = true
is_test _ = false

abbrev pub is_cookie : Transport → Bool
is_cookie cookie = true
is_cookie bearer = false
