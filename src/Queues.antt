-- ===== src/Queues.antt =====
-- src/queue/connection.ts, src/queue/define.ts and src/queue/runtime.ts: background jobs, either of
-- BullMQ or run inline. BullMQ's `Queue.add` and the parsing of a URL are parameters.
pub mod Failures
pub mod Maintenance
use elysiajs_production_api.Base.{
  ℕ, zero, suc, Bool, true, false, ◌&&◌, Option, none, some, List, [], ◌∷◌, ◌++◌, Text, codes,
  is_empty, leb, ltb, length, drop, if◌then◌else◌,
}
use elysiajs_production_api.Errors.{
  Thrown, driver, Result, ok, err, Call, pure, ◌>>=◌, ◌>>◌, throw_again,
}
use elysiajs_production_api.Config.{Env, QueueDriver, redis, sync, is_test}
use elysiajs_production_api.Auth.Otp.Codes.{to_decimal}
use elysiajs_production_api.Alert.{Alert, AlertBody, send_alert}

-- `driver`: tests run the jobs inline.
abbrev pub queue_driver : Env → QueueDriver
queue_driver env = if is_test env.node_env then sync else env.queue_driver

-- The parts of `new URL(…)` that the connection is made of.
pub record Url : Type 0 where
  pub hostname : Text
  pub port : Text
  pub username : Text
  pub password : Text
  pub pathname : Text

-- A port and a database are what `Number` makes of a text; `none` is NaN.
pub record Connection : Type 0 where
  pub host : Text
  pub port : ℕ
  pub username : Option Text
  pub password : Option Text
  pub db : Option (Option ℕ)

abbrev pub or_undefined : Text → Option Text
or_undefined s = if is_empty s then none else some s

-- `Number(…) || 6379`
abbrev pub or_default_port : Option ℕ → ℕ
or_default_port none = 6379
or_default_port (some zero) = 6379
or_default_port (some (suc p)) = suc p

module _ (parse_url : Text → Url) (number : Text → Option ℕ) where
  abbrev pub connection_of : Url → Connection
  connection_of url = record {
    host = url.hostname;
    port = or_default_port (number url.port);
    username = or_undefined url.username;
    password = or_undefined url.password;
    db = if ltb 1 (length url.pathname) then some (number (drop 1 url.pathname)) else none;
  }

  unfoldable pub connection : Env → Option Connection
  connection env = elim (queue_driver env) [
    | redis ↦ some (connection_of (parse_url env.redis_url))
    | sync ↦ none
  ]

pub data Backoff : Type 0 where
  exponential : ℕ → Backoff

-- The options that the program sets; each may be left out.
pub record JobsOptions : Type 0 where
  pub attempts : Option ℕ
  pub backoff : Option Backoff
  pub remove_on_complete : Option Bool
  pub remove_on_fail : Option ℕ
  pub repeat_every : Option ℕ

-- `{}`
abbrev pub no_options : JobsOptions
no_options = record {
  attempts = none;
  backoff = none;
  remove_on_complete = none;
  remove_on_fail = none;
  repeat_every = none;
}

abbrev pub default_job_opts : JobsOptions
default_job_opts = record {
  attempts = some 3;
  backoff = some (exponential 1000);
  remove_on_complete = some true;
  remove_on_fail = some 500;
  repeat_every = none;
}

abbrev pub over : {A : Type 0} → Option A → Option A → Option A
over a none = a
over a (some b) = some b

-- `{ ...a, ...b }`
abbrev pub spread : JobsOptions → JobsOptions → JobsOptions
spread a b = record {
  attempts = over a.attempts b.attempts;
  backoff = over a.backoff b.backoff;
  remove_on_complete = over a.remove_on_complete b.remove_on_complete;
  remove_on_fail = over a.remove_on_fail b.remove_on_fail;
  repeat_every = over a.repeat_every b.repeat_every;
}

-- `bull` is the connection of the BullMQ queue, if there is one.
pub record QueueDef (S T : Type 0) : Type 0 where
  pub name : Text
  pub processor : T → Call S (Unit {0})
  pub default_opts : JobsOptions
  pub bull : Option Connection

-- `defineQueue`
abbrev pub define_queue :
    {S T : Type 0} → Option Connection → Text → (T → Call S (Unit {0})) → JobsOptions → QueueDef S T
define_queue conn name processor opts = record {
  name = name;
  processor = processor;
  default_opts = opts;
  bull = conn;
}

-- The options of a job, `opts` being the caller's.
abbrev pub job_options : {S T : Type 0} → QueueDef S T → JobsOptions → JobsOptions
job_options q opts = spread (spread default_job_opts q.default_opts) opts

module _ {S T : Type 0} (bull_add : Text → T → JobsOptions → Call S (Unit {0})) where
  abbrev pub add_to : QueueDef S T → Option Connection → T → JobsOptions → Call S (Unit {0})
  add_to q none payload opts = q.processor payload
  add_to q (some conn) payload opts = bull_add q.name payload (job_options q opts)

  -- `add`
  unfoldable pub add : QueueDef S T → T → JobsOptions → Call S (Unit {0})
  add q = add_to q q.bull

  abbrev pub repeat_on : QueueDef S T → Option Connection → T → ℕ → Call S (Unit {0})
  repeat_on q none payload every = pure tt
  repeat_on q (some conn) payload every = bull_add q.name payload (record no_options {
    repeat_every = some every;
    remove_on_complete = some true;
    remove_on_fail = some 100;
  })

  unfoldable pub schedule_repeatable : QueueDef S T → T → ℕ → Call S (Unit {0})
  schedule_repeatable q = repeat_on q q.bull

-- What failure handling reads of a BullMQ job; `attempts` is `opts?.attempts`.
pub record FailedJobInfo : Type 0 where
  pub id : Option Text
  pub attempts_made : ℕ
  pub attempts : Option ℕ

abbrev pub or_one : Option ℕ → ℕ
or_one none = 1
or_one (some n) = n

-- `job?.opts?.attempts ?? 1`
abbrev pub max_attempts : Option FailedJobInfo → ℕ
max_attempts none = 1
max_attempts (some job) = or_one job.attempts

-- `isFinal`
abbrev pub is_final : Option FailedJobInfo → Bool
is_final none = true
is_final (some job) = leb (max_attempts (some job)) job.attempts_made

abbrev pub job_id : Option FailedJobInfo → Option Text
job_id none = none
job_id (some job) = job.id

abbrev pub or_unknown_id : Option Text → Text
or_unknown_id none = codes "?"
or_unknown_id (some id) = id

-- The error is taken by its message.
unfoldable pub failure_alert : Text → Option FailedJobInfo → Text → Alert
unfolding to_decimal
failure_alert queue job message = record {
  title = codes "queue job permanently failed";
  message =
      queue
      ++ (codes " job "
          ++ (or_unknown_id (job_id job)
              ++ (codes " exhausted "
                  ++ (to_decimal (max_attempts job) ++ (codes " attempts: " ++ message)))));
  fields =
      (codes "queue", some queue)
      ∷ (codes "jobId", job_id job)
      ∷ (codes "error", some message)
      ∷ [];
}

module _ {S : Type 0} (fetch : Text → AlertBody → Call S Bool) (env : Env) where
  unfoldable pub handle_job_failure : Text → Option FailedJobInfo → Text → Call S (Unit {0})
  unfolding send_alert failure_alert
  handle_job_failure queue job message =
      if is_final job
      then send_alert fetch env (failure_alert queue job message) >> pure tt
      else pure tt

  -- What a worker is made of: the jobs it runs, how many at a time, and what it does on "failed".
  pub record Worker (T : Type 0) : Type 0 where
    pub name : Text
    pub processor : T → Call S (Unit {0})
    pub concurrency : ℕ
    pub on_failed : Option FailedJobInfo → Text → Call S (Unit {0})

  unfoldable pub start_worker : {T : Type 0} → Option Connection → QueueDef S T → Option (Worker T)
  unfolding handle_job_failure
  start_worker none q = none
  start_worker (some conn) q = some (record {
    name = q.name;
    processor = q.processor;
    concurrency = 5;
    on_failed = handle_job_failure q.name;
  })
