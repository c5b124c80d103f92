-- ===== src/ErrorPlugin.antt =====
-- src/plugins/error.ts: what a client is told when a handler throws. The details of a failed validation
-- are Elysia's, and so is the error that a path without a route or a body that cannot be read raises.
pub mod Raises
pub mod Refusals
use elysiajs_production_api.Base.{ℕ, Bool, Option, none, some, String, Text, codes, if◌then◌else◌}
use elysiajs_production_api.Errors.{AppError, Thrown, app, driver}
use elysiajs_production_api.Config.{Env, is_production}

-- What `onError` is handed: `error instanceof AppError`, the codes it knows, and any other error with
-- its message, if it has one.
pub data RouteError (D : Type 0) : Type 0 where
  domain : AppError → RouteError D
  validation : D → RouteError D
  no_route parse : RouteError D
  unexpected : Option Text → RouteError D

pub record ErrorAnswer (D : Type 0) : Type 0 where
  pub status_code : ℕ
  pub error : String
  pub message : Text
  pub details : Option D

-- `error?.message ?? "Unknown error"`
abbrev pub or_unknown_error : Option Text → Text
or_unknown_error none = codes "Unknown error"
or_unknown_error (some message) = message

module _ {D : Type 0} where
  unfoldable pub answer_error : Env → RouteError D → ErrorAnswer D
  answer_error env (domain e) = record {
    status_code = e.status_code;
    error = e.code;
    message = codes e.message;
    details = none;
  }
  answer_error env (validation details) = record {
    status_code = 400;
    error = "VALIDATION";
    message = codes "Request validation failed";
    details = some details;
  }
  answer_error env no_route = record {
    status_code = 404;
    error = "NOT_FOUND";
    message = codes "Route not found";
    details = none;
  }
  answer_error env parse = record {
    status_code = 400;
    error = "PARSE";
    message = codes "Malformed request body";
    details = none;
  }
  answer_error env (unexpected message) = record {
    status_code = 500;
    error = "INTERNAL";
    message =
        if is_production env.node_env
        then codes "Internal server error"
        else or_unknown_error message;
    details = none;
  }

  -- What a handler threw, as `onError` gets it; `describe` is the message of a driver's error.
  abbrev pub raised : (Option Text → Option Text → Option Text) → Thrown → RouteError D
  raised describe (app e) = domain e
  raised describe (driver code cause) = unexpected (describe code cause)
