-- ===== src/Examples/Outcomes.antt =====
-- The theorems on refusals, maintenance, the seed and the list of users at concrete requests.
use elysiajs_production_api.Base.{
  ℕ, ◌≡◌, ◌≤◌, refl, inl, none, some, Option, List, [], ◌∷◌, codes, Text, arith,
}
use elysiajs_production_api.Errors.{Result, Thrown, app, driver, err, ◌>>=◌}
use elysiajs_production_api.Permissions.{read, resolve_scope}
use elysiajs_production_api.Config.{Env}
use elysiajs_production_api.Schema.{User, AuditLog}
use elysiajs_production_api.Services.{Services, World, view, Queue, Mail, IsDriver}
use elysiajs_production_api.Services.Actions.{
  on, on_users, on_tokens, on_cache, read_clock, draw, find_user, page_users, insert_user,
  update_users, delete_tokens, cache_set, cache_exists, add_email,
}
use elysiajs_production_api.Auth.Accounts.{find_by_email}
use elysiajs_production_api.Auth.Tokens.{delete_expired_refresh_tokens}
use elysiajs_production_api.Auth.PasswordReset.{request as request_reset, send_code}
use elysiajs_production_api.Seed.{create_admin, promote, ensure_admin, seed}
use elysiajs_production_api.Seed.Outcome.{IsReleased, seed-IsReleased}
use elysiajs_production_api.Queues.Maintenance.{clean_tokens}
use elysiajs_production_api.Queues.Maintenance.Sweeps.{KeepsClaims, token_cleanup-KeepsClaims}
use elysiajs_production_api.Routes.Public.{request_password_reset}
use elysiajs_production_api.ErrorPlugin.Refusals.Login as Login
use elysiajs_production_api.ErrorPlugin.Refusals.Reset as Reset
use elysiajs_production_api.ErrorPlugin.Refusals.Request.{Outcome, request_password_reset-Outcome}
use elysiajs_production_api.Guards.{
  Grant, can, resolve_user, judge, passes_verification_gate, is_email_verified,
}
use elysiajs_production_api.Guards.Matrix.{IsGranted}
use elysiajs_production_api.Jwt.{verify_with, verify_access_token}
use elysiajs_production_api.Users.{list_users, to_public_user}
use elysiajs_production_api.Routes.Protected.{protect}
use elysiajs_production_api.Routes.UserRoutes.{list_handler, get_users}
use elysiajs_production_api.Models.{ListQuery, list_query}
use elysiajs_production_api.Models.Listing.{IsPage, visible, get_users-IsPage}
use elysiajs_production_api.Examples.Access.{ada_token}
use elysiajs_production_api.Examples.Memory.{
  offline, memory, memory_table, memory_redis, memory_queue, err_not_ok,
}
use elysiajs_production_api.Examples.Sessions.{ada, start, env}

-- The message of a driver's error.
abbrev describe : Option Text → Option Text → Option Text
describe code cause = some (codes "connection lost")

-- A queue that cannot be reached.
module _ {A : Type 0} where
  unreached :
      (s s' : List Mail) (e : Thrown)
      → ◌≡◌ {A = Result A × List Mail} (err offline, s) (err e, s')
      → IsDriver e × (s' ≡ s)
  unreached s s' (app e) h = absurd (cc)
  unreached s s' (driver code cause) h = (tt, cc)

unfoldable dead_queue : Queue
dead_queue = record {
  State = List Mail;
  jobs = λ l. l;
  add = λ m l. (err offline, l);
  add_ok = λ m s s' u h. absurd (err_not_ok h);
  add_err = λ m s s' e h. let (d, same) = unreached s s' e h in (d, inl same);
}

abbrev stranded : Services
unfolding memory dead_queue
stranded = record memory { email_queue = dead_queue }

abbrev stranded_start : World stranded
unfolding memory memory_table memory_redis dead_queue
stranded_start = record {
  users = start.users;
  tokens = start.tokens;
  audits = start.audits;
  cache = start.cache;
  emails = [];
  now = start.now;
  draws = start.draws;
}

abbrev after_request : World stranded
unfolding memory memory_table memory_redis memory_queue dead_queue on on_users on_cache find_user
    cache_set cache_exists add_email draw ◌>>=◌ request_password_reset request_reset send_code
    find_by_email
after_request = (request_password_reset stranded env (codes "a@x") stranded_start).1

request_password_reset-Outcome_example :
    Outcome Text env describe stranded (codes "a@x") stranded_start after_request (err offline)
unfolding memory memory_table memory_redis memory_queue dead_queue on on_users on_cache find_user
    cache_set cache_exists add_email draw ◌>>=◌ request_password_reset request_reset send_code
    find_by_email
request_password_reset-Outcome_example =
    request_password_reset-Outcome Text env describe refl stranded (codes "a@x") stranded_start
      after_request (err offline) refl

-- A token of ada's has expired, and an entry of the trail is a year old.
abbrev old_entry : AuditLog
old_entry = record {
  id = 1;
  action = "user.created";
  actor_id = none;
  target_type = none;
  target_id = none;
  metadata = none;
  ip = none;
  created_at = 0;
}

abbrev long_after : World memory
unfolding memory memory_table memory_redis memory_queue
long_after = record start { audits = old_entry ∷ []; now = 31536000000 }

abbrev swept : World memory
unfolding memory memory_table memory_redis memory_queue on on_tokens read_clock delete_tokens ◌>>=◌
    clean_tokens delete_expired_refresh_tokens
swept = (clean_tokens memory none tt long_after).1

token_cleanup-KeepsClaims_example :
    KeepsClaims 1806 31536000005 (view memory long_after) (view memory swept)
unfolding memory memory_table memory_redis memory_queue on on_tokens read_clock delete_tokens ◌>>=◌
    clean_tokens delete_expired_refresh_tokens
token_cleanup-KeepsClaims_example =
    token_cleanup-KeepsClaims memory none 1806 31536000005 long_after swept (omega arith) refl

-- The seed for an address that is free, and for one that a deleted account has.
abbrev seeding : Env
seeding = record env { seed_admin_email = codes "r@x"; seed_admin_password = codes "secret" }

abbrev gone : User
gone = record ada { id = 9; email = codes "r@x"; deleted_at = some 3 }

abbrev start_gone : World memory
unfolding memory memory_table memory_redis memory_queue
start_gone = record start { users = gone ∷ ada ∷ [] }

abbrev seeded_gone : World memory
unfolding memory memory_table memory_redis memory_queue on on_users read_clock draw find_user
    insert_user update_users ◌>>=◌ seed ensure_admin create_admin promote
seeded_gone = (seed memory seeding start_gone).1

seed-IsReleased_example :
    ◌≡◌ {A = ℕ} 0 0 × IsReleased seeding.seed_admin_email (view memory seeded_gone).users
unfolding memory memory_table memory_redis memory_queue on on_users read_clock draw find_user
    insert_user update_users ◌>>=◌ seed ensure_admin create_admin promote
seed-IsReleased_example =
    seed-IsReleased memory seeding start_gone seeded_gone 0 refl (refl, (refl, tt)) (inl refl) refl

abbrev query : ListQuery
query = record { limit = 20; offset = 0 }

get_users-IsPage_example :
    (20 ≤ 100)
    × ((g : Grant) × IsGranted memory env
          (codes "user")
          read
          none
          (some ada_token)
          (view memory start)
          g
        × IsPage memory env 20 (visible memory env g) (view memory start) (to_public_user ada ∷ [])
        × (view memory start ≡ view memory start))
unfolding memory memory_table memory_redis memory_queue on on_users find_user page_users ◌>>=◌
    get_users protect list_handler list_users can resolve_user judge passes_verification_gate
    is_email_verified verify_access_token verify_with resolve_scope list_query read_clock
get_users-IsPage_example =
    get_users-IsPage memory env (some ada_token) none none query (to_public_user ada ∷ []) start
      start refl refl
