-- ===== src/Examples/Access.antt =====
-- The theorems on access control and on shared parts, at concrete values.
use elysiajs_production_api.Base.{
  suc, ltb, ◌-◌, ℕ, ◌≡◌, refl, ◌%◌, ◌⊎◌, inr, false, none, some, ◌∷◌, Text, codes, All, length,
  is_empty, text_eq, if◌then◌else◌,
}
use elysiajs_production_api.Errors.{err, ok, ◌>>=◌, try_catch}
use elysiajs_production_api.Permissions.{user, read, resolve_scope}
use elysiajs_production_api.Permissions.Scopes.{user_scope, resolve_scope-user}
use elysiajs_production_api.Config.{Env}
use elysiajs_production_api.Services.{World, view, AccessPayload}
use elysiajs_production_api.Services.Actions.{
  on, on_users, on_audits, read_clock, find_user, update_users, insert_audit,
}
use elysiajs_production_api.Audit.{record_audit}
use elysiajs_production_api.Auth.Otp.Codes.{generate_code}
use elysiajs_production_api.Auth.Otp.Codes.Decimal.{IsDigit, decimal_from, generate_code-decimal}
use elysiajs_production_api.Jwt.{sign_access_token, verify_with, verify_access_token}
use elysiajs_production_api.Jwt.Rotation.{
  Verified, verify_access_token-sign_access_token, verify_access_token-Verified,
}
use elysiajs_production_api.Guards.{
  can, resolve_user, is_email_verified, passes_verification_gate, judge,
}
use elysiajs_production_api.Guards.Matrix.{Judges, can-Judges}
use elysiajs_production_api.Users.{UserChanges, to_public_user, apply_changes, update_user}
use elysiajs_production_api.RateLimit.{RateStoreClient, increment}
use elysiajs_production_api.RateLimit.FailOpen.{Answers, increment-Answers}
use elysiajs_production_api.Routes.Protected.{protect}
use elysiajs_production_api.Routes.UserRoutes.{update_handler, patch_user}
use elysiajs_production_api.Routes.UserRoutes.Updates.{Updates, patch_user-Updates}
use elysiajs_production_api.Examples.Memory.{
  offline, memory, memory_table, memory_redis, memory_queue,
}
use elysiajs_production_api.Examples.Sessions.{ada, start, env, request}

abbrev pub ada_token : Text
ada_token = 1906 ∷ 1 ∷ codes "user"

can-Judges_example :
    Judges memory env
      (codes "user")
      read
      (some (some 2))
      (some ada_token)
      (view memory start)
      (can memory env (codes "user") read (some (some 2)) (some ada_token) start)
can-Judges_example =
    can-Judges memory env (codes "user") read (some (some 2)) (some ada_token) start

resolve_scope-user_example :
    resolve_scope user (codes "user") read
    ≡ (if text_eq (codes "user") (codes "user") then user_scope read else none)
resolve_scope-user_example = resolve_scope-user (codes "user") read

abbrev changes : UserChanges
changes = record { name = some (codes "Ada"); role = none }

abbrev after_patch : World memory
unfolding memory memory_table memory_redis memory_queue on on_users on_audits find_user update_users
    insert_audit read_clock ◌>>=◌ try_catch patch_user protect update_handler update_user can
    resolve_user judge passes_verification_gate is_email_verified verify_access_token verify_with
    resolve_scope record_audit
after_patch = (patch_user memory env request (some ada_token) 1 changes start).1

patch_user-Updates_example :
    Updates memory env
      (some ada_token)
      1
      changes
      (view memory start)
      (to_public_user (apply_changes changes 1000000 ada))
      (view memory after_patch)
unfolding memory memory_table memory_redis memory_queue on on_users on_audits find_user update_users
    insert_audit read_clock ◌>>=◌ try_catch patch_user protect update_handler update_user can
    resolve_user judge passes_verification_gate is_email_verified verify_access_token verify_with
    resolve_scope record_audit
patch_user-Updates_example =
    patch_user-Updates memory env request (some ada_token) 1 changes
      (to_public_user (apply_changes changes 1000000 ada)) start after_patch refl

-- The settings after the secret of `env` was replaced.
abbrev rotated : Env
rotated = record env { jwt_secret = codes "n"; jwt_secret_previous = codes "k" }

abbrev payload : AccessPayload
payload = record { sub = 1; role = user }

verify_access_token-sign_access_token_example :
    verify_access_token memory rotated (sign_access_token memory env payload 5) 9 ≡ some payload
unfolding memory sign_access_token
verify_access_token-sign_access_token_example =
    verify_access_token-sign_access_token memory env rotated payload 5 9 refl (inr (refl, refl))
      refl

verify_access_token-Verified_example :
    (s : Text) × ((s ≡ env.jwt_secret) ⊎ (s ≡ env.jwt_secret_previous))
    × (is_empty s ≡ false)
    × Verified memory env ada_token 9 payload s
unfolding memory verify_access_token verify_with
verify_access_token-Verified_example =
    verify_access_token-Verified memory env ada_token 9 payload refl

generate_code-decimal_example :
    (length (generate_code 7000042) ≡ 6)
    × All IsDigit (generate_code 7000042)
    × (decimal_from 0 (generate_code 7000042) ≡ 7000042 % 1000000)
generate_code-decimal_example = generate_code-decimal 7000042

-- A store that counts the hits of all keys together, and loses a connection at the third.
abbrev pub counter : RateStoreClient
counter = record {
  State = ℕ;
  incr = λ k n. (ok (suc n), suc n);
  expire = λ k seconds n. (ok tt, n);
  ttl = λ k n. if ltb 2 n then (err offline, n) else (ok (some 60), n);
  del = λ k n. (ok tt, 0);
  decr = λ k n. (ok tt, n - 1);
}

increment-Answers_example :
    Answers counter
      (codes "rl")
      (codes "ip")
      60000
      5
      2
      (increment counter (codes "rl") (codes "ip") 60000 5 2)
increment-Answers_example = increment-Answers counter (codes "rl") (codes "ip") 60000 5 2
