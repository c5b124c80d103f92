-- ===== src/Examples/Attempts.antt =====
-- The bounds on guesses at concrete requests.
use elysiajs_production_api.Base.{[], ◌∷◌, ◌≤◌, ◌≡◌, ap, Bool, true, false, refl, codes, arith}
use elysiajs_production_api.Errors.{Result, ok, err, ◌>>=◌, try_catch}
use elysiajs_production_api.Audit.{record_audit}
use elysiajs_production_api.Auth.Tokens.{revoke_all_refresh_tokens}
use elysiajs_production_api.Services.{World}
use elysiajs_production_api.Services.Actions.{
  on, on_users, on_cache, find_user, cache_get, cache_set, cache_incr, cache_del, cache_exists,
  draw, add_email,
}
use elysiajs_production_api.Auth.Accounts.{find_by_email, update_password}
use elysiajs_production_api.Auth.Attempts.Runs.{none_yet, compared, meanwhile}
use elysiajs_production_api.Auth.Otp.{issue, verify, check_code, max_attempts as otp_max}
use elysiajs_production_api.Auth.Otp.Codes.{generate_code}
use elysiajs_production_api.Auth.Otp.Guesses as Otp
use elysiajs_production_api.Auth.Accounts.{find_by_id}
use elysiajs_production_api.Services.Actions.{read_clock, update_users, delete_tokens, insert_audit}
use elysiajs_production_api.Auth.Totp.{
  create_login_challenge, consume_login_challenge, open_challenge, enrolled_user, validate_code,
  close_challenge, max_attempts as totp_max,
}
use elysiajs_production_api.Auth.Totp.Guesses as Totp
use elysiajs_production_api.Auth.PasswordReset.{
  send_code, reset, check_reset, match_code, max_attempts,
}
use elysiajs_production_api.Auth.PasswordReset.Guesses.{guess, elsewhere, reset-FiveGuesses}
use elysiajs_production_api.Examples.Memory.{memory, memory_table, memory_redis, memory_queue}
use elysiajs_production_api.Examples.Sessions.{ada, start}

abbrev returns : {A S : Type 0} → Result A × S → Bool
returns (ok a, s) = true
returns (err e, s) = false

abbrev accepts : {S : Type 0} → Result Bool × S → Bool
accepts (ok b, s) = b
accepts (err e, s) = false

-- A reset code is sent to ada, time passes, and a wrong code is tried.
abbrev sent : World memory
unfolding memory memory_table memory_redis memory_queue on on_cache cache_set draw add_email ◌>>=◌
    send_code
sent = (send_code memory ada (codes "a@x") start).1

abbrev later : World memory
unfolding memory memory_table memory_redis memory_queue
later = record sent { now = 1300000 }

abbrev tried : World memory
unfolding memory memory_table memory_redis memory_queue on on_users on_cache find_user cache_get
    cache_incr cache_del ◌>>=◌ reset check_reset match_code find_by_email
tried = (reset memory (codes "a@x") (codes "b") (codes "new") later).1

reset-FiveGuesses_example : 1 ≤ max_attempts
unfolding memory memory_table memory_redis memory_queue on on_users on_cache find_user cache_get
    cache_set draw add_email cache_incr cache_del ◌>>=◌ reset check_reset match_code find_by_email
    send_code generate_code update_password read_clock update_users revoke_all_refresh_tokens
    delete_tokens record_audit try_catch insert_audit
reset-FiveGuesses_example = reset-FiveGuesses memory ada (codes "a@x") 1 start sent tried refl (
    compared (meanwhile none_yet (elsewhere refl refl (omega arith))) (
      guess (codes "a@x") (codes "b") (codes "new")
        (reset memory (codes "a@x") (codes "b") (codes "new") later).0
        (record { user = ada; found_in = later; found = refl; is_user = refl })
        (
          generate_code (memory.random_uint32 3),
          λ h. absurd (let e : true ≡ false = ap returns h in cc),
        )
        refl))

-- A verification code is issued to ada, and a wrong one is tried.
abbrev issued : World memory
unfolding memory memory_table memory_redis memory_queue on on_cache cache_set cache_exists draw
    add_email ◌>>=◌ issue
issued = (issue memory 1 (codes "a@x") start).1

abbrev verified : World memory
unfolding memory memory_table memory_redis memory_queue on on_cache cache_get cache_incr cache_del
    ◌>>=◌ verify check_code
verified = (verify memory 1 (codes "b") issued).1

verify-FiveGuesses_example : 1 ≤ otp_max
unfolding memory memory_table memory_redis memory_queue on on_cache cache_set cache_exists draw
    add_email cache_get cache_incr cache_del ◌>>=◌ issue verify check_code generate_code
verify-FiveGuesses_example =
    Otp.verify-FiveGuesses memory 1 (codes "a@x") 1 start issued verified refl (
      compared none_yet (
        Otp.guess (codes "b") (verify memory 1 (codes "b") issued).0
          (
            generate_code (memory.random_uint32 3),
            λ h. absurd (let e : true ≡ false = ap accepts h in cc),
          )
          refl))

-- A login challenge is created for ada, and a code is tried.
abbrev challenged : World memory
unfolding memory memory_table memory_redis memory_queue on on_cache cache_set draw ◌>>=◌
    create_login_challenge
challenged = (create_login_challenge memory 1 start).1

abbrev answered : World memory
unfolding memory memory_table memory_redis memory_queue on on_users on_cache find_user cache_get
    cache_set cache_incr cache_del read_clock ◌>>=◌ consume_login_challenge open_challenge
    enrolled_user find_by_id validate_code close_challenge
answered = (consume_login_challenge memory (3 ∷ 1 ∷ []) (codes "b") challenged).1

consume_login_challenge-FiveGuesses_example : 1 ≤ totp_max
unfolding memory memory_table memory_redis memory_queue on on_users on_cache find_user cache_get
    cache_set cache_incr cache_del read_clock draw ◌>>=◌ consume_login_challenge open_challenge
    enrolled_user find_by_id validate_code close_challenge create_login_challenge
consume_login_challenge-FiveGuesses_example =
    Totp.consume_login_challenge-FiveGuesses memory 1 1 (3 ∷ 1 ∷ []) start challenged answered refl
      (compared none_yet (
        Totp.guess (3 ∷ 1 ∷ []) (codes "b")
          (consume_login_challenge memory (3 ∷ 1 ∷ []) (codes "b") challenged).0 refl
          (codes "s", λ h. absurd (let e : true ≡ false = ap returns h in cc)) refl))
