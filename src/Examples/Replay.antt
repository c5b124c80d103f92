-- ===== src/Examples/Replay.antt =====
-- Two logins with a second factor, a minute apart.
use elysiajs_production_api.Base.{ℕ, ◌<◌, refl, some, none, [], ◌∷◌, codes, arith}
use elysiajs_production_api.Errors.{◌>>=◌}
use elysiajs_production_api.Services.{World, view, put, key, entry_of, mfa_challenge}
use elysiajs_production_api.Services.Actions.{
  on, on_users, on_cache, find_user, cache_get, cache_set, cache_incr, cache_del, read_clock,
}
use elysiajs_production_api.Auth.Accounts.{find_by_id}
use elysiajs_production_api.Auth.Totp.{
  validate_code, enrolled_user, open_challenge, close_challenge, consume_login_challenge,
}
use elysiajs_production_api.Auth.Totp.Challenge.{IsAccepted}
use elysiajs_production_api.Auth.Totp.Replay.Runs.{
  start as start_run, goes_on, elsewhere, consume_login_challenge-NoReplay,
}
use elysiajs_production_api.Examples.Memory.{memory, memory_table, memory_redis, memory_queue}
use elysiajs_production_api.Examples.Sessions.{ada, start}

abbrev challenged : World memory
unfolding memory memory_table memory_redis memory_queue
challenged = record start {
  cache = put (λ k. none) (key mfa_challenge 1806) (some (entry_of 1 (some 300) 1000000));
}

abbrev after_first : World memory
unfolding memory memory_table memory_redis memory_queue on on_users on_cache find_user cache_get
    cache_set cache_incr cache_del read_clock ◌>>=◌ find_by_id validate_code enrolled_user
    open_challenge close_challenge consume_login_challenge
after_first = (consume_login_challenge memory (7 ∷ []) (codes "s") challenged).1

abbrev challenged_again : World memory
unfolding memory memory_table memory_redis memory_queue
challenged_again = record after_first {
  now = 1060000;
  cache = put after_first.cache (key mfa_challenge 1806) (some (entry_of 1 (some 300) 1060000));
}

abbrev after_second : World memory
unfolding memory memory_table memory_redis memory_queue on on_users on_cache find_user cache_get
    cache_set cache_incr cache_del read_clock ◌>>=◌ find_by_id validate_code enrolled_user
    open_challenge close_challenge consume_login_challenge
after_second = (consume_login_challenge memory (7 ∷ []) (codes "s") challenged_again).1

consume_login_challenge-NoReplay_example :
    (c c' : ℕ) × IsAccepted memory
      (memory.sha256 (7 ∷ []))
      (codes "s")
      (view memory challenged)
      ada.id
      ada
      c
    × IsAccepted memory
        (memory.sha256 (7 ∷ []))
        (codes "s")
        (view memory challenged_again)
        ada.id
        ada
        c'
    × (c < c')
unfolding memory memory_table memory_redis memory_queue on on_users on_cache find_user cache_get
    cache_set cache_incr cache_del read_clock ◌>>=◌ find_by_id validate_code enrolled_user
    open_challenge close_challenge consume_login_challenge
consume_login_challenge-NoReplay_example =
    consume_login_challenge-NoReplay memory (7 ∷ []) (7 ∷ []) (codes "s") (codes "s") challenged
      after_first challenged_again after_second ada ada refl
      (goes_on start_run (elsewhere refl (omega arith))) refl refl
