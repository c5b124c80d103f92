-- ===== src/Examples/Endings.antt =====
-- The end of a session at a concrete request to log out.
use elysiajs_production_api.Base.{◌≡◌, refl, none, some, [], ◌∷◌, inl}
use elysiajs_production_api.Errors.{ok, ◌>>=◌}
use elysiajs_production_api.Services.{World}
use elysiajs_production_api.Services.Actions.{on, on_tokens, find_token, delete_tokens, read_clock}
use elysiajs_production_api.Auth.Tokens.{
  use_refresh_token, revoke_refresh_token, revoke_family, delete_expired_refresh_tokens,
}
use elysiajs_production_api.Auth.Tokens.Histories.SingleUse.{start as start_run, then, sweeps}
use elysiajs_production_api.Requests.{require_trusted_origin}
use elysiajs_production_api.Routes.Session.{logout}
use elysiajs_production_api.Routes.Endings.{logs_out, Ending-EndsSession}
use elysiajs_production_api.Examples.Memory.{memory, memory_table, memory_redis, memory_queue}
use elysiajs_production_api.Examples.Sessions.{ada_session, start, env, request}

abbrev logged_out : World memory
unfolding memory memory_table memory_redis memory_queue on on_tokens find_token delete_tokens ◌>>=◌
    logout require_trusted_origin revoke_refresh_token revoke_family
logged_out = (logout memory env request none (some (7 ∷ [])) start).1

abbrev swept : World memory
unfolding memory memory_table memory_redis memory_queue on on_tokens delete_tokens read_clock ◌>>=◌
    delete_expired_refresh_tokens
swept = (delete_expired_refresh_tokens memory logged_out).1

Ending-EndsSession_example : ¬ (use_refresh_token memory (7 ∷ []) swept ≡ (ok ada_session, swept))
unfolding memory memory_table memory_redis memory_queue on on_tokens find_token delete_tokens
    read_clock ◌>>=◌ logout require_trusted_origin revoke_refresh_token revoke_family
    delete_expired_refresh_tokens
Ending-EndsSession_example =
    Ending-EndsSession memory env (7 ∷ []) start logged_out swept swept ada_session
      (logs_out request none (some (7 ∷ [])) (7 ∷ []) 100 none refl (inl refl) (λ same. refl, tt)
        (λ same. refl, tt) refl)
      (then start_run (sweeps (delete_expired_refresh_tokens memory logged_out).0 refl))
