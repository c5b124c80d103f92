-- ===== src/ErrorPlugin/Raises/Statements.antt =====
-- The statements of Postgres, the commands of Redis, the clock and the random draws raise no domain
-- error.
use elysiajs_production_api.Base.{◌≡◌, Bool, Option, ℕ}
use elysiajs_production_api.Errors.{AppError, err}
use elysiajs_production_api.Schema.{User, RefreshToken, NewRefreshToken, NewAuditLog}
use elysiajs_production_api.Services.{Services, Key, Mail}
use elysiajs_production_api.Services.Actions.{
  find_user, update_users, insert_token, delete_tokens, cache_get, cache_set, cache_del, cache_incr,
  cache_exists, add_email, draw, read_clock,
}
use elysiajs_production_api.Services.Actions.Laws.{
  find_user-err, update_users-err, insert_token-err, delete_tokens-err, cache_get-err,
  cache_set-err, cache_del-err, cache_incr-err, cache_exists-err, add_email-err,
}
use elysiajs_production_api.Audit.{record_audit}
use elysiajs_production_api.Audit.BestEffort.{record_audit-Audited}
use elysiajs_production_api.ErrorPlugin.Raises.{Raises, IsDriver-IsRefusal}

module _ (sv : Services) (P : AppError → Type 0) where
  pub find_user-Raises : (p : User → Bool) → Raises P (find_user sv p)
  find_user-Raises p w w' e h = IsDriver-IsRefusal P e (find_user-err sv p w w' e h).0

  pub update_users-Raises : (p : User → Bool) (f : User → User) → Raises P (update_users sv p f)
  update_users-Raises p f w w' e h = IsDriver-IsRefusal P e (update_users-err sv p f w w' e h).0

  pub insert_token-Raises : (v : NewRefreshToken) → Raises P (insert_token sv v)
  insert_token-Raises v w w' e h = IsDriver-IsRefusal P e (insert_token-err sv v w w' e h).0

  pub delete_tokens-Raises : (p : RefreshToken → Bool) → Raises P (delete_tokens sv p)
  delete_tokens-Raises p w w' e h = IsDriver-IsRefusal P e (delete_tokens-err sv p w w' e h).0

  pub cache_get-Raises : (k : Key) → Raises P (cache_get sv k)
  cache_get-Raises k w w' e h = IsDriver-IsRefusal P e (cache_get-err sv k w w' e h).0

  pub cache_set-Raises : (k : Key) (v : ℕ) (ttl : Option ℕ) → Raises P (cache_set sv k v ttl)
  cache_set-Raises k v ttl w w' e h = IsDriver-IsRefusal P e (cache_set-err sv k v ttl w w' e h).0

  pub cache_del-Raises : (k : Key) → Raises P (cache_del sv k)
  cache_del-Raises k w w' e h = IsDriver-IsRefusal P e (cache_del-err sv k w w' e h).0

  pub cache_incr-Raises : (k : Key) → Raises P (cache_incr sv k)
  cache_incr-Raises k w w' e h = IsDriver-IsRefusal P e (cache_incr-err sv k w w' e h).0

  pub cache_exists-Raises : (k : Key) → Raises P (cache_exists sv k)
  cache_exists-Raises k w w' e h = IsDriver-IsRefusal P e (cache_exists-err sv k w w' e h).0

  pub add_email-Raises : (m : Mail) → Raises P (add_email sv m)
  add_email-Raises m w w' e h = IsDriver-IsRefusal P e (add_email-err sv m w w' e h).0

  pub draw-Raises : Raises P (draw sv)
  unfolding draw
  draw-Raises w w' e h = absurd (cc)

  pub read_clock-Raises : Raises P (read_clock sv)
  unfolding read_clock
  read_clock-Raises w w' e h = absurd (cc)

  pub record_audit-Raises : (entry : NewAuditLog) → Raises P (record_audit sv entry)
  record_audit-Raises entry w w' e h =
      let (returns, same) = record_audit-Audited sv entry w in
      absurd (let thrown : (record_audit sv entry w).0 ≡ err e = (λ i. (h i).0) in cc)
