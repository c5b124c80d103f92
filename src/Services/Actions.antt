-- ===== src/Services/Actions.antt =====
-- The statements and commands of the services as calls on the state of a request: the Drizzle
-- queries, `cache` of src/lib/cache.ts, `emailQueue.add`, the clock and the random draws.
pub mod Laws
use elysiajs_production_api.Base.{ℕ, suc, ◌≡◌, refl, ap, Bool, Option, List, Text}
use elysiajs_production_api.Errors.{Result, ok, Call, ◌>>=◌}
use elysiajs_production_api.Schema.{
  User, NewUser, RefreshToken, NewRefreshToken, AuditLog, NewAuditLog,
}
use elysiajs_production_api.Services.Tables.{Table}
use elysiajs_production_api.Services.Cache.{Key, Mail}
use elysiajs_production_api.Services.State.{Services, World}

-- A call on a part of the state.
unfoldable pub on : {W S A : Type 0} → (W → S) → (S → W → W) → (S → Result A × S) → Call W A
on part set op w = let (r, s) = op (part w) in (r, set s w)

module _ (sv : Services) where
  open sv use {user_table, token_table, audit_table, redis, email_queue}

  unfoldable pub on_users :
      {A : Type 0} → (user_table.State → Result A × user_table.State) → Call (World sv) A
  on_users = on (λ w. w.users) (λ s w. record w { users = s })

  unfoldable pub on_tokens :
      {A : Type 0} → (token_table.State → Result A × token_table.State) → Call (World sv) A
  on_tokens = on (λ w. w.tokens) (λ s w. record w { tokens = s })

  unfoldable pub on_audits :
      {A : Type 0} → (audit_table.State → Result A × audit_table.State) → Call (World sv) A
  on_audits = on (λ w. w.audits) (λ s w. record w { audits = s })

  unfoldable pub on_cache :
      {A : Type 0} → (redis.State → Result A × redis.State) → Call (World sv) A
  on_cache = on (λ w. w.cache) (λ s w. record w { cache = s })

  -- `new Date()`, `Date.now()`
  unfoldable pub read_clock : Call (World sv) ℕ
  read_clock w = (ok w.now, w)

  -- The number of the next random draw.
  unfoldable pub draw : Call (World sv) ℕ
  draw w = (ok w.draws, record w { draws = suc w.draws })

  unfoldable pub find_user : (User → Bool) → Call (World sv) (Option User)
  unfolding on_users
  find_user p = on_users (user_table.find p)

  unfoldable pub page_users :
      (User → Bool) → (User → User → Bool) → ℕ → ℕ → Call (World sv) (List User)
  unfolding on_users
  page_users p before n k = on_users (user_table.page p before n k)

  unfoldable pub insert_user : NewUser → Call (World sv) User
  unfolding on_users
  insert_user v w = on_users (user_table.insert v w.now) w

  unfoldable pub update_users : (User → Bool) → (User → User) → Call (World sv) (List User)
  unfolding on_users
  update_users p f = on_users (user_table.update p f)

  unfoldable pub find_token : (RefreshToken → Bool) → Call (World sv) (Option RefreshToken)
  unfolding on_tokens
  find_token p = on_tokens (token_table.find p)

  unfoldable pub insert_token : NewRefreshToken → Call (World sv) RefreshToken
  unfolding on_tokens
  insert_token v w = on_tokens (token_table.insert v w.now) w

  unfoldable pub update_tokens :
      (RefreshToken → Bool) → (RefreshToken → RefreshToken) → Call (World sv) (List RefreshToken)
  unfolding on_tokens
  update_tokens p f = on_tokens (token_table.update p f)

  unfoldable pub delete_tokens : (RefreshToken → Bool) → Call (World sv) (List RefreshToken)
  unfolding on_tokens
  delete_tokens p = on_tokens (token_table.delete p)

  unfoldable pub insert_audit : NewAuditLog → Call (World sv) AuditLog
  unfolding on_audits
  insert_audit v w = on_audits (audit_table.insert v w.now) w

  unfoldable pub delete_audits : (AuditLog → Bool) → Call (World sv) (List AuditLog)
  unfolding on_audits
  delete_audits p = on_audits (audit_table.delete p)

  unfoldable pub cache_get : Key → Call (World sv) (Option ℕ)
  unfolding on_cache
  cache_get k w = on_cache (redis.get k w.now) w

  unfoldable pub cache_set : Key → ℕ → Option ℕ → Call (World sv) (Unit {0})
  unfolding on_cache
  cache_set k v ttl w = on_cache (redis.set k v ttl w.now) w

  unfoldable pub cache_del : Key → Call (World sv) (Unit {0})
  unfolding on_cache
  cache_del k w = on_cache (redis.del k w.now) w

  unfoldable pub cache_incr : Key → Call (World sv) ℕ
  unfolding on_cache
  cache_incr k w = on_cache (redis.incr k w.now) w

  unfoldable pub cache_exists : Key → Call (World sv) Bool
  unfolding on_cache
  cache_exists k w = on_cache (redis.exists k w.now) w

  -- `emailQueue.add`
  unfoldable pub add_email : Mail → Call (World sv) (Unit {0})
  add_email m = on (λ w. w.emails) (λ s w. record w { emails = s }) (email_queue.add m)

  -- Reading the clock and drawing cannot fail: what follows runs at once.
  pub read_clock-bind :
      {B : Type 0} (f : ℕ → Call (World sv) B) (w : World sv) → (read_clock >>= f) w ≡ f w.now w
  unfolding read_clock ◌>>=◌
  read_clock-bind f w = refl

  pub draw-bind :
      {B : Type 0} (f : ℕ → Call (World sv) B) (w : World sv)
      → (draw >>= f) w ≡ f w.draws (record w { draws = suc w.draws })
  unfolding draw ◌>>=◌
  draw-bind f w = refl
