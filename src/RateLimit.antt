-- ===== src/RateLimit.antt =====
-- src/plugins/rate-limit-store.ts: fixed-window counters in Redis that fail open. The client is the
-- store's own interface (`RateStoreClient`); each command may be rejected, by Redis or the deadline.
pub mod FailOpen
pub mod Limits
pub mod Lifetime
use elysiajs_production_api.Base.{
  ℕ, ◌+◌, ◌*◌, ◌/◌, Bool, Option, none, some, ◌++◌, Text, codes, is_empty, ltb, ◌==◌, if◌then◌else◌,
}
use elysiajs_production_api.Errors.{Result, ok, err, Call, pure, ◌>>=◌, ◌>>◌, try_catch}

-- Keys are texts here. `ttl` answers with the seconds left, or `none` for a negative reply.
pub record RateStoreClient : Type 1 where
  pub State : Type 0
  pub incr : Text → Call State ℕ
  pub expire : Text → ℕ → Call State (Unit {0})
  pub ttl : Text → Call State (Option ℕ)
  pub del : Text → Call State (Unit {0})
  pub decr : Text → Call State (Unit {0})

pub record Window : Type 0 where
  pub count : ℕ
  pub next_reset : ℕ
  pub start : ℕ

-- `ttl > 0 ? ttl * 1000 : duration`
abbrev pub window_ms : Option ℕ → ℕ → ℕ
window_ms none duration = duration
window_ms (some seconds) duration = if ltb 0 seconds then seconds * 1000 else duration

module _ (client : RateStoreClient) (prefix : Text) where
  open client use {State, incr, expire, ttl, del, decr}

  abbrev pub store_key : Text → Text
  store_key k = prefix ++ (codes ":" ++ k)

  -- On the first hit the window starts; `Math.ceil(duration / 1000)` seconds.
  abbrev pub start_window : Text → ℕ → ℕ → Call State (Unit {0})
  start_window k count duration = if count == 1 then expire k ((duration + 999) / 1000) else pure tt

  -- The `try` of `increment`.
  unfoldable pub hit : Text → ℕ → ℕ → Call State Window
  hit k duration request_time = do
    count ← incr k
    start_window k count duration
    left ← ttl k
    pure (record {
      count = count;
      next_reset = request_time + window_ms left duration;
      start = request_time;
    })

  unfoldable pub increment : Text → ℕ → ℕ → Call State Window
  unfolding hit
  increment k duration request_time =
      try_catch (hit (store_key k) duration request_time) (λ e.
        pure (record { count = 1; next_reset = request_time + duration; start = request_time }))

  unfoldable pub decrement : Text → Call State (Unit {0})
  decrement k = try_catch (decr (store_key k)) (λ e. pure tt)

  unfoldable pub reset : Option Text → Call State (Unit {0})
  reset none = pure tt
  reset (some k) = if is_empty k then pure tt else try_catch (del (store_key k)) (λ e. pure tt)
