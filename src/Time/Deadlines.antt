-- ===== src/Time/Deadlines.antt =====
-- `withDeadline` of src/lib/time.ts: a promise that takes the outcome of some work, or is rejected once
-- a deadline has passed. Time goes by in milliseconds; what the work does at each is given, as it is
-- someone else's. When the work settles at the very instant of the deadline, it counts as in time.
pub mod Outcome
use elysiajs_production_api.Base.{
  ℕ, ◌-◌, Bool, Option, none, some, List, [], ◌∷◌, ◌==◌, if◌then◌else◌,
}

-- What a promise settles with; `timed_out` is the error `timed out after …ms`.
pub data Settled (A E : Type 0) : Type 0 where
  resolved : A → Settled A E
  rejected : E → Settled A E
  timed_out : ℕ → Settled A E

-- The promise, the milliseconds that are left on the timer, if it is set, and the whole deadline.
pub record Deadline (A E : Type 0) : Type 0 where
  pub promise : Option (Settled A E)
  pub timer : Option ℕ
  pub ms : ℕ

abbrev pub less_one : Option ℕ → Option ℕ
less_one none = none
less_one (some n) = some (n - 1)

module _ {A E : Type 0} where
  -- A promise settles once: `resolve` and `reject` have no effect after that.
  abbrev pub settle : Settled A E → Option (Settled A E) → Option (Settled A E)
  settle s none = some s
  settle s (some t) = some t

  unfoldable pub with_deadline : ℕ → Deadline A E
  with_deadline ms = record { promise = none; timer = some ms; ms = ms }

  -- The callbacks of `work.then`: clear the timer, and settle likewise.
  abbrev pub on_work : Option (Settled A E) → Deadline A E → Deadline A E
  on_work none d = d
  on_work (some s) d = record d { promise = settle s d.promise; timer = none }

  -- The callback of the timer: reject.
  abbrev pub on_timer : Option ℕ → Deadline A E → Deadline A E
  on_timer none d = d
  on_timer (some n) d =
      if n == 0
      then record d { promise = settle (timed_out d.ms) d.promise; timer = none }
      else record d { timer = some n }

  abbrev pub fire : Deadline A E → Deadline A E
  fire d = on_timer (less_one d.timer) d

  -- One millisecond, in which the work may settle.
  unfoldable pub pass : Option (Settled A E) → Deadline A E → Deadline A E
  pass work d = fire (on_work work d)

  unfoldable pub pass_all : List (Option (Settled A E)) → Deadline A E → Deadline A E
  unfolding pass
  pass_all [] d = d
  pass_all (work ∷ later) d = pass_all later (pass work d)

-- `bounded` of src/lib/cache.ts: the deadline of every command of Redis.
abbrev pub redis_op_timeout_ms : ℕ
redis_op_timeout_ms = 2000

unfoldable pub bounded : {A E : Type 0} → Deadline A E
unfolding with_deadline
bounded = with_deadline redis_op_timeout_ms
