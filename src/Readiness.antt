-- ===== src/Readiness.antt =====
-- src/lib/readiness.ts and src/plugins/health.ts: the checks of Postgres and Redis, the wait for them at
-- boot, and the readiness endpoint. What the services answer is a parameter; the checks of a round run at
-- the same time, and are taken here in their order.
pub mod Wait
use elysiajs_production_api.Base.{
  ℕ, zero, suc, Bool, true, false, ◌&&◌, List, [], ◌∷◌, Text, String, codes, if◌then◌else◌,
}
use elysiajs_production_api.Errors.{Result, ok, err, Call}

pub record DependencyCheck (S : Type 0) : Type 0 where
  pub name : Text
  pub check : S → Bool × S

-- A ping is a command, bounded by a deadline; what it throws is logged.
abbrev pub succeeded : {A : Type 0} → Result A → Bool
succeeded (ok a) = true
succeeded (err e) = false

module _ {S : Type 0} where
  unfoldable pub ping : {A : Type 0} → Call S A → S → Bool × S
  ping work s = let (r, s') = work s in (succeeded r, s')

-- `pingPostgres` and `pingRedis`, from the two commands
abbrev pub dependency_checks : {S A B : Type 0} → Call S A → Call S B → List (DependencyCheck S)
dependency_checks select_one ping_redis =
    record { name = codes "postgres"; check = ping select_one }
    ∷ record { name = codes "redis"; check = ping ping_redis }
    ∷ []

-- How the wait ends: at once when nothing fails, or with the checks that failed at the last attempt.
pub data Ready : Type 0 where
  ready : Ready
  unavailable : List Text → Ready

module _ {S : Type 0} (checks : List (DependencyCheck S)) (sleep : S → S) where
  abbrev pub failures : List (DependencyCheck S) → S → List Text × S
  failures [] s = ([], s)
  failures (c ∷ cs) s =
      let (up, s') = c.check s in
      let (failed, s'') = failures cs s' in (if up then failed else c.name ∷ failed, s'')

  -- `results` of one attempt, and the names that failed
  unfoldable pub attempt : S → List Text × S
  attempt = failures checks

  -- The loop, by the attempts that are left.
  unfoldable pub wait_rounds : ℕ → S → Ready × S
  unfolding attempt
  wait_rounds zero s = (ready, s)
  wait_rounds (suc left) s =
      let (failed, s') = attempt s in
      let rest = wait_rounds left (sleep s') in
      elim failed [
        | [] ↦ (ready, s')
        | name ∷ names ↦ elim left [ zero ↦ (unavailable (name ∷ names), s') | suc _ ↦ rest ]
      ]

  unfoldable pub wait_for_dependencies : ℕ → S → Ready × S
  unfolding wait_rounds
  wait_for_dependencies attempts s = wait_rounds attempts s

-- `GET /ready`
pub record ReadyAnswer : Type 0 where
  pub status_code : ℕ
  pub status : String
  pub db : String
  pub redis : String

abbrev pub up_or_down : Bool → String
up_or_down true = "ok"
up_or_down false = "down"

abbrev pub ready_answer : Bool → Bool → ReadyAnswer
ready_answer db redis = record {
  status_code = if db && redis then 200 else 503;
  status = if db && redis then "ready" else "unavailable";
  db = up_or_down db;
  redis = up_or_down redis;
}

module _ {S A B : Type 0} (select_one : Call S A) (ping_redis : Call S B) where
  unfoldable pub get_ready : S → ReadyAnswer × S
  unfolding ping
  get_ready s =
      let (db, s') = ping select_one s in
      let (redis, s'') = ping ping_redis s' in (ready_answer db redis, s'')
