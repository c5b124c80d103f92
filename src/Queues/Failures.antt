-- ===== src/Queues/Failures.antt =====
-- The failures of a job up to its last attempt: BullMQ reports each one, with the number of attempts made.
use elysiajs_production_api.Base.{
  is_empty, inl, inr, ℕ, zero, suc, ◌+◌, ◌<◌, ◌≤◌, ◌≡◌, refl, sym, ap, if◌then◌else◌, ◌∙◌, Bool,
  true, false, Option, some, Text, leb-false, leb-true, arith, Bool-cases,
}
use elysiajs_production_api.Errors.{ok, Call, pure, ◌>>◌, try_catch-cases, >>=-of_ok}
use elysiajs_production_api.Config.{Env}
use elysiajs_production_api.Alert.{Alert, AlertBody, alert_body, send_alert}
use elysiajs_production_api.Queues.{
  FailedJobInfo, is_final, failure_alert, handle_job_failure, QueueDef, JobsOptions, job_options,
}

module _ {S : Type 0} (fetch : Text → AlertBody → Call S Bool) (env : Env) where
  -- `send_alert` does not throw.
  send_alert-returns :
      (a : Alert) (s : S)
      → (b : Bool) × (send_alert fetch env a s ≡ (ok b, (send_alert fetch env a s).1))
  unfolding send_alert
  send_alert-returns a s = elim (Bool-cases (is_empty env.alert_webhook_url)) [
    | inl e ↦ (false, rw e refl)
    | inr e ↦ rw e (
        try_catch-cases (fetch env.alert_webhook_url (alert_body env a)) (λ x. pure false) s
          (λ r. (b : Bool) × (r ≡ (ok b, r.1))) (λ b v h. (b, refl)) (λ x v h. (false, refl)))
  ]

  handle_job_failure-kept :
      (queue : Text) (job : Option FailedJobInfo) (message : Text) (s : S)
      → is_final job ≡ false
      → handle_job_failure fetch env queue job message s ≡ (ok tt, s)
  unfolding handle_job_failure
  handle_job_failure-kept queue job message s e = rw e refl

  handle_job_failure-final :
      (queue : Text) (job : Option FailedJobInfo) (message : Text) (s : S)
      → is_final job ≡ true
      → handle_job_failure fetch env queue job message s
        ≡ (ok tt, (send_alert fetch env (failure_alert queue job message) s).1)
  unfolding handle_job_failure
  handle_job_failure-final queue job message s e = rw e (
      >>=-of_ok (send_alert fetch env (failure_alert queue job message)) (λ _. pure tt)
        (send_alert-returns (failure_alert queue job message) s).1)

  -- What `made` attempts of a job leave, as BullMQ reports it with the error's message: the job keeps
  -- the options it was added with.
  abbrev pub failed_job :
      {T : Type 0} → QueueDef S T → JobsOptions → Option Text → ℕ → FailedJobInfo
  failed_job q opts id made = record {
    id = id;
    attempts_made = made;
    attempts = (job_options q opts).attempts;
  }

  module _ {T : Type 0} (q : QueueDef S T) (opts : JobsOptions) (id : Option Text)
      (message : Text) where
    abbrev pub final_alert : Alert
    final_alert = failure_alert q.name (some (failed_job q opts id 0)) message

    -- The failures of the attempts `made + 1`, …, `made + n`, one after the other.
    abbrev pub handle_failures : ℕ → ℕ → Call S (Unit {0})
    handle_failures made zero = pure tt
    handle_failures made (suc n) =
        handle_job_failure fetch env q.name (some (failed_job q opts id (suc made))) message
        >> handle_failures (suc made) n

    -- What is left of the state by one POST of the alert to the webhook, whether it is answered or
    -- throws; without a webhook none is sent.
    abbrev after_alert : S → S
    after_alert s =
        if is_empty env.alert_webhook_url
        then s
        else (fetch env.alert_webhook_url (alert_body env final_alert) s).1

    send_alert-state : (s : S) → (send_alert fetch env final_alert s).1 ≡ after_alert s
    unfolding send_alert
    send_alert-state s = elim (Bool-cases (is_empty env.alert_webhook_url)) [
      | inl e ↦ rw e refl
      | inr e ↦ rw e (
          try_catch-cases (fetch env.alert_webhook_url (alert_body env final_alert))
            (λ x. pure false) s
            (λ r. r.1 ≡ (fetch env.alert_webhook_url (alert_body env final_alert) s).1)
            (λ b v h. ap (λ x. x.1) (sym h)) (λ x v h. ap (λ x. x.1) (sym h)))
    ]

    module _ (max : ℕ) (attempts : (job_options q opts).attempts ≡ some max) where
      retried :
          (made : ℕ) (s : S)
          → made < max
          → handle_job_failure fetch env q.name (some (failed_job q opts id made)) message s
            ≡ (ok tt, s)
      retried made s h =
          handle_job_failure-kept q.name (some (failed_job q opts id made)) message s
            (rw attempts (leb-false h))

      alerted :
          (made : ℕ) (s : S)
          → max ≤ made
          → handle_job_failure fetch env q.name (some (failed_job q opts id made)) message s
            ≡ (ok tt, (send_alert fetch env final_alert s).1)
      unfolding failure_alert
      alerted made s h =
          handle_job_failure-final q.name (some (failed_job q opts id made)) message s
            (rw attempts (leb-true h))

      handle_failures-retried :
          (made n : ℕ) (s : S) → made + n < max → handle_failures made n s ≡ (ok tt, s)
      handle_failures-retried made zero s h = refl
      handle_failures-retried made (suc n) s h =
          >>=-of_ok _ (λ _. handle_failures (suc made) n) (retried (suc made) s (omega arith))
          ∙ handle_failures-retried (suc made) n s (omega arith)

      handle_failures-alerted :
          (made n : ℕ) (s : S)
          → made + suc n ≡ max
          → handle_failures made (suc n) s ≡ (ok tt, (send_alert fetch env final_alert s).1)
      handle_failures-alerted made zero s h =
          >>=-of_ok _ (λ _. handle_failures (suc made) 0) (alerted (suc made) s (omega arith))
      handle_failures-alerted made (suc n) s h =
          >>=-of_ok _ (λ _. handle_failures (suc made) (suc n)) (retried (suc made) s (omega arith))
          ∙ handle_failures-alerted (suc made) n s (omega arith)

      all_failures :
          (m : ℕ) (s : S)
          → m ≡ max
          → 1 ≤ m
          → handle_failures 0 m s ≡ (ok tt, (send_alert fetch env final_alert s).1)
      all_failures zero s e h = absurd (omega arith)
      all_failures (suc n) s e h = handle_failures-alerted 0 n s (omega arith)

      -- For a job that fails at every attempt its options allow: the failures of the first attempts,
      -- the last one left out, send no alert and change nothing. The failures of all attempts send one
      -- alert, if ALERT_WEBHOOK_URL is set: `fetch` is called once, with that URL and the alert of
      -- handleJobFailure for the last attempt. If it is not set, nothing is sent. In both cases they
      -- return, even if `fetch` throws.
      pub handle_failures-AlertsOnce :
          (n : ℕ) (s : S)
          → n < max
          → (handle_failures 0 n s ≡ (ok tt, s))
            × (handle_failures 0 max s ≡ (ok tt, after_alert s))
      handle_failures-AlertsOnce n s h = (
        handle_failures-retried 0 n s (omega arith),
        all_failures max s refl (omega arith) ∙ ap (λ x. (ok tt, x)) (send_alert-state s),
      )
