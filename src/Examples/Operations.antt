-- ===== src/Examples/Operations.antt =====
-- The theorems on mail, queues, the seed, the start, limits and metrics at concrete values.
use elysiajs_production_api.Base.{
  Option, sym, ap, ◌∙◌, suc, ℕ, ◌+◌, ◌*◌, ◌≤◌, ◌≡◌, refl, true, false, none, some, List, [], ◌∷◌,
  codes, Text, length, All, arith, count, ◌==◌, Bool,
}
use elysiajs_production_api.Errors.{Result, ok, err, pure, Call, ◌>>=◌, try_catch}
use elysiajs_production_api.Config.{Env, default_env, production}
use elysiajs_production_api.Mail.Templates.{Message, EmailContent, escape_html, render_email_html}
use elysiajs_production_api.Mail.Templates.Escapes.{
  is_markup, unescape_from, unescape_from-escape_html,
}
use elysiajs_production_api.Mail.Templates.Markup.{tags, part_tags, tags-render_email_html}
use elysiajs_production_api.Mail.{Mailer, send, outbox_limit}
use elysiajs_production_api.Mail.Outbox.{IsRecent, send-IsRecent}
use elysiajs_production_api.Readiness.{DependencyCheck, wait_for_dependencies}
use elysiajs_production_api.Readiness.Wait.{Outcome, wait_for_dependencies-Outcome}
use elysiajs_production_api.Alert.{AlertBody, alert_body}
use elysiajs_production_api.Queues.{QueueDef, define_queue, no_options}
use elysiajs_production_api.Queues.Failures.{
  final_alert, handle_failures, handle_failures-AlertsOnce,
}
use elysiajs_production_api.RateLimit.{RateStoreClient, hit, increment}
use elysiajs_production_api.RateLimit.Limits.{Caller, Counted, Opts, user_rate_limit}
use elysiajs_production_api.RateLimit.Limits.Separate.{IsCountedAs, counter_key-Separate}
use elysiajs_production_api.RateLimit.Lifetime.{
  Counters, value_of, is_timed, IsStuck, after_hits, after_hits-IsStuck,
}
use elysiajs_production_api.Time.Deadlines.{resolved, pass, pass_all, with_deadline}
use elysiajs_production_api.Time.Deadlines.Outcome.{with_deadline-verdict}
use elysiajs_production_api.Examples.Memory.{offline, ok_not_err}
use elysiajs_production_api.Examples.Access.{counter}
use elysiajs_production_api.Examples.Sessions.{request}
use elysiajs_production_api.Metrics.{Labels, Response, no_metrics}
use elysiajs_production_api.Metrics.Totals.{after_all, has_labels, durations_of, after_all-Totals}

abbrev sample : Text
sample = codes "<b>&\""

unescape_from-escape_html_example :
    (unescape_from 0 (escape_html sample) ≡ sample)
    × All (λ c. is_markup c ≡ false) (escape_html sample)
unescape_from-escape_html_example = unescape_from-escape_html sample

abbrev settings : Env
settings = record (default_env (codes "db") (codes "0123456789abcdef")) { node_env = production }

abbrev content : EmailContent
content = record {
  heading = codes "Hi <b>";
  lines = codes "one" ∷ codes "two" ∷ [];
  code = some (codes "123456");
  footer = none;
}

tags-render_email_html_example :
    tags (render_email_html settings content)
    ≡ 21 + 2 * length content.lines + part_tags content.code + part_tags content.footer
tags-render_email_html_example = tags-render_email_html settings content

-- nodemailer, as the number of messages that it was given.
abbrev count_mail : Text → Message → Call ℕ (Unit {0})
count_mail from mail n = (ok tt, n + 1)

abbrev greeting : Message
greeting = record { to = codes "a@x"; subject = codes "s"; text = codes "t"; html = none }

abbrev mailer : Mailer ℕ
mailer = record { transporter = 0; outbox = greeting ∷ [] }

send-IsRecent_example :
    IsRecent count_mail (greeting ∷ []) greeting (send count_mail settings greeting mailer)
    × (length (send count_mail settings greeting mailer).1.outbox ≤ outbox_limit)
send-IsRecent_example = send-IsRecent count_mail settings greeting (greeting ∷ []) mailer refl

-- A dependency that is up from the second attempt on.
abbrev checks : List (DependencyCheck ℕ)
checks = record { name = codes "redis"; check = λ n. (n == 1, n) } ∷ []

abbrev nap : ℕ → ℕ
nap n = n + 1

wait_for_dependencies-Outcome_example :
    Outcome checks nap 2 0 (wait_for_dependencies checks nap 3 0).0
wait_for_dependencies-Outcome_example = wait_for_dependencies-Outcome checks nap 2 0

-- A webhook, as the bodies that were posted to it; it answers that all is well.
abbrev post : Text → AlertBody → Call (List AlertBody) Bool
post url body posted = (ok true, body ∷ posted)

abbrev alerting : Env
alerting = record settings { alert_webhook_url = codes "https://x" }

abbrev jobs : QueueDef (List AlertBody) ℕ
jobs = define_queue none (codes "jobs") (λ n. pure tt) no_options

handle_failures-AlertsOnce_example :
    (handle_failures post alerting jobs no_options (some (codes "7")) (codes "down") 0 2 []
      ≡ (ok tt, []))
    × (handle_failures post alerting jobs no_options (some (codes "7")) (codes "down") 0 3 [] ≡ (
      ok tt,
      alert_body alerting
            (final_alert post alerting jobs no_options (some (codes "7")) (codes "down"))
          ∷ [],
    ))
handle_failures-AlertsOnce_example =
    handle_failures-AlertsOnce post alerting jobs no_options (some (codes "7")) (codes "down") 3
      refl 2 [] (omega arith)

abbrev auth : Text
auth = codes "auth"

-- A request with a bearer token and no user, counted by two limiters of the same keyspace.
abbrev someone : Counted
someone = record { request = request; sub = none; authorization = some (codes "Bearer 7") }

abbrev auth_limit : Opts
auth_limit = record { max = none; duration = none; keyspace = some auth }

abbrev strict_limit : Opts
strict_limit = record auth_limit { max = some 5 }

counter_key-Separate_example :
    (auth ≡ auth)
    × (caller : Caller) × IsCountedAs settings someone caller
    × IsCountedAs settings someone caller
unfolding user_rate_limit
counter_key-Separate_example =
    counter_key-Separate counter settings auth auth auth_limit strict_limit someone someone refl
      refl (refl, (refl, (refl, (refl, (refl, tt))))) (refl, (refl, (refl, (refl, (refl, tt)))))
      refl

abbrev served_once : Response
served_once = record {
  method = codes "GET";
  route = codes "/users";
  status = none;
  metric_start = some 5;
  finished = 9;
}

abbrev unmatched : Response
unmatched = record served_once { route = []; status = some 404; metric_start = none }

abbrev labels : Labels
labels = record { method = codes "GET"; route = codes "/users"; status = codes "200" }

after_all-Totals_example :
    ((after_all (served_once ∷ unmatched ∷ []) no_metrics).requests_total labels
      ≡ count (has_labels labels) (served_once ∷ unmatched ∷ []))
    × ((after_all (served_once ∷ unmatched ∷ []) no_metrics).durations labels
        ≡ durations_of labels (served_once ∷ unmatched ∷ []))
after_all-Totals_example = after_all-Totals (served_once ∷ unmatched ∷ []) labels

-- One counter, at a server that rejects every EXPIRE.
abbrev no_expire : RateStoreClient
no_expire = record {
  State = Option (ℕ × Bool);
  incr = λ k s. (ok (suc (value_of s)), some (suc (value_of s), is_timed s));
  expire = λ k seconds s. (err offline, s);
  ttl = λ k s. (ok none, s);
  del = λ k s. (ok tt, none);
  decr = λ k s. (ok tt, s);
}

module _ {A S : Type 0} where
  answered : {a b : A} {s t : S} → ◌≡◌ {A = Result A × S} (ok a, s) (ok b, t) → b ≡ a
  answered h = cc

  kept : {r q : Result A} {s t : S} → ◌≡◌ {A = Result A × S} (r, s) (q, t) → t ≡ s
  kept h = sym (λ i. (h i).1)

abbrev no_expire_counters : Counters no_expire
no_expire_counters = record {
  entry = λ s k. s;
  incr_ok = λ k s s' n h. (answered h, kept h ∙ ap (λ m. some (m, is_timed s)) (sym (answered h)));
  incr_err = λ k s s' e h. absurd (ok_not_err h);
  ttl_keeps = λ k s s' r h. kept h;
}

abbrev first_hit : Option (ℕ × Bool)
unfolding increment hit ◌>>=◌ try_catch
first_hit = (increment no_expire (codes "rl:auth") (codes "ip:x") 60000 0 none).1

abbrev later_hits : List (ℕ × ℕ)
later_hits = (60000, 5) ∷ (60000, 70000) ∷ []

after_hits-IsStuck_example :
    IsStuck no_expire no_expire_counters (codes "rl:auth") (codes "ip:x") 1 (
      after_hits no_expire no_expire_counters (codes "rl:auth") (codes "ip:x") later_hits first_hit)
unfolding increment hit ◌>>=◌ try_catch
after_hits-IsStuck_example =
    after_hits-IsStuck no_expire no_expire_counters (codes "rl:auth") (codes "ip:x") later_hits 1
      first_hit (omega arith) (1, omega arith, refl)

-- Work that is resolved in its second millisecond, well before the deadline.
with_deadline-verdict_example :
    (pass_all {A = ℕ} {E = ℕ} (none ∷ some (resolved 7) ∷ none ∷ []) (with_deadline 2000)).promise
    ≡ some (resolved 7)
unfolding pass_all pass with_deadline
with_deadline-verdict_example =
    with_deadline-verdict 2000 (none ∷ some (resolved 7) ∷ none ∷ []) (omega arith)
