-- ===== src/Metrics.antt =====
-- src/plugins/metrics.ts: the request counter, the duration histogram and the queue gauge. The registry
-- and its text format are prom-client's; a metric is here what it holds for each combination of labels.
pub mod Totals
use elysiajs_production_api.Base.{
  ℕ, suc, ◌-◌, Bool, ◌&&◌, Option, none, some, List, [], ◌∷◌, ◌++◌, Text, codes, text_eq, is_empty,
  if◌then◌else◌,
}
use elysiajs_production_api.Errors.{Result, ok, err, Call, pure, try_catch, ◌>>=◌}
use elysiajs_production_api.Auth.Otp.Codes.{to_decimal}
use elysiajs_production_api.Queues.{QueueDef, Connection}

pub record Labels : Type 0 where
  pub method : Text
  pub route : Text
  pub status : Text

abbrev pub same_labels : Labels → Labels → Bool
same_labels a b =
    text_eq a.method b.method && (text_eq a.route b.route && text_eq a.status b.status)

-- `http_requests_total`, and the observations of `http_request_duration_seconds`, in milliseconds.
pub record Metrics : Type 0 where
  pub requests_total : Labels → ℕ
  pub durations : Labels → List ℕ

abbrev pub no_metrics : Metrics
no_metrics = record { requests_total = λ l. 0; durations = λ l. [] }

-- `inc`
abbrev pub inc : Labels → Metrics → Metrics
inc labels m = record m {
  requests_total =
      λ l. if same_labels labels l then suc (m.requests_total l) else m.requests_total l;
}

-- `observe`
abbrev pub observe : Labels → ℕ → Metrics → Metrics
observe labels ms m = record m {
  durations = λ l. if same_labels labels l then m.durations l ++ (ms ∷ []) else m.durations l;
}

-- A response that was sent, its status by number, with the reading of the clock that `derive` took, and the one after it.
pub record Response : Type 0 where
  pub method : Text
  pub route : Text
  pub status : Option ℕ
  pub metric_start : Option ℕ
  pub finished : ℕ

abbrev pub or_unmatched : Text → Text
or_unmatched route = if is_empty route then codes "unmatched" else route

-- `String(set.status ?? 200)`
unfoldable pub status_text : Option ℕ → Text
unfolding to_decimal
status_text none = codes "200"
status_text (some status) = to_decimal status

abbrev pub labels_of : Response → Labels
labels_of r = record {
  method = r.method;
  route = or_unmatched r.route;
  status = status_text r.status;
}

abbrev pub observe_since : Option ℕ → ℕ → Labels → Metrics → Metrics
observe_since none finished labels m = m
observe_since (some start) finished labels m = observe labels (finished - start) m

-- `onAfterResponse`
unfoldable pub after_response : Response → Metrics → Metrics
unfolding status_text
after_response r m = observe_since r.metric_start r.finished (labels_of r) (inc (labels_of r) m)

-- The gauge of the queue, by the name of a state.
pub record Gauge : Type 0 where
  pub queue : Text
  pub state : Text
  pub value : ℕ

abbrev pub set_all : Text → List (Text × ℕ) → List Gauge → List Gauge
set_all queue [] gauges = gauges
set_all queue ((state, value) ∷ counts) gauges =
    set_all queue counts (record { queue = queue; state = state; value = value } ∷ gauges)

abbrev pub job_states : List Text
job_states = codes "waiting" ∷ codes "active" ∷ codes "delayed" ∷ codes "failed" ∷ []

module _ {S : Type 0} (get_job_counts : List Text → Call S (List (Text × ℕ))) where
  -- `collect`, from the values the gauge has; the newest of a state counts.
  abbrev pub collect_from : Text → Option Connection → List Gauge → Call S (List Gauge)
  collect_from queue none gauges = pure gauges
  collect_from queue (some conn) gauges =
      try_catch (get_job_counts job_states >>= (λ counts. pure (set_all queue counts gauges)))
        (λ e. pure gauges)

  unfoldable pub collect : {T : Type 0} → QueueDef S T → List Gauge → Call S (List Gauge)
  collect q = collect_from q.name q.bull
