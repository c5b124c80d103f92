-- ===== src/Metrics/Totals.antt =====
-- What the metrics say after a sequence of responses.
use mathlib.Core.List.{append-nil, append_assoc}
use elysiajs_production_api.Base.{
  ℕ, suc, ◌+◌, ◌-◌, ◌≡◌, refl, sym, ◌∙◌, Bool, true, false, Option, none, some, List, [], ◌∷◌, ◌++◌,
  count, Bool-cases, inl, inr, if◌then◌else◌, arith,
}
use elysiajs_production_api.Metrics.{
  Labels, same_labels, Metrics, no_metrics, inc, observe_since, Response, labels_of, after_response,
}

-- The metrics after some responses, the oldest first.
abbrev pub after_all : List Response → Metrics → Metrics
after_all [] m = m
after_all (r ∷ rs) m = after_all rs (after_response r m)

abbrev pub has_labels : Labels → Response → Bool
has_labels l r = same_labels (labels_of r) l

abbrev pub timed : Option ℕ → ℕ → List ℕ
timed none finished = []
timed (some start) finished = (finished - start) ∷ []

-- The durations of the responses with the labels whose start is known.
abbrev pub durations_of : Labels → List Response → List ℕ
durations_of l [] = []
durations_of l (r ∷ rs) =
    (if has_labels l r then timed r.metric_start r.finished else []) ++ durations_of l rs

after_response-total :
    (r : Response) (m : Metrics) (l : Labels)
    → (after_response r m).requests_total l
      ≡ (if has_labels l r then suc (m.requests_total l) else m.requests_total l)
unfolding after_response
after_response-total r m l = observe_since-total r.metric_start
  where
    observe_since-total :
        (start : Option ℕ)
        → (observe_since start r.finished (labels_of r) (inc (labels_of r) m)).requests_total l
          ≡ (if has_labels l r then suc (m.requests_total l) else m.requests_total l)
    observe_since-total none = refl
    observe_since-total (some start) = refl

after_response-durations :
    (r : Response) (m : Metrics) (l : Labels)
    → (after_response r m).durations l
      ≡ m.durations l ++ (if has_labels l r then timed r.metric_start r.finished else [])
unfolding after_response
after_response-durations r m l = observed r.metric_start (has_labels l r) refl
  where
    observed :
        (start : Option ℕ) (b : Bool)
        → has_labels l r ≡ b
        → (observe_since start r.finished (labels_of r) (inc (labels_of r) m)).durations l
          ≡ m.durations l ++ (if b then timed start r.finished else [])
    observed none true e = sym (append-nil (m.durations l))
    observed none false e = sym (append-nil (m.durations l))
    observed (some start) true e = rw e refl
    observed (some start) false e = rw e (sym (append-nil (m.durations l)))

-- After any sequence of responses, from empty metrics: for all labels, the counter is the number of
-- the responses with these labels, and the histogram has observed the durations of just those of them
-- whose start is known, in their order. A response without a start is counted and not timed.
pub after_all-Totals :
    (rs : List Response) (l : Labels)
    → ((after_all rs no_metrics).requests_total l ≡ count (has_labels l) rs)
      × ((after_all rs no_metrics).durations l ≡ durations_of l rs)
after_all-Totals rs l = (total rs no_metrics ∙ (omega arith), observed rs no_metrics)
  where
    total :
        (rs : List Response) (m : Metrics)
        → (after_all rs m).requests_total l ≡ m.requests_total l + count (has_labels l) rs
    total [] m = omega arith
    total (r ∷ rs) m = elim (Bool-cases (has_labels l r)) [
      | inl e ↦ total rs (after_response r m) ∙ rw (after_response-total r m l, e) (omega arith)
      | inr e ↦ total rs (after_response r m) ∙ rw (after_response-total r m l, e) (omega arith)
    ]

    observed :
        (rs : List Response) (m : Metrics)
        → (after_all rs m).durations l ≡ m.durations l ++ durations_of l rs
    observed [] m = sym (append-nil (m.durations l))
    observed (r ∷ rs) m =
        observed rs (after_response r m)
        ∙ rw (after_response-durations r m l) (
            append_assoc (m.durations l)
              (if has_labels l r then timed r.metric_start r.finished else []) (durations_of l rs))
