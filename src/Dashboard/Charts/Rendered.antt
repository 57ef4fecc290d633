-- ===== src/Dashboard/Charts/Rendered.antt =====
-- What the charts show after any answers: FailureRateChart.tsx, ThroughputChart.tsx and
-- QueueDepthChart.tsx of dashboard/src/components.
use taskfire.Prelude.{
  ℕ, ◌+◌, eqb, ◌≡◌, refl, ap, ◌∙◌, Bool, true, false, ◌&&◌, Option, none, some, List, [], ◌∷◌, map,
  length, get_elem?, ltb, ◌-◌, arith, if◌then◌else◌, Bool-cases, inl, inr,
}
use taskfire.Dashboard.Client.{ThroughputPoint}
use taskfire.Dashboard.Charts.{
  last_of, RatePoint, FailureChart, empty_chart, load_rate, latest, current_rate, current_dlq,
  failure_header, LiveMetrics, DepthPoint, ChartPoint, chart_point, load_throughput,
  ThroughputState, sum_of, total_completed, total_failed,
}
use taskfire.Dashboard.Charts.Histories.{
  present_after, last_rejected, load_rates, load_rates-points, observe_all, depth_points,
  charts-newest,
}
use taskfire.Dashboard.Charts.Views.{
  Body, loading, failed, no_data, chart, rate_axis, FailureView, failure_view, ThroughputView,
  throughput_view, throughput_legend, empty_throughput, depth_view,
}

-- The body of a chart that polls: a text until a request is settled, another where the last was
-- rejected.
abbrev pub polled {ℓ} : {A : Type ℓ} {B : Type 0} → List (Option A) → Body B → Body B
polled [] shown = loading
polled (o ∷ os) shown = if last_rejected false (o ∷ os) then failed else shown

-- No request is settled yet.
abbrev pub unsettled {ℓ} : {A : Type ℓ} → List (Option A) → Bool
unsettled [] = true
unsettled (o ∷ os) = false

-- The rate and the depth of the newest point, zeros where there is none.
abbrev pub newest : List RatePoint → ℕ × ℕ
newest ps =
    let last = get_elem? ps (length ps - 1) in
    (
      elim last [ none ↦ 0 | some p ↦ p.failure_rate ],
      elim last [ none ↦ 0 | some p ↦ p.dlq_depth ],
    )

-- The chart of the failure rate by the points that were loaded, and by whether the last request was
-- rejected.
abbrev pub failure_shown : List (Option RatePoint) → FailureView
failure_shown os =
    let points = last_of 60 (present_after [] os) in
    record {
      header = record {
        alert = ltb 500 (newest points).0;
        numbers = if unsettled os then none else some (newest points);
        retry_button = last_rejected false os;
      };
      body = polled os (chart (rate_axis (newest points).0, points));
    }

-- The rows of the last request that was answered.
abbrev pub last_answer :
    List ThroughputPoint → List (Option (List ThroughputPoint)) → List ThroughputPoint
last_answer rows [] = rows
last_answer rows (none ∷ os) = last_answer rows os
last_answer rows (some new ∷ os) = last_answer new os

abbrev bars : List ThroughputPoint → Body (List ChartPoint)
bars [] = no_data
bars (r ∷ rs) = chart (map chart_point (r ∷ rs))

-- The chart of the throughput by the answers.
abbrev pub throughput_shown : List (Option (List ThroughputPoint)) → ThroughputView
throughput_shown os =
    let rows = last_answer [] os in
    record {
      loading_text = unsettled os;
      retry_button = last_rejected false os;
      legend = (sum_of (λ r. r.completed) rows, sum_of (λ r. r.failed) rows);
      body = polled os (bars rows);
    }

-- The chart of the queue depth by the metrics that arrived.
abbrev pub depth_shown : List (Option LiveMetrics) → Body (List DepthPoint)
depth_shown ms = elim (last_of 60 (present_after [] (depth_points ms))) [
  | [] ↦ no_data
  | p ∷ ps ↦ chart (p ∷ ps)
]

abbrev pub load_answers : List (Option (List ThroughputPoint)) → ThroughputState → ThroughputState
load_answers [] c = c
load_answers (o ∷ os) c = load_answers os (load_throughput o c)

load_rates-settled :
    (os : List (Option RatePoint)) (c : FailureChart)
    → c.loading ≡ false
    → (load_rates os c).loading ≡ false
unfolding load_rate
load_rates-settled [] c h = h
load_rates-settled (none ∷ os) c h = load_rates-settled os (load_rate none c) refl
load_rates-settled (some p ∷ os) c h = load_rates-settled os (load_rate (some p) c) refl

load_rates-loading :
    (os : List (Option RatePoint)) → (load_rates os empty_chart).loading ≡ unsettled os
unfolding empty_chart load_rate
load_rates-loading [] = refl
load_rates-loading (none ∷ os) = load_rates-settled os (load_rate none empty_chart) refl
load_rates-loading (some p ∷ os) = load_rates-settled os (load_rate (some p) empty_chart) refl

load_rates_lem :
    (os : List (Option RatePoint))
    → load_rates os empty_chart ≡ record {
      points = last_of 60 (present_after [] os);
      loading = unsettled os;
      error = last_rejected false os;
    }
unfolding empty_chart
load_rates_lem os =
    let (points, error) = load_rates-points os empty_chart [] refl in
    let settled = load_rates-loading os in cc

failure_rendered :
    (os : List (Option RatePoint)) → failure_view (load_rates os empty_chart) ≡ failure_shown os
unfolding empty_chart failure_view failure_header current_rate current_dlq latest
failure_rendered [] = refl
failure_rendered (o ∷ os) = elim (Bool-cases (last_rejected false (o ∷ os))) [
  | inl h ↦ rw (load_rates_lem (o ∷ os), h) refl
  | inr h ↦ rw (load_rates_lem (o ∷ os), h) refl
]

load_answers_lem :
    (os : List (Option (List ThroughputPoint))) (rows : List ThroughputPoint) (l e : Bool)
    → load_answers os (record { points = map chart_point rows; loading = l; error = e }) ≡ record {
      points = map chart_point (last_answer rows os);
      loading = l && unsettled os;
      error = last_rejected e os;
    }
unfolding load_throughput
load_answers_lem [] rows l e = elim (Bool-cases l) [ inl h ↦ rw h refl | inr h ↦ rw h refl ]
load_answers_lem (none ∷ os) rows l e = elim (Bool-cases l) [
  | inl h ↦ rw h (load_answers_lem os rows false true)
  | inr h ↦ rw h (load_answers_lem os rows false true)
]
load_answers_lem (some new ∷ os) rows l e = elim (Bool-cases l) [
  | inl h ↦ rw h (load_answers_lem os new false false)
  | inr h ↦ rw h (load_answers_lem os new false false)
]

sum_of-map {ℓ κ} :
    {A : Type ℓ} {B : Type κ} (f : B → ℕ) (g : A → B) (xs : List A)
    → sum_of f (map g xs) ≡ sum_of (λ x. f (g x)) xs
sum_of-map f g [] = refl
sum_of-map f g (x ∷ xs) = ap (λ (n : ℕ). f (g x) + n) (sum_of-map f g xs)

chart_sums :
    (rows : List ThroughputPoint)
    → (sum_of (λ r. r.completed) (map chart_point rows) ≡ sum_of (λ r. r.completed) rows)
      × (sum_of (λ r. r.failed) (map chart_point rows) ≡ sum_of (λ r. r.failed) rows)
unfolding chart_point
chart_sums rows =
    (sum_of-map (λ r. r.completed) chart_point rows, sum_of-map (λ r. r.failed) chart_point rows)

bars_lem :
    (rows : List ThroughputPoint)
    → (if eqb (length (map chart_point rows)) 0 then no_data else chart (map chart_point rows))
      ≡ bars rows
bars_lem [] = refl
bars_lem (r ∷ rows) = ground arith

throughput_rendered :
    (os : List (Option (List ThroughputPoint)))
    → throughput_view (load_answers os empty_throughput) ≡ throughput_shown os
unfolding empty_throughput throughput_view throughput_legend total_completed total_failed
throughput_rendered [] = refl
throughput_rendered (o ∷ os) =
    let rows = last_answer [] (o ∷ os) in
    let (done, lost) = chart_sums rows in
    elim (Bool-cases (last_rejected false (o ∷ os))) [
      | inl h ↦ rw (load_answers_lem (o ∷ os) [] true false, done, lost, h) refl
      | inr h ↦ rw (load_answers_lem (o ∷ os) [] true false, done, lost, h, bars_lem rows) refl
    ]

depth_body :
    (points : List DepthPoint)
    → depth_view points ≡ elim points [ [] ↦ no_data | p ∷ ps ↦ chart (p ∷ ps) ]
unfolding depth_view
depth_body [] = refl
depth_body (p ∷ ps) = ground arith

-- From their first render, after any answers, the three charts that gather data show this. The
-- failure rate: a text until a request is settled, another one with the Retry button exactly if the
-- last was rejected, and otherwise the sixty newest points that were loaded, oldest first; the
-- numbers of the header are those of the newest, and the alert stands beside them exactly if its
-- rate is above 5 %. The throughput: the same two texts, and otherwise the rows of the last answer,
-- or a text where there are none; the legend sums these rows, also while the last request was
-- rejected. The queue depth: the points of the sixty newest metrics that arrived, or a text where
-- none did.
pub charts-rendered :
    (loads : List (Option RatePoint)) (answers : List (Option (List ThroughputPoint)))
    (arrivals : List (Option LiveMetrics))
    → (failure_view (load_rates loads empty_chart) ≡ failure_shown loads)
      × (throughput_view (load_answers answers empty_throughput) ≡ throughput_shown answers)
      × (depth_view (observe_all arrivals []) ≡ depth_shown arrivals)
charts-rendered loads answers arrivals = (
  failure_rendered loads,
  throughput_rendered answers,
  ap depth_view (charts-newest [] arrivals).2
      ∙ depth_body (last_of 60 (present_after [] (depth_points arrivals))),
)
