-- ===== src/Dashboard/Charts/Views.antt =====
-- What the charts of the failure rate, the throughput and the queue depth render, as data: texts,
-- buttons, tooltips and what the recharts package draws. Class names, sizes and the fixed colors of
-- lines and bars are left out.
use taskfire.Prelude.{
  ℕ, ◌+◌, ◌*◌, ◌/◌, String, Bool, true, false, ◌==◌, ◌&&◌, not, Option, none, some, List, [], ◌∷◌,
  length, ltb, leb, eqb, if◌then◌else◌,
}
use taskfire.Dashboard.Charts.{
  RatePoint, FailureChart, current_rate, FailureHeader, failure_header, DepthPoint, ChartPoint,
  ThroughputState, sum_of, total_completed, total_failed, tooltip_rate,
}

-- What stands below a chart's title: a text, or the chart.
pub data Body (A : Type 0) : Type 0 where
  -- 'Loading metrics…', 'Loading throughput data…'
  loading : Body A
  -- 'Failed to load — backend may be starting up'
  failed : Body A
  -- 'No throughput data yet', 'Waiting for data…'
  no_data : Body A
  chart : A → Body A

-- The upper end of the axis of the failure rate, in percent: `Math.ceil` of the rate times 1.4.
unfoldable pub rate_axis : ℕ → ℕ
rate_axis rate = let top = (rate * 14 + 999) / 1000 in if leb top 100 then 100 else top

pub record FailureView : Type 0 where
  pub header : FailureHeader
  -- the upper end of the axis, and the points
  pub body : Body (ℕ × List RatePoint)

-- `FailureRateChart`
unfoldable pub failure_view : FailureChart → FailureView
unfolding rate_axis failure_header
failure_view c = record {
  header = failure_header c;
  body =
      if c.loading
      then loading
      else if c.error
      then failed
      else chart (rate_axis (current_rate c), c.points);
}

pub record ThroughputView : Type 0 where
  -- 'Loading…' beside the title
  pub loading_text : Bool
  pub retry_button : Bool
  -- the completed and the failed
  pub legend : ℕ × ℕ
  pub body : Body (List ChartPoint)

-- `ThroughputLegend` as the chart gives it
unfoldable pub throughput_legend : ThroughputState → ℕ × ℕ
unfolding total_completed total_failed
throughput_legend c = (total_completed c, total_failed c)

-- `ThroughputChart`
unfoldable pub throughput_view : ThroughputState → ThroughputView
unfolding throughput_legend
throughput_view c = record {
  loading_text = c.loading;
  retry_button = c.error && not c.loading;
  legend = throughput_legend c;
  body =
      if c.loading
      then loading
      else if c.error
      then failed
      else if eqb (length c.points) 0
      then no_data
      else chart c.points;
}

unfoldable pub empty_throughput : ThroughputState
empty_throughput = record { points = []; loading = true; error = false }

-- `QueueDepthChart`
unfoldable pub depth_view : List DepthPoint → Body (List DepthPoint)
depth_view history = if eqb (length history) 0 then no_data else chart history

-- An entry of a tooltip's payload
pub record Entry : Type 0 where
  pub data_key : String
  pub value : Option ℕ

-- `payload.find((p) => p.dataKey === key)?.value ?? 0`
unfoldable pub value_at : String → List Entry → ℕ
value_at key [] = 0
value_at key (e ∷ es) =
    if e.data_key == key then elim e.value [ none ↦ 0 | some n ↦ n ] else value_at key es

-- `!active || !payload?.length`
unfoldable pub hidden : {A : Type 0} → Bool → List A → Bool
hidden active payload = not (active && not (eqb (length payload) 0))

pub record FailureTooltip : Type 0 where
  pub label : String
  pub failure_rate : ℕ
  -- ' ⚠' behind the rate
  pub above : Bool
  pub dlq_depth : ℕ

-- `FailureTooltip`
unfoldable pub failure_tooltip : Bool → List Entry → String → Option FailureTooltip
unfolding hidden value_at
failure_tooltip active payload label =
    let rate = value_at "failureRate" payload in
    if hidden active payload
    then none
    else some (record {
      label = label;
      failure_rate = rate;
      above = ltb 500 rate;
      dlq_depth = value_at "dlqDepth" payload;
    })

pub record ThroughputTooltip : Type 0 where
  pub label : String
  pub completed : ℕ
  pub failed : ℕ
  pub total : ℕ
  -- the failure rate as a fraction
  pub fail_rate : ℕ × ℕ

-- `ThroughputTooltip`
unfoldable pub throughput_tooltip : Bool → List Entry → String → Option ThroughputTooltip
unfolding hidden value_at tooltip_rate
throughput_tooltip active payload label =
    let completed = value_at "completed" payload in
    let failed = value_at "failed" payload in
    if hidden active payload
    then none
    else some (record {
      label = label;
      completed = completed;
      failed = failed;
      total = completed + failed;
      fail_rate = tooltip_rate completed failed;
    })

pub record DepthTooltip : Type 0 where
  pub label : String
  pub entries : List Entry
  pub total : ℕ

-- `DepthTooltip`
unfoldable pub depth_tooltip : Bool → List Entry → String → Option DepthTooltip
unfolding hidden
depth_tooltip active payload label =
    if hidden active payload
    then none
    else some (record {
      label = label;
      entries = payload;
      total = sum_of (λ e. elim e.value [ none ↦ 0 | some n ↦ n ]) payload;
    })
