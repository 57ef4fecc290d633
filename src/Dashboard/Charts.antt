-- ===== src/Dashboard/Charts.antt =====
-- The charts of the dashboard: FailureRateChart.tsx, QueueDepthChart.tsx, ThroughputChart.tsx and
-- WorkerUtilization.tsx of dashboard/src/components. A failure rate is the number of its
-- ten-thousandths, as the server rounds it; the rounding of a product or quotient of numbers is
-- left to the display. Times are milliseconds.
pub mod Histories
pub mod Slots
pub mod Cards
pub mod Views
pub mod WorkerView
pub mod Rendered
pub mod Bars
use taskfire.Prelude.{
  ℕ, zero, suc, ◌+◌, ◌-◌, ◌*◌, ◌/◌, ◌%◌, min, String, Bool, true, false, not, ◌&&◌, Option, none,
  some, List, [], ◌∷◌, ◌++◌, map, length, drop, ltb, leb, eqb, get_or, get_elem?, if◌then◌else◌,
}
use taskfire.Prelude.Int.{ℤ, pos, negsuc}
use taskfire.Job.{QueueDepthByLane}
use taskfire.Postgres.Metrics.{StatusCounts}
use taskfire.Routes.Metrics.Workers.{ActiveJobSummary, WorkersResponse}
use taskfire.Dashboard.Client.{ThroughputPoint}

-- `xs.slice(-n)`, for n at least 1
abbrev pub last_of {ℓ} : {A : Type ℓ} → ℕ → List A → List A
last_of n xs = drop (length xs - n) xs

-- `DataPoint` of FailureRateChart.tsx
pub record RatePoint : Type 0 where
  pub time : ℕ
  pub failure_rate : ℕ
  pub dlq_depth : ℕ

-- The state of `FailureRateChart`
pub record FailureChart : Type 0 where
  pub points : List RatePoint
  pub loading : Bool
  pub error : Bool

unfoldable pub empty_chart : FailureChart
empty_chart = record { points = []; loading = true; error = false }

-- Its `load`, when the request is settled: with the point of the summary, or rejected.
unfoldable pub load_rate : Option RatePoint → FailureChart → FailureChart
load_rate none c = record c { error = true; loading = false }
load_rate (some p) c = record {
  points = last_of 60 (c.points ++ p ∷ []);
  loading = false;
  error = false;
}

unfoldable pub latest : FailureChart → Option RatePoint
latest c = get_elem? c.points (length c.points - 1)

unfoldable pub current_rate : FailureChart → ℕ
unfolding latest
current_rate c = elim (latest c) [ none ↦ 0 | some p ↦ p.failure_rate ]

unfoldable pub current_dlq : FailureChart → ℕ
unfolding latest
current_dlq c = elim (latest c) [ none ↦ 0 | some p ↦ p.dlq_depth ]

-- The header: above 5 %, the numbers where the chart is not loading, and the Retry button.
pub record FailureHeader : Type 0 where
  pub alert : Bool
  pub numbers : Option (ℕ × ℕ)
  pub retry_button : Bool

unfoldable pub failure_header : FailureChart → FailureHeader
unfolding current_rate current_dlq
failure_header c = record {
  alert = ltb 500 (current_rate c);
  numbers = if c.loading then none else some (current_rate c, current_dlq c);
  retry_button = c.error && not c.loading;
}

-- `DepthPoint` of QueueDepthChart.tsx
pub record DepthPoint : Type 0 where
  pub time : ℕ
  pub high : ℕ
  pub medium : ℕ
  pub low : ℕ
  pub delayed : ℕ

-- `LiveMetrics` of the dashboard's types; its counts are those of `getStatusCounts`.
pub record LiveMetrics : Type 0 where
  pub queue_depth : QueueDepthByLane
  pub dlq_depth : ℕ
  pub active_jobs : ℕ
  pub pending_jobs : ℕ
  pub counts : StatusCounts
  pub timestamp : ℕ

unfoldable pub depth_point : LiveMetrics → DepthPoint
depth_point m = record {
  time = m.timestamp;
  high = m.queue_depth.high;
  medium = m.queue_depth.medium;
  low = m.queue_depth.low;
  delayed = m.queue_depth.delayed;
}

-- The effect of `QueueDepthChart` on new live metrics.
unfoldable pub observe : Option LiveMetrics → List DepthPoint → List DepthPoint
unfolding depth_point
observe none history = history
observe (some m) history = last_of 60 (history ++ depth_point m ∷ [])

-- `ChartPoint` of ThroughputChart.tsx
pub record ChartPoint : Type 0 where
  pub time : ℕ
  pub completed : ℕ
  pub failed : ℕ
  pub total : ℕ

pub record ThroughputState : Type 0 where
  pub points : List ChartPoint
  pub loading : Bool
  pub error : Bool

unfoldable pub chart_point : ThroughputPoint → ChartPoint
chart_point r = record {
  time = r.time;
  completed = r.completed;
  failed = r.failed;
  total = r.completed + r.failed;
}

-- The `load` of `ThroughputChart`, when the request is settled
unfoldable pub load_throughput : Option (List ThroughputPoint) → ThroughputState → ThroughputState
unfolding chart_point
load_throughput none c = record c { error = true; loading = false }
load_throughput (some rows) c = record {
  points = map chart_point rows;
  loading = false;
  error = false;
}

abbrev pub sum_of {ℓ} : {A : Type ℓ} → (A → ℕ) → List A → ℕ
sum_of f [] = 0
sum_of f (x ∷ xs) = f x + sum_of f xs

unfoldable pub total_completed : ThroughputState → ℕ
total_completed c = sum_of (λ r. r.completed) c.points

unfoldable pub total_failed : ThroughputState → ℕ
total_failed c = sum_of (λ r. r.failed) c.points

-- The failure rate of the tooltip, as a fraction before it is rounded.
unfoldable pub tooltip_rate : (completed failed : ℕ) → ℕ × ℕ
tooltip_rate completed failed =
    let total = completed + failed in if ltb 0 total then (failed * 100, total) else (0, 1)

-- `WorkerSlot`; the id is the number behind 'Worker', and a slot with a job is busy.
pub record WorkerSlot : Type 0 where
  pub id : ℕ
  pub utilization : ℕ
  pub job_type : Option String
  pub running_for_s : ℤ

-- `Math.round(ms / 1000)`: a half is rounded up.
unfoldable pub round_seconds : ℤ → ℤ
round_seconds (pos ms) = pos ((ms + 500) / 1000)
round_seconds (negsuc n) = if ltb n 500 then pos 0 else negsuc ((n - 500) / 1000)

unfoldable pub busy_slots : ℕ → List ActiveJobSummary → List WorkerSlot
unfolding round_seconds
busy_slots i [] = []
busy_slots i (j ∷ js) =
    record {
      id = suc i;
      utilization = 100;
      job_type = some j.job_type;
      running_for_s = round_seconds j.running_for_ms;
    }
    ∷ busy_slots (suc i) js

-- The loop that pushes idle slots.
unfoldable pub push_idle : ℕ → List WorkerSlot → List WorkerSlot
push_idle zero slots = slots
push_idle (suc n) slots = push_idle n (
    slots
    ++ record { id = suc (length slots); utilization = 0; job_type = none; running_for_s = pos 0 }
      ∷ [])

unfoldable pub worker_slots : (total_workers : ℕ) → List ActiveJobSummary → List WorkerSlot
unfolding busy_slots push_idle
worker_slots total_workers jobs =
    let slots = busy_slots 0 jobs in push_idle (total_workers - length slots) slots

-- `activeJobs`: the workers' reply, or the live metrics, or 0.
unfoldable pub active_count : Option WorkersResponse → Option LiveMetrics → ℕ
active_count (some w) live = w.active_workers
active_count none (some m) = m.active_jobs
active_count none none = 0

-- `utilPct` as a fraction, for a pool with workers.
unfoldable pub utilization_percent : (active_jobs total_workers : ℕ) → ℕ × ℕ
utilization_percent active_jobs total_workers =
    (min (active_jobs * 100) (total_workers * 100), total_workers)

-- `chartH`
unfoldable pub chart_height : List WorkerSlot → ℕ
chart_height slots = let h = length slots * 36 + 20 in if leb h 180 then 180 else h
