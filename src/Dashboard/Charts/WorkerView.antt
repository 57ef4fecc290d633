-- ===== src/Dashboard/Charts/WorkerView.antt =====
-- What WorkerUtilization.tsx of dashboard/src/components renders, as data.
use taskfire.Prelude.{
  ℕ, ◌+◌, ◌*◌, ◌/◌, ◌%◌, String, Bool, true, false, Option, none, some, List, [], ◌∷◌, map, ltb,
  leb, if◌then◌else◌,
}
use taskfire.Prelude.Int.{ℤ, pos, negsuc}
use taskfire.Routes.Metrics.Workers.{WorkersResponse}
use taskfire.Dashboard.JobTable.Details.{present}
use taskfire.Dashboard.Charts.{
  LiveMetrics, WorkerSlot, round_seconds, worker_slots, active_count, utilization_percent,
  chart_height,
}
use taskfire.Dashboard.Charts.Slots.{is_busy}

pub data Color : Type 0 where
  red amber green : Color

-- `utilizationColor`, of a percentage that is a fraction
unfoldable pub utilization_color : ℕ × ℕ → Color
utilization_color (n, d) = if leb (90 * d) n then red else if leb (70 * d) n then amber else green

-- The texts of `fmtDuration`
pub data Duration : Type 0 where
  seconds : ℤ → Duration
  minutes : (minutes seconds : ℕ) → Duration
  hours : (hours minutes : ℕ) → Duration

unfoldable pub duration_of : ℤ → Duration
duration_of (negsuc n) = seconds (negsuc n)
duration_of (pos s) =
    if ltb s 60
    then seconds (pos s)
    else if ltb s 3600
    then minutes (s / 60) (s % 60)
    else hours (s / 3600) (s % 3600 / 60)

-- `fmtDuration` of WorkerUtilization.tsx
unfoldable pub fmt_duration : ℤ → Duration
unfolding round_seconds duration_of
fmt_duration ms = duration_of (round_seconds ms)

-- `s * 1000`
unfoldable pub in_millis : ℤ → ℤ
in_millis (pos s) = pos (s * 1000)
in_millis (negsuc n) = negsuc (n * 1000 + 999)

pub record WorkerTooltip : Type 0 where
  pub id : ℕ
  pub busy : Bool
  pub job_type : Option String
  pub running : Option Duration
  pub utilization : ℕ
  pub color : Color

-- `WorkerTooltip`
unfoldable pub worker_tooltip : Bool → List WorkerSlot → Option WorkerTooltip
unfolding present fmt_duration in_millis utilization_color
worker_tooltip active [] = none
worker_tooltip false (s ∷ ss) = none
worker_tooltip true (s ∷ ss) = some (record {
  id = s.id;
  busy = is_busy s;
  job_type = present s.job_type;
  running = if is_busy s then some (fmt_duration (in_millis s.running_for_s)) else none;
  utilization = s.utilization;
  color = utilization_color (s.utilization, 1);
})

-- The bar of a slot, in its color
unfoldable pub bar : WorkerSlot → WorkerSlot × Color
unfolding utilization_color
bar s = (s, utilization_color (s.utilization, 1))

pub record UtilizationView : Type 0 where
  -- the percentage as a fraction, which is also the width of the pool's bar
  pub percent : ℕ × ℕ
  pub color : Color
  pub active : ℕ
  pub total : ℕ
  pub height : ℕ
  pub bars : List (WorkerSlot × Color)

-- `WorkerUtilization`, of a pool with workers
unfoldable pub utilization_view :
    (total_workers : ℕ) → Option WorkersResponse → Option LiveMetrics → UtilizationView
unfolding active_count utilization_percent utilization_color worker_slots chart_height bar
utilization_view total workers live =
    let active = active_count workers live in
    let slots = worker_slots total (elim workers [ none ↦ [] | some w ↦ w.active_jobs ]) in
    record {
      percent = utilization_percent active total;
      color = utilization_color (utilization_percent active total);
      active = active;
      total = total;
      height = chart_height slots;
      bars = map bar slots;
    }
