-- ===== src/Dashboard/Charts/Bars.antt =====
-- What WorkerUtilization.tsx of dashboard/src/components renders of the pool and of its slots.
use taskfire.Prelude.{
  ◌+◌, ◌*◌, ◌≡◌, ◌≤◌, ◌<◌, true, Option, none, some, List, [], ◌∷◌, if◌then◌else◌,
}
use taskfire.Prelude.Int.{ℤ, pos, negsuc}
use taskfire.Routes.Metrics.Workers.{ActiveJobSummary, WorkersResponse}
use taskfire.Dashboard.JobTable.Details.{present}
use taskfire.Dashboard.Charts.{WorkerSlot}
use taskfire.Dashboard.Charts.Slots.{is_busy}
use taskfire.Dashboard.Charts.WorkerView.{Color, red, green, duration_of, worker_tooltip}

-- Of a number of milliseconds, the nearest number of seconds, a half rounded up.
abbrev pub IsNearestSecond : ℤ → ℤ → Type 0
IsNearestSecond (pos ms) (pos k) = (1000 * k ≤ ms + 500) × (ms + 500 < 1000 * k + 1000)
IsNearestSecond (pos ms) (negsuc k) = ⊥
IsNearestSecond (negsuc n) (pos k) = (k ≡ 0) × (n < 500)
IsNearestSecond (negsuc n) (negsuc k) = (1000 * k + 500 < n + 1) × (n + 1 ≤ 1000 * k + 1500)

abbrev pub jobs_of : Option WorkersResponse → List ActiveJobSummary
jobs_of none = []
jobs_of (some w) = w.active_jobs

-- The bar of a slot with a job is red and full, and its tooltip names the job and how long it runs;
-- the bar of another is green and empty, and its tooltip says neither.
abbrev pub IsBar : WorkerSlot × Color → Type 0
IsBar (s, c) =
    (s.utilization ≡ (if is_busy s then 100 else 0))
    × (c ≡ (if is_busy s then red else green))
    × (worker_tooltip true (s ∷ [])
        ≡ some (record {
          id = s.id;
          busy = is_busy s;
          job_type = present s.job_type;
          running = if is_busy s then some (duration_of s.running_for_s) else none;
          utilization = s.utilization;
          color = c;
        }))

-- Every entry of a list.
abbrev pub Each {ℓ} : {A : Type ℓ} → (A → Type 0) → List A → Type 0
Each P [] = Unit {0}
Each P (x ∷ xs) = P x × Each P xs
