-- ===== src/Tests/Charts.antt =====
-- The results on the charts and on the probe of the server at concrete inputs.
use taskfire.Prelude.{◌≡◌, refl, ◌&&◌, true, none, some, List, [], ◌∷◌, ltb, Option}
use taskfire.Prelude.Int.{pos}
use taskfire.Async.{resolved, world}
use taskfire.Postgres.Session.{connect_postgres_with_retry}
use taskfire.Redis.Connect.{connect_redis_with_retry}
use taskfire.Routes.Metrics.Workers.{ActiveJobSummary, WorkersResponse}
use taskfire.Routes.Ready.{ready, ready_reply, is_resolved, IsCheap, ready-probes}
use taskfire.World.{Env}
use taskfire.Dashboard.Charts.{round_seconds, RatePoint, LiveMetrics, empty_chart}
use taskfire.Dashboard.Charts.Histories.{load_rates, observe_all}
use taskfire.Dashboard.Charts.Views.{
  throughput_tooltip, failure_view, throughput_view, empty_throughput, depth_view,
}
use taskfire.Dashboard.Charts.WorkerView.{
  red, amber, green, utilization_color, hours, fmt_duration, utilization_view,
}
use taskfire.Dashboard.Charts.Rendered.{
  failure_shown, throughput_shown, depth_shown, load_answers, charts-rendered,
}
use taskfire.Dashboard.Client.{ThroughputPoint}
use taskfire.Tests.Store.{Sets}
use taskfire.Tests.Samples.{calm, start}

-- Redis answers, and the database does not.
abbrev half_up : Env Sets
half_up = record calm { fails = λ n. ltb 0 n }

ready-probes_example :
    let redis = connect_redis_with_retry half_up 1 start in
    let postgres = connect_postgres_with_retry half_up 1 (world redis) in
    (ready half_up start
      ≡ resolved (ready_reply (is_resolved redis && is_resolved postgres)) (world postgres))
    × IsCheap half_up start (world postgres)
ready-probes_example = ready-probes half_up start

abbrev loaded : List (Option RatePoint)
loaded = some (record { time = 1; failure_rate = 120; dlq_depth = 4 }) ∷ none ∷ []

abbrev arrived : List (Option LiveMetrics)
arrived =
    none
    ∷ some (record {
      queue_depth = record { high = 1; medium = 2; low = 3; delayed = 0; total = 6 };
      dlq_depth = 4;
      active_jobs = 2;
      pending_jobs = 5;
      counts = record { pending = 5; active = 2; completed = 9; failed = 1; dead = 4 };
      timestamp = 1000;
    })
    ∷ []

abbrev answered : List (Option (List ThroughputPoint))
answered = some (record { time = 60; completed = 3; failed = 1 } ∷ []) ∷ none ∷ []

charts-rendered_example :
    (failure_view (load_rates loaded empty_chart) ≡ failure_shown loaded)
    × (throughput_view (load_answers answered empty_throughput) ≡ throughput_shown answered)
    × (depth_view (observe_all arrived []) ≡ depth_shown arrived)
charts-rendered_example = charts-rendered loaded answered arrived

abbrev running : List ActiveJobSummary
running =
    record { job_id = "a"; job_type = "email"; started_at = 1000; running_for_ms = pos 2600 } ∷ []

abbrev reply : WorkersResponse
reply = record {
  active_workers = 1;
  in_flight_redis = 1;
  discrepancy = 0;
  active_jobs = running;
  processing_ids_redis = "a" ∷ [];
}

idle_green : (utilization_view 10 none none).color ≡ green
unfolding utilization_view taskfire.Dashboard.Charts.active_count
    taskfire.Dashboard.Charts.utilization_percent utilization_color
idle_green = refl

ninety_red : (utilization_color (90, 1) ≡ red) × (utilization_color (89, 1) ≡ amber)
unfolding utilization_color
ninety_red = (refl, refl)

tooltip_sums :
    throughput_tooltip true
      (record { data_key = "completed"; value = some 3 }
        ∷ record { data_key = "failed"; value = some 1 }
        ∷ [])
      "10:00"
    ≡ some (record { label = "10:00"; completed = 3; failed = 1; total = 4; fail_rate = (100, 4) })
unfolding throughput_tooltip taskfire.Dashboard.Charts.Views.hidden
    taskfire.Dashboard.Charts.Views.value_at taskfire.Dashboard.Charts.tooltip_rate
tooltip_sums = refl

hour_and_half : fmt_duration (pos 5400000) ≡ hours 1 30
unfolding fmt_duration taskfire.Dashboard.Charts.round_seconds
    taskfire.Dashboard.Charts.WorkerView.duration_of
hour_and_half = refl
