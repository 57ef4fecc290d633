-- ===== src/Tests/Metrics.antt =====
-- The results on the metrics routes at concrete inputs.
use taskfire.Prelude.{
  refl, none, String, Bool, ◌⊎◌, ◌≡◌, ◌-◌, ◌*◌, ◌/◌, ◌+◌, some, List, [], ◌∷◌, ◌++◌, length,
  get_elem?, arith, ℕ,
}
use taskfire.Postgres.Average.{round_quotient, avg_ms}
use taskfire.Postgres.Average.Laws.{total_of, IsMean}
use taskfire.Postgres.Metrics.{get_metrics}
use taskfire.Postgres.Metrics.Laws.{tally}
use taskfire.Routes.Metrics.Summary.{QueueMetrics, summary}
use taskfire.Routes.Metrics.Agreement.{sizes, summary-collect}
use taskfire.WebSocket.{Overview}
use taskfire.WebSocket.Snapshot.{collect}
use taskfire.Routes.Metrics.Workers.{ActiveJobSummary, WorkersResponse, get_workers}
use taskfire.Routes.Metrics.Workers.Laws.{
  IsStarted, IsObjects, IsLongestFirst, is_in_flight, count, running_jobs, workers-jobs,
}
use taskfire.Routes.Metrics.Distinct.{IsDistinct, contains}
use taskfire.Postgres.Active.{active_rows}
use taskfire.Postgres.Metrics.{count_of}
use taskfire.Redis.DeadLetters.{parsed}
use taskfire.Prelude.Int.{pos, negsuc}
use taskfire.Async.{resolved, rejected, type_error}
use taskfire.Redis.Member.{Document, document, dlq, processing, malformed}
use taskfire.Job.{completed, active, pending, failed, dead}
use taskfire.Routes.Reply.{reply, dead_letters}
use taskfire.Postgres.Throughput.{ThroughputRow, completed_count, failed_count}
use taskfire.Routes.Metrics.{dead_letter, throughput_series}
use taskfire.Routes.Metrics.Laws.{shown, dead_letter-shown, minute_point, throughput-minute}
use taskfire.World.{World}
use taskfire.Tests.Store.{Sets, server, server-hgetall}
use taskfire.Tests.Samples.{
  table, waiting, buried, start, calm, calm-IsQuiet, asks_dead, zod, dlq_query, zod-dlq,
}

dead_letter-shown_example :
    (v : World Sets) × (dead_letter zod server calm (asks_dead dlq_query) start
      ≡ resolved
          (reply 200 (
            dead_letters (record {
              jobs = shown 10 0 (server.ranking dlq start.redis);
              total = length (server.ranking dlq start.redis);
              limit = 10;
              offset = 0;
            })))
          v)
    × (v.jobs ≡ start.jobs)
    × (v.redis ≡ start.redis)
    × ((more : ℕ)
        → let ms = server.ranking dlq start.redis in
          shown 10 0 ms ++ shown more (0 + 10) ms ≡ shown (10 + more) 0 ms)
dead_letter-shown_example =
    dead_letter-shown zod server calm-IsQuiet (asks_dead dlq_query) dlq_query start zod-dlq

-- A completed row, and a dead one that only has the date of its failure.
abbrev finished : World Sets
finished = record start {
  jobs =
      record waiting { status = completed; completed_at = some 4000 }
      ∷ record buried { failed_at = some 4500 }
      ∷ [];
}

throughput-minute_example :
    (series : List ThroughputRow) × (v : World Sets) × (throughput_series calm finished
      ≡ resolved series v)
    × (length series ≡ 60)
    × (get_elem? series 59
        ≡ some (minute_point 5002 finished.jobs ((5002 / 60000 - (59 - 59)) * 60000)))
throughput-minute_example = throughput-minute calm-IsQuiet finished 59 (omega arith)

one_completed : minute_point 5002 finished.jobs 0 ≡ record { time = 0; completed = 1; failed = 0 }
unfolding completed_count failed_count
one_completed = refl

abbrev rounded : ℕ → ℕ → ℕ
rounded dividend divisor = dividend * 10000 / divisor

-- A half is rounded away from zero, on both sides.
half_up : (round_quotient (pos 1) 2 ≡ pos 1) × (round_quotient (negsuc 0) 2 ≡ negsuc 0)
unfolding round_quotient
half_up = (refl, refl)

no_runs : avg_ms table ≡ none
unfolding avg_ms taskfire.Postgres.Average.runs taskfire.Postgres.Average.run_of
    taskfire.Postgres.Average.is_completed
no_runs = refl

summary-collect_example :
    (m : QueueMetrics) × (o : Overview) × (u : World Sets) × (v : World Sets) × (x : World Sets)
    × (summary rounded server calm start ≡ resolved m u)
    × (collect server calm start ≡ resolved o v)
    × (m.queue_depth ≡ sizes server start.redis)
    × (o.queue_depth ≡ m.queue_depth)
    × (m.dlq_depth ≡ server.zcard dlq start.redis)
    × (o.dlq_depth ≡ m.dlq_depth)
    × (m.counts ≡ tally table)
    × (o.counts ≡ m.counts)
    × IsMean
        (total_of (λ s e. 1) table)
        (total_of (λ s e. s) table)
        (total_of (λ s e. e) table)
        m.avg_processing_ms
    × (get_metrics calm start
        ≡ resolved (record { counts = m.counts; avg_processing_ms = m.avg_processing_ms }) x)
    × (o.pending_jobs ≡ count_of pending table)
    × (o.active_jobs ≡ count_of active table)
    × (m.total_processed ≡ count_of completed table + count_of failed table + count_of dead table)
    × (u.jobs ≡ table)
    × (u.redis ≡ start.redis)
    × (v.jobs ≡ table)
    × (v.redis ≡ start.redis)
    × (x.jobs ≡ table)
    × (x.redis ≡ start.redis)
summary-collect_example = summary-collect server calm-IsQuiet rounded start

abbrev in_flight : String → Document
in_flight id = record {
  id = some id;
  type = none;
  payload = none;
  priority = none;
  status = none;
  max_retries = none;
  retry_count = none;
  created_at = none;
  scheduled_at = none;
  dependencies = none;
  error_message = none;
  failed_at = none;
}

-- The jobs in flight, of which one text is no JSON, one has an empty id and two have the same id.
abbrev processed : Sets
processed processing =
    (document 0 (in_flight "x"), 1)
    ∷ (malformed 4, 2)
    ∷ (document 0 (in_flight ""), 3)
    ∷ (document 1 (in_flight "x"), 4)
    ∷ (document 0 (in_flight "y"), 5)
    ∷ []
processed _ = []

abbrev working : World Sets
working = record start {
  jobs =
      record waiting { status = active }
      ∷ buried
      ∷ record waiting { id = "c"; status = active; started_at = some 1200 }
      ∷ [];
  redis = processed;
}

working-IsStarted : IsStarted (active_rows working.jobs)
unfolding active_rows
working-IsStarted = (1200, refl, (1500, refl, tt))

working-IsObjects : IsObjects (parsed (server.hgetall working.redis))
unfolding parsed
working-IsObjects = rw (server-hgetall processed) tt

workers-jobs_example :
    let processing = parsed (server.hgetall working.redis) in
    (r : WorkersResponse) × (v : World Sets) × (n : ℕ) × (get_workers server calm working
      ≡ resolved r v)
    × ((q : ActiveJobSummary → Bool)
        → count q r.active_jobs ≡ count q (running_jobs (calm.date_now n) working.jobs))
    × IsLongestFirst r.active_jobs
    × (r.active_workers ≡ count_of active working.jobs)
    × (r.in_flight_redis ≡ length processing)
    × ((r.active_workers + r.discrepancy ≡ r.in_flight_redis)
        ⊎ (r.in_flight_redis + r.discrepancy ≡ r.active_workers))
    × IsDistinct r.processing_ids_redis
    × ((id : String) → contains id r.processing_ids_redis ≡ is_in_flight id processing)
    × (v.jobs ≡ working.jobs)
    × (v.redis ≡ working.redis)
workers-jobs_example = workers-jobs server calm-IsQuiet working working-IsStarted working-IsObjects

-- An active row without a start makes the handler reject.
abbrev unstarted : World Sets
unstarted = record start { jobs = record waiting { status = active; started_at = none } ∷ [] }

unstarted_rejected :
    get_workers server calm unstarted ≡ rejected type_error (record unstarted { steps = 4 })
unfolding get_workers taskfire.Async.◌>>=◌ taskfire.Postgres.Active.get_active_jobs
    taskfire.Postgres.Session.query taskfire.Postgres.Session.connect taskfire.World.io
    taskfire.Async.finally taskfire.Postgres.Session.execute
    taskfire.Redis.DeadLetters.get_processing_jobs taskfire.World.date_now
unstarted_rejected = refl
