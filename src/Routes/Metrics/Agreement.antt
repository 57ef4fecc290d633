-- ===== src/Routes/Metrics/Agreement.antt =====
-- What GET /summary of api/src/routes/metrics.ts and the frames of api/src/websocket/handler.ts say
-- of one moment.
use taskfire.Prelude.{ℕ, suc, ◌+◌, ◌≡◌, refl, []}
use taskfire.Async.{resolved, resolve, gets, ◌>>=◌, continue}
use taskfire.Job.{QueueDepthByLane, pending, active, completed, failed, dead}
use taskfire.Postgres.Average.{avg_ms}
use taskfire.Postgres.Average.Laws.{total_of, IsMean, avg_ms-IsMean}
use taskfire.Postgres.Metrics.{count_of, get_status_counts, get_metrics}
use taskfire.Postgres.Metrics.Joined.{get_avg_processing_ms_lem, get_metrics_lem}
use taskfire.Postgres.Metrics.Laws.{tally, metrics-status_counts}
use taskfire.Redis.Member.{queue_high, queue_medium, queue_low, delayed, dlq}
use taskfire.Redis.Server.{Redis}
use taskfire.Redis.Queue.{depth_by_lane, get_queue_depth_by_lane, get_dlq_depth}
use taskfire.Routes.Metrics.Summary.{QueueMetrics, total_processed, failure_rate, summary}
use taskfire.WebSocket.{Overview}
use taskfire.WebSocket.Snapshot.{collect}
use taskfire.World.{World, Env}
use taskfire.World.Quiet.{IsQuiet, io_quiet, date_now_quiet}

module _ {Store : Type 0} (redis : Redis Store) where
  -- The sizes of the lanes and of the delayed set; the total is that of the lanes.
  abbrev pub sizes : Store → QueueDepthByLane
  sizes s =
      let high = redis.zcard queue_high s in
      let medium = redis.zcard queue_medium s in
      let low = redis.zcard queue_low s in
      let later = redis.zcard delayed s in
      record {
        high = high;
        medium = medium;
        low = low;
        delayed = later;
        total = high + medium + low;
      }

  module _ {env : Env Store} (quiet : IsQuiet env) where
    get_queue_depth_by_lane_lem :
        (w : World Store)
        → get_queue_depth_by_lane redis env w
          ≡ resolved (sizes w.redis) (record w { steps = suc w.steps })
    unfolding get_queue_depth_by_lane ◌>>=◌ depth_by_lane
    get_queue_depth_by_lane_lem w = rw (io_quiet quiet w, continue, quiet.piped) refl

    get_dlq_depth_lem :
        (w : World Store)
        → get_dlq_depth redis env w
          ≡ resolved (redis.zcard dlq w.redis) (record w { steps = suc w.steps })
    unfolding get_dlq_depth ◌>>=◌ gets
    get_dlq_depth_lem w = rw (io_quiet quiet w, continue) refl

    get_status_counts_lem :
        (w : World Store)
        → get_status_counts env w ≡ resolved (tally w.jobs) (record w { steps = suc (suc w.steps) })
    get_status_counts_lem w = (metrics-status_counts quiet [] w).1

    -- From one moment, where every call comes back and nobody else writes, GET /summary and a
    -- snapshot or metrics frame say the same: the sizes of the lanes, the delayed set and the
    -- dead-letter queue as Redis has them, and for each status the number of its rows, which the
    -- two numbers beside them in the frame repeat. `getMetrics` gives these counts too, and the
    -- average of the summary. That is null where no completed row has both a start and an end, and
    -- else, in hundredths of a millisecond, the mean of the differences of these two dates over
    -- these rows, rounded to the nearest, a half away from zero. The summary's total is the number
    -- of the rows that are completed, failed or dead. None of the three changes a store.
    pub summary-collect :
        (to_fixed_4 : (dividend divisor : ℕ) → ℕ) (w : World Store)
        → (m : QueueMetrics) × (o : Overview) × (u : World Store) × (v : World Store) × (x : World
            Store)
          × (summary to_fixed_4 redis env w ≡ resolved m u)
          × (collect redis env w ≡ resolved o v)
          × (m.queue_depth ≡ sizes w.redis)
          × (o.queue_depth ≡ m.queue_depth)
          × (m.dlq_depth ≡ redis.zcard dlq w.redis)
          × (o.dlq_depth ≡ m.dlq_depth)
          × (m.counts ≡ tally w.jobs)
          × (o.counts ≡ m.counts)
          × IsMean
              (total_of (λ s e. 1) w.jobs)
              (total_of (λ s e. s) w.jobs)
              (total_of (λ s e. e) w.jobs)
              m.avg_processing_ms
          × (get_metrics env w
              ≡ resolved (record { counts = m.counts; avg_processing_ms = m.avg_processing_ms }) x)
          × (o.pending_jobs ≡ count_of pending w.jobs)
          × (o.active_jobs ≡ count_of active w.jobs)
          × (m.total_processed
              ≡ count_of completed w.jobs + count_of failed w.jobs + count_of dead w.jobs)
          × (u.jobs ≡ w.jobs)
          × (u.redis ≡ w.redis)
          × (v.jobs ≡ w.jobs)
          × (v.redis ≡ w.redis)
          × (x.jobs ≡ w.jobs)
          × (x.redis ≡ w.redis)
    unfolding summary collect total_processed ◌>>=◌ resolve
    summary-collect to_fixed_4 w =
        let w1 : World Store = record w { steps = suc w.steps } in
        let w2 : World Store = record w { steps = suc (suc w.steps) } in
        let w4 : World Store = record w { steps = suc (suc (suc (suc w.steps))) } in
        (
          record {
            queue_depth = sizes w.redis;
            dlq_depth = redis.zcard dlq w.redis;
            counts = tally w.jobs;
            total_processed = total_processed (tally w.jobs);
            failure_rate = failure_rate to_fixed_4 (tally w.jobs);
            avg_processing_ms = avg_ms w.jobs;
          },
          record {
            queue_depth = sizes w.redis;
            dlq_depth = redis.zcard dlq w.redis;
            active_jobs = count_of active w.jobs;
            pending_jobs = count_of pending w.jobs;
            counts = tally w.jobs;
            timestamp = env.date_now w4.steps;
          },
          record w { steps = suc (suc w4.steps) },
          record w { steps = suc w4.steps },
          record w { steps = suc (suc w.steps) },
          rw
              (
                get_queue_depth_by_lane_lem w,
                continue,
                get_dlq_depth_lem w1,
                continue,
                get_status_counts_lem w2,
                continue,
                get_avg_processing_ms_lem quiet w4,
                continue,
              )
              refl,
          rw
              (
                get_queue_depth_by_lane_lem w,
                continue,
                get_dlq_depth_lem w1,
                continue,
                get_status_counts_lem w2,
                continue,
                date_now_quiet quiet w4,
                continue,
              )
              refl,
          refl,
          refl,
          refl,
          refl,
          refl,
          refl,
          avg_ms-IsMean w.jobs,
          get_metrics_lem quiet w,
          refl,
          refl,
          refl,
          refl,
          refl,
          refl,
          refl,
          refl,
          refl,
        )
