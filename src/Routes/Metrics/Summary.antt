-- ===== src/Routes/Metrics/Summary.antt =====
-- GET /summary of api/src/routes/metrics.ts. The calls of its `Promise.all` are made one after the
-- other. The average is in hundredths of a millisecond; the rate is in ten-thousandths, what
-- `toFixed(4)` gives for the quotient of two numbers.
use taskfire.Prelude.{ℕ, ◌+◌, Option, ltb, if◌then◌else◌}
use taskfire.Async.{Async, resolve, ◌>>=◌}
use taskfire.Job.{QueueDepthByLane}
use taskfire.Prelude.Int.{ℤ}
use taskfire.Postgres.Average.{get_avg_processing_ms}
use taskfire.Postgres.Metrics.{StatusCounts, get_status_counts}
use taskfire.Redis.Server.{Redis}
use taskfire.Redis.Queue.{get_queue_depth_by_lane, get_dlq_depth}
use taskfire.World.{World, Env}

-- `QueueMetrics` of the dashboard's types; `total_processed` stands beside the other counts.
pub record QueueMetrics : Type 0 where
  pub queue_depth : QueueDepthByLane
  pub dlq_depth : ℕ
  pub counts : StatusCounts
  pub total_processed : ℕ
  pub failure_rate : ℕ
  pub avg_processing_ms : Option ℤ

unfoldable pub total_processed : StatusCounts → ℕ
total_processed c = c.completed + c.failed + c.dead

module _ (to_fixed_4 : (dividend divisor : ℕ) → ℕ) where
  unfoldable pub failure_rate : StatusCounts → ℕ
  unfolding total_processed
  failure_rate c =
      if ltb 0 (total_processed c) then to_fixed_4 (c.failed + c.dead) (total_processed c) else 0

  module _ {Store : Type 0} (redis : Redis Store) (env : Env Store) where
    -- The handler of GET /summary
    unfoldable pub summary : Async (World Store) QueueMetrics
    unfolding failure_rate
    summary = do
      queue_depth ← get_queue_depth_by_lane redis env
      dlq_depth ← get_dlq_depth redis env
      counts ← get_status_counts env
      avg ← get_avg_processing_ms env
      resolve (record {
        queue_depth = queue_depth;
        dlq_depth = dlq_depth;
        counts = counts;
        total_processed = total_processed counts;
        failure_rate = failure_rate counts;
        avg_processing_ms = avg;
      })
