-- ===== src/WebSocket/Snapshot.antt =====
-- Where the payloads of a snapshot and of the periodic metrics come from: `sendSnapshot` and the
-- tick of `startMetricsBroadcast` of api/src/websocket/handler.ts. The calls of their `Promise.all`
-- are made one after the other.
use taskfire.Prelude.{ℕ, Option, none, some, length, eqb, if◌then◌else◌}
use taskfire.Async.{Async, resolve, ◌>>=◌, catch}
use taskfire.Postgres.Metrics.{get_status_counts}
use taskfire.Redis.Server.{Redis}
use taskfire.Redis.Queue.{get_queue_depth_by_lane, get_dlq_depth}
use taskfire.World.{World, Env, date_now}
use taskfire.WebSocket.{Overview, Hub, Event, snapshot_ready, metrics_ready}

module _ {Store : Type 0} (redis : Redis Store) (env : Env Store) where
  unfoldable pub collect : Async (World Store) Overview
  unfolding get_status_counts
  collect = do
    queue_depth ← get_queue_depth_by_lane redis env
    dlq_depth ← get_dlq_depth redis env
    counts ← get_status_counts env
    now ← date_now env
    resolve (record {
      queue_depth = queue_depth;
      dlq_depth = dlq_depth;
      active_jobs = counts.active;
      pending_jobs = counts.pending;
      counts = counts;
      timestamp = now;
    })

  -- `sendSnapshot`, up to its frame: it is skipped where a store does not answer.
  unfoldable pub send_snapshot : ℕ → Async (World Store) (Option Event)
  unfolding collect
  send_snapshot socket =
      catch (do overview ← collect; resolve (some (snapshot_ready socket overview)))
        λ _. resolve none

  -- One tick of `startMetricsBroadcast`
  unfoldable pub metrics_tick : Hub → Async (World Store) (Option Event)
  unfolding collect
  metrics_tick h =
      if eqb (length h.clients) 0
      then resolve none
      else catch (do overview ← collect; resolve (some (metrics_ready overview))) λ _. resolve none
