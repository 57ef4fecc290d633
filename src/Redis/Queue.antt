-- ===== src/Redis/Queue.antt =====
-- Lanes, enqueueing, depths and removal of api/src/services/redis.ts.
pub mod Lanes
pub mod Removal
pub mod Keeps
pub mod Enqueue
pub mod Scan
pub mod Alone
pub mod Held
use taskfire.Prelude.{
  ℕ, zero, suc, ◌+◌, ◌/◌, String, Bool, true, false, ◌==◌, Option, none, some, List, [], ◌∷◌, leb,
  eqb, get_elem?, if◌then◌else◌,
}
use taskfire.Async.{Async, resolved, resolve, gets, ◌>>=◌, ◌>>◌, catch}
use taskfire.Job.{QueueDepthByLane}
use taskfire.Redis.Member.{
  Key, queue_high, queue_medium, queue_low, delayed, dlq, Document, Member, EnqueuePayload,
  stringify, parse,
}
use taskfire.Redis.Server.{Redis}
use taskfire.World.{World, Env, tick, io, date_now}

-- `laneKey`
unfoldable pub lane_key : ℕ → Key
lane_key priority =
    if leb 300 priority then queue_high else if leb 200 priority then queue_medium else queue_low

-- The reply of a pipeline, or null.
abbrev pub Results : Type 0
Results = Option (List (Option ℕ))

-- `val`: the i-th result, or 0 where it is missing or an error.
unfoldable pub val : List (Option ℕ) → ℕ → ℕ
val results i = elim (get_elem? results i) [ none ↦ 0 | some e ↦ elim e [ none ↦ 0 | some n ↦ n ] ]

unfoldable pub depth_by_lane : Results → QueueDepthByLane
unfolding val
depth_by_lane none = record { high = 0; medium = 0; low = 0; delayed = 0; total = 0 }
depth_by_lane (some results) =
    let high = val results 0 in
    let medium = val results 1 in
    let low = val results 2 in
    let delayed = val results 3 in
    record {
      high = high;
      medium = medium;
      low = low;
      delayed = delayed;
      total = high + medium + low;
    }

-- Whether a member is a job of this id: `JSON.parse(member).id === jobId`, false where that throws.
unfoldable pub is_job : String → Member → Bool
unfolding parse
is_job job_id m = elim (parse m) [
  | none ↦ false
  | some d ↦ elim d.id [ none ↦ false | some id ↦ id == job_id ]
]

-- The first member of a page that is the job.
unfoldable pub find_job : String → List Member → Option Member
unfolding is_job
find_job job_id [] = none
find_job job_id (m ∷ ms) = if is_job job_id m then some m else find_job job_id ms

module _ {Store : Type 0} (redis : Redis Store) (env : Env Store) where
  abbrev modify : (Store → Store) → Async (World Store) (Unit {0})
  modify f w = resolved tt (record w { redis = f w.redis })

  -- `enqueueJob`
  unfoldable pub enqueue_job : EnqueuePayload → Async (World Store) (Unit {0})
  enqueue_job job = do
    score ← date_now env
    io env
    modify (redis.zadd (lane_key job.priority) score (stringify job))

  -- `enqueueDelayed`: the payload with its date and status set anew, scored in seconds.
  unfoldable pub enqueue_delayed : EnqueuePayload → ℕ → Async (World Store) (Unit {0})
  enqueue_delayed job scheduled_at = do
    let score = scheduled_at / 1000
    let member = stringify (record job { scheduled_at = some scheduled_at; status = "pending" })
    io env
    modify (redis.zadd delayed score member)

  -- `getQueueDepthByLane`: one pipeline of four ZCARDs
  unfoldable pub get_queue_depth_by_lane : Async (World Store) QueueDepthByLane
  get_queue_depth_by_lane = do
    io env
    λ w.
        let cards =
          redis.zcard queue_high w.redis
          ∷ redis.zcard queue_medium w.redis
          ∷ redis.zcard queue_low w.redis
          ∷ redis.zcard delayed w.redis
          ∷ [] in
        resolved (depth_by_lane (env.exec w.steps cards)) w

  -- `getQueueDepth`
  unfoldable pub get_queue_depth : Async (World Store) ℕ
  get_queue_depth = do d ← get_queue_depth_by_lane; resolve d.total

  -- `getDLQDepth`
  unfoldable pub get_dlq_depth : Async (World Store) ℕ
  get_dlq_depth = do io env; gets (λ w. redis.zcard dlq w.redis)

  -- One round of the loop of `removeFromQueue`.
  unfoldable pub scan_page : Key → ℕ → Async (World Store) (ℕ × List Member)
  scan_page key cursor = do io env; gets (λ w. redis.zscan key w.redis cursor)

  unfoldable pub remove_member : Key → Member → Async (World Store) (Unit {0})
  remove_member key m = do io env; modify (redis.zrem key m)

  -- What a round does with its page; `rest` is the loop from the next cursor.
  unfoldable pub remove_page :
      (ℕ → Async (World Store) (Option Bool))
      → Key
      → String
      → ℕ × List Member
      → Async (World Store) (Option Bool)
  remove_page rest key job_id page = elim (find_job job_id page.1) [
    | some m ↦ remove_member key m >> resolve (some true)
    | none ↦ if eqb page.0 0 then resolve (some false) else rest page.0
  ]

  -- The loop of `removeFromQueue`, with fuel for the rounds: the iteration of a set that others
  -- keep changing need not end. `none` means that the fuel ran out.
  unfoldable pub remove_loop : ℕ → Key → String → ℕ → Async (World Store) (Option Bool)
  remove_loop zero key job_id cursor = resolve none
  remove_loop (suc fuel) key job_id cursor =
      let rest = λ (next : ℕ). remove_loop fuel key job_id next in
      do page ← scan_page key cursor; remove_page rest key job_id page

  -- `removeFromQueue`
  unfoldable pub remove_from_queue : ℕ → String → ℕ → Async (World Store) (Option Bool)
  remove_from_queue fuel job_id priority = remove_loop fuel (lane_key priority) job_id 0
