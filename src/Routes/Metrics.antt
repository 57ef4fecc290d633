-- ===== src/Routes/Metrics.antt =====
-- GET /dead-letter and GET /throughput of api/src/routes/metrics.ts. The calls of one `Promise.all`
-- are made one after the other.
pub mod Laws
pub mod Workers
pub mod Distinct
pub mod Summary
pub mod Minutes
pub mod Agreement
use taskfire.Prelude.{
  ℕ, zero, suc, ◌-◌, ◌*◌, ◌/◌, Option, none, some, List, [], ◌∷◌, eqb, if◌then◌else◌, get_or,
}
use taskfire.Async.{Async, resolve, ◌>>=◌}
use taskfire.Job.Schema.{Zod, success, failure, DlqQuery}
use taskfire.Postgres.Throughput.{ThroughputRow, get_throughput}
use taskfire.Redis.Server.{Redis}
use taskfire.Redis.Queue.{get_dlq_depth}
use taskfire.Redis.DeadLetters.{get_dlq_jobs}
use taskfire.Routes.Reply.{Reply, reply, zod_error, dead_letters}
use taskfire.World.{World, Env, date_now}

module _ {Store Body : Type 0} (zod : Zod Body) (redis : Redis Store) (env : Env Store) where
  unfoldable pub dead_letter_page : DlqQuery → Async (World Store) Reply
  dead_letter_page q = do
    jobs ← get_dlq_jobs redis env q.limit q.offset
    total ← get_dlq_depth redis env
    resolve (
        reply 200 (
          dead_letters (record { jobs = jobs; total = total; limit = q.limit; offset = q.offset })))

  -- GET /dead-letter
  unfoldable pub dead_letter : Body → Async (World Store) Reply
  unfolding dead_letter_page
  dead_letter query = elim (zod.parse_dlq query) [
    | failure details ↦ resolve (zod_error details)
    | success q ↦ dead_letter_page q
  ]

-- `byMinute.get`: of two rows with one time the later one is in the map.
unfoldable pub by_minute : List ThroughputRow → ℕ → Option ThroughputRow
by_minute [] t = none
by_minute (r ∷ rs) t =
    let later = by_minute rs t in
    elim later [ none ↦ if eqb r.time t then some r else none | some found ↦ some found ]

-- The start of the minute that lies `i` minutes back, on a clock without changes of its offset.
unfoldable pub minute_start : ℕ → ℕ → ℕ
minute_start now i = (now / 60000 - i) * 60000

abbrev pub completed_of : Option ThroughputRow → ℕ
completed_of none = 0
completed_of (some r) = r.completed

abbrev pub failed_of : Option ThroughputRow → ℕ
failed_of none = 0
failed_of (some r) = r.failed

unfoldable pub point : List ThroughputRow → ℕ → ThroughputRow
unfolding by_minute
point rows key =
    let existing = by_minute rows key in
    record { time = key; completed = completed_of existing; failed = failed_of existing }

-- The loop with `n` rounds left, the next one for the minute `n - 1` minutes back.
unfoldable pub points : List ThroughputRow → ℕ → ℕ → List ThroughputRow
unfolding minute_start point
points rows now zero = []
points rows now (suc i) = point rows (minute_start now i) ∷ points rows now i

-- The series that GET /throughput makes of the rows of the database.
unfoldable pub throughput : List ThroughputRow → ℕ → List ThroughputRow
unfolding points
throughput rows now = points rows now 60

-- The handler of GET /throughput
unfoldable pub throughput_series :
    {Store : Type 0} → Env Store → Async (World Store) (List ThroughputRow)
unfolding throughput
throughput_series env = do
  rows ← get_throughput env
  now ← date_now env
  resolve (throughput rows now)
