-- ===== src/Routes/Jobs.antt =====
-- api/src/routes/jobs.ts. Each handler is a function of the request's parts; its log lines are left
-- out. `fuel` bounds the rounds of the queue scan of a cancellation.
pub mod Invariant
pub mod Cancel
pub mod Retry
pub mod Create
pub mod Statuses
pub mod Orphan
pub mod CancelRow
pub mod Service
pub mod Served
pub mod Existing
pub mod Posting
pub mod Refinement
pub mod Held
pub mod Waiting
use Prim.Native.String
use taskfire.Prelude.{
  ℕ, String, Bool, true, false, Option, none, some, List, [], ◌∷◌, ltb, if◌then◌else◌, not,
}
use taskfire.Async.{Async, resolve, ◌>>=◌, ◌>>◌, catch}
use taskfire.Json.{Json}
use taskfire.Job.{
  Job, JobStatus, pending, active, completed, failed, dead, priority_value, status_text,
}
use taskfire.Job.Schema.{Zod, Parsed, success, failure, CreateJobInput, ListJobsQuery}
use taskfire.Postgres.Table.{CreateJobParams, retriable}
use taskfire.Postgres.Jobs.{create_job, get_job, cancel_job, requeue_job}
use taskfire.Postgres.Listing.{list_jobs}
use taskfire.Postgres.Listing.Pages.{page_count}
use taskfire.Postgres.Logs.{get_job_logs}
use taskfire.Redis.Member.{EnqueuePayload}
use taskfire.Redis.Server.{Redis}
use taskfire.Redis.Queue.{enqueue_job, enqueue_delayed, remove_from_queue}
use taskfire.Routes.Reply.{
  Reply, reply, answer, zod_error, not_found, conflict, job, job_list, job_logs, empty,
}
use taskfire.World.{World, Env, date_now, random_uuid}

-- The message of a job as the queue holds it.
unfoldable pub enqueue_payload : Job → ℕ → EnqueuePayload
enqueue_payload j retry_count = record {
  id = j.id;
  type = j.type;
  payload = j.payload;
  priority = j.priority;
  status = "pending";
  max_retries = j.max_retries;
  retry_count = retry_count;
  created_at = j.created_at;
  scheduled_at = j.scheduled_at;
  dependencies = some j.dependencies;
}

-- `existing.status === 'active'` and `=== 'completed'`
unfoldable pub uncancellable : JobStatus → Option String
uncancellable active = some "Cannot cancel a job that is currently active"
uncancellable completed = some "Cannot cancel a job that has already completed"
uncancellable _ = none

-- `Only failed or dead jobs can be retried; current status is "…"`
unfoldable pub retry_refusal : JobStatus → String
unfolding status_text
retry_refusal s =
    String.◌++◌ "Only failed or dead jobs can be retried; current status is \""
      (String.◌++◌ (status_text s) "\"")

module _ {Store Body : Type 0} (zod : Zod Body) (redis : Redis Store) (env : Env Store) where
  -- The choice between the delayed set and a lane.
  unfoldable pub enqueue_at : EnqueuePayload → Option ℕ → ℕ → Async (World Store) (Unit {0})
  enqueue_at payload none now = enqueue_job redis env payload
  enqueue_at payload (some at) now =
      if ltb now at then enqueue_delayed redis env payload at else enqueue_job redis env payload

  -- POST /
  unfoldable pub create : CreateJobInput → Async (World Store) Reply
  unfolding enqueue_payload enqueue_at
  create input = do
    now ← date_now env
    id ← random_uuid env
    j ← create_job env (record {
      id = id;
      type = input.type;
      payload = input.payload;
      priority = priority_value input.priority;
      max_retries = input.max_retries;
      scheduled_at = input.scheduled_at;
      dependencies = input.dependencies;
    })
    enqueue_at (enqueue_payload j 0) input.scheduled_at now
    resolve (reply 201 (job j))

  unfoldable pub post_job : Body → Async (World Store) Reply
  post_job body = elim (zod.parse_create body) [
    | failure details ↦ resolve (zod_error details)
    | success input ↦ create input
  ]

  -- GET /
  unfoldable pub list : ListJobsQuery → Async (World Store) Reply
  unfolding page_count
  list opts = do
    found ← list_jobs env opts
    resolve (
        reply 200 (
          job_list (record {
            jobs = found.0;
            total = found.1;
            page = opts.page;
            limit = opts.limit;
            pages = page_count found.1 opts.limit;
          })))

  unfoldable pub get_jobs : Body → Async (World Store) Reply
  get_jobs query = elim (zod.parse_list query) [
    | failure details ↦ resolve (zod_error details)
    | success opts ↦ list opts
  ]

  unfoldable pub job_or_404 :
      Option Job → (Job → Async (World Store) Reply) → Async (World Store) Reply
  job_or_404 none then_do = resolve not_found
  job_or_404 (some j) then_do = then_do j

  -- GET /:id
  unfoldable pub get_job_by_id : Body → Async (World Store) Reply
  get_job_by_id params = elim (zod.parse_id params) [
    | failure details ↦ resolve (zod_error details)
    | success id ↦ get_job env id >>= λ found. job_or_404 found λ j. resolve (reply 200 (job j))
  ]

  -- DELETE /:id, behind the two checks of the status
  unfoldable pub cancel : ℕ → String → Job → Async (World Store) Reply
  cancel fuel id existing = do
    cancelled ← cancel_job env id
    elim cancelled [
      | none ↦ resolve (conflict "Job status changed before cancellation could be applied")
      | some _ ↦ do
        catch (remove_from_queue redis env fuel existing.id existing.priority) λ _. resolve none
        resolve (reply 204 empty)
    ]

  unfoldable pub delete_existing : ℕ → String → Job → Async (World Store) Reply
  unfolding uncancellable
  delete_existing fuel id existing = elim (uncancellable existing.status) [
    | some message ↦ resolve (conflict message)
    | none ↦ cancel fuel id existing
  ]

  unfoldable pub delete_job : ℕ → Body → Async (World Store) Reply
  delete_job fuel params = elim (zod.parse_id params) [
    | failure details ↦ resolve (zod_error details)
    | success id ↦ get_job env id >>= λ found. job_or_404 found (delete_existing fuel id)
  ]

  -- POST /:id/retry, behind the check of the status
  unfoldable pub requeue : String → Bool → Async (World Store) Reply
  unfolding enqueue_payload
  requeue id reset_retries = do
    updated ← requeue_job env id reset_retries
    elim updated [
      | none ↦ resolve (conflict "Job status changed before retry could be applied")
      | some j ↦ do
        enqueue_job redis env (enqueue_payload j j.retry_count)
        resolve (reply 200 (job j))
    ]

  unfoldable pub retry_existing : String → Bool → Job → Async (World Store) Reply
  unfolding retriable retry_refusal
  retry_existing id reset_retries existing =
      if not (retriable existing.status)
      then resolve (conflict (retry_refusal existing.status))
      else requeue id reset_retries

  unfoldable pub retry_job : Body → Body → Async (World Store) Reply
  retry_job params body = elim (zod.parse_id params) [
    | failure details ↦ resolve (zod_error details)
    | success id ↦ elim (zod.parse_retry body) [
      | failure details ↦ resolve (zod_error details)
      | success reset ↦ get_job env id >>= λ found. job_or_404 found (retry_existing id reset)
    ]
  ]

  -- GET /:id/logs
  unfoldable pub get_logs : Body → Async (World Store) Reply
  get_logs params = elim (zod.parse_id params) [
    | failure details ↦ resolve (zod_error details)
    | success id ↦ get_job env id >>= λ found.
        job_or_404 found
          λ j. do logs ← get_job_logs env id; resolve (reply 200 (job_logs j.id j.type logs))
  ]

-- A request to one of the routes that `jobRoutes` registers.
pub data Request (Body : Type 0) : Type 0 where
  posts lists gets_one deletes asks_logs : Body → Request Body
  retries : (params body : Body) → Request Body

module _ {Store Body : Type 0} (zod : Zod Body) (redis : Redis Store) (env : Env Store)
    (fuel : ℕ) where
  -- `jobRoutes`
  unfoldable pub handle : Request Body → Async (World Store) Reply
  handle (posts body) = post_job zod redis env body
  handle (lists query) = get_jobs zod redis env query
  handle (gets_one params) = get_job_by_id zod redis env params
  handle (deletes params) = delete_job zod redis env fuel params
  handle (asks_logs params) = get_logs zod redis env params
  handle (retries params body) = retry_job zod redis env params body

  -- A server that answers one request after the other.
  unfoldable pub serve : List (Request Body) → World Store → World Store
  serve [] w = w
  serve (r ∷ rs) w = serve rs (answer (handle r w)).1

  -- What that server replies.
  unfoldable pub replies : List (Request Body) → World Store → List Reply
  replies [] w = []
  replies (r ∷ rs) w = (answer (handle r w)).0 ∷ replies rs (answer (handle r w)).1
