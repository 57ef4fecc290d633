-- ===== src/Routes/Jobs/Retry.antt =====
-- POST /:id/retry: what it answers, and what it does to the table and to the queue.
use mathlib.Core.Option
use taskfire.Prelude.{
  ℕ, suc, eq_iff, String, Bool, true, false, ◌==◌, ◌≡◌, refl, sym, ap, ◌∙◌, subst, Option, none,
  some, arith, if◌then◌else◌,
}
use taskfire.Async.{Async, resolved, resolve, ◌>>=◌, continue}
use taskfire.Job.{pending}
use taskfire.Job.Schema.{Zod, success}
use taskfire.Postgres.Row.{Row, row_to_job}
use taskfire.Postgres.Table.{retriable, set_requeued}
use taskfire.Postgres.Table.Laws.{IsTable}
use taskfire.Postgres.Table.View.{lookup}
use taskfire.Postgres.Jobs.{requeue_job}
use taskfire.Postgres.Jobs.Effects.{requeue_job_lem, get_job_lem}
use taskfire.Redis.Member.{dlq}
use taskfire.Redis.Server.{Redis}
use taskfire.Redis.Queue.{lane_key}
use taskfire.Redis.Queue.Enqueue.{Adds, enqueue_job_lem}
use taskfire.Redis.Queue.Lanes.{lane_key-ne-dlq}
use taskfire.Routes.Reply.{Reply, reply, not_found, conflict, job}
use taskfire.Routes.Jobs.{
  enqueue_payload, job_or_404, retry_refusal, requeue, retry_existing, retry_job,
}
use taskfire.Routes.Jobs.Cancel.{SameStores}
use taskfire.World.{World, Env}
use taskfire.World.Quiet.{IsQuiet}

-- The row of a job that was put back: pending, its error and its dates gone.
abbrev pub requeued : Bool → ℕ → Row → Row
requeued reset now row = record row {
  status = pending;
  retry_count = if reset then 0 else row.retry_count;
  error = none;
  updated_at = now;
  started_at = none;
  completed_at = none;
  failed_at = none;
}

-- How a retry ends, by whether the status of the row allows it.
abbrev pub RetriedBy :
    {Store : Type 0}
    → Redis Store
    → String
    → Bool
    → Row
    → World Store
    → Bool
    → Reply
    → World Store
    → Type 0
RetriedBy redis id reset row w false r v =
    (r ≡ conflict (retry_refusal row.status)) × SameStores w v
RetriedBy redis id reset row w true r v =
    (now : ℕ) × (score : ℕ) × (r ≡ reply 200 (job (row_to_job (requeued reset now row))))
    × ((j : String)
        → lookup j v.jobs ≡ (if id == j then some (requeued reset now row) else lookup j w.jobs))
    × Adds redis row.id (lane_key row.priority) score w.redis v.redis
    × (redis.ranking dlq v.redis ≡ redis.ranking dlq w.redis)

abbrev pub Retried :
    {Store : Type 0}
    → Redis Store
    → String
    → Bool
    → World Store
    → Option Row
    → Reply
    → World Store
    → Type 0
Retried redis id reset w none r v = (r ≡ not_found) × SameStores w v
Retried redis id reset w (some row) r v = RetriedBy redis id reset row w (retriable row.status) r v

Adds-dlq :
    {Store : Type 0} (redis : Redis Store) (id : String) (priority score : ℕ) (s s' : Store)
    → Adds redis id (lane_key priority) score s s'
    → redis.ranking dlq s' ≡ redis.ranking dlq s
Adds-dlq redis id priority score s s' (m, _, e, _) =
    ap (redis.ranking dlq) e
    ∙ redis.zadd_ranking (lane_key priority) dlq score m s (λ h. lane_key-ne-dlq priority (sym h))

module _ {Store Body : Type 0} (zod : Zod Body) (redis : Redis Store) {env : Env Store}
    (quiet : IsQuiet env) (id : String) (reset : Bool) where
  abbrev Retrying :
      World Store → Async (World Store) Reply → (Reply → World Store → Type 0) → Type 0
  Retrying w run P = (r : Reply) × (v : World Store) × (run w ≡ resolved r v) × P r v

  requeue_lem :
      (w : World Store) (table : IsTable w.jobs) (row : Row)
      → lookup id w.jobs ≡ some row
      → retriable row.status ≡ true
      → Retrying w (requeue zod redis env id reset) (RetriedBy redis id reset row w true)
  unfolding requeue ◌>>=◌ resolve row_to_job set_requeued enqueue_payload
  requeue_lem w table row found can =
      let now = env.db_now (suc (suc w.steps)) in
      let (u, ran, (rows, store, _, _)) = requeue_job_lem quiet id w table reset in
      let j = row_to_job (requeued reset now row) in
      let (v, ran', adds, jobs) = enqueue_job_lem redis quiet (enqueue_payload j j.retry_count) u in
      let ran'' : requeue_job env id reset w ≡ resolved (some j) u = ran ∙ ground arith in
      let adds' =
        subst (λ s. Adds redis row.id (lane_key row.priority) (env.date_now u.steps) s v.redis)
          store adds in
      (
        reply 200 (job j),
        v,
        rw (requeue, ran'', continue, ran') refl,
        (
          now,
          env.date_now u.steps,
          refl,
          (λ k. ap (lookup k) jobs ∙ ground (arith, rows k, eq_iff id k)),
          adds',
          Adds-dlq redis row.id row.priority (env.date_now u.steps) w.redis v.redis adds',
        ),
      )

  retry_existing_lem :
      (w : World Store) (table : IsTable w.jobs) (row : Row) (b : Bool)
      → retriable row.status ≡ b
      → lookup id w.jobs ≡ some row
      → Retrying w
          (retry_existing zod redis env id reset (row_to_job row))
          (RetriedBy redis id reset row w b)
  unfolding retry_existing row_to_job resolve
  retry_existing_lem w table row false e found =
      (conflict (retry_refusal row.status), w, rw e refl, (refl, (refl, refl)))
  retry_existing_lem w table row true e found =
      let (r, v, ran, done) = requeue_lem w table row found e in (r, v, rw e ran, done)

  retry_of :
      (w : World Store) (table : IsTable w.jobs) (o : Option Row)
      → lookup id w.jobs ≡ o
      → Retrying w
          (job_or_404 zod redis env
            (Option.map row_to_job o)
            (retry_existing zod redis env id reset))
          (Retried redis id reset w o)
  unfolding job_or_404 resolve
  retry_of w table none e = (not_found, w, refl, (refl, (refl, refl)))
  retry_of w table (some row) e = retry_existing_lem w table row (retriable row.status) refl e

  -- Where nobody else writes, every call comes back, the table has its constraints and the request
  -- is well formed, a retry resolves. A missing id is answered 404, and a row that is neither
  -- failed nor dead 409 with its status, both with the stores as they were. Otherwise it is
  -- answered 200 with the new row: pending, without error or dates, with its retries reset where
  -- that was asked; every other id has the row it had, the lane of the priority has one member
  -- more, which is the job, and the dead-letter queue ranks the members it ranked before.
  pub retry_job-Retried :
      (params body : Body) (w : World Store)
      → zod.parse_id params ≡ success id
      → zod.parse_retry body ≡ success reset
      → IsTable w.jobs
      → (r : Reply) × (v : World Store) × (retry_job zod redis env params body w ≡ resolved r v)
        × Retried redis id reset w (lookup id w.jobs) r v
  unfolding retry_job ◌>>=◌
  retry_job-Retried params body w parsed asked table =
      let u : World Store = record w { steps = suc (suc w.steps) } in
      let (r, v, ran, done) = retry_of u table (lookup id w.jobs) refl in
      (r, v, rw (retry_job, parsed, asked, get_job_lem quiet id w table, continue) ran, done)
