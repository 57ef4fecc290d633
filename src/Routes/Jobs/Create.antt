-- ===== src/Routes/Jobs/Create.antt =====
-- POST /: what it answers, and where the new job is afterwards.
use taskfire.Prelude.{
  ℕ, suc, ◌+◌, ◌*◌, ◌/◌, ◌<◌, ◌≤◌, String, Bool, true, false, ◌≡◌, refl, ◌∙◌, Option, none, some,
  [], ◌∷◌, ◌++◌, arith, ltb, Bool-cases, inl, inr,
}
use taskfire.Async.{resolved, resolve, ◌>>=◌, continue}
use taskfire.Job.{priority_value}
use taskfire.Job.Schema.{Zod, CreateJobInput, success}
use taskfire.Postgres.Row.{Row, row_to_job}
use taskfire.Postgres.Table.{has_id, CreateJobParams, new_row}
use taskfire.Postgres.Jobs.{create_job}
use taskfire.Postgres.Jobs.Effects.{create_job_lem}
use taskfire.Redis.Member.{delayed, EnqueuePayload}
use taskfire.Redis.Server.{Redis}
use taskfire.Redis.Queue.{lane_key}
use taskfire.Redis.Queue.Enqueue.{Adds, enqueue_job_lem, enqueue_delayed_lem}
use taskfire.Routes.Reply.{reply, job}
use taskfire.Routes.Jobs.{enqueue_payload, enqueue_at, create, post_job}
use taskfire.World.{World, Env}
use taskfire.World.Quiet.{IsQuiet, date_now_quiet, random_uuid_quiet}

-- Whether a job is for later, by its date and the time of the request.
abbrev pub is_for_later : Option ℕ → ℕ → Bool
is_for_later none now = false
is_for_later (some at) now = ltb now at

-- Where a job that is for later goes, and one that is not.
abbrev pub EnqueuedBy :
    {Store : Type 0} → Redis Store → EnqueuePayload → Option ℕ → Store → Store → Bool → Type 0
EnqueuedBy redis p at s s' false = (score : ℕ) × Adds redis p.id (lane_key p.priority) score s s'
EnqueuedBy redis p at s s' true =
    (date : ℕ) × (score : ℕ) × (at ≡ some date)
    × Adds redis p.id delayed score s s'
    × (score * 1000 ≤ date)
    × (date < score * 1000 + 1000)

-- The parameters of the row that a request asks for.
abbrev pub asked : CreateJobInput → String → CreateJobParams
asked input id = record {
  id = id;
  type = input.type;
  payload = input.payload;
  priority = priority_value input.priority;
  max_retries = input.max_retries;
  scheduled_at = input.scheduled_at;
  dependencies = input.dependencies;
}

module _ {Store Body : Type 0} (zod : Zod Body) (redis : Redis Store) {env : Env Store}
    (quiet : IsQuiet env) where
  enqueue_at_lem :
      (p : EnqueuePayload) (at : Option ℕ) (now : ℕ) (w : World Store)
      → (v : World Store) × (enqueue_at zod redis env p at now w ≡ resolved tt v)
        × EnqueuedBy redis p at w.redis v.redis (is_for_later at now)
        × (v.jobs ≡ w.jobs)
  unfolding enqueue_at
  enqueue_at_lem p none now w =
      let (v, ran, adds, jobs) = enqueue_job_lem redis quiet p w in
      (v, ran, (env.date_now w.steps, adds), jobs)
  enqueue_at_lem p (some at) now w = elim (Bool-cases (ltb now at)) [
    | inl later ↦
        let (v, ran, adds, jobs) = enqueue_delayed_lem redis quiet p w at in
        (
          v,
          rw (enqueue_at, later) ran,
          rw later (at, at / 1000, refl, adds, omega arith, omega arith),
          jobs,
        )
    | inr due ↦
        let (v, ran, adds, jobs) = enqueue_job_lem redis quiet p w in
        (v, rw (enqueue_at, due) ran, rw due (env.date_now w.steps, adds), jobs)
  ]

  -- Where nobody else writes, every call comes back, the body parses and the drawn id is free, a
  -- POST is answered 201 with the new row as a job. The table has that row at its end and is
  -- otherwise as it was. A job with a date after the request's time is a new member of the delayed
  -- set, scored by the whole seconds of that date; any other is a new member of the lane of its
  -- priority.
  pub post_job-Enqueued :
      (body : Body) (input : CreateJobInput) (w : World Store)
      → zod.parse_create body ≡ success input
      → has_id (env.random_uuid (suc w.steps)) w.jobs ≡ false
      → (v : World Store) × (row : Row) × (now : ℕ) × (post_job zod redis env body w
          ≡ resolved (reply 201 (job (row_to_job row))) v)
        × (row ≡ new_row (asked input (env.random_uuid (suc w.steps))) now)
        × (v.jobs ≡ w.jobs ++ row ∷ [])
        × EnqueuedBy redis
            (enqueue_payload (row_to_job row) 0)
            input.scheduled_at
            w.redis
            v.redis
            (is_for_later input.scheduled_at (env.date_now w.steps))
  unfolding post_job create ◌>>=◌ resolve
  post_job-Enqueued body input w parsed free =
      let id = env.random_uuid (suc w.steps) in
      let u : World Store = record w { steps = suc (suc w.steps) } in
      let now = env.db_now (suc (suc u.steps)) in
      let row = new_row (asked input id) now in
      let u' : World Store = record u { jobs = w.jobs ++ row ∷ []; steps = suc (suc u.steps) } in
      let inserts : create_job env (asked input id) u ≡ resolved (row_to_job row) u' =
        create_job_lem quiet (asked input id) u ∙ rw free refl in
      let (v, ran, enqueued, jobs) =
        enqueue_at_lem (enqueue_payload (row_to_job row) 0) input.scheduled_at
          (env.date_now w.steps) u' in
      (
        v,
        row,
        now,
        rw (post_job, parsed, create, date_now_quiet quiet w, continue)
            (rw (random_uuid_quiet quiet _, continue)
              (rw (inserts, continue) (rw (ran, continue) refl))),
        refl,
        jobs,
        enqueued,
      )
