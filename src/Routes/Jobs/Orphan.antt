-- ===== src/Routes/Jobs/Orphan.antt =====
-- POST / where Redis is gone when the row is written.
use taskfire.Prelude.{
  ℕ, zero, suc, true, false, ◌≡◌, refl, Option, none, some, [], ◌∷◌, ◌++◌, ltb, Bool-cases, inl,
  inr,
}
use taskfire.Async.{unavailable, rejected, ◌>>=◌, continue}
use taskfire.Job.Schema.{Zod, CreateJobInput, success}
use taskfire.Postgres.Row.{row_to_job}
use taskfire.Postgres.Table.{has_id, new_row}
use taskfire.Postgres.Jobs.Effects.{create_job_answered}
use taskfire.Redis.Member.{EnqueuePayload}
use taskfire.Redis.Server.{Redis}
use taskfire.Redis.Queue.{enqueue_job, enqueue_delayed}
use taskfire.Routes.Reply.{error_handler, answer}
use taskfire.Routes.Jobs.{enqueue_payload, enqueue_at, create, post_job}
use taskfire.Routes.Jobs.Create.{asked}
use taskfire.World.{World, Env}
use taskfire.World.Quiet.{IsAlone, io_refused, date_now_alone, random_uuid_alone}

-- The step that comes `n` steps after another.
abbrev pub step_after : ℕ → ℕ → ℕ
step_after zero k = k
step_after (suc n) k = suc (step_after n k)

module _ {Store Body : Type 0} (zod : Zod Body) (redis : Redis Store) {env : Env Store}
    (alone : IsAlone env) where
  enqueue_job_refused :
      (p : EnqueuePayload) (w : World Store)
      → env.fails (suc w.steps) ≡ true
      → enqueue_job redis env p w ≡ rejected unavailable (record w { steps = suc (suc w.steps) })
  unfolding enqueue_job ◌>>=◌
  enqueue_job_refused p w k =
      rw (date_now_alone alone w, continue)
        (rw (io_refused alone (record w { steps = suc w.steps }) k) refl)

  enqueue_delayed_refused :
      (p : EnqueuePayload) (at : ℕ) (w : World Store)
      → env.fails w.steps ≡ true
      → enqueue_delayed redis env p at w ≡ rejected unavailable (record w { steps = suc w.steps })
  unfolding enqueue_delayed ◌>>=◌
  enqueue_delayed_refused p at w h = rw (io_refused alone w h) refl

  -- The enqueue rejects and leaves both stores, whichever set the job is for.
  enqueue_at_refused :
      (p : EnqueuePayload) (at : Option ℕ) (now : ℕ) (w : World Store)
      → env.fails w.steps ≡ true
      → env.fails (suc w.steps) ≡ true
      → (v : World Store) × (enqueue_at zod redis env p at now w ≡ rejected unavailable v)
        × (v.jobs ≡ w.jobs)
        × (v.redis ≡ w.redis)
  unfolding enqueue_at
  enqueue_at_refused p none now w h k = (_, enqueue_job_refused p w k, refl, refl)
  enqueue_at_refused p (some at) now w h k = elim (Bool-cases (ltb now at)) [
    | inl later ↦ (
      record w { steps = suc w.steps },
      rw (enqueue_at, later) (enqueue_delayed_refused p at w h),
      refl,
      refl,
    )
    | inr due ↦ (
      record w { steps = suc (suc w.steps) },
      rw (enqueue_at, due) (enqueue_job_refused p w k),
      refl,
      refl,
    )
  ]

  -- Where nobody else writes, the body parses, the drawn id is free, the database answers, and the
  -- two calls behind the INSERT reject, a POST is answered 500 by the error handler: the new row
  -- stands at the end of the table all the same, and Redis is as it was, so no queue holds the job.
  pub post_job-orphan :
      (body : Body) (input : CreateJobInput) (w : World Store)
      → zod.parse_create body ≡ success input
      → has_id (env.random_uuid (suc w.steps)) w.jobs ≡ false
      → env.fails (step_after 2 w.steps) ≡ false
      → env.fails (step_after 3 w.steps) ≡ false
      → env.fails (step_after 4 w.steps) ≡ true
      → env.fails (step_after 5 w.steps) ≡ true
      → let (got, v) = answer (post_job zod redis env body w) in
        (got ≡ error_handler unavailable)
        × (v.jobs
            ≡ w.jobs
              ++ new_row
                  (asked input (env.random_uuid (suc w.steps)))
                  (env.db_now (step_after 4 w.steps))
                ∷ [])
        × (v.redis ≡ w.redis)
  unfolding post_job create ◌>>=◌ answer
  post_job-orphan body input w parsed free connects inserts down gone =
      let id = env.random_uuid (suc w.steps) in
      let u : World Store = record w { steps = suc (suc w.steps) } in
      let row = new_row (asked input id) (env.db_now (step_after 4 w.steps)) in
      let u' : World Store = record u { jobs = w.jobs ++ row ∷ []; steps = suc (suc u.steps) } in
      let (v, ran, jobs, store) =
        enqueue_at_refused (enqueue_payload (row_to_job row) 0) input.scheduled_at
          (env.date_now w.steps) u' down gone in
      rw (post_job, parsed, create, date_now_alone alone w, continue)
        (rw (random_uuid_alone alone (record w { steps = suc w.steps }), continue)
          (rw (create_job_answered alone (asked input id) u connects inserts free, continue)
            (rw (ran, continue, answer) (refl, jobs, store))))
