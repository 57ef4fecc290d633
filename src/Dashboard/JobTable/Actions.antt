-- ===== src/Dashboard/JobTable/Actions.antt =====
-- The buttons of a job's row and the handlers of api/src/routes/jobs.ts that answer them.
use taskfire.Prelude.{ℕ, String, Bool, ◌||◌, ◌≡◌, refl, get_or, if◌then◌else◌}
use taskfire.Async.{resolve}
use taskfire.Job.{Job, JobStatus, pending, active, completed, failed, dead}
use taskfire.Job.Schema.{Zod}
use taskfire.Postgres.Table.{retriable}
use taskfire.Redis.Server.{Redis}
use taskfire.Routes.Reply.{conflict}
use taskfire.Routes.Jobs.{
  uncancellable, retry_refusal, delete_existing, retry_existing, requeue, cancel as cancel_row,
}
use taskfire.World.{Env}
use taskfire.Dashboard.JobTable.{cancel, retry, offers}

module _ {Store Body : Type 0} (zod : Zod Body) (redis : Redis Store) (env : Env Store) where
  retry_existing-offers :
      (id : String) (reset : Bool) (s : JobStatus) (j : Job)
      → j.status ≡ s
      → retry_existing zod redis env id reset j ≡ (
          if offers retry s
          then requeue zod redis env id reset
          else resolve (conflict (retry_refusal s)))
  unfolding retry_existing retriable offers
  retry_existing-offers id reset pending j e = rw e refl
  retry_existing-offers id reset active j e = rw e refl
  retry_existing-offers id reset completed j e = rw e refl
  retry_existing-offers id reset failed j e = rw e refl
  retry_existing-offers id reset dead j e = rw e refl

  delete_existing-offers :
      (fuel : ℕ) (id : String) (s : JobStatus) (j : Job)
      → j.status ≡ s
      → delete_existing zod redis env fuel id j ≡ (
          if offers cancel s || offers retry s
          then cancel_row zod redis env fuel id j
          else resolve (conflict (get_or (uncancellable s) "")))
  unfolding delete_existing uncancellable offers
  delete_existing-offers fuel id pending j e = rw (e, uncancellable) refl
  delete_existing-offers fuel id active j e = rw (e, uncancellable) refl
  delete_existing-offers fuel id completed j e = rw (e, uncancellable) refl
  delete_existing-offers fuel id failed j e = rw (e, uncancellable) refl
  delete_existing-offers fuel id dead j e = rw (e, uncancellable) refl

  -- For the status that a handler reads, the retry passes the handler's check exactly if the table
  -- shows a Retry button for it, and the cancellation exactly if it shows any button; each is
  -- answered with a conflict otherwise.
  pub handlers-offers :
      (fuel : ℕ) (id : String) (reset : Bool) (j : Job)
      → (retry_existing zod redis env id reset j ≡ (
          if offers retry j.status
          then requeue zod redis env id reset
          else resolve (conflict (retry_refusal j.status))))
        × (delete_existing zod redis env fuel id j ≡ (
            if offers cancel j.status || offers retry j.status
            then cancel_row zod redis env fuel id j
            else resolve (conflict (get_or (uncancellable j.status) ""))))
  handlers-offers fuel id reset j = (
    retry_existing-offers id reset j.status j refl,
    delete_existing-offers fuel id j.status j refl,
  )
