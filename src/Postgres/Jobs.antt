-- ===== src/Postgres/Jobs.antt =====
-- The queries on single jobs of api/src/services/postgres.ts.
pub mod Invariant
pub mod Effects
pub mod Alone
use taskfire.Prelude.{String, Bool, Option, none, some, List, [], ◌∷◌, first}
use taskfire.Async.{Async, no_rows, resolve, reject, ◌>>=◌}
use taskfire.Job.{Job}
use taskfire.Postgres.Row.{Row, row_to_job}
use taskfire.Postgres.Table.{
  CreateJobParams, insert_statement, select_by_id, cancel_statement, requeue_statement,
}
use taskfire.Postgres.Session.{query}
use taskfire.World.{World, Env}

-- `rows[0] ? rowToJob(rows[0]) : null`
unfoldable pub job_or_null : List Row → Option Job
job_or_null [] = none
job_or_null (r ∷ rows) = some (row_to_job r)

module _ {Store : Type 0} (env : Env Store) where
  -- `if (!rows[0]) throw …; return rowToJob(rows[0])`
  unfoldable pub job_or_throw : List Row → Async (World Store) Job
  job_or_throw [] = reject no_rows
  job_or_throw (r ∷ rows) = resolve (row_to_job r)

  -- `createJob`, also exported as `insertJob`
  unfoldable pub create_job : CreateJobParams → Async (World Store) Job
  create_job params = do rows ← query env (insert_statement params); job_or_throw rows

  -- `getJob`, also exported as `getJobById`
  unfoldable pub get_job : String → Async (World Store) (Option Job)
  get_job id = do rows ← query env (select_by_id id); resolve (job_or_null rows)

  -- `cancelJob`
  unfoldable pub cancel_job : String → Async (World Store) (Option Job)
  cancel_job id = do rows ← query env (cancel_statement id); resolve (job_or_null rows)

  -- `requeueJob`
  unfoldable pub requeue_job : String → Bool → Async (World Store) (Option Job)
  requeue_job id reset_retries = do
    rows ← query env (requeue_statement id reset_retries)
    resolve (job_or_null rows)
