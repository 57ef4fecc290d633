-- ===== src/Postgres/Jobs/Invariant.antt =====
-- Whatever a query on a job does, and wherever it rejects, the table keeps what the statements
-- keep.
use taskfire.Prelude.{String, Bool, List, [], ◌∷◌}
use taskfire.Async.Keeps.{Keeps, Keeps-bind, keeps_rules}
use taskfire.Postgres.Row.{Row}
use taskfire.Postgres.Table.{CreateJobParams}
use taskfire.Postgres.Table.Laws.{KeptByStatements}
use taskfire.Postgres.Session.Laws.{Holds, OthersKeep, query-Holds}
use taskfire.Postgres.Jobs.{job_or_throw, create_job, get_job, cancel_job, requeue_job}
use taskfire.World.{Env}

module _ {Store : Type 0} {J : List Row → Type 0} (statements : KeptByStatements J)
    (env : Env Store) (peers : OthersKeep J env) where
  job_or_throw-Holds : (rows : List Row) → Keeps (Holds J) (job_or_throw env rows)
  unfolding job_or_throw
  job_or_throw-Holds [] = search keeps_rules
  job_or_throw-Holds (r ∷ rows) = search keeps_rules

  pub create_job-Holds : (params : CreateJobParams) → Keeps (Holds J) (create_job env params)
  unfolding create_job
  create_job-Holds params =
      Keeps-bind _ _ (query-Holds J env peers _ (statements.inserts params)) job_or_throw-Holds

  pub get_job-Holds : (id : String) → Keeps (Holds J) (get_job env id)
  unfolding get_job
  get_job-Holds id =
      Keeps-bind _ _ (query-Holds J env peers _ (statements.selects id)) (search keeps_rules)

  pub cancel_job-Holds : (id : String) → Keeps (Holds J) (cancel_job env id)
  unfolding cancel_job
  cancel_job-Holds id =
      Keeps-bind _ _ (query-Holds J env peers _ (statements.cancels id)) (search keeps_rules)

  pub requeue_job-Holds : (id : String) (reset : Bool) → Keeps (Holds J) (requeue_job env id reset)
  unfolding requeue_job
  requeue_job-Holds id reset =
      Keeps-bind _ _ (query-Holds J env peers _ (statements.requeues id reset)) (search keeps_rules)
