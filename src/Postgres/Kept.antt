-- ===== src/Postgres/Kept.antt =====
-- What a property of the world has to stand for every call of the service to keep it: an interface
-- between the queries and the routes, with the two properties that fill it.
use taskfire.Prelude.{ℕ, suc, String, Bool, List, [], ◌∷◌, arith}
use taskfire.Prelude.Int.{ℤ}
use taskfire.Async.Keeps.{Keeps, Keeps-bind, keeps_rules}
use taskfire.Job.Schema.{ListJobsQuery}
use taskfire.Postgres.Row.{Row}
use taskfire.Postgres.Table.{CreateJobParams}
use taskfire.Postgres.Table.Laws.{IsTable, KeepsRows, KeptByStatements, IsTable-KeptByStatements}
use taskfire.Postgres.Session.Laws.{
  Holds, OthersKeep, query-Holds, client_query-Holds, with_transaction-Holds, tick-Holds,
}
use taskfire.Postgres.Session.Laws.Pool.{
  Leased, query-Leased, client_query-Leased, with_transaction-Leased,
}
use taskfire.Postgres.Jobs.{job_or_throw, create_job, get_job, cancel_job, requeue_job}
use taskfire.Postgres.Jobs.Invariant.{
  create_job-Holds, get_job-Holds, cancel_job-Holds, requeue_job-Holds,
}
use taskfire.Postgres.Listing.{Where, count_statement, page_statement, list_body, list_jobs}
use taskfire.Postgres.Logs.{get_job_logs}
use taskfire.Redis.Queue.Keeps.{IsBlind}
use taskfire.World.{World, Env}

pub record Kept {Store : Type 0} (env : Env Store) (P : World Store → Type 0) : Type 0 where
  pub blind : IsBlind env P
  pub on_create : (params : CreateJobParams) → Keeps P (create_job env params)
  pub on_get : (id : String) → Keeps P (get_job env id)
  pub on_cancel : (id : String) → Keeps P (cancel_job env id)
  pub on_requeue : (id : String) (reset : Bool) → Keeps P (requeue_job env id reset)
  pub on_list : (opts : ListJobsQuery) → Keeps P (list_jobs env opts)
  pub on_logs : (id : String) → Keeps P (get_job_logs env id)

module _ {Store : Type 0} {J : List Row → Type 0} (statements : KeptByStatements J)
    (env : Env Store) (peers : OthersKeep J env) where
  count-Keeps : (b : Where) → KeepsRows J (count_statement b)
  unfolding count_statement
  count-Keeps b = record { accepted = λ now rows a rows' e t. ground arith }

  page-Keeps :
      (b : Where) (limit : ℕ) (offset : ℤ) → KeepsRows J (page_statement env b limit offset)
  unfolding page_statement
  page-Keeps b limit offset = record { accepted = λ now rows a rows' e t. ground arith }

  list_jobs-Holds : (opts : ListJobsQuery) → Keeps (Holds J) (list_jobs env opts)
  unfolding list_jobs list_body
  list_jobs-Holds opts = with_transaction-Holds J env peers _ (
      Keeps-bind _ _ (client_query-Holds J env peers _ (count-Keeps _)) λ _.
        Keeps-bind _ _ (client_query-Holds J env peers _ (page-Keeps _ _ _))
          λ _. search keeps_rules)

  get_job_logs-Holds : (id : String) → Keeps (Holds J) (get_job_logs env id)
  unfolding get_job_logs
  get_job_logs-Holds id =
      Keeps-bind _ _ (query-Holds J env peers _ (statements.selects id)) λ _. search keeps_rules

  -- What the statements and the other sessions keep.
  pub Kept-statements : Kept env (Holds J)
  Kept-statements = record {
    blind = record {
      ticks = tick-Holds J env peers;
      stores = λ w s h. record { committed = h.committed; uncommitted = h.uncommitted };
    };
    on_create = create_job-Holds statements env peers;
    on_get = get_job-Holds statements env peers;
    on_cancel = cancel_job-Holds statements env peers;
    on_requeue = requeue_job-Holds statements env peers;
    on_list = list_jobs-Holds;
    on_logs = get_job_logs-Holds;
  }

-- The constraints of the table.
pub IsTable-Kept :
    {Store : Type 0} (env : Env Store) → OthersKeep IsTable env → Kept env (Holds IsTable)
IsTable-Kept = Kept-statements IsTable-KeptByStatements

module _ {Store : Type 0} (env : Env Store) (n : ℕ) where
  job_or_throw-Leased : (rows : List Row) → Keeps (Leased n) (job_or_throw env rows)
  unfolding job_or_throw
  job_or_throw-Leased [] = search keeps_rules
  job_or_throw-Leased (r ∷ rows) = search keeps_rules

  list_jobs-Leased : (opts : ListJobsQuery) → Keeps (Leased n) (list_jobs env opts)
  unfolding list_jobs list_body
  list_jobs-Leased opts = with_transaction-Leased env n _ (
      Keeps-bind _ _ (client_query-Leased env (suc n) _)
        λ _. Keeps-bind _ _ (client_query-Leased env (suc n) _) λ _. search keeps_rules)

  -- The number of clients that the pool has handed out.
  pub pool_Kept : Kept env (Leased n)
  unfolding create_job get_job cancel_job requeue_job get_job_logs
  pool_Kept = record {
    blind = record { ticks = λ w h. h; stores = λ w s h. h };
    on_create = λ params. Keeps-bind _ _ (query-Leased env n _) job_or_throw-Leased;
    on_get = λ id. Keeps-bind _ _ (query-Leased env n _) λ _. search keeps_rules;
    on_cancel = λ id. Keeps-bind _ _ (query-Leased env n _) λ _. search keeps_rules;
    on_requeue = λ id reset. Keeps-bind _ _ (query-Leased env n _) λ _. search keeps_rules;
    on_list = list_jobs-Leased;
    on_logs = λ id. Keeps-bind _ _ (query-Leased env n _) λ _. search keeps_rules;
  }
