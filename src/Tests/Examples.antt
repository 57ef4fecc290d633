-- ===== src/Tests/Examples.antt =====
-- The results at concrete inputs.
use taskfire.Prelude.{
  ℕ, ◌≡◌, ◌<◌, ltb, eqb, refl, if◌then◌else◌, ◌↔◌, Bool, true, false, none, some, List, [], ◌∷◌,
  ◌++◌, length, arith,
}
use taskfire.Json.{null}
use taskfire.Async.{resolved, rejected, unavailable}
use taskfire.Async.Keeps.{Keeps}
use taskfire.Job.{high, medium, priority_value, priority_label, priority_label_table}
use taskfire.Job.Schema.{ListJobsQuery}
use taskfire.Job.Laws.{priority_label-value}
use taskfire.Postgres.Row.{Row, row_to_job}
use taskfire.Postgres.Table.{CreateJobParams, new_row, cancel_statement}
use taskfire.Postgres.Table.View.{lookup}
use taskfire.Postgres.Session.{effect, connect_postgres_with_retry, with_transaction, client_query}
use taskfire.Postgres.Session.Laws.Atomic.{
  HasJobs, AllOrNothing, client_query-HasJobs, with_transaction-AllOrNothing,
}
use taskfire.Postgres.Session.Laws.Retry.{Probed, connect_postgres_with_retry-Connected}
use taskfire.World.Retry.{backoff, Connected}
use taskfire.Postgres.Listing.{list_jobs}
use taskfire.Postgres.Listing.Clauses.{Selected}
use taskfire.Postgres.Listing.Laws.{listing, list_jobs-listing}
use taskfire.Postgres.Listing.Pages.{page_count, page_of, pages_to, pages_to-page_count}
use taskfire.Postgres.Logs.{row_logs}
use taskfire.Postgres.Logs.Laws.{in_order, IsChronological, row_logs-in_order}
use taskfire.Postgres.Table.Descent.{Descends}
use taskfire.Redis.Member.{Member, delayed}
use taskfire.Redis.Queue.{lane_key, remove_from_queue}
use taskfire.Redis.Queue.Lanes.{lane_of, lane_key-priority_label}
use taskfire.Redis.Queue.Removal.{Removed, remove_from_queue-Removed}
use taskfire.Routes.Reply.{Reply, reply, job}
use taskfire.Routes.Jobs.{
  Request, posts, deletes, retries, enqueue_payload, post_job, delete_job, retry_job, serve,
}
use taskfire.Routes.Jobs.Invariant.{serve-Descends, serve-connections}
use taskfire.Routes.Jobs.Cancel.{Deleted, delete_job-Deleted, delete_job-delayed}
use taskfire.Routes.Jobs.Retry.{Retried, retry_job-Retried}
use taskfire.Routes.Jobs.Create.{EnqueuedBy, asked, post_job-Enqueued}
use taskfire.World.{World, Env}
use taskfire.World.Quiet.{IsAlone}
use taskfire.Tests.Store.{Sets, server, server-rounds}
use taskfire.Tests.Samples.{
  id_free, buried, table, table-IsTable, start, calm, calm-IsQuiet, Sent, creates, names, resets,
  zod, input, zod-create, zod-id, zod-buried, zod-retry,
}

abbrev requests : List (Request Sent)
requests =
    posts (creates input)
    ∷ retries (names "b") (resets true)
    ∷ deletes (names "a")
    ∷ deletes (names "missing")
    ∷ []

serve-Descends_example : Descends table (serve zod server calm 1 requests start).jobs
serve-Descends_example =
    serve-Descends zod server calm-IsQuiet.alone 1 requests start (λ i. start.writes)

serve-connections_example : (serve zod server calm 1 requests start).connections ≡ 0
serve-connections_example = serve-connections zod server calm 1 requests start

delete_job-Deleted_example :
    (r : Reply) × (v : World Sets) × (delete_job zod server calm 1 (names "a") start ≡ resolved r v)
    × Deleted server "a" start (lookup "a" table) r v
delete_job-Deleted_example =
    delete_job-Deleted zod server calm-IsQuiet "a" 1 (names "a") start zod-id table-IsTable
      (λ k. server-rounds k start.redis)

delete_job-delayed_example :
    (r : Reply) × (v : World Sets) × (delete_job zod server calm 1 (names "a") start ≡ resolved r v)
    × ((m : Member) → server.zscore delayed m v.redis ≡ server.zscore delayed m start.redis)
delete_job-delayed_example =
    delete_job-delayed zod server calm-IsQuiet "a" 1 (names "a") start zod-id table-IsTable
      (λ k. server-rounds k start.redis)

retry_job-Retried_example :
    (r : Reply) × (v : World Sets) × (retry_job zod server calm (names "b") (resets true) start
      ≡ resolved r v)
    × Retried server "b" true start (lookup "b" table) r v
retry_job-Retried_example =
    retry_job-Retried zod server calm-IsQuiet "b" true (names "b") (resets true) start zod-buried
      zod-retry table-IsTable

post_job-Enqueued_example :
    (v : World Sets) × (row : Row) × (now : ℕ) × (post_job zod server calm (creates input) start
      ≡ resolved (reply 201 (job (row_to_job row))) v)
    × (row ≡ new_row (asked input "c") now)
    × (v.jobs ≡ table ++ row ∷ [])
    × EnqueuedBy server (enqueue_payload (row_to_job row) 0) (some 9500) start.redis v.redis true
post_job-Enqueued_example =
    post_job-Enqueued zod server calm-IsQuiet (creates input) input start zod-create id_free

-- The COMMIT is the fourth call, and its answer is lost.
abbrev losing : Env Sets
losing = record calm { fails = λ n. eqb n 3; lands = λ n. eqb n 3 }

losing-IsAlone : IsAlone losing
losing-IsAlone = record { no_others = λ n rows. refl; no_traffic = λ n s. refl }

cancels-Keeps :
    (rows : List Row) → Keeps (HasJobs rows) (client_query losing (cancel_statement "a"))
cancels-Keeps = client_query-HasJobs losing-IsAlone (cancel_statement "a")

with_transaction-AllOrNothing_example :
    AllOrNothing losing
      (client_query losing (cancel_statement "a"))
      table
      (with_transaction losing (client_query losing (cancel_statement "a")) start)
with_transaction-AllOrNothing_example =
    with_transaction-AllOrNothing losing-IsAlone (client_query losing (cancel_statement "a"))
      cancels-Keeps start

-- The job is cancelled, and the caller hears of a failure.
cancelled_unheard :
    with_transaction losing (client_query losing (cancel_statement "a")) start
    ≡ rejected unavailable
        (record start { jobs = (effect losing (cancel_statement "a") 5003 table); steps = 5 })
unfolding with_transaction client_query taskfire.Postgres.Session.connect
    taskfire.Postgres.Session.begin taskfire.Postgres.Session.commit
    taskfire.Postgres.Session.rollback taskfire.Async.◌>>=◌ taskfire.Async.catch
    taskfire.Async.finally taskfire.World.io cancel_statement
cancelled_unheard = refl

abbrev first_page : ListJobsQuery
first_page = record { status = none; priority = some high; type = none; page = 1; limit = 20 }

list_jobs-listing_example :
    (p : Row → Bool) × (v : World Sets) × ((r : Row) → (p r ≡ true) ↔ Selected first_page r)
    × (list_jobs calm first_page start ≡ resolved (listing calm first_page p table) v)
    × (v.jobs ≡ table)
    × (v.redis ≡ start.redis)
list_jobs-listing_example = list_jobs-listing calm-IsQuiet first_page start (omega arith)

three : page_count (length table) 1 < 3
unfolding page_count
three = omega arith

pages_to-page_count_example :
    (pages_to (page_count (length table) 1) 1 table ≡ table) × (page_of 3 1 table ≡ [])
pages_to-page_count_example = pages_to-page_count 1 3 table (omega arith) three

remove_from_queue-Removed_example :
    (v : World Sets) × (b : Bool) × (remove_from_queue server calm 1 "a" 300 start
      ≡ resolved (some b) v)
    × Removed server (lane_key 300) "a" start.redis v.redis b
    × (v.jobs ≡ table)
remove_from_queue-Removed_example =
    remove_from_queue-Removed server calm-IsQuiet "a" 300 1 start
      (server-rounds (lane_key 300) start.redis)

abbrev outage : Env Sets
outage = record calm { fails = λ n. if ltb n 4 then true else false }

connect_postgres_with_retry-Connected_example :
    Connected outage
      (Probed outage)
      (backoff 10)
      start
      (connect_postgres_with_retry outage 10 start)
connect_postgres_with_retry-Connected_example =
    connect_postgres_with_retry-Connected outage 10 start (omega arith)

buried-IsChronological : IsChronological buried
buried-IsChronological = record {
  starts = omega arith;
  completes = tt;
  fails = tt;
  completes_started = tt;
  fails_started = tt;
  fails_completed = tt;
}

row_logs-in_order_example : in_order 1000 (row_logs buried) ≡ true
row_logs-in_order_example = row_logs-in_order buried buried-IsChronological

lane_key-priority_label_example : lane_key 250 ≡ lane_of (priority_label 250)
lane_key-priority_label_example = lane_key-priority_label 250

priority_label-value_example :
    (priority_label (priority_value medium) ≡ medium)
    × (priority_label_table (priority_value medium) ≡ some medium)
priority_label-value_example = priority_label-value medium

abbrev params : CreateJobParams
params = record {
  id = "c";
  type = "email";
  payload = null;
  priority = 200;
  max_retries = 3;
  scheduled_at = none;
  dependencies = [];
}
