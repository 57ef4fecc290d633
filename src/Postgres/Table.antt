-- ===== src/Postgres/Table.antt =====
-- The SQL statements of api/src/services/postgres.ts over the table `jobs`, with its primary key,
-- its CHECK and its trigger (postgres/init.sql). `none` is a statement that the database refuses.
pub mod Laws
pub mod View
pub mod Descent
use taskfire.Prelude.{
  ℕ, String, Bool, true, false, ◌&&◌, ◌||◌, ◌==◌, ◌≡◌, Option, none, some, List, [], ◌∷◌, ◌++◌, map,
  filter, all, leb, if◌then◌else◌,
}
use taskfire.Json.{Json}
use taskfire.Job.{JobStatus, pending, active, completed, failed, dead}
use taskfire.Postgres.Row.{Row}

-- A statement reads `NOW()` and the table, and gives its rows and the new table.
abbrev pub Statement : Type 0 → Type 0
Statement A = ℕ → List Row → Option (A × List Row)

unfoldable pub has_id : String → List Row → Bool
has_id id [] = false
has_id id (r ∷ rows) = r.id == id || has_id id rows

-- `retry_count_lte_max`; the other two CHECKs say that a natural number is not negative.
unfoldable pub checks : Row → Bool
checks r = leb r.retry_count r.max_retries

pub record CreateJobParams : Type 0 where
  pub id : String
  pub type : String
  pub payload : Json
  pub priority : ℕ
  pub max_retries : ℕ
  pub scheduled_at : Option ℕ
  pub dependencies : List String

unfoldable pub new_row : CreateJobParams → ℕ → Row
new_row params now = record {
  id = params.id;
  type = params.type;
  payload = params.payload;
  priority = params.priority;
  status = pending;
  retry_count = 0;
  max_retries = params.max_retries;
  error = none;
  dependencies = params.dependencies;
  created_at = now;
  updated_at = now;
  scheduled_at = params.scheduled_at;
  started_at = none;
  completed_at = none;
  failed_at = none;
}

-- `INSERT INTO jobs … RETURNING *`
unfoldable pub insert_statement : CreateJobParams → Statement (List Row)
unfolding new_row checks
insert_statement params now rows =
    let row = new_row params now in
    if has_id params.id rows
    then none
    else if checks row
    then some (row ∷ [], rows ++ row ∷ [])
    else none

-- `SELECT * FROM jobs WHERE id = $1`
unfoldable pub select_by_id : String → Statement (List Row)
select_by_id id now rows = some (filter (λ r. r.id == id) rows, rows)

-- The trigger `trg_jobs_updated_at`.
abbrev pub touch : ℕ → Row → Row
touch now r = record r { updated_at = now }

abbrev pub replace_where : (Row → Bool) → (Row → Row) → List Row → List Row
replace_where p f = map (λ r. if p r then f r else r)

-- `UPDATE jobs SET f WHERE p RETURNING *`
unfoldable pub update_statement : (Row → Bool) → (ℕ → Row → Row) → Statement (List Row)
unfolding checks
update_statement p f now rows =
    let set = λ (r : Row). touch now (f now r) in
    let changed = map set (filter p rows) in
    if all checks changed then some (changed, replace_where p set rows) else none

-- `status IN ('pending', 'failed', 'dead')`
unfoldable pub cancellable : JobStatus → Bool
cancellable pending = true
cancellable active = false
cancellable completed = false
cancellable failed = true
cancellable dead = true

-- `status IN ('failed', 'dead')`
unfoldable pub retriable : JobStatus → Bool
retriable pending = false
retriable active = false
retriable completed = false
retriable failed = true
retriable dead = true

-- The SET clause of `cancelJob`, and its WHERE clause.
unfoldable pub set_cancelled : ℕ → Row → Row
set_cancelled now r = record r {
  status = failed;
  error = some "cancelled by user";
  failed_at = some now;
}

unfoldable pub where_cancellable : String → Row → Bool
unfolding cancellable
where_cancellable id r = r.id == id && cancellable r.status

unfoldable pub cancel_statement : String → Statement (List Row)
unfolding update_statement where_cancellable set_cancelled
cancel_statement id = update_statement (where_cancellable id) set_cancelled

-- The SET clause of `requeueJob`, and its WHERE clause.
unfoldable pub set_requeued : Bool → ℕ → Row → Row
set_requeued reset_retries now r = record r {
  status = pending;
  retry_count = if reset_retries then 0 else r.retry_count;
  error = none;
  failed_at = none;
  started_at = none;
  completed_at = none;
}

unfoldable pub where_retriable : String → Row → Bool
unfolding retriable
where_retriable id r = r.id == id && retriable r.status

unfoldable pub requeue_statement : String → Bool → Statement (List Row)
unfolding update_statement where_retriable set_requeued
requeue_statement id reset_retries =
    update_statement (where_retriable id) (set_requeued reset_retries)
