-- ===== src/Postgres/Row.antt =====
-- A row of the table `jobs` (postgres/init.sql) and its mapping to a job. The columns that the
-- table declares NOT NULL hold a value, so the defaults of `rowToJob` for them have no case here.
use taskfire.Prelude.{ℕ, String, Option, List}
use taskfire.Json.{Json}
use taskfire.Job.{JobStatus, Job, priority_label}

pub record Row : Type 0 where
  pub id : String
  pub type : String
  pub payload : Json
  pub priority : ℕ
  pub status : JobStatus
  pub retry_count : ℕ
  pub max_retries : ℕ
  pub error : Option String
  pub dependencies : List String
  pub created_at : ℕ
  pub updated_at : ℕ
  pub scheduled_at : Option ℕ
  pub started_at : Option ℕ
  pub completed_at : Option ℕ
  pub failed_at : Option ℕ

-- `rowToJob`
unfoldable pub row_to_job : Row → Job
row_to_job row = record {
  id = row.id;
  type = row.type;
  payload = row.payload;
  priority = row.priority;
  priority_label = priority_label row.priority;
  status = row.status;
  max_retries = row.max_retries;
  retry_count = row.retry_count;
  created_at = row.created_at;
  started_at = row.started_at;
  completed_at = row.completed_at;
  failed_at = row.failed_at;
  error = row.error;
  scheduled_at = row.scheduled_at;
  dependencies = row.dependencies;
}
