-- ===== src/Job.antt =====
-- api/src/types/job.ts: the job, its enumerations, and what the request schemas ask for.
-- A date is its time in milliseconds since the epoch, also where the program has it as an ISO text.

pub mod Schema
pub mod Laws
use taskfire.Prelude.{ℕ, String, Option, none, some, List, leb, eqb, if◌then◌else◌}
use taskfire.Json.{Json}

pub data JobStatus : Type 0 where
  pending active completed failed dead : JobStatus

pub data JobPriority : Type 0 where
  high medium low : JobPriority

-- `PRIORITY_VALUE`
unfoldable pub priority_value : JobPriority → ℕ
priority_value high = 300
priority_value medium = 200
priority_value low = 100

-- `PRIORITY_LABEL`; `none` is a missing key.
unfoldable pub priority_label_table : ℕ → Option JobPriority
priority_label_table value =
    if eqb value 300
    then some high
    else if eqb value 200
    then some medium
    else if eqb value 100
    then some low
    else none

-- `priorityLabel`
unfoldable pub priority_label : ℕ → JobPriority
priority_label value = if leb 300 value then high else if leb 200 value then medium else low

pub record Job : Type 0 where
  pub id : String
  pub type : String
  pub payload : Json
  pub priority : ℕ
  pub priority_label : JobPriority
  pub status : JobStatus
  pub max_retries : ℕ
  pub retry_count : ℕ
  pub created_at : ℕ
  pub started_at : Option ℕ
  pub completed_at : Option ℕ
  pub failed_at : Option ℕ
  pub error : Option String
  pub scheduled_at : Option ℕ
  pub dependencies : List String

-- The status as the text that the database and the replies hold.
unfoldable pub status_text : JobStatus → String
status_text pending = "pending"
status_text active = "active"
status_text completed = "completed"
status_text failed = "failed"
status_text dead = "dead"

pub record QueueDepthByLane : Type 0 where
  pub high : ℕ
  pub medium : ℕ
  pub low : ℕ
  pub delayed : ℕ
  pub total : ℕ

pub record DlqEntry : Type 0 where
  pub id : Option String
  pub type : Option String
  pub payload : Json
  pub priority : ℕ
  pub priority_label : JobPriority
  pub error : Option String
  pub retry_count : ℕ
  pub max_retries : ℕ
  pub failed_at : Option ℕ
  pub created_at : Option ℕ
