-- ===== src/Redis/Member.antt =====
-- What the sorted sets hold. A member is a text; the model keeps what `JSON.parse` makes of it, and
-- a number that tells apart the texts of one document (the Go worker orders the fields
-- differently).
use taskfire.Prelude.{ℕ, String, Option, none, some, List}
use taskfire.Json.{Json}

-- The keys of api/src/services/redis.ts, less the list of finished jobs.
pub data Key : Type 0 where
  queue_high queue_medium queue_low delayed processing dlq : Key

-- The fields of a parsed job; a field that is missing or null is `none`.
pub record Document : Type 0 where
  pub id : Option String
  pub type : Option String
  pub payload : Option Json
  pub priority : Option ℕ
  pub status : Option String
  pub max_retries : Option ℕ
  pub retry_count : Option ℕ
  pub created_at : Option ℕ
  pub scheduled_at : Option ℕ
  pub dependencies : Option (List String)
  pub error_message : Option String
  pub failed_at : Option ℕ

pub data Member : Type 0 where
  document : (layout : ℕ) → Document → Member
  -- a text that `JSON.parse` refuses
  malformed : ℕ → Member
  -- the JSON value null, in some layout
  null_text : (layout : ℕ) → Member

-- `EnqueuePayload`
pub record EnqueuePayload : Type 0 where
  pub id : String
  pub type : String
  pub payload : Json
  pub priority : ℕ
  pub status : String
  pub max_retries : ℕ
  pub retry_count : ℕ
  pub created_at : ℕ
  pub scheduled_at : Option ℕ
  pub dependencies : Option (List String)

unfoldable pub document_of : EnqueuePayload → Document
document_of job = record {
  id = some job.id;
  type = some job.type;
  payload = some job.payload;
  priority = some job.priority;
  status = some job.status;
  max_retries = some job.max_retries;
  retry_count = some job.retry_count;
  created_at = some job.created_at;
  scheduled_at = job.scheduled_at;
  dependencies = job.dependencies;
  error_message = none;
  failed_at = none;
}

-- `JSON.stringify(job)`
unfoldable pub stringify : EnqueuePayload → Member
unfolding document_of
stringify job = document 0 (document_of job)

-- `JSON.parse(member)` and a read of a field: either may throw
unfoldable pub parse : Member → Option Document
parse (document layout d) = some d
parse (malformed n) = none
parse (null_text layout) = none
