-- ===== src/Routes/Reply.antt =====
-- Replies, the 400 reply of a schema that fails, and the global error handler of api/src/index.ts.
use taskfire.Prelude.{ℕ, String, List}
use taskfire.Async.{Error, Outcome, resolved, rejected}
use taskfire.Job.{Job, DlqEntry}
use taskfire.Job.Schema.{Issue}
use taskfire.Postgres.Logs.{JobLog}

pub record JobListResponse : Type 0 where
  pub jobs : List Job
  pub total : ℕ
  pub page : ℕ
  pub limit : ℕ
  pub pages : ℕ

-- The reply of GET /dead-letter.
pub record DeadLetterResponse : Type 0 where
  pub jobs : List DlqEntry
  pub total : ℕ
  pub limit : ℕ
  pub offset : ℕ

pub data Body : Type 0 where
  issues : List Issue → Body
  problem : (error message : String) → Body
  job : Job → Body
  job_list : JobListResponse → Body
  job_logs : (job_id job_type : String) → List JobLog → Body
  dead_letters : DeadLetterResponse → Body
  empty : Body

pub record Reply : Type 0 where
  pub status : ℕ
  pub body : Body

abbrev pub reply : ℕ → Body → Reply
reply status body = record { status = status; body = body }

-- `zodError`
abbrev pub zod_error : List Issue → Reply
zod_error details = reply 400 (issues details)

abbrev pub not_found : Reply
not_found = reply 404 (problem "not_found" "Job not found")

abbrev pub conflict : String → Reply
conflict message = reply 409 (problem "conflict" message)

-- `setErrorHandler`: the errors of the stores carry no status code.
unfoldable pub error_handler : Error → Reply
error_handler e = reply 500 (problem "internal_server_error" "An unexpected error occurred")

-- What a client is answered, and the world behind the answer.
unfoldable pub answer : {W : Type 0} → Outcome W Reply → Reply × W
unfolding error_handler
answer (resolved r w) = (r, w)
answer (rejected e w) = (error_handler e, w)
