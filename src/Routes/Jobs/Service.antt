-- ===== src/Routes/Jobs/Service.antt =====
-- What the routes of api/src/routes/jobs.ts promise: a service on a map from ids to rows. It knows
-- neither statements nor queues, and forgets the order of the table.
use taskfire.Prelude.{ℕ, String, Bool, ◌==◌, Option, none, some, if◌then◌else◌}
use taskfire.Async.{constraint}
use taskfire.Job.Schema.{Zod, success, failure, CreateJobInput}
use taskfire.Postgres.Row.{Row, row_to_job}
use taskfire.Postgres.Table.{new_row, retriable}
use taskfire.Postgres.Logs.{row_logs}
use taskfire.Routes.Reply.{
  Reply, reply, zod_error, not_found, conflict, job, job_logs, empty, error_handler,
}
use taskfire.Routes.Jobs.{
  uncancellable, retry_refusal, Request, posts, lists, gets_one, deletes, asks_logs, retries,
}
use taskfire.Routes.Jobs.CancelRow.{cancelled}
use taskfire.Routes.Jobs.Create.{asked}
use taskfire.Routes.Jobs.Retry.{requeued}

abbrev pub Jobs : Type 0
Jobs = String → Option Row

abbrev pub put : String → Row → Jobs → Jobs
put id row jobs j = if id == j then some row else jobs j

-- A reply, and the jobs behind it; no reply where it depends on the order of the table.
abbrev pub Service : Type 0
Service = Jobs → Option Reply × Jobs

abbrev pub says : Reply → Service
says r jobs = (some r, jobs)

abbrev pub on_row : (Row → Service) → Jobs → Option Row → Option Reply × Jobs
on_row serve jobs none = (some not_found, jobs)
on_row serve jobs (some row) = serve row jobs

-- The request is for the row of an id.
abbrev pub for_row : String → (Row → Service) → Service
for_row id serve jobs = on_row serve jobs (jobs id)

module _ (now : ℕ) where
  abbrev pub posted : String → CreateJobInput → Service
  posted id input jobs = elim (jobs id) [
    | some taken ↦ (some (error_handler constraint), jobs)
    | none ↦
        let row = new_row (asked input id) now in
        (some (reply 201 (job (row_to_job row))), put id row jobs)
  ]

  abbrev pub deleted : String → Row → Service
  deleted id row jobs = elim (uncancellable row.status) [
    | some message ↦ (some (conflict message), jobs)
    | none ↦ (some (reply 204 empty), put id (cancelled now row) jobs)
  ]

  abbrev pub retried : String → Bool → Row → Service
  retried id reset row jobs =
      if retriable row.status
      then (
        some (reply 200 (job (row_to_job (requeued reset now row)))),
        put id (requeued reset now row) jobs,
      )
      else (some (conflict (retry_refusal row.status)), jobs)

  -- The reply to a request at a time, with an id for a new job.
  unfoldable pub service : {Body : Type 0} → Zod Body → String → Request Body → Service
  service zod new_id (posts body) = elim (zod.parse_create body) [
    | failure details ↦ says (zod_error details)
    | success input ↦ posted new_id input
  ]
  service zod new_id (lists query) = λ jobs. (none, jobs)
  service zod new_id (gets_one params) = elim (zod.parse_id params) [
    | failure details ↦ says (zod_error details)
    | success id ↦ for_row id λ row. says (reply 200 (job (row_to_job row)))
  ]
  service zod new_id (deletes params) = elim (zod.parse_id params) [
    | failure details ↦ says (zod_error details)
    | success id ↦ for_row id (deleted id)
  ]
  service zod new_id (asks_logs params) = elim (zod.parse_id params) [
    | failure details ↦ says (zod_error details)
    | success id ↦ for_row id λ row. says (reply 200 (job_logs row.id row.type (row_logs row)))
  ]
  service zod new_id (retries params body) = elim (zod.parse_id params) [
    | failure details ↦ says (zod_error details)
    | success id ↦ elim (zod.parse_retry body) [
      | failure details ↦ says (zod_error details)
      | success reset ↦ for_row id (retried id reset)
    ]
  ]
