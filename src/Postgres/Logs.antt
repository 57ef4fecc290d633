-- ===== src/Postgres/Logs.antt =====
-- `getJobLogs` of api/src/services/postgres.ts: the log that the timestamps of a row tell.
pub mod Laws
use taskfire.Prelude.{ℕ, ◌+◌, String, Option, none, some, List, [], ◌∷◌, ◌++◌}
use taskfire.Prelude.Int.{ℤ, sub_ℕ}
use taskfire.Async.{Async, resolve, ◌>>=◌}
use taskfire.Job.{JobStatus}
use taskfire.Postgres.Row.{Row}
use taskfire.Postgres.Table.{select_by_id}
use taskfire.Postgres.Session.{query}
use taskfire.World.{World, Env}

pub data Event : Type 0 where
  created scheduled started completed failed dead : Event

-- What a detail text is made of.
pub data Detail : Type 0 where
  -- type="…" priority=… max_retries=…
  submitted : String → ℕ → ℕ → Detail
  -- runs_at=…
  runs_at : ℕ → Detail
  -- attempt=… max_attempts=…
  attempt : ℕ → ℕ → Detail
  -- processing_time_ms=…
  processing_time : ℤ → Detail
  -- the row's error
  message : String → Detail

pub record JobLog : Type 0 where
  pub event : Event
  pub timestamp : ℕ
  pub detail : Option Detail

abbrev pub log : Event → ℕ → Option Detail → JobLog
log e t d = record { event = e; timestamp = t; detail = d }

unfoldable pub created_log : Row → List JobLog
created_log row =
    log created row.created_at (some (submitted row.type row.priority row.max_retries)) ∷ []

unfoldable pub scheduled_log : Row → Option ℕ → List JobLog
scheduled_log row none = []
scheduled_log row (some at) = log scheduled row.created_at (some (runs_at at)) ∷ []

unfoldable pub started_log : Row → Option ℕ → List JobLog
started_log row none = []
started_log row (some at) =
    log started at (some (attempt (row.retry_count + 1) (row.max_retries + 1))) ∷ []

abbrev duration : Option ℕ → ℕ → Option Detail
duration none end = none
duration (some start) end = some (processing_time (sub_ℕ end start))

unfoldable pub completed_log : Row → Option ℕ → List JobLog
completed_log row none = []
completed_log row (some at) = log completed at (duration row.started_at at) ∷ []

unfoldable pub failure_event : JobStatus → Event
failure_event JobStatus.dead = dead
failure_event _ = failed

abbrev error_detail : Option String → Option Detail
error_detail none = none
error_detail (some e) = some (message e)

unfoldable pub failed_log : Row → Option ℕ → List JobLog
unfolding failure_event
failed_log row none = []
failed_log row (some at) = log (failure_event row.status) at (error_detail row.error) ∷ []

unfoldable pub row_logs : Row → List JobLog
unfolding created_log scheduled_log started_log completed_log failed_log
row_logs row =
    created_log row
    ++ scheduled_log row row.scheduled_at
    ++ started_log row row.started_at
    ++ completed_log row row.completed_at
    ++ failed_log row row.failed_at

unfoldable pub logs_or_empty : List Row → List JobLog
unfolding row_logs
logs_or_empty [] = []
logs_or_empty (row ∷ rows) = row_logs row

module _ {Store : Type 0} (env : Env Store) where
  -- `getJobLogs`
  unfoldable pub get_job_logs : String → Async (World Store) (List JobLog)
  get_job_logs id = do rows ← query env (select_by_id id); resolve (logs_or_empty rows)
