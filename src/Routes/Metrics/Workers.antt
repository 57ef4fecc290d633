-- ===== src/Routes/Metrics/Workers.antt =====
-- GET /workers of api/src/routes/metrics.ts. The calls of its `Promise.all` are made one after the
-- other.
pub mod Laws
use taskfire.Prelude.{
  ℕ, suc, ◌+◌, ◌-◌, ◌&&◌, ◌||◌, ◌⊎◌, inl, inr, Bool, false, not, sym, Bool-cases, Option-cases, ◌≤◌,
  ◌==◌, String, true, ◌≡◌, refl, ap, subst, ◌∙◌, Option, none, some, List, [], ◌∷◌, length, leb,
  if◌then◌else◌, arith,
}
use taskfire.Prelude.Int.{ℤ, sub_ℕ}
use taskfire.Async.{Async, resolved, resolve, reject, type_error, gets, ◌>>=◌, continue}
use taskfire.Job.{active, status_text}
use taskfire.Postgres.Row.{Row}
use taskfire.Postgres.Active.{
  ActiveJobRow, not_after, NoneBefore, IsOldestFirst, active_rows, get_active_jobs,
  length-active_rows, active_rows-IsOldestFirst, total, total_active, total-active_rows,
}
use taskfire.Postgres.Metrics.{count_of}
use taskfire.Postgres.Session.Laws.Quiet.{query_quiet}
use taskfire.Redis.DeadLetters.{parsed, get_processing_jobs}
use taskfire.Redis.Member.{Document}
use taskfire.Redis.Server.{Redis}
use taskfire.Routes.Metrics.Distinct.{
  contains, set_of, IsDistinct, set_of-IsDistinct, contains-set_of,
}
use taskfire.World.{World, Env, date_now}
use taskfire.World.Quiet.{IsQuiet, io_quiet, date_now_quiet}

-- `ActiveJobSummary`
pub record ActiveJobSummary : Type 0 where
  pub job_id : String
  pub job_type : String
  pub started_at : ℕ
  pub running_for_ms : ℤ

pub record WorkersResponse : Type 0 where
  pub active_workers : ℕ
  pub in_flight_redis : ℕ
  pub discrepancy : ℕ
  pub active_jobs : List ActiveJobSummary
  pub processing_ids_redis : List String

-- `processingRedis.map((j) => j.id).filter(Boolean)`: an empty text is left out too, and on null
-- the access to a field throws.
unfoldable pub present_ids : List (Option Document) → Option (List String)
present_ids [] = some []
present_ids (none ∷ ds) = none
present_ids (some d ∷ ds) =
    let rest = present_ids ds in
    elim rest [
      | none ↦ none
      | some ids ↦ elim d.id [
        | none ↦ some ids
        | some id ↦ some (if id == "" then ids else id ∷ ids)
      ]
    ]

abbrev pub distance : ℕ → ℕ → ℕ
distance a b = if leb b a then a - b else b - a

abbrev pub active_for : ℕ → ℕ → ActiveJobRow → ActiveJobSummary
active_for now t row = record {
  job_id = row.id;
  job_type = row.type;
  started_at = t;
  running_for_ms = sub_ℕ now t;
}

-- A round of the `map` over the rows: `none` where the row has no start, whose methods it calls.
unfoldable pub active_job : ℕ → ActiveJobRow → Option ActiveJobSummary
active_job now row = elim row.started_at [ none ↦ none | some t ↦ some (active_for now t row) ]

unfoldable pub active_jobs : ℕ → List ActiveJobRow → Option (List ActiveJobSummary)
unfolding active_job
active_jobs now [] = some []
active_jobs now (row ∷ rows) =
    let rest = active_jobs now rows in
    elim (active_job now row) [
      | none ↦ none
      | some job ↦ elim rest [ none ↦ none | some jobs ↦ some (job ∷ jobs) ]
    ]

-- The reply of GET /workers, for the active jobs, the number of jobs in flight and their ids.
unfoldable pub workers : List ActiveJobSummary → ℕ → List String → WorkersResponse
unfolding set_of
workers jobs in_flight ids = record {
  active_workers = length jobs;
  in_flight_redis = in_flight;
  discrepancy = distance (length jobs) in_flight;
  active_jobs = jobs;
  processing_ids_redis = set_of [] ids;
}

module _ {Store : Type 0} (redis : Redis Store) (env : Env Store) where
  -- The handler of GET /workers
  unfoldable pub get_workers : Async (World Store) WorkersResponse
  unfolding active_jobs workers present_ids
  get_workers = do
    rows ← get_active_jobs env
    processing ← get_processing_jobs redis env
    now ← date_now env
    elim (active_jobs now rows) [
      | none ↦ reject type_error
      | some jobs ↦ elim (present_ids processing) [
        | none ↦ reject type_error
        | some ids ↦ resolve (workers jobs (length processing) ids)
      ]
    ]
