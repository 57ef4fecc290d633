-- ===== src/Tests/Update.antt =====
-- The result on the UPDATE of a status at a concrete input.
use taskfire.Prelude.{String, ◌≡◌, some, List, [], ◌∷◌, map, filter}
use taskfire.Json.{Json, text, number, null}
use taskfire.Job.{failed, status_text}
use taskfire.Postgres.Update.{
  update_job_status, mutable_column, assigned, wanted, update_job_status-assigned,
}

abbrev extra : List (String × Json)
extra = ("error", text "timeout") ∷ ("id", null) ∷ ("retry_count", number 2) ∷ []

update_job_status-assigned_example :
    map (assigned (update_job_status "a" failed extra).1) (update_job_status "a" failed extra).0
    ≡ ("status", some (text (status_text failed)))
      ∷ map wanted (filter (λ e. mutable_column e.0) extra)
update_job_status-assigned_example = update_job_status-assigned "a" failed extra
