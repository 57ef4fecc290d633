-- ===== src/Dashboard/JobTable/Details.antt =====
-- Texts of a job's row, and the open row: `fmtDuration`, `truncate` and `ExpandedRow` of
-- dashboard/src/components/JobTable.tsx.
use taskfire.Prelude.{
  ℕ, String, Bool, true, false, ◌==◌, Option, none, some, List, [], ◌∷◌, ◌++◌, map, length, take,
  ltb, eqb, if◌then◌else◌,
}
use taskfire.Prelude.Int.{ℤ, pos, negsuc, sub_ℕ}
use taskfire.Json.{Json}
use taskfire.Job.{Job, JobStatus, active}

-- The text of `fmtDuration`: `dash` is '—', a value with its unit is rounded by `toFixed(digits)`,
-- and `running` puts '↺' behind it.
pub data Duration : Type 0 where
  dash : Duration
  millis : ℤ → Duration
  seconds minutes : (ms digits : ℕ) (running : Bool) → Duration

unfoldable pub duration_text : (second_digits : ℕ) (running : Bool) → ℤ → Duration
duration_text digits running (negsuc n) = millis (negsuc n)
duration_text digits running (pos ms) =
    if ltb ms 1000
    then millis (pos ms)
    else if ltb ms 60000
    then seconds ms digits running
    else minutes ms 1 running

unfoldable pub is_active : JobStatus → Bool
is_active active = true
is_active _ = false

-- `fmtDuration`, at the time `now`
unfoldable pub fmt_duration : ℕ → Job → Duration
unfolding duration_text is_active
fmt_duration now j = elim j.started_at [
  | none ↦ dash
  | some started ↦ elim j.completed_at [
    | some done ↦ duration_text 2 false (sub_ℕ done started)
    | none ↦ if is_active j.status then duration_text 1 true (sub_ℕ now started) else dash
  ]
]

-- `truncate`, on the UTF-16 units of a text; 0x2026 is '…'.
unfoldable pub truncate : List ℕ → ℕ → List ℕ
truncate s n = if ltb n (length s) then take n s ++ 0x2026 ∷ [] else s

pub record LogEntry : Type 0 where
  pub event : String
  pub timestamp : ℕ
  -- `none` is null
  pub detail : Option String

-- What `useJobLogs` holds: `logs` is `data?.logs`.
pub record LogQuery : Type 0 where
  pub is_loading : Bool
  pub logs : Option (List LogEntry)

pub data LogView : Type 0 where
  loading no_entries : LogView
  entries : List LogEntry → LogView

-- `x && …` on a text: the empty text counts as absent.
unfoldable pub present : Option String → Option String
present none = none
present (some s) = if s == "" then none else some s

unfoldable pub with_detail : LogEntry → LogEntry
unfolding present
with_detail e = record e { detail = present e.detail }

unfoldable pub log_view : LogQuery → LogView
unfolding with_detail
log_view q = if q.is_loading then loading else elim q.logs [
  | none ↦ no_entries
  | some logs ↦ if eqb (length logs) 0 then no_entries else entries (map with_detail logs)
]

-- `ExpandedRow`
pub record ExpandedRow : Type 0 where
  pub id : String
  pub created_at : ℕ
  pub started_at : Option ℕ
  pub completed_at : Option ℕ
  pub failed_at : Option ℕ
  -- shown only where the job has one
  pub scheduled_at : Option ℕ
  pub dependencies : List String
  pub error : Option String
  pub payload : Json
  pub log : LogView

unfoldable pub expanded_row : LogQuery → Job → ExpandedRow
unfolding present log_view
expanded_row logs j = record {
  id = j.id;
  created_at = j.created_at;
  started_at = j.started_at;
  completed_at = j.completed_at;
  failed_at = j.failed_at;
  scheduled_at = j.scheduled_at;
  dependencies = j.dependencies;
  error = present j.error;
  payload = j.payload;
  log = log_view logs;
}
