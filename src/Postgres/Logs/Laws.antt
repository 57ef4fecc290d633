-- ===== src/Postgres/Logs/Laws.antt =====
-- What the log of a job says: its order, and what a retry and a cancellation make of it.
use taskfire.Prelude.{
  ℕ, suc, ◌≤◌, ◌&&◌, ◌==◌, filter, leb, Bool, true, String, ◌≡◌, refl, Option, none, some, List, [],
  ◌∷◌, ◌++◌, arith, Option-cases, inl, inr,
}
use taskfire.Async.{resolved, resolve, ◌>>=◌, continue}
use taskfire.Postgres.Row.{Row}
use taskfire.Postgres.Table.{select_by_id, set_requeued, touch}
use taskfire.Postgres.Table.View.{lookup}
use taskfire.Postgres.Session.Laws.Quiet.{query_quiet}
use taskfire.Postgres.Logs.{
  JobLog, created_log, scheduled_log, started_log, completed_log, failed_log, row_logs,
  logs_or_empty, get_job_logs,
}
use taskfire.World.{World, Env}
use taskfire.World.Quiet.{IsQuiet}

-- Whether the entries are dated from `t` on, each no earlier than the one before.
unfoldable pub in_order : ℕ → List JobLog → Bool
in_order t [] = true
in_order t (l ∷ ls) = leb t l.timestamp && in_order l.timestamp ls

-- A date that is set is no earlier than `t`.
abbrev pub IsFrom : ℕ → Option ℕ → Type 0
IsFrom t none = Unit
IsFrom t (some at) = t ≤ at

abbrev pub IsFromDate : Option ℕ → Option ℕ → Type 0
IsFromDate none o = Unit
IsFromDate (some t) o = IsFrom t o

-- The dates of a row follow each other: it was created, then started, then completed, then failed.
pub record IsChronological (row : Row) : Type 0 where
  pub starts : IsFrom row.created_at row.started_at
  pub completes : IsFrom row.created_at row.completed_at
  pub fails : IsFrom row.created_at row.failed_at
  pub completes_started : IsFromDate row.started_at row.completed_at
  pub fails_started : IsFromDate row.started_at row.failed_at
  pub fails_completed : IsFromDate row.completed_at row.failed_at

in_order-tail :
    (row : Row) (t : ℕ) (started completed failed_at : Option ℕ)
    → IsFrom t started
    → IsFrom t completed
    → IsFrom t failed_at
    → IsFromDate started completed
    → IsFromDate started failed_at
    → IsFromDate completed failed_at
    → in_order t
        (started_log row started ++ completed_log row completed ++ failed_log row failed_at)
      ≡ true
unfolding in_order started_log completed_log failed_log
in_order-tail row t none none none a b c d e f = refl
in_order-tail row t none none (some z) a b c d e f = ground arith
in_order-tail row t none (some y) none a b c d e f = ground arith
in_order-tail row t none (some y) (some z) a b c d e f = ground arith
in_order-tail row t (some x) none none a b c d e f = ground arith
in_order-tail row t (some x) none (some z) a b c d e f = ground arith
in_order-tail row t (some x) (some y) none a b c d e f = ground arith
in_order-tail row t (some x) (some y) (some z) a b c d e f = ground arith

-- The log of a row whose dates follow each other is in the order of its dates, none of them before
-- the creation.
pub row_logs-in_order :
    (row : Row) → IsChronological row → in_order row.created_at (row_logs row) ≡ true
unfolding row_logs in_order created_log scheduled_log
row_logs-in_order row c =
    let rest =
      in_order-tail row row.created_at row.started_at row.completed_at row.failed_at c.starts
        c.completes c.fails c.completes_started c.fails_started c.fails_completed in
    elim (Option-cases row.scheduled_at) [
      | inl at_once ↦ rw (at_once, scheduled_log) (ground arith)
      | inr (at, later) ↦ rw (later, scheduled_log) (ground arith)
    ]

-- A retry forgets the runs of a job: its log is then the creation and, where it has one, the
-- schedule.
pub row_logs-requeued :
    (reset : Bool) (now : ℕ) (row : Row)
    → row_logs (touch now (set_requeued reset now row))
      ≡ created_log row ++ scheduled_log row row.scheduled_at
unfolding row_logs set_requeued created_log scheduled_log started_log completed_log failed_log
row_logs-requeued reset now row = elim (Option-cases row.scheduled_at) [
  | inl at_once ↦ rw (at_once, scheduled_log) refl
  | inr (at, later) ↦ rw (later, scheduled_log) refl
]

-- The log of an id, by the row that it has.
abbrev pub logs_of : Option Row → List JobLog
logs_of none = []
logs_of (some row) = row_logs row

pub logs-select :
    (id : String) (rows : List Row)
    → logs_or_empty (filter (λ r. r.id == id) rows) ≡ logs_of (lookup id rows)
unfolding logs_or_empty lookup
logs-select id [] = refl
logs-select id (r ∷ rows) = ground (arith, logs-select id rows)

-- Where nobody else writes and every call comes back, the log of an id is the one of its row, empty
-- where it has none, and the table stays as it was.
pub get_job_logs-lookup :
    {Store : Type 0} {env : Env Store} (quiet : IsQuiet env) (id : String) (w : World Store)
    → (v : World Store) × (get_job_logs env id w ≡ resolved (logs_of (lookup id w.jobs)) v)
      × (v.jobs ≡ w.jobs)
      × (v.redis ≡ w.redis)
unfolding get_job_logs select_by_id ◌>>=◌ resolve
get_job_logs-lookup quiet id w = (
  record w { steps = suc (suc w.steps) },
  rw (query_quiet quiet (select_by_id id) w _ _ refl) (rw (continue, logs-select id w.jobs) refl),
  refl,
  refl,
)
