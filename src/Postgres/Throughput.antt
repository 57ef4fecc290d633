-- ===== src/Postgres/Throughput.antt =====
-- `getThroughput` of api/src/services/postgres.ts: the finished jobs of the last hour by their
-- minute.
use taskfire.Prelude.{ℕ, ◌+◌, ◌*◌, ◌/◌, none, some, List, [], ◌∷◌, ltb, eqb, if◌then◌else◌}
use taskfire.Async.{Async}
use taskfire.Job.{JobStatus, completed, failed, dead}
use taskfire.Postgres.Row.{Row}
use taskfire.Postgres.Session.{query}
use taskfire.World.{World, Env}

-- `ThroughputRow` and a point of the series; a time is its instant in milliseconds.
pub record ThroughputRow : Type 0 where
  pub time : ℕ
  pub completed : ℕ
  pub failed : ℕ

-- `date_trunc('minute', t)`
abbrev pub minute_of : ℕ → ℕ
minute_of t = t / 60000 * 60000

-- What a row adds to the two counts of its group, by its status: the FILTER clauses.
unfoldable pub completed_count : JobStatus → ℕ
completed_count completed = 1
completed_count _ = 0

unfoldable pub failed_count : JobStatus → ℕ
failed_count failed = 1
failed_count dead = 1
failed_count _ = 0

abbrev pub new_group : ℕ → JobStatus → ThroughputRow
new_group m s = record { time = m; completed = completed_count s; failed = failed_count s }

abbrev pub join_group : JobStatus → ThroughputRow → ThroughputRow
join_group s g = record g {
  completed = g.completed + completed_count s;
  failed = g.failed + failed_count s;
}

-- A row joins the groups, which stand in the order of their minutes: GROUP BY 1 ORDER BY 1.
unfoldable pub group_row : ℕ → JobStatus → List ThroughputRow → List ThroughputRow
unfolding completed_count failed_count
group_row m s [] = new_group m s ∷ []
group_row m s (g ∷ gs) =
    let rest = group_row m s gs in
    if ltb m g.time
    then new_group m s ∷ g ∷ gs
    else if eqb m g.time
    then join_group s g ∷ gs
    else g ∷ rest

-- The statement's rows at a time of the database.
unfoldable pub throughput_rows : ℕ → List Row → List ThroughputRow
unfolding group_row
throughput_rows now [] = []
throughput_rows now (r ∷ rs) =
    let rest = throughput_rows now rs in
    elim r.completed_at [
      | none ↦ rest
      | some t ↦ if ltb now (t + 3600000) then group_row (minute_of t) r.status rest else rest
    ]

-- `getThroughput`
unfoldable pub get_throughput :
    {Store : Type 0} → Env Store → Async (World Store) (List ThroughputRow)
unfolding throughput_rows
get_throughput env = query env (λ now rows. some (throughput_rows now rows, rows))
