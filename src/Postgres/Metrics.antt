-- ===== src/Postgres/Metrics.antt =====
-- `getStatusCounts` and `getMetrics` of api/src/services/postgres.ts: what they make of the rows
-- that the database's aggregation gives.
pub mod Laws
pub mod Joined
use taskfire.Prelude.{
  ℕ, zero, ◌==◌, String, Bool, true, false, Option, none, some, List, [], ◌∷◌, get_or,
  if◌then◌else◌, length, filter, eqb, map,
}
use taskfire.Prelude.Int.{ℤ}
use taskfire.Async.{Async, resolve, ◌>>=◌}
use taskfire.Job.{JobStatus, pending, active, completed, failed, dead, status_text}
use taskfire.Postgres.Row.{Row}
use taskfire.Postgres.Average.{avg_ms}
use taskfire.Postgres.Session.{query}
use taskfire.World.{World, Env}

-- `StatusCounts`
pub record StatusCounts : Type 0 where
  pub pending : ℕ
  pub active : ℕ
  pub completed : ℕ
  pub failed : ℕ
  pub dead : ℕ

-- A group: its status, its count, and the average beside it in the joined query, in hundredths of a
-- millisecond.
pub record Group : Type 0 where
  pub status : String
  pub count : ℕ
  pub avg_ms : Option ℤ

-- `map[s]`, after `map[r.status] = …` for every group: of two groups with one status the later
-- stays.
unfoldable pub entry : String → List Group → Option ℕ
entry s [] = none
entry s (g ∷ gs) =
    let later = entry s gs in
    elim later [ some n ↦ some n | none ↦ if g.status == s then some g.count else none ]

-- `getStatusCounts`, behind its query
unfoldable pub status_counts : List Group → StatusCounts
unfolding entry
status_counts gs = record {
  pending = get_or (entry "pending" gs) 0;
  active = get_or (entry "active" gs) 0;
  completed = get_or (entry "completed" gs) 0;
  failed = get_or (entry "failed" gs) 0;
  dead = get_or (entry "dead" gs) 0;
}

-- How many rows have a status.
abbrev pub count_of : JobStatus → List Row → ℕ
count_of s rows = length (filter (λ r. status_text r.status == status_text s) rows)

abbrev pub add_group : JobStatus → ℕ → List Group → List Group
add_group s n gs =
    if eqb n 0 then gs else record { status = status_text s; count = n; avg_ms = none } ∷ gs

-- `SELECT status, COUNT(*) AS count FROM jobs GROUP BY status`: a group for each status that some
-- row has. The order of the groups is the database's; nothing below depends on it.
unfoldable pub groups : List Row → List Group
unfolding status_text
groups rows = add_group pending (count_of pending rows) (
    add_group active (count_of active rows) (
      add_group completed (count_of completed rows)
        (add_group failed (count_of failed rows) (add_group dead (count_of dead rows) []))))

module _ {Store : Type 0} (env : Env Store) where
  -- `getStatusCounts`
  unfoldable pub get_status_counts : Async (World Store) StatusCounts
  unfolding groups status_counts
  get_status_counts = do
    gs ← query env (λ now rows. some (groups rows, rows))
    resolve (status_counts gs)

-- `MetricsSummary`
pub record MetricsSummary : Type 0 where
  pub counts : StatusCounts
  pub avg_processing_ms : Option ℤ

-- `counts[r.status] = n`, where the status is a key of `counts`
unfoldable pub put : String → ℕ → StatusCounts → StatusCounts
put s n c = record {
  pending = if s == "pending" then n else c.pending;
  active = if s == "active" then n else c.active;
  completed = if s == "completed" then n else c.completed;
  failed = if s == "failed" then n else c.failed;
  dead = if s == "dead" then n else c.dead;
}

abbrev pub first_of : Option ℤ → Option ℤ → Option ℤ
first_of none new = new
first_of (some n) new = some n

-- The loop of `getMetrics`.
unfoldable pub metrics_loop : List Group → MetricsSummary → MetricsSummary
unfolding put
metrics_loop [] m = m
metrics_loop (g ∷ gs) m = metrics_loop gs (record {
  counts = put g.status g.count m.counts;
  avg_processing_ms = first_of m.avg_processing_ms g.avg_ms;
})

abbrev pub zeros : StatusCounts
zeros = record { pending = 0; active = 0; completed = 0; failed = 0; dead = 0 }

-- `getMetrics`, behind its query
unfoldable pub metrics : List Group → MetricsSummary
unfolding metrics_loop
metrics gs = metrics_loop gs (record { counts = zeros; avg_processing_ms = none })

-- The rows of the query of `getMetrics`: each group, with the average beside it.
unfoldable pub joined : List Row → List Group
unfolding groups
joined rows = map (λ (g : Group). record g { avg_ms = avg_ms rows }) (groups rows)

module _ {Store : Type 0} (env : Env Store) where
  -- `getMetrics`
  unfoldable pub get_metrics : Async (World Store) MetricsSummary
  unfolding joined metrics
  get_metrics = do gs ← query env (λ now rows. some (joined rows, rows)); resolve (metrics gs)
