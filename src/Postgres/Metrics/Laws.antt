-- ===== src/Postgres/Metrics/Laws.antt =====
-- The two ways to count jobs by their status agree.
use taskfire.Prelude.{
  suc, some, eqb, Bool-cases, ℕ, ◌==◌, String, ◌≡◌, refl, ◌∙◌, none, List, [], ◌∷◌, get_or,
  if◌then◌else◌, arith, Option-cases, inl, inr,
}
use taskfire.Job.{JobStatus, pending, active, completed, failed, dead, status_text}
use taskfire.Async.{resolved, resolve, ◌>>=◌, continue}
use taskfire.Postgres.Row.{Row}
use taskfire.Postgres.Session.Laws.Quiet.{query_quiet}
use taskfire.World.{World, Env}
use taskfire.World.Quiet.{IsQuiet}
use taskfire.Postgres.Metrics.{
  count_of, add_group, groups, get_status_counts, StatusCounts, Group, entry, status_counts,
  MetricsSummary, put, metrics_loop, zeros, metrics, first_of,
}

-- One group of a status, and what is behind it, over a number from before.
entry-put :
    (s : String) (g : Group) (gs : List Group) (n : ℕ)
    → get_or (entry s (g ∷ gs)) n ≡ get_or (entry s gs) (if g.status == s then g.count else n)
unfolding entry
entry-put s g gs n = elim (Option-cases (entry s gs)) [
  | inl absent ↦ rw (absent, entry) (ground arith)
  | inr (k, there) ↦ rw (there, entry) refl
]

abbrev pub over : List Group → StatusCounts → StatusCounts
over gs c = record {
  pending = get_or (entry "pending" gs) c.pending;
  active = get_or (entry "active" gs) c.active;
  completed = get_or (entry "completed" gs) c.completed;
  failed = get_or (entry "failed" gs) c.failed;
  dead = get_or (entry "dead" gs) c.dead;
}

over-cons :
    (g : Group) (gs : List Group) (c : StatusCounts)
    → over gs (put g.status g.count c) ≡ over (g ∷ gs) c
unfolding put
over-cons g gs c =
    rw
      (
        entry-put "pending" g gs c.pending,
        entry-put "active" g gs c.active,
        entry-put "completed" g gs c.completed,
        entry-put "failed" g gs c.failed,
        entry-put "dead" g gs c.dead,
      )
      refl

pub metrics_loop-over :
    (gs : List Group) (m : MetricsSummary) → (metrics_loop gs m).counts ≡ over gs m.counts
unfolding metrics_loop entry
metrics_loop-over [] m = refl
metrics_loop-over (g ∷ gs) m =
    metrics_loop-over gs (record {
      counts = put g.status g.count m.counts;
      avg_processing_ms = first_of m.avg_processing_ms g.avg_ms;
    })
    ∙ over-cons g gs m.counts

-- The numbers of the rows of each status.
abbrev pub tally : List Row → StatusCounts
tally rows = record {
  pending = count_of pending rows;
  active = count_of active rows;
  completed = count_of completed rows;
  failed = count_of failed rows;
  dead = count_of dead rows;
}

abbrev group_of : JobStatus → ℕ → Group
group_of s n = record { status = status_text s; count = n; avg_ms = none }

entry-add_group :
    (t : String) (s : JobStatus) (n d : ℕ) (gs : List Group)
    → (if status_text s == t then d else 0) ≡ 0
    → get_or (entry t (add_group s n gs)) d
      ≡ get_or (entry t gs) (if status_text s == t then n else d)
entry-add_group t s n d gs h = elim (Bool-cases (eqb n 0)) [
  | inl empty ↦
      let kept : (if status_text s == t then n else d) ≡ d = ground arith in rw (empty, kept) refl
  | inr some_rows ↦ rw some_rows (entry-put t (group_of s n) gs d)
]

-- Each of the five texts is at most one status: what comes before its group counts 0.
abbrev IsFresh : String → JobStatus → ℕ → Type 0
IsFresh t s z = (if status_text s == t then z else 0) ≡ 0

entry-groups :
    (t : String) (rows : List Row)
    → let a = count_of pending rows in
      let b = count_of active rows in
      let c = count_of completed rows in
      let d = count_of failed rows in
      let z1 = if status_text pending == t then a else 0 in
      let z2 = if status_text active == t then b else z1 in
      let z3 = if status_text completed == t then c else z2 in
      let z4 = if status_text failed == t then d else z3 in
      IsFresh t active z1
      → IsFresh t completed z2
      → IsFresh t failed z3
      → IsFresh t dead z4
      → get_or (entry t (groups rows)) 0
        ≡ (if status_text dead == t then count_of dead rows else z4)
unfolding groups entry
entry-groups t rows f2 f3 f4 f5 =
    entry-add_group t pending (count_of pending rows) 0 _ (ground arith)
    ∙ entry-add_group t active (count_of active rows) _ _ f2
    ∙ entry-add_group t completed (count_of completed rows) _ _ f3
    ∙ entry-add_group t failed (count_of failed rows) _ _ f4
    ∙ entry-add_group t dead (count_of dead rows) _ [] f5

pub status_counts-groups : (rows : List Row) → status_counts (groups rows) ≡ tally rows
unfolding status_counts status_text
status_counts-groups rows =
    rw
      (
        entry-groups "pending" rows refl refl refl refl,
        entry-groups "active" rows refl refl refl refl,
        entry-groups "completed" rows refl refl refl refl,
        entry-groups "failed" rows refl refl refl refl,
        entry-groups "dead" rows refl refl refl refl,
      )
      refl

-- On the same groups, whatever they are and however often a status comes, the counts of
-- `getMetrics` are those of `getStatusCounts`. Where every call comes back and nobody else writes,
-- `getStatusCounts` gives the numbers of the rows of each status, also of a status that no row has,
-- and changes nothing.
pub metrics-status_counts :
    {Store : Type 0} {env : Env Store} (quiet : IsQuiet env) (gs : List Group) (w : World Store)
    → ((metrics gs).counts ≡ status_counts gs)
      × (get_status_counts env w ≡ resolved (tally w.jobs) (record w { steps = suc (suc w.steps) }))
unfolding metrics status_counts get_status_counts ◌>>=◌ resolve
metrics-status_counts {env = env} quiet gs w = (
  metrics_loop-over gs (record { counts = zeros; avg_processing_ms = none }),
  rw
      (
        query_quiet quiet (λ now rows. some (groups rows, rows)) w (groups w.jobs) w.jobs refl,
        continue,
        status_counts-groups w.jobs,
      )
      refl,
)
