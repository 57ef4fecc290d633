-- ===== src/Postgres/Metrics/Joined.antt =====
-- `getMetrics` gives what `getStatusCounts` and `getAvgProcessingMs` give.
use taskfire.Prelude.{
  ℕ, suc, ◌≤◌, ◌≡◌, ◌==◌, String, true, refl, sym, ◌∙◌, Option, none, some, List, [], ◌∷◌, map,
  length, eqb, arith, Bool-cases, Option-cases, inl, inr,
}
use taskfire.Prelude.Int.{ℤ}
use taskfire.Async.{resolved, resolve, ◌>>=◌, continue}
use taskfire.Job.{JobStatus, pending, active, completed, failed, dead, status_text}
use taskfire.Postgres.Row.{Row}
use taskfire.Postgres.Average.{
  is_completed, run_of, runs, avg_ms, first_value, get_avg_processing_ms,
}
use taskfire.Postgres.Session.Laws.Quiet.{query_quiet}
use taskfire.Postgres.Metrics.{
  count_of, add_group, groups, StatusCounts, Group, entry, status_counts, MetricsSummary, put,
  metrics_loop, zeros, metrics, first_of, joined, get_metrics,
}
use taskfire.Postgres.Metrics.Laws.{over, metrics_loop-over, tally, status_counts-groups}
use taskfire.World.{World, Env}
use taskfire.World.Quiet.{IsQuiet}

-- The groups with one average beside them all.
abbrev beside : Option ℤ → List Group → List Group
beside a = map (λ (g : Group). record g { avg_ms = a })

entry-beside : (s : String) (a : Option ℤ) (gs : List Group) → entry s (beside a gs) ≡ entry s gs
unfolding entry
entry-beside s a [] = refl
entry-beside s a (g ∷ gs) = rw (entry-beside s a gs) refl

over-beside : (a : Option ℤ) (gs : List Group) (c : StatusCounts) → over (beside a gs) c ≡ over gs c
over-beside a gs c =
    rw
      (
        entry-beside "pending" a gs,
        entry-beside "active" a gs,
        entry-beside "completed" a gs,
        entry-beside "failed" a gs,
        entry-beside "dead" a gs,
      )
      refl

first_of-same : (o a : Option ℤ) → first_of (first_of o a) a ≡ first_of o a
first_of-same none none = refl
first_of-same none (some n) = refl
first_of-same (some m) a = refl

avg-beside :
    (a : Option ℤ) (g : Group) (gs : List Group) (m : MetricsSummary)
    → (metrics_loop (beside a (g ∷ gs)) m).avg_processing_ms ≡ first_of m.avg_processing_ms a
unfolding metrics_loop
avg-beside a g [] m = refl
avg-beside a g (h ∷ gs) m =
    avg-beside a h gs (record {
      counts = put g.status g.count m.counts;
      avg_processing_ms = first_of m.avg_processing_ms a;
    })
    ∙ first_of-same m.avg_processing_ms a

completed-text :
    (s : JobStatus) → is_completed s ≡ true → (status_text s == status_text completed) ≡ true
unfolding is_completed status_text
completed-text completed h = refl
completed-text pending h = cc
completed-text active h = cc
completed-text failed h = cc
completed-text dead h = cc

run_of-completed :
    (r : Row) (run : ℕ × ℕ)
    → run_of r ≡ some run
    → (status_text r.status == status_text completed) ≡ true
unfolding run_of
run_of-completed r run e = elim (Bool-cases (is_completed r.status)) [
  | inl done ↦ completed-text r.status done
  | inr other ↦ let e' : none ≡ some run = rw (other, run_of) at e in cc
]

-- Every run is one of a completed row.
runs-count : (rows : List Row) → length (runs rows) ≤ count_of completed rows
unfolding runs
runs-count [] = omega arith
runs-count (r ∷ rows) = elim (Option-cases (run_of r)) [
  | inl absent ↦ rw (absent, runs) (ground (arith, runs-count rows))
  | inr (run, there) ↦
      rw (there, runs) (ground (arith, runs-count rows, run_of-completed r run there))
]

add_group-none :
    (s : JobStatus) (n : ℕ) (gs : List Group) → add_group s n gs ≡ [] → (n ≡ 0) × (gs ≡ [])
add_group-none s n gs e = elim (Bool-cases (eqb n 0)) [
  | inl empty ↦ (ground arith, rw empty at e)
  | inr kept ↦
      let g : Group = record { status = status_text s; count = n; avg_ms = none } in
      let e' : g ∷ gs ≡ [] = rw kept at e in cc
]

-- Where there is no group, there is no average.
groups-none : (rows : List Row) → groups rows ≡ [] → avg_ms rows ≡ none
unfolding groups avg_ms
groups-none rows e =
    let (_, behind_pending) = add_group-none pending (count_of pending rows) _ e in
    let (_, behind_active) = add_group-none active (count_of active rows) _ behind_pending in
    let (no_completed, _) =
      add_group-none completed (count_of completed rows)
        (add_group failed (count_of failed rows) (add_group dead (count_of dead rows) []))
        behind_active in
    let no_runs : eqb (length (runs rows)) 0 ≡ true =
      ground (arith, runs-count rows, no_completed) in
    rw (no_runs, avg_ms) refl

joined_avg :
    (rows : List Row) (gs : List Group)
    → groups rows ≡ gs
    → (metrics (beside (avg_ms rows) gs)).avg_processing_ms ≡ avg_ms rows
unfolding metrics metrics_loop
joined_avg rows [] e = sym (groups-none rows e)
joined_avg rows (g ∷ gs) e =
    avg-beside (avg_ms rows) g gs (record { counts = zeros; avg_processing_ms = none })

joined_counts : (rows : List Row) → (metrics (joined rows)).counts ≡ tally rows
unfolding metrics joined status_counts
joined_counts rows =
    metrics_loop-over (joined rows) (record { counts = zeros; avg_processing_ms = none })
    ∙ over-beside (avg_ms rows) (groups rows) zeros
    ∙ status_counts-groups rows

module _ {Store : Type 0} {env : Env Store} (quiet : IsQuiet env) (w : World Store) where
  pub get_avg_processing_ms_lem :
      get_avg_processing_ms env w
      ≡ resolved (avg_ms w.jobs) (record w { steps = suc (suc w.steps) })
  unfolding get_avg_processing_ms first_value ◌>>=◌ resolve
  get_avg_processing_ms_lem =
      rw
        (
          query_quiet quiet (λ now rows. some (avg_ms rows ∷ [], rows)) w (avg_ms w.jobs ∷ [])
              w.jobs refl,
          continue,
        )
        refl

  -- `getMetrics` counts the rows of each status, and its average is that of `getAvgProcessingMs`.
  pub get_metrics_lem :
      get_metrics env w
      ≡ resolved
          (record { counts = tally w.jobs; avg_processing_ms = avg_ms w.jobs })
          (record w { steps = suc (suc w.steps) })
  unfolding get_metrics joined ◌>>=◌ resolve
  get_metrics_lem =
      let counts = joined_counts w.jobs in
      let average = joined_avg w.jobs (groups w.jobs) refl in
      rw
        (
          query_quiet quiet (λ now rows. some (joined rows, rows)) w (joined w.jobs) w.jobs refl,
          continue,
        )
        cc
