-- ===== src/Routes/Metrics/Workers/Laws.antt =====
-- What GET /workers replies, by the table and by the jobs in flight.
use taskfire.Prelude.{
  ℕ, suc, ◌+◌, ◌&&◌, ◌||◌, ◌⊎◌, inl, inr, Bool, false, not, sym, Bool-cases, Option-cases, ◌≤◌,
  ◌==◌, String, true, ◌≡◌, refl, ap, subst, ◌∙◌, Option, none, some, List, [], ◌∷◌, length, leb,
  if◌then◌else◌, arith,
}
use taskfire.Prelude.Int.{sub_ℕ}
use taskfire.Async.{resolved, resolve, gets, ◌>>=◌, continue}
use taskfire.Job.{active, status_text}
use taskfire.Postgres.Row.{Row}
use taskfire.Postgres.Active.{
  ActiveJobRow, not_after, NoneBefore, IsOldestFirst, active_rows, get_active_jobs,
  length-active_rows, active_rows-IsOldestFirst, total, total_active, total-active_rows,
}
use taskfire.Postgres.Metrics.{count_of}
use taskfire.Postgres.Session.Laws.Quiet.{query_quiet}
use taskfire.Redis.DeadLetters.{parsed, get_processing_jobs}
use taskfire.Redis.Member.{Document}
use taskfire.Redis.Server.{Redis}
use taskfire.Routes.Metrics.Distinct.{contains, IsDistinct, set_of-IsDistinct, contains-set_of}
use taskfire.World.{World, Env}
use taskfire.World.Quiet.{IsQuiet, io_quiet, date_now_quiet}
use taskfire.Routes.Metrics.Workers.{
  ActiveJobSummary, WorkersResponse, present_ids, distance, active_for, active_job, active_jobs,
  workers, get_workers,
}

-- No value is null.
abbrev pub IsObjects : List (Option Document) → Type 0
IsObjects [] = Unit {0}
IsObjects (none ∷ ds) = ⊥
IsObjects (some d ∷ ds) = IsObjects ds

-- A job of this id, which is not the empty text, is among the values.
abbrev pub is_in_flight : String → List (Option Document) → Bool
is_in_flight id [] = false
is_in_flight id (none ∷ ds) = is_in_flight id ds
is_in_flight id (some d ∷ ds) =
    elim d.id [ none ↦ false | some i ↦ i == id && not (i == "") ] || is_in_flight id ds

present_ids-IsObjects :
    (ds : List (Option Document))
    → IsObjects ds
    → (ids : List String) × (present_ids ds ≡ some ids)
      × ((id : String) → contains id ids ≡ is_in_flight id ds)
unfolding present_ids contains
present_ids-IsObjects [] h = ([], refl, λ id. refl)
present_ids-IsObjects (none ∷ ds) h = absurd h
present_ids-IsObjects (some d ∷ ds) h =
    let (ids, same, has) = present_ids-IsObjects ds h in
    elim (Option-cases d.id) [
      | inl absent ↦ (ids, rw (same, absent, present_ids) refl, λ id. rw absent (has id))
      | inr (i, named) ↦ elim (Bool-cases (i == "")) [
        | inl empty ↦ (
          ids,
          rw (same, named, empty, present_ids) refl,
          λ id. rw (named, empty) (ground (arith, has id)),
        )
        | inr full ↦ (
          i ∷ ids,
          rw (same, named, full, present_ids) refl,
          λ id. rw (named, full) (ground (arith, has id)),
        )
      ]
    ]

apart : (a b : ℕ) → (a + distance a b ≡ b) ⊎ (b + distance a b ≡ a)
apart a b = elim (Bool-cases (leb b a)) [
  | inl less ↦ inr (ground arith)
  | inr more ↦ inl (ground arith)
]

-- Every active row has a start.
abbrev pub IsStarted : List ActiveJobRow → Type 0
IsStarted [] = Unit {0}
IsStarted (r ∷ rs) = (t : ℕ) × (r.started_at ≡ some t) × IsStarted rs

abbrev pub NoneStartsBefore : ℕ → List ActiveJobSummary → Type 0
NoneStartsBefore t [] = Unit {0}
NoneStartsBefore t (j ∷ js) = (t ≤ j.started_at) × NoneStartsBefore t js

-- The job that runs longest comes first.
abbrev pub IsLongestFirst : List ActiveJobSummary → Type 0
IsLongestFirst [] = Unit {0}
IsLongestFirst (j ∷ js) = NoneStartsBefore j.started_at js × IsLongestFirst js

-- The summaries of rows: one for each, with its start.
abbrev Summarizes : List ActiveJobRow → List ActiveJobSummary → Type 0
Summarizes [] [] = Unit {0}
Summarizes [] (j ∷ js) = ⊥
Summarizes (r ∷ rs) [] = ⊥
Summarizes (r ∷ rs) (j ∷ js) = (r.started_at ≡ some j.started_at) × Summarizes rs js

-- How many jobs pass a test.
abbrev pub count : (ActiveJobSummary → Bool) → List ActiveJobSummary → ℕ
count q [] = 0
count q (j ∷ js) = (if q j then 1 else 0) + count q js

-- The jobs of a table that run, in the order of its rows, at the time `now`.
abbrev pub running_jobs : ℕ → List Row → List ActiveJobSummary
running_jobs now [] = []
running_jobs now (r ∷ rs) =
    if status_text r.status == "active"
    then elim r.started_at [
      | none ↦ running_jobs now rs
      | some t ↦
          record { job_id = r.id; job_type = r.type; started_at = t; running_for_ms = sub_ℕ now t }
          ∷ running_jobs now rs
    ]
    else running_jobs now rs

-- What a row adds to the number.
abbrev amount : ℕ → (ActiveJobSummary → Bool) → ActiveJobRow → ℕ
amount now q r = elim r.started_at [
  | none ↦ 0
  | some t ↦
      if q
        (record { job_id = r.id; job_type = r.type; started_at = t; running_for_ms = sub_ℕ now t })
      then 1
      else 0
]

count-running_jobs :
    (now : ℕ) (q : ActiveJobSummary → Bool) (rows : List Row)
    → count q (running_jobs now rows) ≡ total_active (amount now q) rows
count-running_jobs now q [] = refl
count-running_jobs now q (r ∷ rs) = elim (Bool-cases (status_text r.status == "active")) [
  | inl runs ↦ elim (Option-cases r.started_at) [
    | inl absent ↦ rw (runs, absent, count-running_jobs now q rs) (omega arith)
    | inr (t, at) ↦ rw (runs, at) (rw (count-running_jobs now q rs) refl)
  ]
  | inr other ↦ rw (other, count-running_jobs now q rs) (omega arith)
]

active_jobs-Summarizes :
    (now : ℕ) (rows : List ActiveJobRow)
    → IsStarted rows
    → (jobs : List ActiveJobSummary) × (active_jobs now rows ≡ some jobs)
      × Summarizes rows jobs
      × ((q : ActiveJobSummary → Bool) → count q jobs ≡ total (amount now q) rows)
unfolding active_jobs active_job
active_jobs-Summarizes now [] started = ([], refl, tt, λ q. refl)
active_jobs-Summarizes now (r ∷ rs) (t, at, started) =
    let (jobs, same, each, counted) = active_jobs-Summarizes now rs started in
    (active_for now t r ∷ jobs, rw (at, same) refl, (at, each), λ q. rw (at, counted q) refl)

length-Summarizes :
    (rows : List ActiveJobRow) (jobs : List ActiveJobSummary)
    → Summarizes rows jobs
    → length jobs ≡ length rows
length-Summarizes [] [] s = refl
length-Summarizes [] (j ∷ js) s = absurd s
length-Summarizes (r ∷ rs) [] s = absurd s
length-Summarizes (r ∷ rs) (j ∷ js) s = ap suc (length-Summarizes rs js s.1)

Summarizes-NoneStartsBefore :
    (t : ℕ) (rows : List ActiveJobRow) (jobs : List ActiveJobSummary)
    → Summarizes rows jobs
    → NoneBefore (some t) rows
    → NoneStartsBefore t jobs
unfolding not_after
Summarizes-NoneStartsBefore t [] [] s n = tt
Summarizes-NoneStartsBefore t [] (j ∷ js) s n = absurd s
Summarizes-NoneStartsBefore t (r ∷ rs) [] s n = absurd s
Summarizes-NoneStartsBefore t (r ∷ rs) (j ∷ js) s n =
    let ordered : not_after (some t) (some j.started_at) ≡ true =
      subst (λ o. not_after (some t) o ≡ true) s.0 n.0 in
    (ground arith, Summarizes-NoneStartsBefore t rs js s.1 n.1)

Summarizes-IsLongestFirst :
    (rows : List ActiveJobRow) (jobs : List ActiveJobSummary)
    → Summarizes rows jobs
    → IsOldestFirst rows
    → IsLongestFirst jobs
Summarizes-IsLongestFirst [] [] s o = tt
Summarizes-IsLongestFirst [] (j ∷ js) s o = absurd s
Summarizes-IsLongestFirst (r ∷ rs) [] s o = absurd s
Summarizes-IsLongestFirst (r ∷ rs) (j ∷ js) s o = (
  Summarizes-NoneStartsBefore j.started_at rs js s.1 (subst (λ t. NoneBefore t rs) s.0 o.0),
  Summarizes-IsLongestFirst rs js s.1 o.1,
)

-- Where every call comes back, nobody else writes, every active row has a start and no text in
-- flight is the JSON value null, GET /workers is answered. Its active jobs are, each as often,
-- those of the active rows, with the id, the type and the start of the row and the time from that
-- start to the server's time, and the one that started first comes first. `active_workers` is the
-- number of active rows, `in_flight_redis` that of the texts in flight that are JSON, `discrepancy`
-- how far these are apart, and the ids of the jobs in flight come once each and are exactly those,
-- other than the empty text, of the jobs that Redis holds in flight. Both stores stay as they were.
pub workers-jobs :
    {Store : Type 0} (redis : Redis Store) {env : Env Store} (quiet : IsQuiet env) (w : World Store)
    → IsStarted (active_rows w.jobs)
    → IsObjects (parsed (redis.hgetall w.redis))
    → let processing = parsed (redis.hgetall w.redis) in
      (r : WorkersResponse) × (v : World Store) × (n : ℕ) × (get_workers redis env w ≡ resolved r v)
      × ((q : ActiveJobSummary → Bool)
          → count q r.active_jobs ≡ count q (running_jobs (env.date_now n) w.jobs))
      × IsLongestFirst r.active_jobs
      × (r.active_workers ≡ count_of active w.jobs)
      × (r.in_flight_redis ≡ length processing)
      × ((r.active_workers + r.discrepancy ≡ r.in_flight_redis)
          ⊎ (r.in_flight_redis + r.discrepancy ≡ r.active_workers))
      × IsDistinct r.processing_ids_redis
      × ((id : String) → contains id r.processing_ids_redis ≡ is_in_flight id processing)
      × (v.jobs ≡ w.jobs)
      × (v.redis ≡ w.redis)
unfolding get_workers get_active_jobs get_processing_jobs workers ◌>>=◌ resolve gets
workers-jobs redis {env} quiet w started objects =
    let processing = parsed (redis.hgetall w.redis) in
    let rows = active_rows w.jobs in
    let n = suc (suc (suc w.steps)) in
    let now = env.date_now n in
    let u : World _ = record w { steps = suc (suc w.steps) } in
    let u' : World _ = record w { steps = n } in
    let (jobs, same, each, counted) = active_jobs-Summarizes now rows started in
    let (ids, present, has) = present_ids-IsObjects processing objects in
    (
      workers jobs (length processing) ids,
      record w { steps = suc n },
      n,
      rw
          (
            query_quiet quiet (λ at rs. some (active_rows rs, rs)) w rows w.jobs refl,
            continue,
            io_quiet quiet u,
            continue,
            date_now_quiet quiet u',
            continue,
            same,
            present,
          )
          refl,
      λ q.
          counted q
          ∙ total-active_rows (amount now q) w.jobs
          ∙ sym (count-running_jobs now q w.jobs),
      Summarizes-IsLongestFirst rows jobs each (active_rows-IsOldestFirst w.jobs),
      length-Summarizes rows jobs each ∙ length-active_rows w.jobs,
      refl,
      apart (length jobs) (length processing),
      set_of-IsDistinct [] ids tt,
      λ id. contains-set_of id [] ids ∙ has id,
      refl,
      refl,
    )
