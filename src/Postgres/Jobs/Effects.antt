-- ===== src/Postgres/Jobs/Effects.antt =====
-- What the queries on single jobs do to the table, seen as a map from ids to rows, in an
-- environment where every call comes back and nobody else writes.
use mathlib.Core.Option
use taskfire.Prelude.{
  ℕ, suc, String, Bool, true, false, ◌==◌, ◌&&◌, filter, ◌≡◌, refl, Option, none, some, List, [],
  ◌∷◌, map, arith, if◌then◌else◌, Bool-cases, inl, inr, ◌++◌,
}
use taskfire.Async.{constraint, resolved, rejected, resolve, ◌>>=◌, continue}
use taskfire.Postgres.Session.{query}
use taskfire.Job.{Job}
use taskfire.Postgres.Row.{Row, row_to_job}
use taskfire.Postgres.Table.{
  checks, CreateJobParams, new_row, has_id, insert_statement, touch, replace_where,
  update_statement, cancellable, retriable, set_cancelled, cancel_statement, set_requeued,
  requeue_statement, select_by_id,
}
use taskfire.Postgres.Table.Laws.{IsTable, SameId}
use taskfire.Postgres.Table.View.{lookup, found, updated, update_by_id, lookup-replace}
use taskfire.Postgres.Session.Laws.Quiet.{query_answered, query_quiet, query_refused}
use taskfire.Postgres.Jobs.{job_or_null, job_or_throw, create_job, get_job, cancel_job, requeue_job}
use taskfire.World.{World, Env}
use taskfire.World.Quiet.{IsAlone, IsQuiet}

abbrev pub is_cancellable : Row → Bool
is_cancellable r = cancellable r.status

abbrev pub is_retriable : Row → Bool
is_retriable r = retriable r.status

-- The reply of an UPDATE by id: the changed row as a job, or null.
abbrev pub changed_job : (Row → Bool) → (Row → Row) → Option Row → Option Job
changed_job q f none = none
changed_job q f (some r) = if q r then some (row_to_job (f r)) else none

pub job_or_null-found :
    (q : Row → Bool) (f : Row → Row) (o : Option Row)
    → job_or_null (map f (found q o)) ≡ changed_job q f o
unfolding job_or_null
job_or_null-found q f none = refl
job_or_null-found q f (some r) = ground arith

pub job_or_null-select :
    (id : String) (rows : List Row)
    → job_or_null (filter (λ r. r.id == id) rows) ≡ Option.map row_to_job (lookup id rows)
unfolding job_or_null lookup
job_or_null-select id [] = refl
job_or_null-select id (r ∷ rows) = ground (arith, job_or_null-select id rows)

-- The call resolved to `job`, two waits later, with the table changed by `f` at `id` only.
abbrev pub Updates :
    {Store : Type 0} → String → (Row → Bool) → (Row → Row) → World Store → World Store → Type 0
Updates id q f w v =
    ((j : String)
      → lookup j v.jobs ≡ (if id == j then updated q f (lookup j w.jobs) else lookup j w.jobs))
    × (v.redis ≡ w.redis)
    × (v.connections ≡ w.connections)
    × (v.steps ≡ suc (suc w.steps))

module _ {Store : Type 0} {env : Env Store} (quiet : IsQuiet env) (id : String) (w : World Store)
    (table : IsTable w.jobs) where
  abbrev stamp : (ℕ → Row → Row) → Row → Row
  stamp f r = let now = env.db_now (suc (suc w.steps)) in touch now (f now r)

  update_job_lem :
      (q : Row → Bool) (f : ℕ → Row → Row)
      → SameId (stamp f)
      → ((now : ℕ) (r : Row) → checks r ≡ true → checks (f now r) ≡ true)
      → (v : World Store) × ((query env (update_statement (λ r. r.id == id && q r) f) >>= λ rows.
              resolve (job_or_null rows))
            w
          ≡ resolved (changed_job q (stamp f) (lookup id w.jobs)) v)
        × Updates id q (stamp f) w v
  unfolding ◌>>=◌ resolve
  update_job_lem q f same keeps =
      let p = λ (r : Row). r.id == id && q r in
      let ran = update_by_id q id f keeps (env.db_now (suc (suc w.steps))) w.jobs table in
      (
        record w { jobs = replace_where p (stamp f) w.jobs; steps = suc (suc w.steps) },
        rw (query_quiet quiet (update_statement p f) w _ _ ran)
            (rw (continue, job_or_null-found q (stamp f) (lookup id w.jobs)) refl),
        ((λ j. lookup-replace q id (stamp f) same j w.jobs), refl, refl, refl),
      )

  -- `cancelJob` answers with the cancelled job, or null where no pending, failed or dead row has
  -- the id, and changes no other row.
  pub cancel_job_lem :
      (v : World Store) × (cancel_job env id w
        ≡ resolved (changed_job is_cancellable (stamp set_cancelled) (lookup id w.jobs)) v)
      × Updates id is_cancellable (stamp set_cancelled) w v
  unfolding cancel_job cancel_statement set_cancelled checks
  cancel_job_lem = update_job_lem is_cancellable set_cancelled (λ r. refl) (λ now r h. h)

  pub requeue_job_lem :
      (reset : Bool)
      → (v : World Store) × (requeue_job env id reset w
          ≡ resolved (changed_job is_retriable (stamp (set_requeued reset)) (lookup id w.jobs)) v)
        × Updates id is_retriable (stamp (set_requeued reset)) w v
  unfolding requeue_job requeue_statement set_requeued checks
  requeue_job_lem reset =
      update_job_lem is_retriable (set_requeued reset) (λ r. refl) (λ now r h. ground arith)

  -- `getJob` answers with the row of the id, or null, and changes nothing.
  pub get_job_lem :
      get_job env id w
      ≡ resolved (Option.map row_to_job (lookup id w.jobs)) (record w { steps = suc (suc w.steps) })
  unfolding get_job select_by_id ◌>>=◌ resolve
  get_job_lem =
      rw (query_quiet quiet (select_by_id id) w _ _ refl)
        (rw (continue, job_or_null-select id w.jobs) refl)

pub insert_free :
    (params : CreateJobParams) (now : ℕ) (rows : List Row)
    → has_id params.id rows ≡ false
    → insert_statement params now rows
      ≡ some (new_row params now ∷ [], rows ++ new_row params now ∷ [])
unfolding insert_statement
insert_free params now rows h = ground arith

-- Where the connection and the INSERT come back, nobody else writes and the id is free, `createJob`
-- appends the new row and answers with it as a job.
pub create_job_answered :
    {Store : Type 0} {env : Env Store} (alone : IsAlone env) (params : CreateJobParams)
    (w : World Store)
    → env.fails w.steps ≡ false
    → env.fails (suc w.steps) ≡ false
    → has_id params.id w.jobs ≡ false
    → let row = new_row params (env.db_now (suc (suc w.steps))) in
      create_job env params w
      ≡ resolved
          (row_to_job row)
          (record w { jobs = w.jobs ++ row ∷ []; steps = suc (suc w.steps) })
unfolding create_job ◌>>=◌ job_or_throw resolve
create_job_answered {env = env} alone params w connects runs free =
    let now = env.db_now (suc (suc w.steps)) in
    let row = new_row params now in
    rw
      (query_answered alone (insert_statement params) w (row ∷ []) (w.jobs ++ row ∷ []) connects
        runs (insert_free params now w.jobs free))
      refl

module _ {Store : Type 0} {env : Env Store} (quiet : IsQuiet env) (params : CreateJobParams)
    (w : World Store) where
  abbrev pub inserted : Row
  inserted = new_row params (env.db_now (suc (suc w.steps)))

  -- Where nobody else writes and every call comes back, `createJob` appends the new row and answers
  -- with it as a job, unless the id is taken; then it rejects and the table stays.
  pub create_job_lem : create_job env params w ≡ (
      if has_id params.id w.jobs
      then rejected constraint (record w { steps = suc (suc w.steps) })
      else resolved
          (row_to_job inserted)
          (record w { jobs = w.jobs ++ inserted ∷ []; steps = suc (suc w.steps) }))
  unfolding create_job insert_statement ◌>>=◌ job_or_throw resolve
  create_job_lem = elim (Bool-cases (has_id params.id w.jobs)) [
    | inl taken ↦ rw (query_refused quiet (insert_statement params) w (rw taken), taken) refl
    | inr free ↦ rw free (
        create_job_answered quiet.alone params w (quiet.answers w.steps)
          (quiet.answers (suc w.steps)) free)
  ]
