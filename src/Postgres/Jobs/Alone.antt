-- ===== src/Postgres/Jobs/Alone.antt =====
-- The queries on single jobs where nobody else writes and calls may reject: each acts on the map
-- from ids to rows as its statement says, or leaves it.
use mathlib.Core.Option
use taskfire.Prelude.{
  ℕ, String, Bool, true, false, ◌==◌, ◌&&◌, ◌≡◌, refl, sym, ap, ◌∙◌, none, some, List, [], ◌∷◌,
  ◌++◌, arith, if◌then◌else◌, Bool-cases, ◌⊎◌, inl, inr, eq_iff,
}
use taskfire.Async.{Error, constraint, ◌>>=◌, resolve}
use taskfire.Async.Ends.{Ends, Ends-resolved, Ends-weaken, Ends-bind}
use taskfire.Job.{Job}
use taskfire.Postgres.Row.{Row, row_to_job}
use taskfire.Postgres.Table.{
  checks, CreateJobParams, new_row, has_id, insert_statement, touch, update_statement,
  set_cancelled, cancel_statement, set_requeued, requeue_statement, select_by_id,
}
use taskfire.Postgres.Table.Laws.{IsTable, SameId}
use taskfire.Postgres.Table.View.{lookup, updated, update_by_id, lookup-replace}
use taskfire.Postgres.Session.{query}
use taskfire.Postgres.Session.Laws.Alone.{Fell, query-Ends, query_accepted-Ends}
use taskfire.Postgres.Jobs.{job_or_null, job_or_throw, create_job, get_job, cancel_job, requeue_job}
use taskfire.Postgres.Jobs.Effects.{
  is_cancellable, is_retriable, changed_job, job_or_null-found, job_or_null-select, insert_free,
}
use taskfire.World.{World, Env}
use taskfire.World.Quiet.{IsAlone}

pub lookup-append :
    (rows : List Row) (r : Row) (j : String)
    → has_id r.id rows ≡ false
    → lookup j (rows ++ r ∷ []) ≡ (if r.id == j then some r else lookup j rows)
unfolding lookup has_id
lookup-append [] r j h = refl
lookup-append (s ∷ rows) r j h =
    ground (arith, lookup-append rows r j, eq_iff s.id j, eq_iff r.id j, eq_iff s.id r.id)

pub has_id-lookup :
    (id : String) (rows : List Row) → has_id id rows ≡ true → (r : Row) × (lookup id rows ≡ some r)
unfolding lookup has_id
has_id-lookup id [] h = absurd (ground arith)
has_id-lookup id (r ∷ rows) h = elim (Bool-cases (r.id == id)) [
  | inl found ↦ (r, rw found refl)
  | inr other ↦ let (s, e) = has_id-lookup id rows (ground arith) in (s, rw other e)
]

-- A call rejected, and the table is as it was.
abbrev pub Unchanged : {Store : Type 0} → Env Store → World Store → Error → World Store → Type 0
Unchanged env w e v = Fell env × (v.jobs ≡ w.jobs)

-- The map is changed at `id` only, by `f` where the row there has `q`.
abbrev pub Changes :
    {Store : Type 0} → String → (Row → Bool) → (Row → Row) → World Store → World Store → Type 0
Changes id q f w v =
    (j : String)
    → lookup j v.jobs ≡ (if id == j then updated q f (lookup j w.jobs) else lookup j w.jobs)

abbrev pub stamped : ℕ → (ℕ → Row → Row) → Row → Row
stamped now f r = touch now (f now r)

module _ {Store : Type 0} {env : Env Store} (alone : IsAlone env) (id : String) (w : World Store)
    (table : IsTable w.jobs) where
  pub get_job-Ends :
      Ends
        (λ o v. (o ≡ Option.map row_to_job (lookup id w.jobs)) × (v.jobs ≡ w.jobs))
        (Unchanged env w)
        (get_job env id w)
  unfolding get_job select_by_id resolve
  get_job-Ends =
      Ends-bind _ _ _ w (query_accepted-Ends alone (select_by_id id) w _ _ λ now. refl)
        λ rows v (n, e, same). Ends-resolved (ap job_or_null e ∙ job_or_null-select id w.jobs, same)

  update_job-Ends :
      (q : Row → Bool) (f : ℕ → Row → Row)
      → ((now : ℕ) → SameId (stamped now f))
      → ((now : ℕ) (r : Row) → checks r ≡ true → checks (f now r) ≡ true)
      → Ends
          (λ o v.
            (n : ℕ) × (o ≡ changed_job q (stamped (env.db_now n) f) (lookup id w.jobs))
            × Changes id q (stamped (env.db_now n) f) w v)
          (Unchanged env w)
          ((query env (update_statement (λ r. r.id == id && q r) f) >>= λ rows.
              resolve (job_or_null rows))
            w)
  unfolding resolve
  update_job-Ends q f same keeps =
      Ends-bind _ _ _ w
        (query_accepted-Ends alone (update_statement (λ r. r.id == id && q r) f) w _ _
          λ now. update_by_id q id f keeps now w.jobs table)
        λ rows v (n, e, jobs). Ends-resolved (
          n,
          ap job_or_null e ∙ job_or_null-found q (stamped (env.db_now n) f) (lookup id w.jobs),
          λ j.
              ap (lookup j) jobs
              ∙ lookup-replace q id (stamped (env.db_now n) f) (same (env.db_now n)) j w.jobs,
        )

  pub cancel_job-Ends :
      Ends
        (λ o v.
          (n : ℕ) × (o
            ≡ changed_job is_cancellable (stamped (env.db_now n) set_cancelled) (lookup id w.jobs))
          × Changes id is_cancellable (stamped (env.db_now n) set_cancelled) w v)
        (Unchanged env w)
        (cancel_job env id w)
  unfolding cancel_job cancel_statement set_cancelled checks
  cancel_job-Ends = update_job-Ends is_cancellable set_cancelled (λ now r. refl) (λ now r h. h)

  pub requeue_job-Ends :
      (reset : Bool)
      → Ends
          (λ o v.
            (n : ℕ) × (o
              ≡ changed_job is_retriable
                  (stamped (env.db_now n) (set_requeued reset))
                  (lookup id w.jobs))
            × Changes id is_retriable (stamped (env.db_now n) (set_requeued reset)) w v)
          (Unchanged env w)
          (requeue_job env id reset w)
  unfolding requeue_job requeue_statement set_requeued checks
  requeue_job-Ends reset =
      update_job-Ends is_retriable (set_requeued reset) (λ now r. refl) (λ now r h. ground arith)

insert_taken :
    (params : CreateJobParams) (now : ℕ) (rows : List Row)
    → has_id params.id rows ≡ true
    → insert_statement params now rows ≡ none
unfolding insert_statement
insert_taken params now rows h = ground arith

-- The INSERT of a new row: it is accepted exactly where the id is free.
module _ {Store : Type 0} {env : Env Store} (alone : IsAlone env) (params : CreateJobParams)
    (w : World Store) where
  abbrev pub Inserted : Job → World Store → Type 0
  Inserted j v =
      (n : ℕ) × (has_id params.id w.jobs ≡ false)
      × (j ≡ row_to_job (new_row params (env.db_now n)))
      × (v.jobs ≡ w.jobs ++ new_row params (env.db_now n) ∷ [])

  abbrev pub NotInserted : Error → World Store → Type 0
  NotInserted e v =
      (v.jobs ≡ w.jobs) × (Fell env ⊎ ((has_id params.id w.jobs ≡ true) × (e ≡ constraint)))

  pub create_job-Ends : Ends Inserted NotInserted (create_job env params w)
  unfolding create_job resolve job_or_throw
  create_job-Ends = elim (Bool-cases (has_id params.id w.jobs)) [
    | inl taken ↦
        Ends-bind (λ _ _. ⊥) _ _ w
          (Ends-weaken
            (λ rows v (n, e).
              let bad = sym (insert_taken params (env.db_now n) w.jobs taken) ∙ e in cc)
            (λ e v (same, why). elim why [
              | inl fell ↦ (same, inl fell)
              | inr (n, _, is) ↦ (same, inr (taken, is))
            ])
            (query-Ends alone (insert_statement params) w))
          λ rows v bad. absurd bad
    | inr free ↦
        Ends-bind _ _ _ w
          (Ends-weaken (λ rows v ran. ran) (λ e v (fell, same). (same, inl fell))
            (query_accepted-Ends alone (insert_statement params) w _ _
              λ now. insert_free params now w.jobs free))
          λ rows v (n, e, jobs). rw e (Ends-resolved (n, free, refl, jobs))
  ]
