-- ===== src/Postgres/Listing/Alone.antt =====
-- A listing where nobody else writes leaves the table, whether it resolves or rejects.
use taskfire.Prelude.{
  ℕ, ◌*◌, ◌≡◌, refl, ap, subst, ◌∙◌, Option, none, some, List, Bool-cases, inl, inr,
}
use taskfire.Prelude.Int.{ℤ, sub_ℕ}
use taskfire.Async.{resolved, world}
use taskfire.Async.Keeps.{Keeps, Keeps-bind, keeps_rules}
use taskfire.Async.Ends.{Ends, Ends-weaken}
use taskfire.Job.{Job}
use taskfire.Job.Schema.{ListJobsQuery}
use taskfire.Postgres.Row.{Row}
use taskfire.Postgres.Table.{Statement}
use taskfire.Postgres.Session.{effect, client_query}
use taskfire.Postgres.Session.Client.{client_query-Keeps}
use taskfire.Postgres.Session.Laws.Atomic.{HasJobs, client_query-HasJobs, with_transaction-Ends}
use taskfire.Postgres.Listing.{
  Where, build_where, count_statement, page_statement, list_body, list_jobs,
}
use taskfire.World.{World, Env, io}
use taskfire.World.Quiet.{IsAlone}

-- The open transaction has written nothing.
abbrev pub IsUnwritten : {Store : Type 0} → World Store → Type 0
IsUnwritten w = (rows : List Row) → w.writes rows ≡ rows

-- What is selected, and the table as it was.
selected-rows :
    {A : Type 0} (o : Option A) (rows : List Row)
    → (elim (elim o as (λ _. Option (A × List Row)) [ none ↦ none | some a ↦ some (a, rows) ])
        as (λ _. List Row) [ none ↦ rows | some (a, rows') ↦ rows' ])
      ≡ rows
selected-rows none rows = refl
selected-rows (some a) rows = refl

module _ {Store : Type 0} (env : Env Store) where
  io-IsUnwritten : Keeps IsUnwritten (io env)
  unfolding io
  io-IsUnwritten = record {
    at = λ w h. elim (Bool-cases (env.fails w.steps)) [
      | inl fell ↦ rw fell h
      | inr fine ↦ rw fine h
    ];
  }

  client_query-IsUnwritten :
      {A : Type 0} (stmt : Statement A)
      → ((now : ℕ) (rows : List Row) → effect env stmt now rows ≡ rows)
      → Keeps IsUnwritten (client_query env stmt)
  client_query-IsUnwritten stmt reads =
      client_query-Keeps env IsUnwritten io-IsUnwritten (λ w h rows. refl) stmt
        λ w a rs e h rows. reads (env.db_now w.steps) (w.writes rows) ∙ h rows

  module _ (b : Where) (limit : ℕ) (offset : ℤ) where
    list_body-IsUnwritten : Keeps IsUnwritten (list_body env b limit offset)
    unfolding list_body count_statement page_statement
    list_body-IsUnwritten =
        Keeps-bind _ _ (client_query-IsUnwritten (count_statement b) λ now rows. refl) λ _.
          Keeps-bind _ _
            (client_query-IsUnwritten (page_statement env b limit offset)
              λ now rows. selected-rows _ rows)
            λ _. search keeps_rules

    list_body-HasJobs :
        IsAlone env → (rows : List Row) → Keeps (HasJobs rows) (list_body env b limit offset)
    unfolding list_body
    list_body-HasJobs alone rows =
        Keeps-bind _ _ (client_query-HasJobs alone _ rows)
          λ _. Keeps-bind _ _ (client_query-HasJobs alone _ rows) λ _. search keeps_rules

  pub list_jobs-Ends :
      IsAlone env
      → (opts : ListJobsQuery) (w : World Store)
      → Ends (λ _ v. v.jobs ≡ w.jobs) (λ _ v. v.jobs ≡ w.jobs) (list_jobs env opts w)
  unfolding list_jobs
  list_jobs-Ends alone opts w =
      let kept : (u u' : World Store) (a : List Job × ℕ)
          → u.writes ≡ (λ rs. rs)
          → list_body env (build_where opts) opts.limit (sub_ℕ (opts.page * opts.limit) opts.limit)
              u
            ≡ resolved a u'
          → u'.writes w.jobs ≡ w.jobs =
        λ u u' a fresh ran.
          subst (λ o. IsUnwritten (world o)) ran
            ((list_body-IsUnwritten (build_where opts) opts.limit _).at u
              (λ rows. ap (λ f. f rows) fresh))
            w.jobs in
      Ends-weaken (λ a v ((u, u', same, fresh, ran, done), over). done ∙ kept u u' a fresh ran)
        (λ e v (left, over). elim left [
          | inl same ↦ same
          | inr (a, n, (u, u', same, fresh, ran, done), at, landed) ↦ done ∙ kept u u' a fresh ran
        ])
        (with_transaction-Ends alone _ (list_body-HasJobs _ _ _ alone) w)
