-- ===== src/Postgres/Listing/Laws.antt =====
-- The WHERE clause selects the rows that the query asks for, and the listing is one page of them.
use mathlib.Core.List.{append-nil}
use taskfire.Prelude.{
  ℕ, suc, ◌-◌, ◌*◌, ◌≤◌, Bool, true, ◌≡◌, refl, sym, ap, ◌↔◌, some, List, [], ◌∷◌, ◌++◌, map,
  filter, length, take, drop, all,
}
use taskfire.Prelude.Int.{pos, sub_ℕ}
use taskfire.Async.{resolved, resolve, ◌>>=◌, continue}
use taskfire.Job.{Job}
use taskfire.Job.Schema.{ListJobsQuery}
use taskfire.Postgres.Row.{Row, row_to_job}
use taskfire.Postgres.Session.{effect}
use taskfire.Postgres.Session.Laws.Quiet.{
  client_query_quiet, with_transaction_quiet, opened, closed,
}
use taskfire.Postgres.Listing.{
  SqlValue, number, integer, build_where, holds, matching, count_statement, page_statement,
  list_body, list_jobs,
}
use taskfire.World.{World, Env}
use taskfire.World.Quiet.{IsQuiet}
use taskfire.Postgres.Listing.Clauses.{
  Selected, clause, cut_params, clause_iff, offset_lem, cut_lem, filter_congr,
}

-- What a listing answers: the page of the rows that the test keeps, and how many it keeps.
abbrev pub listing :
    {Store : Type 0} → Env Store → ListJobsQuery → (Row → Bool) → List Row → List Job × ℕ
listing env opts p rows = (
  map row_to_job
      (take opts.limit (drop ((opts.page - 1) * opts.limit) (env.created_desc (filter p rows)))),
  length (filter p rows),
)

module _ {Store : Type 0} {env : Env Store} (quiet : IsQuiet env) (opts : ListJobsQuery)
    (w : World Store) where
  -- The page that the second statement cuts out.
  abbrev paged : List Row
  paged =
      let b = build_where opts in
      let params =
        b.params ++ number opts.limit ∷ integer (pos ((opts.page - 1) * opts.limit)) ∷ [] in
      take opts.limit
        (drop ((opts.page - 1) * opts.limit) (env.created_desc (matching b params w.jobs)))

  page_statement_lem :
      (now : ℕ)
      → page_statement env
          (build_where opts)
          opts.limit
          (pos ((opts.page - 1) * opts.limit))
          now
          w.jobs
        ≡ some (paged, w.jobs)
  unfolding page_statement
  page_statement_lem now =
      let offset = (opts.page - 1) * opts.limit in
      let (l, o) = cut_params opts opts.limit (pos offset) in
      rw (cut_lem _ _ opts.limit offset _ l o, page_statement) refl

  paged_lem :
      paged
      ≡ take opts.limit
          (drop ((opts.page - 1) * opts.limit) (env.created_desc (filter (clause opts []) w.jobs)))
  paged_lem =
      let offset = (opts.page - 1) * opts.limit in
      let more = number opts.limit ∷ integer (pos offset) ∷ [] in
      ap (λ rs. take opts.limit (drop offset (env.created_desc rs)))
        (filter_congr (clause opts more) (clause opts []) (Selected opts) (clause_iff opts more)
          (clause_iff opts []) w.jobs)

  counted_lem :
      length (matching (build_where opts) (build_where opts).params w.jobs)
      ≡ length (filter (clause opts []) w.jobs)
  counted_lem =
      ap
        (λ (ps : List SqlValue).
          length (filter (λ r. all (holds ps r) (build_where opts).conditions) w.jobs))
        (sym (append-nil (build_where opts).params))

  count_statement_lem :
      (now : ℕ)
      → count_statement (build_where opts) now w.jobs
        ≡ some (length (filter (clause opts []) w.jobs), w.jobs)
  unfolding count_statement
  count_statement_lem now = ap (λ (n : ℕ). some (n, w.jobs)) counted_lem

  list_body_lem :
      1 ≤ opts.page
      → (u : World Store) × (list_body env
            (build_where opts)
            opts.limit
            (sub_ℕ (opts.page * opts.limit) opts.limit)
            (opened w)
          ≡ resolved (listing env opts (clause opts []) w.jobs) u)
        × (u.writes u.jobs ≡ w.jobs)
        × (u.redis ≡ w.redis)
  unfolding list_body ◌>>=◌ resolve count_statement
  list_body_lem h =
      let b = build_where opts in
      let offset = (opts.page - 1) * opts.limit in
      let total = length (filter (clause opts []) w.jobs) in
      let u = opened w in
      let now = env.db_now (suc u.steps) in
      let u' : World Store = record u {
        writes = λ rs. effect env (count_statement b) now rs;
        steps = suc u.steps;
      } in
      rw
        (
          offset_lem opts.page opts.limit h,
          client_query_quiet quiet (count_statement b) u total w.jobs refl
              (count_statement_lem now),
          continue,
          client_query_quiet quiet (page_statement env b opts.limit (pos offset)) u' paged w.jobs
              refl (page_statement_lem (env.db_now (suc u'.steps))),
          paged_lem,
        )
        (_, refl, rw (page_statement_lem (env.db_now (suc u'.steps)), effect) refl, refl)

-- Where nobody else writes and every call comes back, a listing of page 1 or later resolves, to the
-- page that LIMIT and OFFSET cut from the selected rows in the database's order, mapped to jobs,
-- and to the number of all selected rows. A row is selected exactly when it has the status, the
-- priority number and the type that the query gives. Both stores stay as they were.
pub list_jobs-listing :
    {Store : Type 0} {env : Env Store} (quiet : IsQuiet env) (opts : ListJobsQuery)
    (w : World Store)
    → 1 ≤ opts.page
    → (p : Row → Bool) × (v : World Store) × ((r : Row) → (p r ≡ true) ↔ Selected opts r)
      × (list_jobs env opts w ≡ resolved (listing env opts p w.jobs) v)
      × (v.jobs ≡ w.jobs)
      × (v.redis ≡ w.redis)
unfolding list_jobs
list_jobs-listing {env} quiet opts w h =
    let (u, ran, same, store) = list_body_lem quiet opts w h in
    (
      clause opts [],
      closed u,
      clause_iff opts [],
      with_transaction_quiet quiet _ w _ u ran,
      same,
      store,
    )
