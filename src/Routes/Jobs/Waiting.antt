-- ===== src/Routes/Jobs/Waiting.antt =====
-- Each route of jobs.ts keeps every pending job in a queue, where every call comes back and nobody
-- else writes.
use taskfire.Prelude.{
  ℕ, suc, true, false, ◌≡◌, ◌≤◌, refl, sym, ap, subst, ◌∙◌, List, [], ◌∷◌, ◌⊎◌, inl, inr, arith,
  Bool-cases, Option-cases,
}
use taskfire.Async.{Outcome, resolved, resolve, ◌>>=◌, continue}
use taskfire.Job.Schema.{Zod, Parsed, success, failure, list_jobs_query_schema, Issue}
use taskfire.Postgres.Table.{has_id, new_row}
use taskfire.Postgres.Table.Laws.{IsTable}
use taskfire.Postgres.Table.View.{lookup}
use taskfire.Postgres.Jobs.Alone.{lookup-append}
use taskfire.Postgres.Jobs.Effects.{get_job_lem, create_job_lem}
use taskfire.Postgres.Kept.{IsTable-Kept}
use taskfire.Postgres.Listing.Laws.{list_jobs-listing}
use taskfire.Postgres.Logs.Laws.{get_job_logs-lookup}
use taskfire.Postgres.Session.Laws.{Holds, OthersKeep}
use taskfire.Redis.Member.{Key}
use taskfire.Redis.Server.{Redis}
use taskfire.Routes.Jobs.{
  post_job, create, list, get_jobs, job_or_404, get_job_by_id, delete_job, retry_job, get_logs,
  Request, posts, lists, gets_one, deletes, asks_logs, retries, handle, serve, enqueue_payload,
}
use taskfire.Routes.Jobs.Cancel.{delete_job-Deleted}
use taskfire.Routes.Jobs.Create.{asked, is_for_later, post_job-Enqueued}
use taskfire.Routes.Jobs.Retry.{retry_job-Retried}
use taskfire.Routes.Jobs.Invariant.{handle-Keeps, answer_keeps}
use taskfire.Routes.Jobs.Held.{
  IsHeld, SameStores-IsHeld, added-IsHeld, EnqueuedBy-Adds, Deleted-IsHeld, Retried-IsHeld,
}
use taskfire.Routes.Reply.{Reply, answer}
use taskfire.World.{World, Env}
use taskfire.World.Quiet.{IsQuiet, date_now_quiet, random_uuid_quiet}

parse_cases :
    {A : Type 0} (p : Parsed A) → ((d : List Issue) × (p ≡ failure d)) ⊎ ((a : A) × (p ≡ success a))
parse_cases (success a) = inr (a, refl)
parse_cases (failure d) = inl (d, refl)

module _ {Store : Type 0} (redis : Redis Store) where
  resolved-IsHeld :
      (o : Outcome (World Store) Reply) (r : Reply) (v : World Store)
      → o ≡ resolved r v
      → IsHeld redis v
      → IsHeld redis (answer o).1
  unfolding answer
  resolved-IsHeld o r v ran held = rw ran held

  module _ {Body : Type 0} (zod : Zod Body) {env : Env Store} (quiet : IsQuiet env) where
    post_free :
        (body : Body) (input : _) (w : World Store)
        → zod.parse_create body ≡ success input
        → has_id (env.random_uuid (suc w.steps)) w.jobs ≡ false
        → IsHeld redis w
        → IsHeld redis (answer (post_job zod redis env body w)).1
    unfolding enqueue_payload new_row
    post_free body input w parsed free held =
        let (v, row, now, ran, is, jobs, put) =
          post_job-Enqueued zod redis quiet body input w parsed free in
        let (key, score, leads, adds) =
          EnqueuedBy-Adds redis row input.scheduled_at w.redis v.redis
            (is_for_later input.scheduled_at (env.date_now w.steps)) put in
        resolved-IsHeld _ _ v ran (
          added-IsHeld redis w v row.id row key score
            (λ j. ap (lookup j) jobs ∙ lookup-append w.jobs row j (rw is free)) leads adds held)

    post_taken :
        (body : Body) (input : _) (w : World Store)
        → zod.parse_create body ≡ success input
        → has_id (env.random_uuid (suc w.steps)) w.jobs ≡ true
        → IsHeld redis w
        → IsHeld redis (answer (post_job zod redis env body w)).1
    unfolding post_job create ◌>>=◌ answer
    post_taken body input w parsed taken held =
        let u : World Store = record w { steps = suc (suc w.steps) } in
        rw (post_job, parsed, create, date_now_quiet quiet w, continue)
          (rw (random_uuid_quiet quiet _, continue)
            (rw
              (
                create_job_lem quiet (asked input (env.random_uuid (suc w.steps))) u,
                taken,
                continue,
              )
              held))

    post-IsHeld :
        (body : Body) (w : World Store)
        → IsHeld redis w
        → IsHeld redis (answer (post_job zod redis env body w)).1
    unfolding post_job resolve answer
    post-IsHeld body w held = elim (parse_cases (zod.parse_create body)) [
      | inl (d, bad) ↦ rw (bad, post_job) held
      | inr (input, good) ↦ elim (Bool-cases (has_id (env.random_uuid (suc w.steps)) w.jobs)) [
        | inl taken ↦ post_taken body input w good taken held
        | inr free ↦ post_free body input w good free held
      ]
    ]

    list-IsHeld :
        (query : Body) (w : World Store)
        → IsHeld redis w
        → IsHeld redis (answer (get_jobs zod redis env query w)).1
    unfolding get_jobs list resolve answer ◌>>=◌ list_jobs_query_schema
    list-IsHeld query w held = elim (parse_cases (zod.parse_list query)) [
      | inl (d, bad) ↦ rw (bad, get_jobs) held
      | inr (opts, good) ↦
          let checked = zod.list_checked query opts good in
          let (p, v, _, ran, jobs, store) =
            list_jobs-listing quiet opts w (ground (arith, checked)) in
          rw (get_jobs, good, list, ran, continue) (SameStores-IsHeld redis w v (jobs, store) held)
    ]

    get_one-IsHeld :
        (params : Body) (w : World Store)
        → IsTable w.jobs
        → IsHeld redis w
        → IsHeld redis (answer (get_job_by_id zod redis env params w)).1
    unfolding get_job_by_id job_or_404 resolve answer ◌>>=◌
    get_one-IsHeld params w table held = elim (parse_cases (zod.parse_id params)) [
      | inl (d, bad) ↦ rw (bad, get_job_by_id) held
      | inr (id, good) ↦ elim (Option-cases (lookup id w.jobs)) [
        | inl missing ↦
            rw (get_job_by_id, good, get_job_lem quiet id w table, missing, continue) held
        | inr (row, found) ↦
            rw (get_job_by_id, good, get_job_lem quiet id w table, found, continue) held
      ]
    ]

    logs-IsHeld :
        (params : Body) (w : World Store)
        → IsTable w.jobs
        → IsHeld redis w
        → IsHeld redis (answer (get_logs zod redis env params w)).1
    unfolding get_logs job_or_404 resolve answer ◌>>=◌
    logs-IsHeld params w table held = elim (parse_cases (zod.parse_id params)) [
      | inl (d, bad) ↦ rw (bad, get_logs) held
      | inr (id, good) ↦ elim (Option-cases (lookup id w.jobs)) [
        | inl missing ↦ rw (get_logs, good, get_job_lem quiet id w table, missing, continue) held
        | inr (row, found) ↦
            let u : World Store = record w { steps = suc (suc w.steps) } in
            let (v, ran, jobs, store) = get_job_logs-lookup quiet id u in
            rw (get_logs, good, get_job_lem quiet id w table, found, continue)
              (rw (ran, continue) (SameStores-IsHeld redis w v (jobs, store) held))
      ]
    ]

    delete-IsHeld :
        (fuel : ℕ) (params : Body) (w : World Store)
        → ((k : Key) → redis.rounds k w.redis ≤ fuel)
        → IsTable w.jobs
        → IsHeld redis w
        → IsHeld redis (answer (delete_job zod redis env fuel params w)).1
    unfolding delete_job resolve answer
    delete-IsHeld fuel params w enough table held = elim (parse_cases (zod.parse_id params)) [
      | inl (d, bad) ↦ rw (bad, delete_job) held
      | inr (id, good) ↦
          let (r, v, ran, done) =
            delete_job-Deleted zod redis quiet id fuel params w good table enough in
          resolved-IsHeld _ r v ran
            (Deleted-IsHeld redis id w v (lookup id w.jobs) r refl done held)
    ]

    retry-IsHeld :
        (params body : Body) (w : World Store)
        → IsTable w.jobs
        → IsHeld redis w
        → IsHeld redis (answer (retry_job zod redis env params body w)).1
    unfolding retry_job resolve answer
    retry-IsHeld params body w table held = elim (parse_cases (zod.parse_id params)) [
      | inl (d, bad) ↦ rw (bad, retry_job) held
      | inr (id, good) ↦ elim (parse_cases (zod.parse_retry body)) [
        | inl (d, bad) ↦ rw (good, bad, retry_job) held
        | inr (reset, asks) ↦
            let (r, v, ran, done) =
              retry_job-Retried zod redis quiet id reset params body w good asks table in
            resolved-IsHeld _ r v ran
              (Retried-IsHeld redis id reset w v (lookup id w.jobs) r refl done held)
      ]
    ]

    module _ (fuel : ℕ) (enough : (k : Key) (s : Store) → redis.rounds k s ≤ fuel) where
      handle-IsHeld :
          (r : Request Body) (w : World Store)
          → IsTable w.jobs
          → IsHeld redis w
          → IsHeld redis (answer (handle zod redis env fuel r w)).1
      unfolding handle
      handle-IsHeld (posts body) w table = post-IsHeld body w
      handle-IsHeld (lists query) w table = list-IsHeld query w
      handle-IsHeld (gets_one params) w table = get_one-IsHeld params w table
      handle-IsHeld (deletes params) w table =
          delete-IsHeld fuel params w (λ k. enough k w.redis) table
      handle-IsHeld (asks_logs params) w table = logs-IsHeld params w table
      handle-IsHeld (retries params body) w table = retry-IsHeld params body w table

      -- Where nobody else writes, every call comes back, and the fuel bounds the rounds of every
      -- scan, no request loses a pending job: from a table whose constraints hold and whose every
      -- pending job is a member of the lane of its priority or of the delayed set, any requests
      -- lead to a table of which the same holds.
      pub serve-IsHeld :
          (rs : List (Request Body)) (w : World Store)
          → Holds IsTable w
          → IsHeld redis w
          → Holds IsTable (serve zod redis env fuel rs w)
            × IsHeld redis (serve zod redis env fuel rs w)
      unfolding serve
      serve-IsHeld [] w h held = (h, held)
      serve-IsHeld (r ∷ rs) w h held =
          let peers : OthersKeep IsTable env =
            λ n rows t. subst IsTable (sym (quiet.alone.no_others n rows)) t in
          let o = handle zod redis env fuel r w in
          serve-IsHeld rs (answer o).1
            (answer_keeps zod redis env (IsTable-Kept env peers) o
              ((handle-Keeps zod redis env (IsTable-Kept env peers) fuel r).at w h))
            (handle-IsHeld r w h.committed held)
