-- ===== src/Routes/Jobs/Refinement.antt =====
-- The job routes refine the service on a map from ids to rows.
use taskfire.Prelude.{ℕ, String, refl, sym, ap, subst, none, List, [], ◌∷◌, inl}
use taskfire.Async.{Async, Outcome, resolved, rejected, resolve}
use taskfire.Async.Ends.{Ends-resolved, Ends-weaken, Ends-bind}
use taskfire.Job.Schema.{Zod, Parsed, success, failure, ListJobsQuery}
use taskfire.Postgres.Row.{row_to_job}
use taskfire.Postgres.Table.Laws.{IsTable}
use taskfire.Postgres.Table.View.{lookup}
use taskfire.Postgres.Kept.{IsTable-Kept}
use taskfire.Postgres.Listing.Alone.{list_jobs-Ends}
use taskfire.Postgres.Logs.{row_logs}
use taskfire.Postgres.Session.Laws.{Holds, OthersKeep}
use taskfire.Redis.Server.{Redis}
use taskfire.Routes.Reply.{Reply, reply, job, job_logs, zod_error, answer}
use taskfire.Routes.Jobs.{
  post_job, list, get_jobs, get_job_by_id, delete_job, retry_job, get_logs, Request, posts, lists,
  gets_one, deletes, asks_logs, retries, handle, serve, replies,
}
use taskfire.Routes.Jobs.Invariant.{handle-Keeps, answer_keeps}
use taskfire.Routes.Jobs.Service.{Jobs, Service, says, for_row, posted, deleted, retried, service}
use taskfire.Routes.Jobs.Served.{view, SameJobs, Obeys, Follows, Follows-parsed, get_job-Follows}
use taskfire.Routes.Jobs.Existing.{delete_existing-Follows, retry_existing-Follows, logs-Follows}
use taskfire.Routes.Jobs.Posting.{create-Follows}
use taskfire.World.{World, Env}
use taskfire.World.Quiet.{IsAlone}

module _ {Store Body : Type 0} (zod : Zod Body) (redis : Redis Store) (env : Env Store)
    (alone : IsAlone env) (fuel : ℕ) where
  list-Follows :
      (opts : ListJobsQuery) (w : World Store)
      → Follows env (λ now id jobs. (none, jobs)) (view w) (list zod redis env opts w)
  unfolding list resolve
  list-Follows opts w =
      Ends-bind _ _ _ w
        (Ends-weaken (λ found v same. same) (λ e v same. (0, 0, inl (tt, λ j. ap (lookup j) same)))
          (list_jobs-Ends env alone opts w))
        λ found v same. Ends-resolved (0, 0, inl (tt, λ j. ap (lookup j) same))

  parsed-Follows :
      (p : Parsed ListJobsQuery) (w : World Store)
      → Follows env
          (λ now id jobs. (none, jobs))
          (view w)
          ((elim p as (λ _. Async (World Store) Reply) [
            | failure d ↦ resolve (zod_error d)
            | success opts ↦ list zod redis env opts
          ])
            w)
  unfolding resolve
  parsed-Follows (success opts) w = list-Follows opts w
  parsed-Follows (failure d) w = Ends-resolved (0, 0, inl (tt, λ j. refl))

  handle-Follows :
      (r : Request Body) (w : World Store)
      → IsTable w.jobs
      → Follows env (λ now id. service now zod id r) (view w) (handle zod redis env fuel r w)
  unfolding handle service post_job get_jobs get_job_by_id delete_job get_logs retry_job resolve
  handle-Follows (posts body) w table =
      Follows-parsed env (zod.parse_create body) (λ input now id. posted now id input) _ w
        λ input _. create-Follows zod redis alone input w
  handle-Follows (lists query) w table = parsed-Follows (zod.parse_list query) w
  handle-Follows (gets_one params) w table =
      Follows-parsed env (zod.parse_id params)
        (λ id now new_id. for_row id λ row. says (reply 200 (job (row_to_job row)))) _ w
        λ id _.
          get_job-Follows env zod redis alone id
            (λ now k row. says (reply 200 (job (row_to_job row)))) _ w table
            λ row v _ _. Ends-resolved (0, 0, inl (refl, λ j. refl))
  handle-Follows (deletes params) w table =
      Follows-parsed env (zod.parse_id params) (λ id now new_id. for_row id (deleted now id)) _ w
        λ id _.
          get_job-Follows env zod redis alone id (λ now k. deleted now id) _ w table
            λ row v table' found.
              delete_existing-Follows zod redis alone id v table' row found fuel _ refl
  handle-Follows (asks_logs params) w table =
      Follows-parsed env (zod.parse_id params)
        (λ id now new_id.
          for_row id λ row. says (reply 200 (job_logs row.id row.type (row_logs row))))
        _ w
        λ id _.
          get_job-Follows env zod redis alone id
            (λ now k row. says (reply 200 (job_logs row.id row.type (row_logs row)))) _ w table
            λ row v table' found. logs-Follows zod redis alone id v table' row found
  handle-Follows (retries params body) w table =
      Follows-parsed env (zod.parse_id params)
        (λ id now new_id. elim (zod.parse_retry body) [
          | failure details ↦ says (zod_error details)
          | success reset ↦ for_row id (retried now id reset)
        ])
        _ w
        λ id _.
          Follows-parsed env (zod.parse_retry body)
            (λ reset now new_id. for_row id (retried now id reset)) _ w
            λ reset _.
              get_job-Follows env zod redis alone id (λ now k. retried now id reset) _ w table
                λ row v table' found.
                  retry_existing-Follows zod redis alone id v table' row found reset _ refl

-- A conversation that keeps to the service: each reply and what it leaves, from what the one before
-- left.
abbrev pub Conversation :
    {Store Body : Type 0}
    → Zod Body
    → Env Store
    → List (Request Body)
    → Jobs
    → List Reply
    → Jobs
    → Type 0
Conversation zod env [] jobs [] jobs' = SameJobs jobs jobs'
Conversation zod env [] jobs (got ∷ gots) jobs' = ⊥
Conversation zod env (r ∷ rs) jobs [] jobs' = ⊥
Conversation zod env (r ∷ rs) jobs (got ∷ gots) jobs' =
    (between : Jobs) × Obeys env (λ now id. service now zod id r) jobs got between
    × Conversation zod env rs between gots jobs'

module _ {Store Body : Type 0} (zod : Zod Body) (redis : Redis Store) {env : Env Store}
    (alone : IsAlone env) (fuel : ℕ) where
  answer-Obeys :
      (S : ℕ → String → Service) (jobs : Jobs) (o : Outcome (World Store) Reply)
      → Follows env S jobs o
      → Obeys env S jobs (answer o).0 (view (answer o).1)
  unfolding answer
  answer-Obeys S jobs (resolved got v) follows = follows.on_resolved got v refl
  answer-Obeys S jobs (rejected e v) follows = follows.on_rejected e v refl

  -- Where nobody else writes, and whichever calls of the stores reject, the replies to any requests
  -- and the table that they leave, as a map from ids to rows, are those of the service: each reply
  -- is the one that the service gives for the jobs left by the requests before, and leaves what the
  -- service leaves; or a call rejected, the reply is 500, and the jobs are as before the request or
  -- as the service leaves them. Of a listing no reply is said; it leaves the jobs.
  pub serve-service :
      (rs : List (Request Body)) (w : World Store)
      → Holds IsTable w
      → Conversation zod env rs
          (view w)
          (replies zod redis env fuel rs w)
          (view (serve zod redis env fuel rs w))
  unfolding serve replies
  serve-service [] w h = λ id. refl
  serve-service (r ∷ rs) w h =
      let o = handle zod redis env fuel r w in
      let peers : OthersKeep IsTable env =
        λ n rows t. subst IsTable (sym (alone.no_others n rows)) t in
      let kept =
        answer_keeps zod redis env (IsTable-Kept env peers) o
          ((handle-Keeps zod redis env (IsTable-Kept env peers) fuel r).at w h) in
      (
        view (answer o).1,
        answer-Obeys (λ now id. service now zod id r) (view w) o
            (handle-Follows zod redis env alone fuel r w h.committed),
        serve-service rs (answer o).1 kept,
      )
