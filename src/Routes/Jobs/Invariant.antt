-- ===== src/Routes/Jobs/Invariant.antt =====
-- What every request keeps, whatever its body, whichever calls reject, and whatever others do.
use taskfire.Prelude.{
  ℕ, String, Bool, ◌≡◌, refl, sym, ap, subst, Option, none, some, List, [], ◌∷◌, ltb, not,
}
use taskfire.Async.{Async, Outcome, resolved, rejected, world}
use taskfire.Async.Keeps.{Keeps, Keeps-bind, Keeps-catch, Keeps-elim, Keeps-if, keeps_rules}
use taskfire.Job.{Job}
use taskfire.Job.Schema.{Zod, Parsed, success, failure, CreateJobInput, Issue}
use taskfire.Postgres.Table.{retriable}
use taskfire.Postgres.Table.Laws.{IsTable}
use taskfire.Postgres.Table.Descent.{Descends, Descends-refl, Descends-KeptByStatements}
use taskfire.Postgres.Session.Laws.{Holds, OthersKeep}
use taskfire.Postgres.Kept.{Kept, Kept-statements, IsTable-Kept, pool_Kept}
use taskfire.Redis.Member.{EnqueuePayload}
use taskfire.Redis.Server.{Redis}
use taskfire.Redis.Queue.Keeps.{
  date_now-Blind, random_uuid-Blind, enqueue_job-Blind, enqueue_delayed-Blind,
  remove_from_queue-Blind,
}
use taskfire.Routes.Reply.{Reply, answer}
use taskfire.Routes.Jobs.{
  enqueue_at, create, post_job, list, get_jobs, job_or_404, get_job_by_id, uncancellable, cancel,
  delete_existing, delete_job, requeue, retry_existing, retry_job, get_logs, Request, posts, lists,
  gets_one, deletes, asks_logs, retries, handle, serve,
}
use taskfire.World.{World, Env}
use taskfire.World.Quiet.{IsAlone}

module _ {Store Body : Type 0} (zod : Zod Body) (redis : Redis Store) (env : Env Store)
    {P : World Store → Type 0} (kept : Kept env P) where
  -- A handler that validates first.
  parsed-Keeps :
      {A : Type 0} (p : Parsed A) (bad : List Issue → Async (World Store) Reply)
      (good : A → Async (World Store) Reply)
      → ((d : List Issue) → Keeps P (bad d))
      → ((a : A) → Keeps P (good a))
      → Keeps P (elim p [ failure d ↦ bad d | success a ↦ good a ])
  parsed-Keeps (success a) bad good kb kg = kg a
  parsed-Keeps (failure d) bad good kb kg = kb d

  enqueue_at-Keeps :
      (payload : EnqueuePayload) (at : Option ℕ) (now : ℕ)
      → Keeps P (enqueue_at zod redis env payload at now)
  unfolding enqueue_at
  enqueue_at-Keeps payload none now = enqueue_job-Blind redis kept.blind payload
  enqueue_at-Keeps payload (some at) now =
      Keeps-if (ltb now at) _ _ (λ _. enqueue_delayed-Blind redis kept.blind payload at)
        (λ _. enqueue_job-Blind redis kept.blind payload)

  create-Keeps : (input : CreateJobInput) → Keeps P (create zod redis env input)
  unfolding create
  create-Keeps input = Keeps-bind _ _ (date_now-Blind redis kept.blind) λ now.
      Keeps-bind _ _ (random_uuid-Blind redis kept.blind) λ id.
        Keeps-bind _ _ (kept.on_create _)
          λ j. Keeps-bind _ _ (enqueue_at-Keeps _ _ now) λ _. search keeps_rules

  job_or_404-Keeps :
      (found : Option Job) (f : Job → Async (World Store) Reply)
      → ((j : Job) → Keeps P (f j))
      → Keeps P (job_or_404 zod redis env found f)
  unfolding job_or_404
  job_or_404-Keeps none f k = search keeps_rules
  job_or_404-Keeps (some j) f k = k j

  cancel-Keeps : (fuel : ℕ) (id : String) (j : Job) → Keeps P (cancel zod redis env fuel id j)
  unfolding cancel
  cancel-Keeps fuel id j = Keeps-bind _ _ (kept.on_cancel id) λ cancelled.
      Keeps-elim cancelled _ _ (search keeps_rules) λ _.
        Keeps-bind _ _
          (Keeps-catch _ _ (remove_from_queue-Blind redis kept.blind fuel j.id j.priority)
            λ _. search keeps_rules)
          λ _. search keeps_rules

  delete_existing-Keeps :
      (fuel : ℕ) (id : String) (j : Job) → Keeps P (delete_existing zod redis env fuel id j)
  unfolding delete_existing
  delete_existing-Keeps fuel id j =
      Keeps-elim (uncancellable j.status) _ _ (cancel-Keeps fuel id j) λ _. search keeps_rules

  requeue-Keeps : (id : String) (reset : Bool) → Keeps P (requeue zod redis env id reset)
  unfolding requeue
  requeue-Keeps id reset = Keeps-bind _ _ (kept.on_requeue id reset) λ updated.
      Keeps-elim updated _ _ (search keeps_rules)
        λ j. Keeps-bind _ _ (enqueue_job-Blind redis kept.blind _) λ _. search keeps_rules

  retry_existing-Keeps :
      (id : String) (reset : Bool) (j : Job) → Keeps P (retry_existing zod redis env id reset j)
  unfolding retry_existing
  retry_existing-Keeps id reset j =
      Keeps-if (not (retriable j.status)) _ _ (λ _. search keeps_rules)
        (λ _. requeue-Keeps id reset)

  -- Every handler keeps a property that the services keep.
  pub handle-Keeps : (fuel : ℕ) (r : Request Body) → Keeps P (handle zod redis env fuel r)
  unfolding handle post_job get_jobs list get_job_by_id delete_job get_logs retry_job
  handle-Keeps fuel (posts body) =
      parsed-Keeps (zod.parse_create body) _ _ (λ _. search keeps_rules) create-Keeps
  handle-Keeps fuel (lists query) =
      parsed-Keeps (zod.parse_list query) _ _ (λ _. search keeps_rules)
        λ opts. Keeps-bind _ _ (kept.on_list opts) λ _. search keeps_rules
  handle-Keeps fuel (gets_one params) =
      parsed-Keeps (zod.parse_id params) _ _ (λ _. search keeps_rules)
        λ id.
          Keeps-bind _ _ (kept.on_get id) λ found. job_or_404-Keeps found _ λ _. search keeps_rules
  handle-Keeps fuel (deletes params) =
      parsed-Keeps (zod.parse_id params) _ _ (λ _. search keeps_rules)
        λ id.
          Keeps-bind _ _ (kept.on_get id)
            λ found. job_or_404-Keeps found _ (delete_existing-Keeps fuel id)
  handle-Keeps fuel (asks_logs params) =
      parsed-Keeps (zod.parse_id params) _ _ (λ _. search keeps_rules)
        λ id. Keeps-bind _ _ (kept.on_get id) λ found.
          job_or_404-Keeps found _ λ j. Keeps-bind _ _ (kept.on_logs id) λ _. search keeps_rules
  handle-Keeps fuel (retries params body) =
      parsed-Keeps (zod.parse_id params) _ _ (λ _. search keeps_rules)
        λ id.
          parsed-Keeps (zod.parse_retry body) _ _ (λ _. search keeps_rules)
            λ reset.
              Keeps-bind _ _ (kept.on_get id)
                λ found. job_or_404-Keeps found _ (retry_existing-Keeps id reset)

  pub answer_keeps : (o : Outcome (World Store) Reply) → P (world o) → P (answer o).1
  unfolding answer
  answer_keeps (resolved r w) h = h
  answer_keeps (rejected e w) h = h

  serve-keeps :
      (fuel : ℕ) (rs : List (Request Body)) (w : World Store)
      → P w
      → P (serve zod redis env fuel rs w)
  unfolding serve
  serve-keeps fuel [] w h = h
  serve-keeps fuel (r ∷ rs) w h =
      serve-keeps fuel rs _
        (answer_keeps (handle zod redis env fuel r w) ((handle-Keeps fuel r).at w h))

-- From a table that has its constraints, whatever requests come, whichever calls of the stores
-- reject, and whatever the other sessions do that itself keeps the constraints: after the requests
-- the ids of the committed table are distinct and no row has more retries than its maximum.
pub serve-IsTable :
    {Store Body : Type 0} (zod : Zod Body) (redis : Redis Store) (env : Env Store)
    (peers : OthersKeep IsTable env) (fuel : ℕ) (rs : List (Request Body)) (w : World Store)
    → Holds IsTable w
    → IsTable (serve zod redis env fuel rs w).jobs
serve-IsTable zod redis env peers fuel rs w h =
    (serve-keeps zod redis env (IsTable-Kept env peers) fuel rs w h).committed

-- Where nobody else writes, and no transaction is open, whatever requests come and whichever calls
-- of the stores reject: afterwards every row is still in its place, with its id, type, payload,
-- priority, maximum of retries, dependencies, date of creation and schedule, its retries are as
-- many as before or none, and one that was active or completed is wholly as it was; the rows behind
-- them have no retries.
pub serve-Descends :
    {Store Body : Type 0} (zod : Zod Body) (redis : Redis Store) {env : Env Store}
    (alone : IsAlone env) (fuel : ℕ) (rs : List (Request Body)) (w : World Store)
    → w.writes ≡ (λ rows. rows)
    → Descends w.jobs (serve zod redis env fuel rs w).jobs
serve-Descends zod redis {env} alone fuel rs w closed =
    let J = Descends w.jobs in
    let peers : OthersKeep J env = λ n rows d. subst J (sym (alone.no_others n rows)) d in
    let start : Holds J w = record {
      committed = Descends-refl w.jobs;
      uncommitted = λ rows d. subst J (sym (ap (λ f. f rows) closed)) d;
    } in
    let kept = Kept-statements (Descends-KeptByStatements w.jobs) env peers in
    (serve-keeps zod redis env kept fuel rs w start).committed

-- Whatever requests come, whichever calls of the stores reject, and whatever others do: after the
-- requests the pool has handed out as many clients as before them.
pub serve-connections :
    {Store Body : Type 0} (zod : Zod Body) (redis : Redis Store) (env : Env Store) (fuel : ℕ)
    (rs : List (Request Body)) (w : World Store)
    → (serve zod redis env fuel rs w).connections ≡ w.connections
serve-connections zod redis env fuel rs w =
    serve-keeps zod redis env (pool_Kept env w.connections) fuel rs w refl
