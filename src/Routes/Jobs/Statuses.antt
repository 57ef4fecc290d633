-- ===== src/Routes/Jobs/Statuses.antt =====
-- The statuses that the handlers themselves reply with: an error of the server comes from the error
-- handler only.
use taskfire.Prelude.{
  ℕ, ◌<◌, String, Bool, true, false, Option, none, some, not, arith, if◌then◌else◌,
}
use taskfire.Async.{Async, Outcome, resolved, rejected, resolve, ◌>>=◌, continue}
use taskfire.Job.{Job}
use taskfire.Job.Schema.{Zod, Parsed, success, failure, CreateJobInput}
use taskfire.Postgres.Table.{retriable}
use taskfire.Redis.Server.{Redis}
use taskfire.Routes.Reply.{Reply, zod_error, not_found, conflict}
use taskfire.Routes.Jobs.{
  create, post_job, list, get_jobs, job_or_404, get_job_by_id, uncancellable, cancel,
  delete_existing, delete_job, requeue, retry_existing, retry_job, get_logs, Request, posts, lists,
  gets_one, deletes, asks_logs, retries, handle,
}
use taskfire.World.{World, Env}

module _ {W : Type 0} where
  -- The status of a reply, where there is one, is below 500.
  abbrev pub IsBelow : Outcome W Reply → Type 0
  IsBelow (resolved r w) = r.status < 500
  IsBelow (rejected e w) = Unit

  pub record Answers (m : Async W Reply) : Type 0 where
    pub at : (w : W) → IsBelow (m w)

  Answers-resolve : (r : Reply) → r.status < 500 → Answers (resolve r)
  unfolding resolve
  Answers-resolve r h = record { at = λ w. h }

  Answers-bind :
      {A : Type 0} (m : Async W A) (f : A → Async W Reply)
      → ((a : A) → Answers (f a))
      → Answers (m >>= f)
  unfolding ◌>>=◌
  Answers-bind m f h = record { at = λ w. continue_below (m w) f h }
    where
      continue_below :
          {A : Type 0} (o : Outcome W A) (f : A → Async W Reply)
          → ((a : A) → Answers (f a))
          → IsBelow (continue o f)
      continue_below (resolved a w) f h = (h a).at w
      continue_below (rejected e w) f h = tt

  Answers-option :
      {A : Type 0} (o : Option A) (on_none : Async W Reply) (on_some : A → Async W Reply)
      → Answers on_none
      → ((a : A) → Answers (on_some a))
      → Answers (elim o [ none ↦ on_none | some a ↦ on_some a ])
  Answers-option none on_none on_some h k = h
  Answers-option (some a) on_none on_some h k = k a

  Answers-if :
      (b : Bool) (then_do else_do : Async W Reply)
      → Answers then_do
      → Answers else_do
      → Answers (if b then then_do else else_do)
  Answers-if true then_do else_do h k = h
  Answers-if false then_do else_do h k = k

  Answers-parsed :
      {A : Type 0} (p : Parsed A) (good : A → Async W Reply)
      → ((a : A) → Answers (good a))
      → Answers (elim p [ failure d ↦ resolve (zod_error d) | success a ↦ good a ])
  Answers-parsed (success a) good h = h a
  Answers-parsed (failure d) good h = Answers-resolve (zod_error d) (omega arith)

module _ {Store Body : Type 0} (zod : Zod Body) (redis : Redis Store) (env : Env Store) where
  create-Answers : (input : CreateJobInput) → Answers (create zod redis env input)
  unfolding create
  create-Answers input = Answers-bind _ _ λ now.
      Answers-bind _ _
        λ id. Answers-bind _ _ λ j. Answers-bind _ _ λ _. Answers-resolve _ (omega arith)

  job_or_404-Answers :
      (found : Option Job) (f : Job → Async (World Store) Reply)
      → ((j : Job) → Answers (f j))
      → Answers (job_or_404 zod redis env found f)
  unfolding job_or_404
  job_or_404-Answers none f h = Answers-resolve not_found (omega arith)
  job_or_404-Answers (some j) f h = h j

  delete_existing-Answers :
      (fuel : ℕ) (id : String) (j : Job) → Answers (delete_existing zod redis env fuel id j)
  unfolding delete_existing cancel
  delete_existing-Answers fuel id j =
      Answers-option (uncancellable j.status) _ _
        (Answers-bind _ _ λ cancelled.
          Answers-option cancelled _ _ (Answers-resolve _ (omega arith))
            λ _. Answers-bind _ _ λ _. Answers-resolve _ (omega arith))
        λ message. Answers-resolve (conflict message) (omega arith)

  retry_existing-Answers :
      (id : String) (reset : Bool) (j : Job) → Answers (retry_existing zod redis env id reset j)
  unfolding retry_existing requeue
  retry_existing-Answers id reset j =
      Answers-if (not (retriable j.status)) _ _ (Answers-resolve _ (omega arith)) (
        Answers-bind _ _ λ updated.
          Answers-option updated _ _ (Answers-resolve _ (omega arith))
            λ k. Answers-bind _ _ λ _. Answers-resolve _ (omega arith))

  pub handle-Answers : (fuel : ℕ) (r : Request Body) → Answers (handle zod redis env fuel r)
  unfolding handle post_job get_jobs list get_job_by_id delete_job get_logs retry_job
  handle-Answers fuel (posts body) = Answers-parsed (zod.parse_create body) _ create-Answers
  handle-Answers fuel (lists query) =
      Answers-parsed (zod.parse_list query) _
        λ opts. Answers-bind _ _ λ _. Answers-resolve _ (omega arith)
  handle-Answers fuel (gets_one params) = Answers-parsed (zod.parse_id params) _ λ id.
      Answers-bind _ _ λ found. job_or_404-Answers found _ λ _. Answers-resolve _ (omega arith)
  handle-Answers fuel (deletes params) =
      Answers-parsed (zod.parse_id params) _
        λ id. Answers-bind _ _ λ found. job_or_404-Answers found _ (delete_existing-Answers fuel id)
  handle-Answers fuel (asks_logs params) = Answers-parsed (zod.parse_id params) _ λ id.
      Answers-bind _ _ λ found.
        job_or_404-Answers found _ λ j. Answers-bind _ _ λ _. Answers-resolve _ (omega arith)
  handle-Answers fuel (retries params body) = Answers-parsed (zod.parse_id params) _ λ id.
      Answers-parsed (zod.parse_retry body) _ λ reset.
        Answers-bind _ _ λ found. job_or_404-Answers found _ (retry_existing-Answers id reset)
