-- ===== src/Routes/Jobs/Served.antt =====
-- Each handler does what the service says, where nobody else writes and calls may reject.
use mathlib.Core.Option
use taskfire.Prelude.{ℕ, String, ◌≡◌, refl, sym, ap, subst, ◌∙◌, Option, none, some, ◌⊎◌, inl, inr}
use taskfire.Async.{Async, Error, unavailable, Outcome, resolve, ◌>>=◌}
use taskfire.Async.Ends.{Ends, Ends-resolved, Ends-weaken, Ends-bind}
use taskfire.Job.{Job}
use taskfire.Job.Schema.{Parsed, success, failure}
use taskfire.Postgres.Row.{Row, row_to_job}
use taskfire.Postgres.Table.Laws.{IsTable}
use taskfire.Postgres.Table.View.{lookup}
use taskfire.Postgres.Jobs.{get_job}
use taskfire.Postgres.Jobs.Alone.{get_job-Ends}
use taskfire.Postgres.Session.Laws.Alone.{Fell}
use taskfire.Redis.Server.{Redis}
use taskfire.Job.Schema.{Zod}
use taskfire.Routes.Reply.{Reply, zod_error, not_found, error_handler}
use taskfire.Routes.Jobs.{job_or_404}
use taskfire.Routes.Jobs.Service.{Jobs, Service, says, on_row, for_row}
use taskfire.World.{World, Env}
use taskfire.World.Quiet.{IsAlone}

abbrev pub view : {Store : Type 0} → World Store → Jobs
view w id = lookup id w.jobs

abbrev pub SameJobs : Jobs → Jobs → Type 0
SameJobs jobs jobs' = (id : String) → jobs' id ≡ jobs id

abbrev pub Answered : Option Reply → Reply → Type 0
Answered none got = Unit {0}
Answered (some r) got = got ≡ r

module _ {Store : Type 0} (env : Env Store) where
  -- What is got and left is what the service says; or a call of a store rejected, the reply is 500,
  -- and the jobs are as before or as the service says.
  abbrev pub Meets : Option Reply × Jobs → Jobs → Reply → Jobs → Type 0
  Meets said jobs got jobs' =
      (Answered said.0 got × SameJobs said.1 jobs')
      ⊎ (Fell env
          × (got ≡ error_handler unavailable)
          × (SameJobs jobs jobs' ⊎ SameJobs said.1 jobs'))

  -- The service speaks at some time of the database, and with some drawn id.
  abbrev pub Obeys : (ℕ → String → Service) → Jobs → Reply → Jobs → Type 0
  Obeys S jobs got jobs' =
      (n : ℕ) × (k : ℕ) × Meets (S (env.db_now n) (env.random_uuid k) jobs) jobs got jobs'

  abbrev pub Follows : (ℕ → String → Service) → Jobs → Outcome (World Store) Reply → Type 0
  Follows S jobs o =
      Ends (λ got v. Obeys S jobs got (view v)) (λ e v. Obeys S jobs (error_handler e) (view v)) o

  -- A call rejected before anything was written.
  pub Obeys-unchanged :
      (S : ℕ → String → Service) (w v : World Store) (e : Error)
      → Fell env
      → v.jobs ≡ w.jobs
      → Obeys S (view w) (error_handler e) (view v)
  unfolding error_handler
  Obeys-unchanged S w v e fell same = (0, 0, inr (fell, refl, inl (λ id. ap (lookup id) same)))

  -- A call rejected behind the statement that writes.
  pub Obeys-written :
      (S : ℕ → String → Service) (jobs : Jobs) (v : World Store) (e : Error) (n k : ℕ)
      → Fell env
      → SameJobs (S (env.db_now n) (env.random_uuid k) jobs).1 (view v)
      → Obeys S jobs (error_handler e) (view v)
  unfolding error_handler
  Obeys-written S jobs v e n k fell same = (n, k, inr (fell, refl, inr same))

  -- Two services that say the same of the jobs are followed alike.
  pub Follows-same :
      (S T : ℕ → String → Service) {jobs : Jobs} {o : Outcome (World Store) Reply}
      → ((now : ℕ) (id : String) → S now id jobs ≡ T now id jobs)
      → Follows T jobs o
      → Follows S jobs o
  Follows-same S T {jobs} e follows =
      let moves : (got : Reply) (jobs' : Jobs) → Obeys T jobs got jobs' → Obeys S jobs got jobs' =
        λ got jobs' (n, k, meets). (
          n,
          k,
          subst (λ said. Meets said jobs got jobs') (sym (e (env.db_now n) (env.random_uuid k)))
              meets,
        ) in
      Ends-weaken (λ got v h. moves got (view v) h) (λ d v h. moves (error_handler d) (view v) h)
        follows

  pub Follows-parsed :
      {A : Type 0} (p : Parsed A) (S : A → ℕ → String → Service)
      (good : A → Async (World Store) Reply) (w : World Store)
      → ((a : A) → p ≡ success a → Follows (S a) (view w) (good a w))
      → Follows
          (λ now id. elim p [ failure d ↦ says (zod_error d) | success a ↦ S a now id ])
          (view w)
          ((elim p as (λ _. Async (World Store) Reply) [
            | failure d ↦ resolve (zod_error d)
            | success a ↦ good a
          ])
            w)
  unfolding resolve
  Follows-parsed (success a) S good w follows = follows a refl
  Follows-parsed (failure d) S good w follows = Ends-resolved (0, 0, inl (refl, λ id. refl))

  module _ {Body : Type 0} (zod : Zod Body) (redis : Redis Store) (alone : IsAlone env) where
    for_row-Follows :
        (id : String) (S : ℕ → String → Row → Service) (f : Job → Async (World Store) Reply)
        (w v : World Store) (o : Option Row)
        → lookup id w.jobs ≡ o
        → v.jobs ≡ w.jobs
        → ((row : Row)
            → lookup id w.jobs ≡ some row
            → Follows (λ now k. S now k row) (view w) (f (row_to_job row) v))
        → Follows
            (λ now k. for_row id (S now k))
            (view w)
            (job_or_404 zod redis env (Option.map row_to_job o) f v)
    unfolding job_or_404 resolve
    for_row-Follows id S f w v none e same follows =
        Follows-same (λ now k. for_row id (S now k)) (λ now k. says not_found)
          (λ now k. ap (on_row (S now k) (view w)) e)
          (Ends-resolved (0, 0, inl (refl, λ j. ap (lookup j) same)))
    for_row-Follows id S f w v (some row) e same follows =
        Follows-same (λ now k. for_row id (S now k)) (λ now k. S now k row)
          (λ now k. ap (on_row (S now k) (view w)) e) (follows row e)

    pub get_job-Follows :
        (id : String) (S : ℕ → String → Row → Service) (f : Job → Async (World Store) Reply)
        (w : World Store)
        → IsTable w.jobs
        → ((row : Row) (v : World Store)
            → IsTable v.jobs
            → lookup id v.jobs ≡ some row
            → Follows (λ now k. S now k row) (view v) (f (row_to_job row) v))
        → Follows
            (λ now k. for_row id (S now k))
            (view w)
            ((get_job env id >>= λ found. job_or_404 zod redis env found f) w)
    get_job-Follows id S f w table follows =
        Ends-bind _ _ _ w
          (Ends-weaken (λ o v h. h)
            (λ e v (fell, same). Obeys-unchanged (λ now k. for_row id (S now k)) w v e fell same)
            (get_job-Ends alone id w table))
          λ o v (is, same). rw is (
            for_row-Follows id S f w v (lookup id w.jobs) refl same λ row e.
              subst
                (λ rows. Follows (λ now k. S now k row) (λ j. lookup j rows) (f (row_to_job row) v))
                same (follows row v (subst IsTable (sym same) table) (ap (lookup id) same ∙ e)))
