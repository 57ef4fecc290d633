-- ===== src/Routes/Jobs/Posting.antt =====
-- POST / where nobody else writes and calls may reject: it does what the service says.
use taskfire.Prelude.{
  ℕ, String, true, false, ◌≡◌, refl, sym, ap, subst, ◌∙◌, Option, none, some, List, [], ◌∷◌, ◌++◌,
  inl, inr, ◌⊎◌, Bool-cases, ltb,
}
use taskfire.Async.{Error, constraint, resolve, ◌>>◌}
use taskfire.Async.Ends.{Ends, Ends-resolved, Ends-weaken, Ends-bind}
use taskfire.Job.{Job}
use taskfire.Job.Schema.{Zod, CreateJobInput}
use taskfire.Postgres.Row.{Row, row_to_job}
use taskfire.Postgres.Table.{has_id, new_row}
use taskfire.Postgres.Table.View.{lookup, lookup-has_id}
use taskfire.Postgres.Jobs.Alone.{lookup-append, has_id-lookup, create_job-Ends}
use taskfire.Postgres.Session.Laws.Alone.{Fell}
use taskfire.Redis.Member.{EnqueuePayload}
use taskfire.Redis.Queue.Alone.{
  FellWith, random_uuid-Ends, date_now-Ends, enqueue_job-Ends, enqueue_delayed-Ends,
}
use taskfire.Redis.Server.{Redis}
use taskfire.Routes.Reply.{Reply, reply, job, error_handler}
use taskfire.Routes.Jobs.{enqueue_at, create}
use taskfire.Routes.Jobs.Create.{asked}
use taskfire.Routes.Jobs.Service.{Jobs, Service, put, posted}
use taskfire.Routes.Jobs.Served.{
  view, SameJobs, Meets, Obeys, Answered, Follows, Obeys-unchanged, Obeys-written,
}
use taskfire.World.{World, Env}
use taskfire.World.Quiet.{IsAlone}

module _ {Store Body : Type 0} (zod : Zod Body) (redis : Redis Store) {env : Env Store}
    (alone : IsAlone env) where
  enqueue_at-Ends :
      (rows : List Row) (w : World Store) (same : w.jobs ≡ rows) (payload : EnqueuePayload)
      (at : Option ℕ) (now : ℕ)
      → Ends (λ _ v. v.jobs ≡ rows) (FellWith env rows) (enqueue_at zod redis env payload at now w)
  unfolding enqueue_at
  enqueue_at-Ends rows w same payload none now = enqueue_job-Ends redis alone rows w same payload
  enqueue_at-Ends rows w same payload (some at) now = elim (Bool-cases (ltb now at)) [
    | inl later ↦ rw (later, enqueue_at) (enqueue_delayed-Ends redis alone rows w same payload at)
    | inr due ↦ rw (due, enqueue_at) (enqueue_job-Ends redis alone rows w same payload)
  ]

  posted_free :
      (input : CreateJobInput) (now : ℕ) (id : String) (jobs : Jobs)
      → jobs id ≡ none
      → let row = new_row (asked input id) now in
        posted now id input jobs ≡ (some (reply 201 (job (row_to_job row))), put id row jobs)
  posted_free input now id jobs free = rw (free, posted) refl

  posted_taken :
      (input : CreateJobInput) (now : ℕ) (id : String) (jobs : Jobs) (row : Row)
      → jobs id ≡ some row
      → posted now id input jobs ≡ (some (error_handler constraint), jobs)
  posted_taken input now id jobs row taken = rw (taken, posted) refl

  abbrev posting : CreateJobInput → ℕ → String → Service
  posting input now id = posted now id input

  -- Behind the INSERT, whether the enqueue resolves or not.
  module _ (input : CreateJobInput) (w u : World Store) (n k : ℕ)
      (free : has_id (env.random_uuid k) w.jobs ≡ false) where
    abbrev now : ℕ
    now = env.db_now n

    abbrev id : String
    id = env.random_uuid k

    abbrev row : Row
    row = new_row (asked input id) now

    says_created :
        posted now id input (view w)
        ≡ (some (reply 201 (job (row_to_job row))), put id row (view w))
    says_created = posted_free input now id (view w) (lookup-has_id id w.jobs free)

    inserted-put : u.jobs ≡ w.jobs ++ row ∷ [] → SameJobs (posted now id input (view w)).1 (view u)
    unfolding new_row
    inserted-put jobs j =
        ap (lookup j) jobs
        ∙ lookup-append w.jobs row j free
        ∙ sym (ap (λ (said : Option Reply × Jobs). said.1 j) says_created)

    enqueued-Follows :
        (j : Job) (payload : EnqueuePayload) (time : ℕ)
        → j ≡ row_to_job row
        → u.jobs ≡ w.jobs ++ row ∷ []
        → Follows env (posting input) (view w) (
            (enqueue_at zod redis env payload input.scheduled_at time
                >> resolve (reply 201 (job j)))
              u)
    unfolding resolve
    enqueued-Follows j payload time made jobs =
        let done = inserted-put jobs in
        let said =
          subst (λ (s : Option Reply × Jobs). Answered s.0 (reply 201 (job j))) (sym says_created)
            (ap (λ (i : Job). reply 201 (job i)) made) in
        Ends-bind _ _ _ u
          (Ends-weaken (λ _ v kept. kept)
            (λ e v (fell, kept).
              Obeys-written env (posting input) (view w) v e n k fell
                λ i. ap (lookup i) kept ∙ done i)
            (enqueue_at-Ends u.jobs u refl payload input.scheduled_at time))
          λ _ v kept. Ends-resolved (n, k, inl (said, λ i. ap (lookup i) kept ∙ done i))

  pub create-Follows :
      (input : CreateJobInput) (w : World Store)
      → Follows env (posting input) (view w) (create zod redis env input w)
  unfolding create resolve
  create-Follows input w = Ends-bind _ _ _ w (date_now-Ends redis alone w.jobs w refl) λ now v kept.
      Ends-bind _ _ _ v (random_uuid-Ends redis alone w.jobs v kept) λ id v' (k, is, kept'). rw is (
        Ends-bind _ _ _ v'
          (Ends-weaken (λ j u h. h)
            (λ e u (same, why). refused k u e (same ∙ kept') (rw kept' at why))
            (create_job-Ends alone (asked input (env.random_uuid k)) v'))
          λ j u (n, free, made, jobs).
            enqueued-Follows input w u n k (rw kept' at free) j _ now made (rw kept' at jobs))
    where
      refused :
          (k : ℕ) (u : World Store) (e : Error)
          → u.jobs ≡ w.jobs
          → Fell env ⊎ ((has_id (env.random_uuid k) w.jobs ≡ true) × (e ≡ constraint))
          → Obeys env (posting input) (view w) (error_handler e) (view u)
      refused k u e same (inl fell) = Obeys-unchanged env (posting input) w u e fell same
      refused k u e same (inr (taken, is)) =
          let (row, found) = has_id-lookup (env.random_uuid k) w.jobs taken in
          (
            0,
            k,
            subst (λ said. Meets env said (view w) (error_handler e) (view u))
                (sym (posted_taken input (env.db_now 0) (env.random_uuid k) (view w) row found))
                (inl (ap error_handler is, λ i. ap (lookup i) same)),
          )
