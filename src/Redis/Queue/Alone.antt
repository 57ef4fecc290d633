-- ===== src/Redis/Queue/Alone.antt =====
-- The queue operations where nobody else writes and calls may reject: none of them touches the
-- table.
use taskfire.Prelude.{ℕ, String, ◌≡◌, refl, ◌∙◌, none, List}
use taskfire.Async.{Error, resolve, catch}
use taskfire.Async.Ends.{Ends, Ends-resolved, Ends-bind, Ends-catch}
use taskfire.Postgres.Row.{Row}
use taskfire.Postgres.Session.Laws.Alone.{Fell, io-Ends}
use taskfire.Postgres.Session.Laws.Atomic.{HasJobs, Keeps-Ends}
use taskfire.Redis.Member.{EnqueuePayload}
use taskfire.Redis.Server.{Redis}
use taskfire.Redis.Queue.{enqueue_job, enqueue_delayed, remove_from_queue}
use taskfire.Redis.Queue.Keeps.{remove_from_queue-Blind}
use taskfire.World.{World, Env, date_now, random_uuid}
use taskfire.World.Quiet.{IsAlone}

-- A call rejected; the rows of the table are those.
abbrev pub FellWith : {Store : Type 0} → Env Store → List Row → Error → World Store → Type 0
FellWith env rows e v = Fell env × (v.jobs ≡ rows)

module _ {Store : Type 0} (redis : Redis Store) {env : Env Store} (alone : IsAlone env)
    (rows : List Row) (w : World Store) (same : w.jobs ≡ rows) where
  pub random_uuid-Ends :
      {Q : Error → World Store → Type 0}
      → Ends (λ id v. (n : ℕ) × (id ≡ env.random_uuid n) × (v.jobs ≡ rows)) Q (random_uuid env w)
  unfolding random_uuid
  random_uuid-Ends = Ends-resolved (w.steps, refl, alone.no_others w.steps w.jobs ∙ same)

  pub date_now-Ends :
      {Q : Error → World Store → Type 0} → Ends (λ _ v. v.jobs ≡ rows) Q (date_now env w)
  unfolding date_now
  date_now-Ends = Ends-resolved (alone.no_others w.steps w.jobs ∙ same)

  pub enqueue_delayed-Ends :
      (job : EnqueuePayload) (at : ℕ)
      → Ends (λ _ v. v.jobs ≡ rows) (FellWith env rows) (enqueue_delayed redis env job at w)
  unfolding enqueue_delayed
  enqueue_delayed-Ends job at =
      Ends-bind _ _ _ w (io-Ends alone _ rows w same λ e v fell kept. (fell, kept))
        λ _ v kept. Ends-resolved kept

  -- Whatever the removal does, and also where it rejects, the caller goes on.
  pub remove_from_queue-Ends :
      (fuel : ℕ) (id : String) (priority : ℕ) {Q : Error → World Store → Type 0}
      → Ends
          (λ _ v. v.jobs ≡ rows)
          Q
          (catch (remove_from_queue redis env fuel id priority) (λ _. resolve none) w)
  unfolding resolve
  remove_from_queue-Ends fuel id priority =
      Ends-catch (λ _ v. v.jobs ≡ rows) _ _ w
        (Keeps-Ends (HasJobs rows)
          (remove_from_queue-Blind redis
            (record { ticks = λ u h. alone.no_others u.steps u.jobs ∙ h; stores = λ u s h. h }) fuel
            id priority)
          w same)
        λ _ v kept. Ends-resolved kept

pub enqueue_job-Ends :
    {Store : Type 0} (redis : Redis Store) {env : Env Store} (alone : IsAlone env) (rows : List Row)
    (w : World Store) (same : w.jobs ≡ rows) (job : EnqueuePayload)
    → Ends (λ _ v. v.jobs ≡ rows) (FellWith env rows) (enqueue_job redis env job w)
unfolding enqueue_job
enqueue_job-Ends redis alone rows w same job =
    Ends-bind _ _ _ w (date_now-Ends redis alone rows w same) λ _ v kept.
      Ends-bind _ _ _ v (io-Ends alone _ rows v kept λ e u fell kept'. (fell, kept'))
        λ _ u kept'. Ends-resolved kept'
