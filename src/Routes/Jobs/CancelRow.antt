-- ===== src/Routes/Jobs/CancelRow.antt =====
-- A cancellation of a row that may be cancelled: the row, and the member that leaves its lane.
use taskfire.Prelude.{
  ℕ, suc, eq_iff, ◌≤◌, String, Bool, true, ◌==◌, ◌≡◌, refl, sym, ap, ◌∙◌, subst, some, List, arith,
  if◌then◌else◌,
}
use taskfire.Async.{resolved, resolve, ◌>>=◌, continue, catch}
use taskfire.Job.{Job, failed}
use taskfire.Job.Schema.{Zod}
use taskfire.Postgres.Row.{Row, row_to_job}
use taskfire.Postgres.Table.{cancellable, set_cancelled}
use taskfire.Postgres.Table.Laws.{IsTable}
use taskfire.Postgres.Table.View.{lookup}
use taskfire.Postgres.Jobs.{cancel_job}
use taskfire.Postgres.Jobs.Effects.{cancel_job_lem}
use taskfire.Redis.Server.{Redis}
use taskfire.Redis.Queue.{lane_key}
use taskfire.Redis.Queue.Removal.{Removed, remove_from_queue-Removed}
use taskfire.Routes.Reply.{reply, empty}
use taskfire.Routes.Jobs.{cancel}
use taskfire.World.{World, Env}
use taskfire.World.Quiet.{IsQuiet}

-- The row of a cancelled job: failed at `now`, by the user.
abbrev pub cancelled : ℕ → Row → Row
cancelled now row = record row {
  status = failed;
  error = some "cancelled by user";
  updated_at = now;
  failed_at = some now;
}

-- The row of `id` is now the cancelled one, and every other row is as it was.
abbrev pub CancelledIn : String → ℕ → Row → List Row → List Row → Type 0
CancelledIn id now row rows rows' =
    (j : String) → lookup j rows' ≡ (if id == j then some (cancelled now row) else lookup j rows)

module _ {Store Body : Type 0} (zod : Zod Body) (redis : Redis Store) {env : Env Store}
    (quiet : IsQuiet env) (id : String) where
  pub cancel_job_found :
      (w : World Store) (table : IsTable w.jobs) (row : Row)
      → lookup id w.jobs ≡ some row
      → cancellable row.status ≡ true
      → let now = env.db_now (suc (suc w.steps)) in
        (v : World Store) × (cancel_job env id w
          ≡ resolved (some (row_to_job (cancelled now row))) v)
        × CancelledIn id now row w.jobs v.jobs
        × (v.redis ≡ w.redis)
  unfolding set_cancelled
  cancel_job_found w table row found can =
      let (v, ran, (rows, store, _, _)) = cancel_job_lem quiet id w table in
      (v, ran ∙ ground arith, (λ j. ground (arith, rows j, eq_iff id j)), store)

  pub cancel_lem :
      (w : World Store) (table : IsTable w.jobs) (fuel : ℕ) (row : Row) (existing : Job)
      → lookup id w.jobs ≡ some row
      → cancellable row.status ≡ true
      → redis.rounds (lane_key existing.priority) w.redis ≤ fuel
      → (v : World Store) × (b : Bool) × (now : ℕ) × (cancel zod redis env fuel id existing w
          ≡ resolved (reply 204 empty) v)
        × CancelledIn id now row w.jobs v.jobs
        × Removed redis (lane_key existing.priority) existing.id w.redis v.redis b
  unfolding cancel ◌>>=◌ catch resolve
  cancel_lem w table fuel row existing found can enough =
      let (u, ran, rows, store) = cancel_job_found w table row found can in
      let key = lane_key existing.priority in
      let enough' = subst (λ s. redis.rounds key s ≤ fuel) (sym store) enough in
      let (v, b, removed, effect, jobs) =
        remove_from_queue-Removed redis quiet existing.id existing.priority fuel u enough' in
      (
        v,
        b,
        env.db_now (suc (suc w.steps)),
        rw (ran, continue, removed) refl,
        (λ j. ap (lookup j) jobs ∙ rows j),
        subst (λ s. Removed redis key existing.id s v.redis b) store effect,
      )
