-- ===== src/Routes/Jobs/Cancel.antt =====
-- DELETE /:id: what it answers, and what it does to the table and to the queue.
use mathlib.Core.Option
use taskfire.Prelude.{
  ℕ, suc, ◌≤◌, String, Bool, true, false, ◌≡◌, refl, sym, ap, ◌∙◌, Option, none, some,
}
use taskfire.Async.{Async, resolved, resolve, ◌>>=◌, continue}
use taskfire.Job.{Job, JobStatus, pending, active, completed, failed, dead}
use taskfire.Job.Schema.{Zod, success}
use taskfire.Postgres.Row.{Row, row_to_job}
use taskfire.Postgres.Table.{cancellable}
use taskfire.Postgres.Table.Laws.{IsTable}
use taskfire.Postgres.Table.View.{lookup}
use taskfire.Postgres.Jobs.Effects.{get_job_lem}
use taskfire.Redis.Member.{Key, Member, delayed}
use taskfire.Redis.Server.{Redis}
use taskfire.Redis.Queue.{lane_key}
use taskfire.Redis.Queue.Lanes.{lane_key-ne-delayed}
use taskfire.Redis.Queue.Removal.{Removed}
use taskfire.Routes.Reply.{Reply, reply, not_found, conflict, empty}
use taskfire.Routes.Jobs.{uncancellable, job_or_404, cancel, delete_existing, delete_job}
use taskfire.World.{World, Env}
use taskfire.World.Quiet.{IsQuiet}
use taskfire.Routes.Jobs.CancelRow.{CancelledIn, cancel_lem}

abbrev pub SameStores : {Store : Type 0} → World Store → World Store → Type 0
SameStores w v = (v.jobs ≡ w.jobs) × (v.redis ≡ w.redis)

-- How a cancellation ends, by the status of the row.
abbrev pub CancelledBy :
    {Store : Type 0}
    → Redis Store
    → String
    → Row
    → World Store
    → JobStatus
    → Reply
    → World Store
    → Type 0
CancelledBy redis id row w active r v =
    (r ≡ conflict "Cannot cancel a job that is currently active") × SameStores w v
CancelledBy redis id row w completed r v =
    (r ≡ conflict "Cannot cancel a job that has already completed") × SameStores w v
CancelledBy redis id row w _ r v =
    (r ≡ reply 204 empty)
    × ((now : ℕ) × CancelledIn id now row w.jobs v.jobs)
    × ((removed : Bool) × Removed redis (lane_key row.priority) row.id w.redis v.redis removed)

-- How DELETE /:id ends, by the row that the id has.
abbrev pub Deleted :
    {Store : Type 0}
    → Redis Store
    → String
    → World Store
    → Option Row
    → Reply
    → World Store
    → Type 0
Deleted redis id w none r v = (r ≡ not_found) × SameStores w v
Deleted redis id w (some row) r v = CancelledBy redis id row w row.status r v

-- Behind the checks of the status, a cancellation goes on.
delete_existing-cancel :
    {Store Body : Type 0} (zod : Zod Body) (redis : Redis Store) (env : Env Store) (fuel : ℕ)
    (id : String) (existing : Job) (w : World Store)
    → uncancellable existing.status ≡ none
    → delete_existing zod redis env fuel id existing w ≡ cancel zod redis env fuel id existing w
unfolding delete_existing
delete_existing-cancel zod redis env fuel id existing w e = rw (e, delete_existing) refl

module _ {Store Body : Type 0} (zod : Zod Body) (redis : Redis Store) {env : Env Store}
    (quiet : IsQuiet env) (id : String) (fuel : ℕ) where
  abbrev Cancelling : World Store → Row → Type 0
  Cancelling w row =
      (r : Reply) × (v : World Store) × (delete_existing zod redis env fuel id (row_to_job row) w
        ≡ resolved r v)
      × CancelledBy redis id row w pending r v

  cancelling :
      (w : World Store) (table : IsTable w.jobs) (row : Row)
      → lookup id w.jobs ≡ some row
      → redis.rounds (lane_key row.priority) w.redis ≤ fuel
      → uncancellable row.status ≡ none
      → cancellable row.status ≡ true
      → Cancelling w row
  unfolding row_to_job
  cancelling w table row found enough open_ can =
      let job = row_to_job row in
      let (v, b, now, ran, rows, gone) =
        cancel_lem zod redis quiet id w table fuel row job found can enough in
      (
        reply 204 empty,
        v,
        delete_existing-cancel zod redis env fuel id job w open_ ∙ ran,
        (refl, (now, rows), (b, gone)),
      )

  delete_existing_lem :
      (w : World Store) (table : IsTable w.jobs) (row : Row) (s : JobStatus)
      → row.status ≡ s
      → lookup id w.jobs ≡ some row
      → redis.rounds (lane_key row.priority) w.redis ≤ fuel
      → (r : Reply) × (v : World Store) × (delete_existing zod redis env fuel id (row_to_job row) w
          ≡ resolved r v)
        × CancelledBy redis id row w s r v
  unfolding delete_existing resolve row_to_job cancellable
  delete_existing_lem w table row active e found enough =
      (conflict "Cannot cancel a job that is currently active", w, rw e refl, (refl, (refl, refl)))
  delete_existing_lem w table row completed e found enough = (
    conflict "Cannot cancel a job that has already completed",
    w,
    rw e refl,
    (refl, (refl, refl)),
  )
  delete_existing_lem w table row pending e found enough =
      cancelling w table row found enough (ap uncancellable e) (ap cancellable e)
  delete_existing_lem w table row failed e found enough =
      cancelling w table row found enough (ap uncancellable e) (ap cancellable e)
  delete_existing_lem w table row dead e found enough =
      cancelling w table row found enough (ap uncancellable e) (ap cancellable e)

  abbrev Deletion : World Store → Option Row → Async (World Store) Reply → Type 0
  Deletion w o run =
      (r : Reply) × (v : World Store) × (run w ≡ resolved r v) × Deleted redis id w o r v

  Deletion-of :
      (w : World Store) (table : IsTable w.jobs) (o : Option Row)
      → lookup id w.jobs ≡ o
      → ((k : Key) → redis.rounds k w.redis ≤ fuel)
      → Deletion w o (
          job_or_404 zod redis env
            (Option.map row_to_job o)
            (delete_existing zod redis env fuel id))
  unfolding job_or_404 resolve
  Deletion-of w table none e enough = (not_found, w, refl, (refl, (refl, refl)))
  Deletion-of w table (some row) e enough =
      delete_existing_lem w table row row.status refl e (enough (lane_key row.priority))

  -- Where nobody else writes, every call comes back, the params hold the id, the table has its
  -- constraints and the fuel is enough for one iteration of every set, a DELETE resolves. A missing
  -- id is answered 404 and an active or completed job 409, with both stores as they were. Otherwise
  -- it is answered 204: the row of the id is the cancelled one and every other id has the row it
  -- had, and the lane of the job's priority has lost one member of the job or held none.
  pub delete_job-Deleted :
      (params : Body) (w : World Store)
      → zod.parse_id params ≡ success id
      → IsTable w.jobs
      → ((k : Key) → redis.rounds k w.redis ≤ fuel)
      → (r : Reply) × (v : World Store) × (delete_job zod redis env fuel params w ≡ resolved r v)
        × Deleted redis id w (lookup id w.jobs) r v
  unfolding delete_job ◌>>=◌
  delete_job-Deleted params w parsed table enough =
      let u : World Store = record w { steps = suc (suc w.steps) } in
      let (r, v, ran, done) = Deletion-of u table (lookup id w.jobs) refl enough in
      (r, v, rw (delete_job, parsed, get_job_lem quiet id w table, continue) ran, done)

Removed-delayed :
    {Store : Type 0} (redis : Redis Store) (row : Row) (s' s : Store) (m : Member)
    → ((b : Bool) × Removed redis (lane_key row.priority) row.id s s' b)
    → redis.zscore delayed m s' ≡ redis.zscore delayed m s
Removed-delayed redis row s' s m (false, (same, _)) = ap (redis.zscore delayed m) same
Removed-delayed redis row s' s m (true, (x, _, _, gone)) =
    ap (redis.zscore delayed m) gone
    ∙ redis.zrem_key (lane_key row.priority) delayed x m s
        (λ e. lane_key-ne-delayed row.priority (sym e))

CancelledBy-delayed :
    {Store : Type 0} (redis : Redis Store) (id : String) (row : Row) (w : World Store)
    (s : JobStatus) (r : Reply) (v : World Store) (m : Member)
    → CancelledBy redis id row w s r v
    → redis.zscore delayed m v.redis ≡ redis.zscore delayed m w.redis
CancelledBy-delayed redis id row w active r v m h = ap (redis.zscore delayed m) h.1.1
CancelledBy-delayed redis id row w completed r v m h = ap (redis.zscore delayed m) h.1.1
CancelledBy-delayed redis id row w pending r v m (_, _, h) =
    Removed-delayed redis row v.redis w.redis m h
CancelledBy-delayed redis id row w failed r v m (_, _, h) =
    Removed-delayed redis row v.redis w.redis m h
CancelledBy-delayed redis id row w dead r v m (_, _, h) =
    Removed-delayed redis row v.redis w.redis m h

Deleted-delayed :
    {Store : Type 0} (redis : Redis Store) (id : String) (w : World Store) (o : Option Row)
    (r : Reply) (v : World Store) (m : Member)
    → Deleted redis id w o r v
    → redis.zscore delayed m v.redis ≡ redis.zscore delayed m w.redis
Deleted-delayed redis id w none r v m h = ap (redis.zscore delayed m) h.1.1
Deleted-delayed redis id w (some row) r v m h =
    CancelledBy-delayed redis id row w row.status r v m h

-- Where nobody else writes, every call comes back, the params hold the id, the table has its
-- constraints and the fuel is enough, a DELETE leaves the delayed set as it was: every member keeps
-- its score, those of the cancelled job too.
pub delete_job-delayed :
    {Store Body : Type 0} (zod : Zod Body) (redis : Redis Store) {env : Env Store}
    (quiet : IsQuiet env) (id : String) (fuel : ℕ) (params : Body) (w : World Store)
    → zod.parse_id params ≡ success id
    → IsTable w.jobs
    → ((k : Key) → redis.rounds k w.redis ≤ fuel)
    → (r : Reply) × (v : World Store) × (delete_job zod redis env fuel params w ≡ resolved r v)
      × ((m : Member) → redis.zscore delayed m v.redis ≡ redis.zscore delayed m w.redis)
delete_job-delayed zod redis quiet id fuel params w parsed table enough =
    let (r, v, ran, done) =
      delete_job-Deleted zod redis quiet id fuel params w parsed table enough in
    (r, v, ran, λ m. Deleted-delayed redis id w (lookup id w.jobs) r v m done)
