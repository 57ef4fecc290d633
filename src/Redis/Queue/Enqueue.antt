-- ===== src/Redis/Queue/Enqueue.antt =====
-- Where enqueueing puts a job, in an environment where every call comes back and nobody else
-- writes.
use taskfire.Prelude.{ℕ, suc, ◌/◌, String, true, ◌≡◌, refl, some, eq_refl}
use taskfire.Async.{resolved, ◌>>=◌, continue}
use taskfire.Redis.Member.{Key, delayed, Member, EnqueuePayload, stringify}
use taskfire.Redis.Server.{Redis}
use taskfire.Redis.Queue.{lane_key, is_job, enqueue_job, enqueue_delayed}
use taskfire.World.{World, Env, date_now}
use taskfire.World.Quiet.{IsQuiet, io_quiet, tick_alone}

stringify-is_job : (p : EnqueuePayload) → is_job p.id (stringify p) ≡ true
unfolding is_job stringify
stringify-is_job p = eq_refl p.id

-- The set `key` has one member more, which is the job, at a score.
abbrev pub Adds : {Store : Type 0} → Redis Store → String → Key → ℕ → Store → Store → Type 0
Adds redis id key score s s' =
    (m : Member) × (is_job id m ≡ true)
    × (s' ≡ redis.zadd key score m s)
    × (redis.zscore key m s' ≡ some score)

module _ {Store : Type 0} (redis : Redis Store) {env : Env Store} (quiet : IsQuiet env)
    (p : EnqueuePayload) (w : World Store) where
  -- `enqueueJob` scores the job by the time of the call, in the lane of its priority.
  pub enqueue_job_lem :
      (v : World Store) × (enqueue_job redis env p w ≡ resolved tt v)
      × Adds redis p.id (lane_key p.priority) (env.date_now w.steps) w.redis v.redis
      × (v.jobs ≡ w.jobs)
  unfolding enqueue_job date_now ◌>>=◌
  enqueue_job_lem =
      let score = env.date_now w.steps in
      let key = lane_key p.priority in
      (
        record w { redis = redis.zadd key score (stringify p) w.redis; steps = suc (suc w.steps) },
        rw (tick_alone quiet.alone w) (rw (io_quiet quiet _, continue) refl),
        (stringify p, stringify-is_job p, refl, redis.zadd_self key score (stringify p) w.redis),
        refl,
      )

  -- `enqueueDelayed` scores the job by the whole seconds of its date.
  pub enqueue_delayed_lem :
      (at : ℕ)
      → (v : World Store) × (enqueue_delayed redis env p at w ≡ resolved tt v)
        × Adds redis p.id delayed (at / 1000) w.redis v.redis
        × (v.jobs ≡ w.jobs)
  unfolding enqueue_delayed ◌>>=◌
  enqueue_delayed_lem at =
      let m = stringify (record p { scheduled_at = some at; status = "pending" }) in
      (
        record w { redis = redis.zadd delayed (at / 1000) m w.redis; steps = suc w.steps },
        rw (io_quiet quiet _, continue) refl,
        (
          m,
          stringify-is_job (record p { scheduled_at = some at; status = "pending" }),
          refl,
          redis.zadd_self delayed (at / 1000) m w.redis,
        ),
        refl,
      )
