-- ===== src/Redis/Connect.antt =====
-- `connectRedisWithRetry` of api/src/services/redis.ts. `client.connect()` makes the client ready;
-- that it is ready stays so. The commands of the connection are the ioredis package's.
use taskfire.Prelude.{
  ℕ, suc, ◌+◌, ◌<◌, Bool, true, false, ◌≡◌, refl, arith, Bool-cases, inl, inr, if◌then◌else◌,
}
use taskfire.Async.{Async, resolved, resolve, reject, ◌>>=◌, ◌>>◌, continue, catch, recover}
use taskfire.World.{World, Env, io, sleep}
use taskfire.World.Retry.{
  Round, attempts, backoff, Attempted, Connected, on_error, attempts_all-Connected,
}

module _ {Store : Type 0} (env : Env Store) where
  open env use {fails}

  -- `client.connect()`
  unfoldable pub client_connect : Async (World Store) (Unit {0})
  client_connect = do io env; λ w. resolved tt (record w { redis_ready = true })

  unfoldable pub connect_unless_ready : Async (World Store) (Unit {0})
  unfolding client_connect
  connect_unless_ready w = if w.redis_ready then resolve tt w else client_connect w

  -- One round of the loop.
  unfoldable pub attempt : Round Store
  unfolding connect_unless_ready
  attempt on_error = catch (do connect_unless_ready; io env; resolve true) on_error

  unfoldable pub connect_redis_with_retry : ℕ → Async (World Store) (Unit {0})
  unfolding attempts attempt
  connect_redis_with_retry max_attempts = attempts env attempt max_attempts max_attempts

  -- The commands that came back one after the other: a PING, behind a connection where there was
  -- none.
  abbrev pub Answered : Bool → World Store → World Store → Type 0
  Answered true w v = (fails w.steps ≡ false) × (v.steps ≡ w.steps + 1)
  Answered false w v =
      (fails w.steps ≡ false) × (fails (suc w.steps) ≡ false) × (v.steps ≡ w.steps + 2)

  abbrev pub Pinged : World Store → World Store → Type 0
  Pinged w v = Answered w.redis_ready w v × (v.redis_ready ≡ true)

  attempt-Attempted :
      (last : Bool) (wait : ℕ) (w : World Store)
      → Attempted env Pinged last wait w (attempt (on_error env Pinged last wait) w)
  unfolding attempt io sleep ◌>>=◌ catch resolve reject
  attempt-Attempted last wait w = elim (Bool-cases w.redis_ready) [
    | inl ready ↦ elim (Bool-cases (fails w.steps)) [
      | inl down ↦ elim (Bool-cases last) [
        | inl done ↦ rw (ready, continue, down, recover, done) (refl, refl, refl)
        | inr more ↦ rw (ready, continue, down, recover, more) (refl, omega arith, refl, refl)
      ]
      | inr up ↦ rw (ready, continue, up, recover) (((up, omega arith), refl), refl, refl)
    ]
    | inr closed ↦ elim (Bool-cases (fails w.steps)) [
      | inl down ↦ elim (Bool-cases last) [
        | inl done ↦ rw (closed, down, continue, recover, done) (refl, refl, refl)
        | inr more ↦ rw (closed, down, continue, recover, more) (refl, omega arith, refl, refl)
      ]
      | inr up ↦ elim (Bool-cases (fails (suc w.steps))) [
        | inl down ↦ elim (Bool-cases last) [
          | inl done ↦ rw (closed, up, continue, down, recover, done) (refl, refl, refl)
          | inr more ↦
              rw (closed, up, continue, down, recover, more) (refl, omega arith, refl, refl)
        ]
        | inr well ↦
            rw (closed, up, continue, well, recover) (((up, well, omega arith), refl), refl, refl)
      ]
    ]
  ]

-- The retry loop with at least one attempt ends. It resolves only behind a round in which a PING
-- came back, behind a connection where the client was not ready, and the client is then ready; it
-- waited at most 2000 ms times the sum of the numbers of the attempts before the last. It rejects
-- when it has waited exactly that. It takes no client of the database's pool.
pub connect_redis_with_retry-Connected :
    {Store : Type 0} (env : Env Store) (max : ℕ) (w : World Store)
    → 0 < max
    → Connected env (Pinged env) (backoff max) w (connect_redis_with_retry env max w)
unfolding connect_redis_with_retry
connect_redis_with_retry-Connected env max w h =
    attempts_all-Connected env (Pinged env) (attempt env) (attempt-Attempted env) max w h
