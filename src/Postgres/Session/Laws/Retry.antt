-- ===== src/Postgres/Session/Laws/Retry.antt =====
-- The rounds of `connectPostgresWithRetry`, and how its loop ends.
use taskfire.Prelude.{ℕ, suc, ◌+◌, ◌<◌, Bool, false, ◌≡◌, refl, arith, Bool-cases, inl, inr}
use taskfire.Async.{resolve, reject, ◌>>=◌, continue, catch, recover, finally, closing}
use taskfire.Postgres.Session.{connect, attempt, connect_postgres_with_retry}
use taskfire.World.{World, Env, io, sleep}
use taskfire.World.Retry.{backoff, Attempted, Connected, on_error, attempts_all-Connected}

module _ {Store : Type 0} (env : Env Store) where
  open env use {fails}

  -- Between the two worlds a client was connected and `SELECT 1` came back.
  abbrev pub Probed : World Store → World Store → Type 0
  Probed w v = (fails w.steps ≡ false) × (fails (suc w.steps) ≡ false) × (v.steps ≡ w.steps + 2)

  attempt-Attempted :
      (last : Bool) (wait : ℕ) (w : World Store)
      → Attempted env Probed last wait w (attempt env (on_error env Probed last wait) w)
  unfolding attempt connect io sleep ◌>>=◌ finally catch resolve reject
  attempt-Attempted last wait w = elim (Bool-cases (fails w.steps)) [
    | inl down ↦ elim (Bool-cases last) [
      | inl done ↦ rw (down, done) (refl, refl, refl)
      | inr more ↦ rw (down, more) (refl, omega arith, refl, refl)
    ]
    | inr up ↦ elim (Bool-cases (fails (suc w.steps))) [
      | inl down ↦ elim (Bool-cases last) [
        | inl done ↦ rw (up, continue, down, recover, done, closing) (refl, refl, omega arith)
        | inr more ↦
            rw (up, continue, down, recover, more, closing) (refl, omega arith, refl, omega arith)
      ]
      | inr well ↦
          rw (up, continue, well, recover, closing) ((up, well, omega arith), refl, omega arith)
    ]
  ]

-- The retry loop with at least one attempt ends. It resolves only behind a round whose connection
-- and whose `SELECT 1` came back, one right after the other, and then it waited at most 2000 ms
-- times the sum of the numbers of the attempts before the last; it rejects when it has waited
-- exactly that. In both cases every client that it took is back in the pool.
pub connect_postgres_with_retry-Connected :
    {Store : Type 0} (env : Env Store) (max : ℕ) (w : World Store)
    → 0 < max
    → Connected env (Probed env) (backoff max) w (connect_postgres_with_retry env max w)
unfolding connect_postgres_with_retry
connect_postgres_with_retry-Connected env max w h =
    attempts_all-Connected env (Probed env) (attempt env) (attempt-Attempted env) max w h
