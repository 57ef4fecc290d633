-- ===== src/World.antt =====
-- The world that a request runs in: the two backing stores, the connection pool and the clock, with
-- what the rest of the system does while the process waits. A wait is one step; its number tells
-- the environment's choices apart.
pub mod Quiet
pub mod Retry
use taskfire.Prelude.{ℕ, suc, ◌+◌, String, Bool, true, false, Option, List, if◌then◌else◌}
use taskfire.Async.{Async, Error, unavailable, Outcome, resolved, rejected}
use taskfire.Postgres.Row.{Row}

-- What a session of PostgreSQL is in.
pub data Transaction : Type 0 where
  no_transaction : Transaction
  in_progress : Transaction
  -- a statement was refused: the others are too, and a COMMIT rolls back
  aborted : Transaction

abbrev pub is_aborted : Transaction → Bool
is_aborted aborted = true
is_aborted _ = false

pub record World (Store : Type 0) : Type 0 where
  -- the committed table `jobs`
  pub jobs : List Row
  -- what the open transaction has written and not committed
  pub writes : List Row → List Row
  pub transaction : Transaction
  -- the clients that the pool has handed out
  pub connections : ℕ
  pub redis : Store
  -- whether the Redis client's status is 'ready'
  pub redis_ready : Bool
  pub steps : ℕ
  -- the milliseconds spent in `setTimeout`
  pub slept : ℕ

pub record Env (Store : Type 0) : Type 0 where
  -- whether the call of a backing store at a step rejects
  pub fails : ℕ → Bool
  -- whether the database carried out a COMMIT although its call rejects: the answer was lost
  pub lands : ℕ → Bool
  -- what other sessions commit while a call is under way
  pub others : ℕ → List Row → List Row
  -- what other clients of Redis do meanwhile
  pub traffic : ℕ → Store → Store
  -- what a pipeline's `exec` gives for the values of its commands: nothing at all, or for each
  -- command its value or an error
  pub exec : ℕ → List ℕ → Option (List (Option ℕ))
  -- `Date.now()` and the database's `NOW()`, in milliseconds
  pub date_now : ℕ → ℕ
  pub db_now : ℕ → ℕ
  pub random_uuid : ℕ → String
  -- what `ORDER BY created_at DESC` makes of rows; the order of ties is the database's
  pub created_desc : List Row → List Row

module _ {Store : Type 0} (env : Env Store) where
  open env use {fails, others, traffic}

  abbrev pub tick : World Store → World Store
  tick w = record w {
    jobs = others w.steps w.jobs;
    redis = traffic w.steps w.redis;
    steps = suc w.steps;
  }

  -- One round trip to a backing store.
  unfoldable pub io : Async (World Store) (Unit {0})
  io w = if fails w.steps then rejected unavailable (tick w) else resolved tt (tick w)

  unfoldable pub date_now : Async (World Store) ℕ
  date_now w = resolved (env.date_now w.steps) (tick w)

  unfoldable pub random_uuid : Async (World Store) String
  random_uuid w = resolved (env.random_uuid w.steps) (tick w)

  -- `await new Promise((res) => setTimeout(res, ms))`
  unfoldable pub sleep : ℕ → Async (World Store) (Unit {0})
  sleep ms w = resolved tt (record (tick w) { slept = w.slept + ms })
