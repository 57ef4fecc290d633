-- ===== src/Postgres/Session.antt =====
-- The connection pool and the transactions of api/src/services/postgres.ts.
pub mod Laws
pub mod Client
use taskfire.Prelude.{
  ℕ, zero, suc, ◌-◌, ◌*◌, Bool, true, false, none, some, List, eqb, if◌then◌else◌,
}
use taskfire.Async.{
  Async, Error, constraint, unavailable, Outcome, resolved, rejected, resolve, reject, ◌>>=◌, ◌>>◌,
  catch, finally,
}
use taskfire.Postgres.Row.{Row}
use taskfire.Postgres.Table.{Statement}
use taskfire.World.{no_transaction, in_progress, aborted, is_aborted, World, Env, tick, io}
use taskfire.World.Retry.{Round, attempts}

module _ {Store : Type 0} where
  abbrev lease : Async (World Store) (Unit {0})
  lease w = resolved tt (record w { connections = suc w.connections })

  -- `client.release()`
  abbrev pub release : World Store → World Store
  release w = record w { connections = w.connections - 1 }

module _ {Store : Type 0} (env : Env Store) where
  -- `getPool().connect()`
  unfoldable pub connect : Async (World Store) (Unit {0})
  connect = io env >> lease

  -- The database's side of a call outside a transaction: the statement commits at once.
  unfoldable pub execute : {A : Type 0} → Statement A → Async (World Store) A
  execute stmt w = elim (stmt (env.db_now w.steps) w.jobs) [
    | none ↦ rejected constraint w
    | some (a, rows) ↦ resolved a (record w { jobs = rows })
  ]

  -- `query`
  unfoldable pub query : {A : Type 0} → Statement A → Async (World Store) A
  query stmt = do connect; finally (do io env; execute stmt) release

  -- What a statement of a transaction does to the table when the transaction commits.
  abbrev pub effect : {A : Type 0} → Statement A → ℕ → List Row → List Row
  effect stmt now rows = elim (stmt now rows) [ none ↦ rows | some (a, rows') ↦ rows' ]

  -- A refused or lost statement takes the whole transaction with it.
  abbrev pub abort : {A : Type 0} → Error → Async (World Store) A
  abort e w = rejected e (record w { writes = λ rows. rows; transaction = aborted })

  -- `client.query` inside a transaction: it sees what others committed and its own writes.
  unfoldable pub client_query : {A : Type 0} → Statement A → Async (World Store) A
  client_query stmt = do
    catch (io env) abort
    λ w.
        let now = env.db_now w.steps in
        if is_aborted w.transaction
        then rejected constraint w
        else elim (stmt now (w.writes w.jobs)) [
          | none ↦ abort constraint w
          | some (a, _) ↦ resolved a (record w { writes = λ rows. effect stmt now (w.writes rows) })
        ]

  abbrev pub ended : World Store → World Store
  ended w = record w { writes = λ rows. rows; transaction = no_transaction }

  abbrev pub committed : World Store → World Store
  committed w = ended (record w { jobs = w.writes w.jobs })

  unfoldable pub begin : Async (World Store) (Unit {0})
  begin = do
    io env
    λ w. resolved tt (record w { writes = λ rows. rows; transaction = in_progress })

  -- A COMMIT that rejects may have been carried out. An aborted transaction has no writes left.
  unfoldable pub commit : Async (World Store) (Unit {0})
  commit w =
      if env.fails w.steps
      then rejected unavailable (if env.lands w.steps then committed (tick env w) else tick env w)
      else resolved tt (committed (tick env w))

  -- Where the call rejects, the transaction is left as it was.
  unfoldable pub rollback : Async (World Store) (Unit {0})
  rollback = do io env; λ w. resolved tt (ended w)

  -- `withTransaction`
  unfoldable pub with_transaction : {A : Type 0} → Async (World Store) A → Async (World Store) A
  with_transaction fn = do
    connect
    finally (catch (do begin; result ← fn; commit; resolve result) λ e. do rollback; reject e)
        release

  -- One round of the loop: `true` returns from the function, `false` goes on to the next round. A
  -- client that connected is released when `on_error`, the `catch` block, is done.
  abbrev attempt_from :
      (Error → Async (World Store) Bool)
      → Outcome (World Store) (Unit {0})
      → Outcome (World Store) Bool
  attempt_from on_error (resolved _ w) =
      finally (catch (do io env; resolve true) on_error) release w
  attempt_from on_error (rejected e w) = on_error e w

  unfoldable pub attempt : Round Store
  attempt on_error w = attempt_from on_error (connect w)

  unfoldable pub connect_postgres_with_retry : ℕ → Async (World Store) (Unit {0})
  unfolding attempts
  connect_postgres_with_retry max_attempts = attempts env attempt max_attempts max_attempts
