-- ===== src/Postgres/Session/Laws/Quiet.antt =====
-- A query in a quiet environment: the statement runs, two steps later, on the table as it is.
use taskfire.Prelude.{suc, false, ◌-◌, ◌≡◌, refl, none, some, List, arith}
use taskfire.Async.{
  Async, resolve, catch, constraint, resolved, rejected, ◌>>=◌, continue, finally, closing,
}
use taskfire.Postgres.Row.{Row}
use taskfire.Postgres.Table.{Statement}
use taskfire.Postgres.Session.{
  connect, execute, query, effect, client_query, begin, commit, committed, with_transaction,
}
use taskfire.World.{no_transaction, in_progress, is_aborted, World, Env}
use taskfire.World.Quiet.{IsAlone, IsQuiet, io_answered, io_quiet}

module _ {Store : Type 0} where
  execute_lem :
      (env : Env Store) {A : Type 0} (stmt : Statement A) (w : World Store) (a : A)
      (rows : List Row)
      → stmt (env.db_now w.steps) w.jobs ≡ some (a, rows)
      → execute env stmt w ≡ resolved a (record w { jobs = rows })
  unfolding execute
  execute_lem env stmt w a rows e = rw (e, execute)

  pub query_answered :
      {env : Env Store} (alone : IsAlone env) {A : Type 0} (stmt : Statement A) (w : World Store)
      (a : A) (rows : List Row)
      → env.fails w.steps ≡ false
      → env.fails (suc w.steps) ≡ false
      → stmt (env.db_now (suc (suc w.steps))) w.jobs ≡ some (a, rows)
      → query env stmt w ≡ resolved a (record w { jobs = rows; steps = suc (suc w.steps) })
  unfolding query connect ◌>>=◌ finally
  query_answered {env} alone stmt w a rows connects runs e =
      let v : World Store = record w {
        connections = suc w.connections;
        steps = suc (suc w.steps);
      } in
      let v' : World Store = record w { connections = suc w.connections; steps = suc w.steps } in
      rw (io_answered alone w connects) (
        rw (io_answered alone v' runs)
          (rw (continue, execute_lem env stmt v a rows e, closing) (ground arith)))

  pub query_quiet :
      {env : Env Store} (quiet : IsQuiet env) {A : Type 0} (stmt : Statement A) (w : World Store)
      (a : A) (rows : List Row)
      → stmt (env.db_now (suc (suc w.steps))) w.jobs ≡ some (a, rows)
      → query env stmt w ≡ resolved a (record w { jobs = rows; steps = suc (suc w.steps) })
  query_quiet quiet stmt w a rows =
      query_answered quiet.alone stmt w a rows (quiet.answers w.steps) (quiet.answers (suc w.steps))

  execute_refused :
      (env : Env Store) {A : Type 0} (stmt : Statement A) (w : World Store)
      → stmt (env.db_now w.steps) w.jobs ≡ none
      → execute env stmt w ≡ rejected constraint w
  unfolding execute
  execute_refused env stmt w e = rw (e, execute)

  pub query_refused :
      {env : Env Store} (quiet : IsQuiet env) {A : Type 0} (stmt : Statement A) (w : World Store)
      → stmt (env.db_now (suc (suc w.steps))) w.jobs ≡ none
      → query env stmt w ≡ rejected constraint (record w { steps = suc (suc w.steps) })
  unfolding query connect ◌>>=◌ finally
  query_refused {env} quiet stmt w e =
      let v : World Store = record w {
        connections = suc w.connections;
        steps = suc (suc w.steps);
      } in
      rw (io_quiet quiet w) (
        rw (io_quiet quiet _) (rw (continue, execute_refused env stmt v e, closing) (ground arith)))

  pub client_query_quiet :
      {env : Env Store} (quiet : IsQuiet env) {A : Type 0} (stmt : Statement A) (w : World Store)
      (a : A) (rows : List Row)
      → is_aborted w.transaction ≡ false
      → stmt (env.db_now (suc w.steps)) (w.writes w.jobs) ≡ some (a, rows)
      → client_query env stmt w
        ≡ resolved a (record w {
          writes = λ rs. effect env stmt (env.db_now (suc w.steps)) (w.writes rs);
          steps = suc w.steps;
        })
  unfolding client_query ◌>>=◌ catch
  client_query_quiet {env} quiet stmt w a rows alive e =
      rw (io_quiet quiet w) (rw (continue, alive, e) refl)

  -- The world in which the body of a transaction starts, and the one after its end.
  abbrev pub opened : World Store → World Store
  opened w = record w {
    writes = λ rows. rows;
    transaction = in_progress;
    connections = suc w.connections;
    steps = suc (suc w.steps);
  }

  abbrev pub closed : World Store → World Store
  closed u = record u {
    jobs = u.writes u.jobs;
    writes = λ rows. rows;
    transaction = no_transaction;
    connections = u.connections - 1;
    steps = suc u.steps;
  }

  commit_quiet :
      {env : Env Store} (quiet : IsQuiet env) (u : World Store)
      → commit env u ≡ resolved tt (committed env (record u { steps = suc u.steps }))
  unfolding commit
  commit_quiet quiet u =
      let alone = quiet.alone in
      rw (quiet.answers u.steps, alone.no_others u.steps u.jobs, alone.no_traffic u.steps u.redis)
        refl

  pub with_transaction_quiet :
      {env : Env Store} (quiet : IsQuiet env) {A : Type 0} (fn : Async (World Store) A)
      (w : World Store) (a : A) (u : World Store)
      → fn (opened w) ≡ resolved a u
      → with_transaction env fn w ≡ resolved a (closed u)
  unfolding with_transaction connect begin ◌>>=◌ finally catch resolve
  with_transaction_quiet quiet fn w a u e =
      rw (io_quiet quiet w)
        (rw (io_quiet quiet _) (rw (continue, e) (rw (commit_quiet quiet u) refl)))
