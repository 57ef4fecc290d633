-- ===== src/Postgres/Session/Laws/Pool.antt =====
-- Clients go back to the pool on every path.
use taskfire.Prelude.{ℕ, suc, ◌≡◌, arith, Option-cases, inl, inr}
use taskfire.Async.{Async, ◌>>=◌, finally}
use taskfire.Async.Keeps.{Keeps, Keeps-bind, Keeps-catch, keeps_rules, at-finally}
use taskfire.Postgres.Table.{Statement}
use taskfire.Postgres.Session.Client.{client_query-Keeps}
use taskfire.Postgres.Session.{
  release, connect, execute, query, client_query, begin, commit, rollback, with_transaction,
}
use taskfire.World.{World, Env, tick, io}

-- The pool has handed out `n` clients.
abbrev pub Leased : {Store : Type 0} → ℕ → World Store → Type 0
Leased n w = w.connections ≡ n

module _ {Store : Type 0} (env : Env Store) where
  pub io-Leased : (n : ℕ) → Keeps (Leased n) (io env)
  unfolding io
  io-Leased n = record { at = λ w h. ground arith }

  execute-Leased : (n : ℕ) {A : Type 0} (stmt : Statement A) → Keeps (Leased n) (execute env stmt)
  unfolding execute
  execute-Leased n stmt = record {
    at = λ w h. elim (Option-cases (stmt (env.db_now w.steps) w.jobs)) [
      | inl e ↦ rw (e, execute) h
      | inr (_, e) ↦ rw (e, execute) h
    ];
  }

  pub client_query-Leased :
      (n : ℕ) {A : Type 0} (stmt : Statement A) → Keeps (Leased n) (client_query env stmt)
  client_query-Leased n stmt =
      client_query-Keeps env (Leased n) (io-Leased n) (λ w h. h) stmt λ w a rows e h. h

  begin-Leased : (n : ℕ) → Keeps (Leased n) (begin env)
  unfolding begin
  begin-Leased n = Keeps-bind _ _ (io-Leased n) λ _. record { at = λ w h. h }

  commit-Leased : (n : ℕ) → Keeps (Leased n) (commit env)
  unfolding commit
  commit-Leased n = record { at = λ w h. ground arith }

  rollback-Leased : (n : ℕ) → Keeps (Leased n) (rollback env)
  unfolding rollback
  rollback-Leased n = Keeps-bind _ _ (io-Leased n) λ _. record { at = λ w h. h }

  -- Connect, run a body that keeps the client, release: the pool has as many clients as before.
  Leased-body :
      (n : ℕ) {A : Type 0} (body : Async (World Store) A)
      → Keeps (Leased (suc n)) body
      → Keeps (Leased n) (connect env >>= λ _. finally body release)
  unfolding connect io ◌>>=◌
  Leased-body n body k = record {
    at = λ w h.
        let after : World Store → World Store =
          λ v. record (tick env v) { connections = suc v.connections } in
        ground (
          arith,
          at-finally (Leased (suc n)) (Leased n) body release (after w)
              (k.at (after w) (omega arith)) (λ v e. omega arith),
        );
  }

  -- A query leaves the pool as it found it, whether it resolves or rejects.
  pub query-Leased : (n : ℕ) {A : Type 0} (stmt : Statement A) → Keeps (Leased n) (query env stmt)
  unfolding query
  query-Leased n stmt =
      Leased-body n _ (Keeps-bind _ _ (io-Leased (suc n)) λ _. execute-Leased (suc n) stmt)

  pub with_transaction-Leased :
      (n : ℕ) {A : Type 0} (fn : Async (World Store) A)
      → Keeps (Leased (suc n)) fn
      → Keeps (Leased n) (with_transaction env fn)
  unfolding with_transaction
  with_transaction-Leased n fn k = Leased-body n _ (
      Keeps-catch _ _
        (Keeps-bind _ _ (begin-Leased (suc n))
          λ _. Keeps-bind _ _ k λ r. search (keeps_rules, commit-Leased))
        (search (keeps_rules, rollback-Leased)))
