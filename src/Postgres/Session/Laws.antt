-- ===== src/Postgres/Session/Laws.antt =====
-- What sessions keep: the pool's balance, and any invariant of the table.
pub mod Pool
pub mod Retry
pub mod Quiet
pub mod Atomic
pub mod Alone
use taskfire.Prelude.{
  ℕ, zero, suc, ◌+◌, ◌-◌, ◌≡◌, refl, sym, subst, Bool, true, false, Option, none, some, List, [],
  ◌∷◌, arith, Bool-cases, Option-cases, inl, inr, if◌then◌else◌,
}
use taskfire.Async.{
  Async, Error, constraint, unavailable, Outcome, resolved, rejected, world, resolve, reject, ◌>>=◌,
  continue, ◌>>◌, catch, finally,
}
use taskfire.Async.Keeps.{Keeps, Keeps-bind, Keeps-catch, keeps_rules, at-finally}
use taskfire.Postgres.Row.{Row}
use taskfire.Postgres.Table.{Statement}
use taskfire.Postgres.Table.Laws.{KeepsRows}
use taskfire.Postgres.Session.{
  lease, release, connect, execute, query, effect, client_query, begin, commit, rollback, committed,
  with_transaction,
}
use taskfire.Postgres.Session.Client.{client_query-Keeps}
use taskfire.World.{World, Env, tick, io}

-- `J` holds of the committed table, and the open transaction would keep it.
pub record Holds {Store : Type 0} (J : List Row → Type 0) (w : World Store) : Type 0 where
  pub committed : J w.jobs
  pub uncommitted : (rows : List Row) → J rows → J (w.writes rows)

-- The other sessions keep `J` too.
abbrev pub OthersKeep : {Store : Type 0} → (List Row → Type 0) → Env Store → Type 0
OthersKeep J env = (n : ℕ) (rows : List Row) → J rows → J (env.others n rows)

module _ {Store : Type 0} (J : List Row → Type 0) (env : Env Store) (peers : OthersKeep J env) where
  pub tick-Holds : (w : World Store) → Holds J w → Holds J (tick env w)
  tick-Holds w h = record {
    committed = peers w.steps w.jobs h.committed;
    uncommitted = h.uncommitted;
  }

  pub io-Holds : Keeps (Holds J) (io env)
  unfolding io
  io-Holds = record { at = λ w h. ground (arith, tick-Holds w h) }

  connect-Holds : Keeps (Holds J) (connect env)
  unfolding connect
  connect-Holds =
      Keeps-bind _ _ io-Holds
        λ _. record { at = λ w h. record { committed = h.committed; uncommitted = h.uncommitted } }

  release-Holds : (w : World Store) → Holds J w → Holds J (release w)
  release-Holds w h = record { committed = h.committed; uncommitted = h.uncommitted }

  execute-Holds :
      {A : Type 0} (stmt : Statement A) → KeepsRows J stmt → Keeps (Holds J) (execute env stmt)
  unfolding execute
  execute-Holds stmt k = record {
    at = λ w h. elim (Option-cases (stmt (env.db_now w.steps) w.jobs)) [
      | inl e ↦ rw (e, execute) h
      | inr ((a, rows), e) ↦
          rw (e, execute)
            (record {
              committed = k.accepted (env.db_now w.steps) w.jobs a rows e h.committed;
              uncommitted = h.uncommitted;
            })
    ];
  }

  finally-Holds :
      {A : Type 0} (m : Async (World Store) A)
      → Keeps (Holds J) m
      → Keeps (Holds J) (finally m release)
  finally-Holds m k = record {
    at = λ w h. at-finally (Holds J) (Holds J) m release w (k.at w h) release-Holds;
  }

  -- A query keeps what its statement and the other sessions keep, also where it rejects.
  pub query-Holds :
      {A : Type 0} (stmt : Statement A) → KeepsRows J stmt → Keeps (Holds J) (query env stmt)
  unfolding query
  query-Holds stmt k =
      Keeps-bind _ _ connect-Holds
        λ _. finally-Holds _ (Keeps-bind _ _ io-Holds λ _. execute-Holds stmt k)

  effect-keeps :
      {A : Type 0} (stmt : Statement A) (now : ℕ) (rows : List Row)
      → KeepsRows J stmt
      → J rows
      → J (effect env stmt now rows)
  effect-keeps stmt now rows k h = elim (Option-cases (stmt now rows)) [
    | inl e ↦ rw (e, effect) h
    | inr ((a, rows'), e) ↦ rw (e, effect) (k.accepted now rows a rows' e h)
  ]

  pub client_query-Holds :
      {A : Type 0} (stmt : Statement A) → KeepsRows J stmt → Keeps (Holds J) (client_query env stmt)
  client_query-Holds stmt k =
      client_query-Keeps env (Holds J) io-Holds
        (λ w h. record { committed = h.committed; uncommitted = λ rows j. j }) stmt
        λ w a rows e h. record {
          committed = h.committed;
          uncommitted =
              λ rs j. effect-keeps stmt (env.db_now w.steps) (w.writes rs) k (h.uncommitted rs j);
        }

  begin-Holds : Keeps (Holds J) (begin env)
  unfolding begin
  begin-Holds =
      Keeps-bind _ _ io-Holds
        λ _. record { at = λ w h. record { committed = h.committed; uncommitted = λ rows j. j } }

  commit-Holds : Keeps (Holds J) (commit env)
  unfolding commit
  commit-Holds = record {
    at = λ w h.
        let ticked = tick-Holds w h in
        let done : Holds J (committed env (tick env w)) = record {
          committed = ticked.uncommitted _ ticked.committed;
          uncommitted = λ rows j. j;
        } in
        elim (Bool-cases (env.fails w.steps)) [
          | inl fell ↦ elim (Bool-cases (env.lands w.steps)) [
            | inl landed ↦ rw (fell, landed) done
            | inr missed ↦ rw (fell, missed) ticked
          ]
          | inr fine ↦ rw fine done
        ];
  }

  rollback-Holds : Keeps (Holds J) (rollback env)
  unfolding rollback
  rollback-Holds =
      Keeps-bind _ _ io-Holds
        λ _. record { at = λ w h. record { committed = h.committed; uncommitted = λ rows j. j } }

  -- A transaction keeps what its body keeps, whether it commits or rolls back.
  pub with_transaction-Holds :
      {A : Type 0} (fn : Async (World Store) A)
      → Keeps (Holds J) fn
      → Keeps (Holds J) (with_transaction env fn)
  unfolding with_transaction
  with_transaction-Holds fn k = Keeps-bind _ _ connect-Holds λ _. finally-Holds _ (
      Keeps-catch _ _
        (Keeps-bind _ _ begin-Holds λ _. Keeps-bind _ _ k λ r. (search (keeps_rules, commit-Holds)))
        (search (keeps_rules, rollback-Holds)))
