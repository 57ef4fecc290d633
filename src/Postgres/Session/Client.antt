-- ===== src/Postgres/Session/Client.antt =====
-- What a statement inside a transaction of api/src/services/postgres.ts keeps: one rule for all of
-- its ends.
use taskfire.Prelude.{◌≡◌, some, List, Bool-cases, Option-cases, inl, inr}
use taskfire.Async.Keeps.{Keeps, Keeps-bind, Keeps-catch}
use taskfire.Postgres.Row.{Row}
use taskfire.Postgres.Table.{Statement}
use taskfire.Postgres.Session.{effect, client_query}
use taskfire.World.{aborted, is_aborted, World, Env, io}

module _ {Store : Type 0} (env : Env Store) (P : World Store → Type 0) (waits : Keeps P (io env))
    (aborts : (w : World Store)
      → P w
      → P (record w { writes = λ rows. rows; transaction = aborted })) where
  pub client_query-Keeps :
      {A : Type 0} (stmt : Statement A)
      → ((w : World Store) (a : A) (rows : List Row)
          → stmt (env.db_now w.steps) (w.writes w.jobs) ≡ some (a, rows)
          → P w
          → P (record w { writes = λ rs. effect env stmt (env.db_now w.steps) (w.writes rs) }))
      → Keeps P (client_query env stmt)
  unfolding client_query
  client_query-Keeps stmt writes =
      Keeps-bind _ _ (Keeps-catch _ _ waits λ e. record { at = aborts }) λ _. record {
        at = λ w h. elim (Bool-cases (is_aborted w.transaction)) [
          | inl gone ↦ rw (gone, client_query) h
          | inr alive ↦ elim (Option-cases (stmt (env.db_now w.steps) (w.writes w.jobs))) [
            | inl e ↦ rw (alive, e, client_query) (aborts w h)
            | inr ((a, rows), e) ↦ rw (alive, e, client_query) (writes w a rows e h)
          ]
        ];
      }
