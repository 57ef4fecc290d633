-- ===== src/Tests/Service.antt =====
-- A conversation with a server some of whose calls reject, and one that keeps a pending job queued.
use taskfire.Prelude.{
  ◌||◌, true, refl, List, [], ◌∷◌, eqb, ◌==◌, ◌≡◌, some, none, Bool-cases, inl, inr,
}
use taskfire.Routes.Jobs.{
  Request, posts, gets_one, deletes, asks_logs, retries, serve, replies, enqueue_payload,
}
use taskfire.Routes.Jobs.Served.{view}
use taskfire.Routes.Jobs.Refinement.{Conversation, serve-service}
use taskfire.Routes.Jobs.Held.{IsHeld, added-IsHeld}
use taskfire.Routes.Jobs.Waiting.{serve-IsHeld}
use taskfire.Postgres.Row.{row_to_job}
use taskfire.Postgres.Table.Laws.{IsTable}
use taskfire.Postgres.Session.Laws.{Holds}
use taskfire.Postgres.Table.View.{lookup}
use taskfire.Redis.Member.{stringify, parse}
use taskfire.Redis.Queue.{lane_key, is_job}
use taskfire.World.{World, Env}
use taskfire.World.Quiet.{IsAlone}
use taskfire.Tests.Store.{Sets, server, server-rounds}
use taskfire.Tests.Samples.{
  waiting, buried, table-IsTable, start, calm, calm-IsQuiet, Sent, creates, names, resets, zod,
  input,
}

abbrev unsteady : Env Sets
unsteady = record calm { fails = λ n. eqb n 5 || eqb n 9 }

unsteady-IsAlone : IsAlone unsteady
unsteady-IsAlone = record { no_others = λ n rows. refl; no_traffic = λ n s. refl }

abbrev asked : List (Request Sent)
asked =
    posts (creates input)
    ∷ gets_one (names "c")
    ∷ retries (names "b") (resets true)
    ∷ deletes (names "a")
    ∷ asks_logs (names "a")
    ∷ deletes (names "missing")
    ∷ []

serve-service_example :
    Conversation zod unsteady asked
      (view start)
      (replies zod server unsteady 1 asked start)
      (view (serve zod server unsteady 1 asked start))
serve-service_example =
    serve-service zod server unsteady-IsAlone 1 asked start
      (record { committed = table-IsTable; uncommitted = λ rows h. h })

abbrev held_store : Sets
held_store =
    server.zadd (lane_key 300) 1500 (stringify (enqueue_payload (row_to_job waiting) 0)) (λ k. [])

abbrev queued : World Sets
queued = record start { redis = held_store }

buried-IsHeld : IsHeld server (record start { jobs = buried ∷ [] })
unfolding lookup
buried-IsHeld id row found waits = elim (Bool-cases ("b" == id)) [
  | inl same ↦ let e : some buried ≡ some row = rw same at found in cc
  | inr other ↦ let e : none ≡ some row = rw other at found in cc
]

queued-IsHeld : IsHeld server queued
unfolding lookup is_job stringify parse enqueue_payload row_to_job
queued-IsHeld =
    added-IsHeld server (record start { jobs = buried ∷ [] }) queued "a" waiting (lane_key 300) 1500
      (λ j. refl) (inl refl)
      (stringify (enqueue_payload (row_to_job waiting) 0), refl, refl, server.zadd_self _ _ _ _)
      buried-IsHeld

serve-IsHeld_example :
    Holds IsTable (serve zod server calm 1 asked queued)
    × IsHeld server (serve zod server calm 1 asked queued)
serve-IsHeld_example =
    serve-IsHeld server zod calm-IsQuiet 1 server-rounds asked queued
      (record { committed = table-IsTable; uncommitted = λ rows h. h }) queued-IsHeld
