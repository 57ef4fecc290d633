-- ===== src/Tests/Client.antt =====
-- The results on the client and on a POST that loses its job at concrete inputs.
use taskfire.Prelude.{◌≡◌, refl, Bool, true, false, eqb, ◌||◌, [], ◌∷◌, ◌++◌}
use taskfire.Async.{unavailable}
use taskfire.Routes.Reply.{answer, error_handler}
use taskfire.Routes.Jobs.{posts, handle, post_job}
use taskfire.Routes.Jobs.Create.{asked}
use taskfire.Routes.Jobs.Orphan.{post_job-orphan}
use taskfire.Postgres.Table.{new_row}
use taskfire.World.{Env}
use taskfire.World.Quiet.{IsAlone}
use taskfire.Dashboard.Client.{Failure, responded, requested, unsent, normalise, retry_condition}
use taskfire.Dashboard.Client.Retries.{failure_of, is_rejected, Tells, handle-retry_condition}
use taskfire.Tests.Store.{Sets, server}
use taskfire.Tests.Samples.{id_free, zod, calm, start, table, creates, input, zod-create}

-- Two calls that reject, those of the enqueue.
abbrev stormy : Env Sets
stormy = record calm { fails = λ n. eqb n 4 || eqb n 5 }

stormy-IsAlone : IsAlone stormy
stormy-IsAlone = record { no_others = λ n rows. refl; no_traffic = λ n s. refl }

post_job-orphan_example :
    let (got, v) = answer (post_job zod server stormy (creates input) start) in
    (got ≡ error_handler unavailable)
    × (v.jobs ≡ table ++ new_row (asked input "c") 5004 ∷ [])
    × (v.redis ≡ start.redis)
post_job-orphan_example =
    post_job-orphan zod server stormy-IsAlone (creates input) input start zod-create id_free refl
      refl refl refl

abbrev is_network_error : Failure → Bool
is_network_error (responded status body) = false
is_network_error (requested m) = true
is_network_error (unsent m) = false

handle-retry_condition_example :
    let o = handle zod server stormy 1 (posts (creates input)) start in
    let got = (answer o).0 in
    (retry_condition is_network_error (failure_of got) ≡ is_rejected o)
    × Tells got.status got.body (normalise (λ n. "500") (λ es. "") (failure_of got))
handle-retry_condition_example =
    handle-retry_condition zod server stormy (λ n. "500") (λ es. "") is_network_error
      (λ status body. refl) 1 (posts (creates input)) start
