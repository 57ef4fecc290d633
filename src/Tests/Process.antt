-- ===== src/Tests/Process.antt =====
-- A process that starts against stores which answer.
use taskfire.Prelude.{◌≡◌, ◌⊎◌, refl, false, some}
use taskfire.Async.{resolved}
use taskfire.Process.{Process, main}
use taskfire.Process.Lifecycle.{fresh, IsStarted, main-shutdown}
use taskfire.Tests.Store.{Sets}
use taskfire.Tests.Samples.{start, calm}

abbrev new_process : Process Sets
new_process = record { world = start; resources = fresh }

main-shutdown_example :
    (v : Process Sets) × (main calm new_process ≡ resolved tt v)
    × (((v.resources.exit_code ≡ some 1) × (v.resources.listening ≡ false)) ⊎ IsStarted calm v)
main-shutdown_example = main-shutdown calm new_process refl
