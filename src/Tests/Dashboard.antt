-- ===== src/Tests/Dashboard.antt =====
-- The results on the dashboard's hook at concrete inputs.
use taskfire.Prelude.{◌≡◌, refl, false, none, some, List, [], ◌∷◌, take}
use taskfire.Json.{number}
use taskfire.Dashboard.Live.{
  idle, Hook, job_event, metrics, Event, opens, receives, closes, fires, run,
}
use taskfire.Dashboard.Live.History.{heard, run-heard}
use taskfire.Dashboard.Live.Reconnect.{IsPaced, run-IsPaced}

abbrev fresh : Hook
fresh = record {
  ws = some 7;
  reconnect_timer = none;
  attempt = 3;
  unmounted = false;
  status = idle;
  live_metrics = none;
  last_snapshot = none;
  last_event = none;
  event_history = [];
  reconnect_attempt = 3;
  sockets_made = 8;
  timers_made = 0;
  timers = [];
  close_calls = [];
}

abbrev happenings : List Event
happenings =
    closes 6 false 1006
    ∷ fires 0
    ∷ opens 8
    ∷ receives (some (job_event (number 1)))
    ∷ receives (some (metrics (number 2)))
    ∷ receives (some (job_event (number 3)))
    ∷ []

run-heard_example : (run happenings fresh).event_history ≡ take 100 (heard happenings [])
run-heard_example = run-heard happenings fresh [] refl refl refl

run-IsPaced_example : IsPaced (run happenings fresh)
run-IsPaced_example = run-IsPaced happenings fresh refl
