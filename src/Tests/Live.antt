-- ===== src/Tests/Live.antt =====
-- The results on the live updates at concrete inputs.
use taskfire.Prelude.{ℕ, ◌≡◌, refl, true, none, some, List, [], ◌∷◌, ◌++◌, if◌then◌else◌}
use taskfire.WebSocket.{
  TrackedClient, ReadyState, open_, subscribed, Hub, find, broadcast, heartbeat, Event, messages,
  closes, connects, pongs, beats, step, run,
}
use taskfire.WebSocket.Registry.{IsMap}
use taskfire.WebSocket.Broadcast.{is_gone, sends, broadcast_lem}
use taskfire.WebSocket.Heartbeat.{heartbeat-silent, heartbeat-pong}

abbrev client : ℕ → TrackedClient
client s = record { socket = s; is_alive = true; connected_at = 1000 }

abbrev hub : Hub
hub = record { clients = client 1 ∷ client 2 ∷ []; actions = [] }

abbrev ready : ℕ → ReadyState
ready s = open_

hub-IsMap : IsMap hub.clients
hub-IsMap = (refl, (refl, tt))

broadcast_lem_example :
    ((s : ℕ)
      → find s (broadcast ready subscribed hub).clients
        ≡ (if is_gone (ready s) then none else find s hub.clients))
    × ((broadcast ready subscribed hub).actions ≡ [] ++ sends ready subscribed hub.clients)
broadcast_lem_example = broadcast_lem ready subscribed hub

abbrev events : List ((ℕ → ReadyState) × Event)
events =
    (ready, connects 3 2000)
    ∷ (ready, pongs 1)
    ∷ (ready, messages 2 none 2100)
    ∷ (ready, closes 1)
    ∷ []

heartbeat-silent_example :
    find 2 (heartbeat ready (run events (heartbeat ready hub))).clients ≡ none
heartbeat-silent_example = heartbeat-silent ready ready 2 events hub hub-IsMap refl

heartbeat-pong_example :
    find 2 (step ready (pongs 2) (step ready beats hub)).clients ≡ some (client 2)
heartbeat-pong_example = heartbeat-pong ready ready 2 hub (client 2) hub-IsMap refl refl
