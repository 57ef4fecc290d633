-- ===== src/WebSocket.antt =====
-- api/src/websocket/handler.ts: the registry of clients and what each event does to it. The process
-- runs one callback after the other, so a run is a list of events. A socket is a number; the
-- callbacks of `send`, the frames that arrive and the timers are events of their own.
pub mod Registry
pub mod Broadcast
pub mod Heartbeat
pub mod Snapshot
pub mod Steps
use taskfire.Prelude.{
  ℕ, ◌+◌, String, Bool, true, false, ◌==◌, Option, none, some, List, [], ◌∷◌, ◌++◌, map, filter,
  length, eqb, not, if◌then◌else◌,
}
use taskfire.Json.{Json, text, object, Members, property}
use taskfire.Job.{QueueDepthByLane}
use taskfire.Postgres.Metrics.{StatusCounts}

-- `TrackedClient`
pub record TrackedClient : Type 0 where
  pub socket : ℕ
  pub is_alive : Bool
  pub connected_at : ℕ

-- `WebSocket.readyState`
pub data ReadyState : Type 0 where
  connecting open_ closing closed : ReadyState

-- The payload of a snapshot and of the periodic metrics.
pub record Overview : Type 0 where
  pub queue_depth : QueueDepthByLane
  pub dlq_depth : ℕ
  pub active_jobs : ℕ
  pub pending_jobs : ℕ
  pub counts : StatusCounts
  pub timestamp : ℕ

-- The frames that the server sends; an error frame by its code.
pub data Frame : Type 0 where
  connected : (clients connected_at : ℕ) → Frame
  snapshot metrics : Overview → Frame
  job_event : Json → Frame
  pong : (timestamp : ℕ) → Frame
  subscribed : Frame
  invalid_json invalid_message : Frame
  unknown_type : String → Frame

pub data Action : Type 0 where
  send : ℕ → Frame → Action
  ping terminate : ℕ → Action

-- The registry in insertion order, and everything that was done to the sockets.
pub record Hub : Type 0 where
  pub clients : List TrackedClient
  pub actions : List Action

abbrev pub find : ℕ → List TrackedClient → Option TrackedClient
find s [] = none
find s (c ∷ cs) = if eqb c.socket s then some c else find s cs

-- `clients.set`: a socket that is there keeps its place.
unfoldable pub set : TrackedClient → List TrackedClient → List TrackedClient
set e [] = e ∷ []
set e (c ∷ cs) = let rest = set e cs in if eqb c.socket e.socket then e ∷ cs else c ∷ rest

-- `clients.delete`
unfoldable pub delete : ℕ → List TrackedClient → List TrackedClient
delete s [] = []
delete s (c ∷ cs) = let rest = delete s cs in if eqb c.socket s then rest else c ∷ rest

-- `register`
unfoldable pub register : ℕ → ℕ → Hub → Hub
unfolding set
register s now h = record h {
  clients = set (record { socket = s; is_alive = true; connected_at = now }) h.clients;
}

-- `remove`
unfoldable pub remove : ℕ → Hub → Hub
unfolding delete
remove s h = record h { clients = delete s h.clients }

abbrev pub act : Action → Hub → Hub
act a h = record h { actions = h.actions ++ a ∷ [] }

-- `sendTo`
unfoldable pub send_to : (ℕ → ReadyState) → ℕ → Frame → Hub → Hub
send_to ready s f h = elim (ready s) [
  | open_ ↦ act (send s f) h
  | connecting ↦ h
  | closing ↦ h
  | closed ↦ h
]

-- One round of the loop of `broadcast`.
unfoldable pub broadcast_one : (ℕ → ReadyState) → Frame → ℕ → Hub → Hub
unfolding remove
broadcast_one ready f s h = elim (ready s) [
  | open_ ↦ act (send s f) h
  | connecting ↦ h
  | closing ↦ remove s h
  | closed ↦ remove s h
]

-- The loop deletes no other entry than the one it stands at, so it goes through those at its start.
unfoldable pub broadcast_each : (ℕ → ReadyState) → Frame → List TrackedClient → Hub → Hub
broadcast_each ready f [] h = h
broadcast_each ready f (c ∷ cs) h = broadcast_each ready f cs (broadcast_one ready f c.socket h)

-- `broadcast`
unfoldable pub broadcast : (ℕ → ReadyState) → Frame → Hub → Hub
broadcast ready f h = if eqb (length h.clients) 0 then h else broadcast_each ready f h.clients h

-- `entry.isAlive = b`, for the entry of a socket, which its handlers share with the registry.
unfoldable pub set_alive : ℕ → Bool → List TrackedClient → List TrackedClient
set_alive s b = map (λ c. if eqb c.socket s then record c { is_alive = b } else c)

-- One round of the loop of `startHeartbeat`.
unfoldable pub beat_one : (ℕ → ReadyState) → TrackedClient → Hub → Hub
unfolding remove set_alive
beat_one ready c h =
    let s = c.socket in
    let marked = record h { clients = set_alive s false h.clients } in
    if not c.is_alive then remove s (act (terminate s) h) else elim (ready s) [
      | open_ ↦ act (ping s) marked
      | connecting ↦ marked
      | closing ↦ marked
      | closed ↦ marked
    ]

unfoldable pub beat_each : (ℕ → ReadyState) → List TrackedClient → Hub → Hub
beat_each ready [] h = h
beat_each ready (c ∷ cs) h = beat_each ready cs (beat_one ready c h)

unfoldable pub heartbeat : (ℕ → ReadyState) → Hub → Hub
heartbeat ready h = beat_each ready h.clients h

-- `isWsMessage`: the text of the field `type`, where the message has one.
unfoldable pub message_type : Json → Option String
unfolding property
message_type (object ms) = elim (property "type" ms) [
  | none ↦ none
  | some v ↦ elim v [ text t ↦ some t | _ ↦ none ]
]
message_type _ = none

-- The frame that answers a message; `none` is a text that `JSON.parse` refuses.
unfoldable pub answer_frame : Option Json → ℕ → Frame
unfolding message_type
answer_frame none now = invalid_json
answer_frame (some v) now = elim (message_type v) [
  | none ↦ invalid_message
  | some t ↦
      if t == "ping" then pong now else if t == "subscribe" then subscribed else unknown_type t
]

pub data Event : Type 0 where
  -- a connection, at a time
  connects : ℕ → (now : ℕ) → Event
  -- a pong frame
  pongs : ℕ → Event
  messages : ℕ → Option Json → (now : ℕ) → Event
  closes errors send_fails : ℕ → Event
  -- the stores answered to `sendSnapshot`
  snapshot_ready : ℕ → Overview → Event
  -- the stores answered to a tick of `startMetricsBroadcast`
  metrics_ready : Overview → Event
  -- a message of the channel of events
  published : Option Json → Event
  beats : Event

-- `wsHandler` and its callbacks, and those of the timers and the channel.
unfoldable pub step : (ℕ → ReadyState) → Event → Hub → Hub
unfolding register remove send_to broadcast heartbeat answer_frame
step ready (connects s now) h =
    let h' = register s now h in send_to ready s (connected (length h'.clients) now) h'
step ready (pongs s) h = record h { clients = set_alive s true h.clients }
step ready (messages s m now) h = send_to ready s (answer_frame m now) h
step ready (closes s) h = remove s h
step ready (errors s) h = remove s h
step ready (send_fails s) h = remove s h
step ready (snapshot_ready s o) h = send_to ready s (snapshot o) h
step ready (metrics_ready o) h = broadcast ready (metrics o) h
step ready (published none) h = h
step ready (published (some e)) h = broadcast ready (job_event e) h
step ready beats h = heartbeat ready h

-- A run: every event with the states of the sockets at its time.
unfoldable pub run : List ((ℕ → ReadyState) × Event) → Hub → Hub
unfolding step
run [] h = h
run ((ready, e) ∷ es) h = run es (step ready e h)
