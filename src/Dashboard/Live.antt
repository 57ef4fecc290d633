-- ===== src/Dashboard/Live.antt =====
-- `useWebSocket` of dashboard/src/hooks/useWebSocket.ts: the hook's refs and state, and its
-- callbacks as the steps of a machine. Sockets and timers are numbered in the order of their
-- creation.
pub mod History
pub mod Reconnect
use Prim.Native.Nat.{◌^◌}
use taskfire.Prelude.{
  ℕ, suc, ◌+◌, ◌*◌, Bool, true, false, Option, none, some, List, [], ◌∷◌, ◌++◌, filter, take,
  length, ltb, leb, eqb, not, ◌||◌, ◌&&◌, if◌then◌else◌,
}
use taskfire.Json.{Json}

-- `WsStatus`
pub data WsStatus : Type 0 where
  idle connecting connected reconnecting disconnected : WsStatus

-- A frame from the server as `JSON.parse` gives it; the payload is not checked.
pub data WsMessage : Type 0 where
  snapshot metrics job_event : Json → WsMessage
  -- `connected`, `pong`, `error` and any other type
  other : WsMessage

-- A pending `setTimeout(connect, delay)`.
pub record Timer : Type 0 where
  pub id : ℕ
  pub delay : ℕ

pub record Hook : Type 0 where
  -- the refs
  pub ws : Option ℕ
  pub reconnect_timer : Option ℕ
  pub attempt : ℕ
  pub unmounted : Bool
  -- the state
  pub status : WsStatus
  pub live_metrics : Option Json
  pub last_snapshot : Option Json
  pub last_event : Option Json
  pub event_history : List Json
  pub reconnect_attempt : ℕ
  -- the browser: sockets and timers made, timers that run, sockets on which `close` was called
  pub sockets_made : ℕ
  pub timers_made : ℕ
  pub timers : List Timer
  pub close_calls : List ℕ

abbrev pub min_of : ℕ → ℕ → ℕ
min_of a b = if leb a b then a else b

unfoldable pub backoff_delay : ℕ → ℕ
backoff_delay attempt = min_of (1000 * 2 ^ attempt) 30000

-- `scheduleReconnect`
unfoldable pub schedule_reconnect : Hook → Hook
unfolding backoff_delay
schedule_reconnect h =
    let delay = backoff_delay h.attempt in
    if h.unmounted then h else record h {
      attempt = suc h.attempt;
      reconnect_attempt = suc h.attempt;
      status = reconnecting;
      reconnect_timer = some h.timers_made;
      timers = h.timers ++ record { id = h.timers_made; delay = delay } ∷ [];
      timers_made = suc h.timers_made;
    }

-- `wsRef.current?.close()`
unfoldable pub close_current : Hook → Hook
close_current h = elim h.ws [
  | none ↦ h
  | some s ↦ record h { close_calls = h.close_calls ++ s ∷ [] }
]

-- `connect`
unfoldable pub connect : Hook → Hook
unfolding close_current
connect h =
    let h' = close_current h in
    if h.unmounted then h else record h' {
      status = connecting;
      ws = some h.sockets_made;
      sockets_made = suc h.sockets_made;
    }

-- The update of the history.
unfoldable pub remember : Json → List Json → List Json
remember e prev = let next = e ∷ prev in if ltb 100 (length next) then take 100 next else next

unfoldable pub on_message : WsMessage → Hook → Hook
unfolding remember
on_message (snapshot p) h = record h { last_snapshot = some p; live_metrics = some p }
on_message (metrics p) h = record h { live_metrics = some p }
on_message (job_event p) h = record h {
  last_event = some p;
  event_history = remember p h.event_history;
}
on_message other h = h

pub data Event : Type 0 where
  mounts unmounts : Event
  opens : ℕ → Event
  -- a message; `none` is one that `JSON.parse` refuses
  receives : Option WsMessage → Event
  -- a close event of a socket, with `wasClean` and `code`
  closes : (socket : ℕ) (was_clean : Bool) (code : ℕ) → Event
  errors : ℕ → Event
  fires : (timer : ℕ) → Event

unfoldable pub on_open : ℕ → Hook → Hook
on_open s h =
    if h.unmounted
    then record h { close_calls = h.close_calls ++ s ∷ [] }
    else record h { attempt = 0; reconnect_attempt = 0; status = connected }

unfoldable pub on_close : Bool → ℕ → Hook → Hook
unfolding schedule_reconnect
on_close was_clean code h =
    let h' = record h { status = disconnected } in
    if h.unmounted
    then h
    else if not was_clean || eqb code 1000 || eqb code 1001
    then schedule_reconnect h'
    else h'

abbrev without_timer : Option ℕ → List Timer → List Timer
without_timer none ts = ts
without_timer (some t) ts = filter (λ x. not (eqb x.id t)) ts

-- A timer that was cleared, or has fired, fires no more.
abbrev pub is_pending : ℕ → List Timer → Bool
is_pending t [] = false
is_pending t (x ∷ ts) = eqb x.id t || is_pending t ts

-- The clean-up of the effect.
unfoldable pub cleanup : Hook → Hook
unfolding close_current
cleanup h =
    close_current (record h { unmounted = true; timers = without_timer h.reconnect_timer h.timers })

unfoldable pub step : Event → Hook → Hook
unfolding connect on_message on_open on_close cleanup
step mounts h = connect (record h { unmounted = false })
step unmounts h = cleanup h
step (opens s) h = on_open s h
step (receives none) h = h
step (receives (some m)) h = if h.unmounted then h else on_message m h
step (closes s was_clean code) h = on_close was_clean code h
step (errors s) h = record h { close_calls = h.close_calls ++ s ∷ [] }
step (fires t) h =
    let fired = connect (record h { timers = without_timer (some t) h.timers }) in
    if is_pending t h.timers then fired else h

unfoldable pub run : List Event → Hook → Hook
unfolding step
run [] h = h
run (e ∷ es) h = run es (step e h)
