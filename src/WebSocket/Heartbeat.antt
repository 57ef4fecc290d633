-- ===== src/WebSocket/Heartbeat.antt =====
-- The registry stays a map, and the heartbeat takes out a client that is silent from one beat to
-- the next.
use taskfire.Prelude.{
  ℕ, Bool, true, false, ◌≡◌, refl, Option, none, some, List, [], ◌∷◌, eqb, not, &&-eq-true, all,
  arith,
}
use taskfire.WebSocket.{
  TrackedClient, ReadyState, Frame, snapshot, metrics, job_event, Hub, find, register, remove,
  broadcast, answer_frame, delete, beat_each, heartbeat, Event, connects, pongs, messages, closes,
  errors, send_fails, snapshot_ready, metrics_ready, published, beats, step, run,
}
use taskfire.WebSocket.Registry.{find-delete, find-set, find-set_alive, IsMap}
use taskfire.WebSocket.Broadcast.{broadcast_lem}
use taskfire.WebSocket.Steps.{send_to-clients, find-beat_each, step-IsRegistry}

-- From a registry with at most one entry for a socket, whatever events come, every socket has at
-- most one entry.
pub run-IsMap :
    (es : List ((ℕ → ReadyState) × Event)) (h : Hub) → IsMap h.clients → IsMap (run es h).clients
unfolding run
run-IsMap [] h m = m
run-IsMap ((ready, e) ∷ es) h m = run-IsMap es (step ready e h) (step-IsRegistry ready e h m)

-- Whether a client is there whose flag is set.
abbrev pub responds : Option TrackedClient → Bool
responds none = false
responds (some c) = c.is_alive

-- No pong of the socket and no new connection on it.
abbrev pub is_silent : ℕ → Event → Bool
is_silent s (connects t now) = not (eqb t s)
is_silent s (pongs t) = not (eqb t s)
is_silent s _ = true

module _ (ready : ℕ → ReadyState) (s : ℕ) (h : Hub) where
  abbrev Silent : List TrackedClient → Type 0
  Silent cs = responds (find s cs) ≡ false

  delete-Silent : (t : ℕ) → Silent h.clients → Silent (delete t h.clients)
  delete-Silent t q = ground (arith, find-delete s t h.clients)

  broadcast-Silent : (f : Frame) → Silent h.clients → Silent (broadcast ready f h).clients
  broadcast-Silent f q = ground (arith, (broadcast_lem ready f h).0 s)

  -- After a beat, no flag is set.
  beat-Silent : IsMap h.clients → Silent (heartbeat ready h).clients
  unfolding heartbeat
  beat-Silent m = ground (arith, find-beat_each ready s h.clients h m)

  step-Silent :
      (e : Event)
      → IsMap h.clients
      → is_silent s e ≡ true
      → Silent h.clients
      → Silent (step ready e h).clients
  unfolding step register remove
  step-Silent (connects t now) m q k =
      rw (send_to-clients ready t _ (register t now h) (ready t) refl) (
        ground (
          arith,
          find-set s (record { socket = t; is_alive = true; connected_at = now }) h.clients,
        ))
  step-Silent (pongs t) m q k = ground (arith, find-set_alive s t true h.clients)
  step-Silent (messages t x now) m q k =
      rw (send_to-clients ready t (answer_frame x now) h (ready t) refl) k
  step-Silent (closes t) m q k = delete-Silent t k
  step-Silent (errors t) m q k = delete-Silent t k
  step-Silent (send_fails t) m q k = delete-Silent t k
  step-Silent (snapshot_ready t o) m q k =
      rw (send_to-clients ready t (snapshot o) h (ready t) refl) k
  step-Silent (metrics_ready o) m q k = broadcast-Silent (metrics o) k
  step-Silent (published none) m q k = k
  step-Silent (published (some x)) m q k = broadcast-Silent (job_event x) k
  step-Silent beats m q k = beat-Silent m

run-Silent :
    (s : ℕ) (es : List ((ℕ → ReadyState) × Event)) (h : Hub)
    → IsMap h.clients
    → all (λ e. is_silent s e.1) es ≡ true
    → responds (find s h.clients) ≡ false
    → responds (find s (run es h).clients) ≡ false
unfolding run
run-Silent s [] h m q k = k
run-Silent s ((ready, e) ∷ es) h m q k =
    let (first, others) = &&-eq-true (is_silent s e) (all (λ x. is_silent s x.1) es) q in
    run-Silent s es (step ready e h) (step-IsRegistry ready e h m) others
      (step-Silent ready s h e m first k)

gone_at_beat :
    (ready : ℕ → ReadyState) (s : ℕ) (h : Hub)
    → IsMap h.clients
    → responds (find s h.clients) ≡ false
    → find s (heartbeat ready h).clients ≡ none
unfolding heartbeat
gone_at_beat ready s h m k = ground (arith, find-beat_each ready s h.clients h m)

-- In a registry with at most one entry for a socket, a client that sends no pong from one heartbeat
-- to the next, and whose socket no new connection uses, is out of the registry after the second,
-- whatever other events come in between.
pub heartbeat-silent :
    (first last : ℕ → ReadyState) (s : ℕ) (es : List ((ℕ → ReadyState) × Event)) (h : Hub)
    → IsMap h.clients
    → all (λ e. is_silent s e.1) es ≡ true
    → find s (heartbeat last (run es (heartbeat first h))).clients ≡ none
unfolding step
heartbeat-silent first last s es h m q =
    let h' = heartbeat first h in
    let m' = step-IsRegistry first beats h m in
    gone_at_beat last s (run es h') (run-IsMap es h' m')
      (run-Silent s es h' m' q (beat-Silent first s h m))

-- In a registry with at most one entry for a socket, a client whose flag is set has the same entry
-- again, flag set, after a heartbeat and its pong.
pub heartbeat-pong :
    (ready later : ℕ → ReadyState) (s : ℕ) (h : Hub) (c : TrackedClient)
    → IsMap h.clients
    → find s h.clients ≡ some c
    → c.is_alive ≡ true
    → find s (step later (pongs s) (step ready beats h)).clients ≡ some c
unfolding step heartbeat
heartbeat-pong ready later s h c m e alive = ground (
  arith,
  find-set_alive s s true (beat_each ready h.clients h).clients,
  find-beat_each ready s h.clients h m,
)
