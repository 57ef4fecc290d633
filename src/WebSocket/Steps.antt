-- ===== src/WebSocket/Steps.antt =====
-- What each event keeps of the registry.
use taskfire.Prelude.{
  ℕ, true, false, ◌≡◌, refl, ap, ◌∙◌, Option, none, some, List, [], ◌∷◌, length, eqb, arith,
  if◌then◌else◌, Bool-cases, inl, inr,
}
use taskfire.WebSocket.{
  TrackedClient, ReadyState, connecting, open_, closing, closed, Frame, snapshot, metrics,
  job_event, Hub, find, register, remove, send_to, broadcast_one, broadcast_each, broadcast,
  answer_frame, delete, set_alive, beat_one, beat_each, heartbeat, Event, connects, pongs, messages,
  closes, errors, send_fails, snapshot_ready, metrics_ready, published, beats, step,
}
use taskfire.WebSocket.Registry.{
  find-delete, find-set_alive, flagged, find-absent, IsMap, IsMap-delete, IsMap-set,
  IsMap-set_alive,
}

abbrev pub IsRegistry : Hub → Type 0
IsRegistry h = IsMap h.clients

module _ (ready : ℕ → ReadyState) where
  pub send_to-clients :
      (s : ℕ) (f : Frame) (h : Hub) (st : ReadyState)
      → ready s ≡ st
      → (send_to ready s f h).clients ≡ h.clients
  unfolding send_to
  send_to-clients s f h open_ e = rw (e, send_to) refl
  send_to-clients s f h connecting e = rw (e, send_to) refl
  send_to-clients s f h closing e = rw (e, send_to) refl
  send_to-clients s f h closed e = rw (e, send_to) refl

  pub broadcast_one-IsRegistry :
      (f : Frame) (s : ℕ) (h : Hub) (st : ReadyState)
      → ready s ≡ st
      → IsRegistry h
      → IsRegistry (broadcast_one ready f s h)
  unfolding broadcast_one remove
  broadcast_one-IsRegistry f s h open_ e m = rw (e, broadcast_one) m
  broadcast_one-IsRegistry f s h connecting e m = rw (e, broadcast_one) m
  broadcast_one-IsRegistry f s h closing e m = rw (e, broadcast_one) (IsMap-delete s h.clients m)
  broadcast_one-IsRegistry f s h closed e m = rw (e, broadcast_one) (IsMap-delete s h.clients m)

  pub broadcast_each-IsRegistry :
      (f : Frame) (cs : List TrackedClient) (h : Hub)
      → IsRegistry h
      → IsRegistry (broadcast_each ready f cs h)
  unfolding broadcast_each
  broadcast_each-IsRegistry f [] h m = m
  broadcast_each-IsRegistry f (c ∷ cs) h m =
      broadcast_each-IsRegistry f cs (broadcast_one ready f c.socket h)
        (broadcast_one-IsRegistry f c.socket h (ready c.socket) refl m)

  pub broadcast-IsRegistry : (f : Frame) (h : Hub) → IsRegistry h → IsRegistry (broadcast ready f h)
  unfolding broadcast
  broadcast-IsRegistry f h m = elim (Bool-cases (eqb (length h.clients) 0)) [
    | inl empty ↦ rw empty m
    | inr some_left ↦ rw some_left (broadcast_each-IsRegistry f h.clients h m)
  ]

  pub beat_one-alive :
      (c : TrackedClient) (h : Hub) (st : ReadyState)
      → c.is_alive ≡ true
      → ready c.socket ≡ st
      → (beat_one ready c h).clients ≡ set_alive c.socket false h.clients
  unfolding beat_one
  beat_one-alive c h open_ a e = rw (a, e) refl
  beat_one-alive c h connecting a e = rw (a, e) refl
  beat_one-alive c h closing a e = rw (a, e) refl
  beat_one-alive c h closed a e = rw (a, e) refl

  pub beat_one-silent :
      (c : TrackedClient) (h : Hub)
      → c.is_alive ≡ false
      → (beat_one ready c h).clients ≡ delete c.socket h.clients
  unfolding beat_one remove
  beat_one-silent c h a = rw a refl

  pub beat_one-IsRegistry :
      (c : TrackedClient) (h : Hub) → IsRegistry h → IsRegistry (beat_one ready c h)
  beat_one-IsRegistry c h m = elim (Bool-cases c.is_alive) [
    | inl alive ↦
        rw (beat_one-alive c h (ready c.socket) alive refl)
          (IsMap-set_alive c.socket false h.clients m)
    | inr silent ↦ rw (beat_one-silent c h silent) (IsMap-delete c.socket h.clients m)
  ]

  pub beat_each-IsRegistry :
      (cs : List TrackedClient) (h : Hub) → IsRegistry h → IsRegistry (beat_each ready cs h)
  unfolding beat_each
  beat_each-IsRegistry [] h m = m
  beat_each-IsRegistry (c ∷ cs) h m =
      beat_each-IsRegistry cs (beat_one ready c h) (beat_one-IsRegistry c h m)

  -- What a beat makes of an entry that was `o` at its start and is `p` now.
  abbrev pub beaten : Option TrackedClient → Option TrackedClient → Option TrackedClient
  beaten none p = p
  beaten (some c) p = if c.is_alive then flagged false p else none

  pub find-beat_one :
      (s : ℕ) (c : TrackedClient) (h : Hub)
      → find s (beat_one ready c h).clients
        ≡ (if eqb c.socket s then beaten (some c) (find s h.clients) else find s h.clients)
  find-beat_one s c h = elim (Bool-cases c.is_alive) [
    | inl alive ↦
        ap (find s) (beat_one-alive c h (ready c.socket) alive refl)
        ∙ find-set_alive s c.socket false h.clients
        ∙ ground arith
    | inr silent ↦
        ap (find s) (beat_one-silent c h silent) ∙ find-delete s c.socket h.clients ∙ ground arith
  ]

  pub find-beat_each :
      (s : ℕ) (cs : List TrackedClient) (h : Hub)
      → IsMap cs
      → find s (beat_each ready cs h).clients ≡ beaten (find s cs) (find s h.clients)
  unfolding beat_each
  find-beat_each s [] h m = refl
  find-beat_each s (c ∷ cs) h m = ground (
    arith,
    find-beat_each s cs (beat_one ready c h) m.1,
    find-beat_one s c h,
    find-absent c.socket cs m.0,
  )

  pub step-IsRegistry : (e : Event) (h : Hub) → IsRegistry h → IsRegistry (step ready e h)
  unfolding step register remove heartbeat
  step-IsRegistry (connects s now) h m =
      rw (send_to-clients s _ (register s now h) (ready s) refl)
        (IsMap-set (record { socket = s; is_alive = true; connected_at = now }) h.clients m)
  step-IsRegistry (pongs s) h m = IsMap-set_alive s true h.clients m
  step-IsRegistry (messages s x now) h m =
      rw (send_to-clients s (answer_frame x now) h (ready s) refl) m
  step-IsRegistry (closes s) h m = IsMap-delete s h.clients m
  step-IsRegistry (errors s) h m = IsMap-delete s h.clients m
  step-IsRegistry (send_fails s) h m = IsMap-delete s h.clients m
  step-IsRegistry (snapshot_ready s o) h m = rw (send_to-clients s (snapshot o) h (ready s) refl) m
  step-IsRegistry (metrics_ready o) h m = broadcast-IsRegistry (metrics o) h m
  step-IsRegistry (published none) h m = m
  step-IsRegistry (published (some x)) h m = broadcast-IsRegistry (job_event x) h m
  step-IsRegistry beats h m = beat_each-IsRegistry h.clients h m
