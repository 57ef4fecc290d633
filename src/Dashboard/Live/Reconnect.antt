-- ===== src/Dashboard/Live/Reconnect.antt =====
-- How long the hook waits before it connects again, and what a late close event does.
use Prim.Native.Nat.{◌^◌}
use native.Mathlib.Nat.{one-le-pow}
use taskfire.Prelude.{
  ℕ, zero, suc, ◌≤◌, Bool, true, false, ◌≡◌, refl, ap, ◌∙◌, Option, none, some, List, [], ◌∷◌, ◌++◌,
  filter, all, leb, eqb, not, ◌&&◌, arith, Bool-cases, Option-cases, inl, inr,
}
use taskfire.Dashboard.Live.{
  WsStatus, reconnecting, Timer, Hook, min_of, backoff_delay, schedule_reconnect, close_current,
  connect, on_message, on_open, on_close, cleanup, without_timer, is_pending, WsMessage, snapshot,
  metrics, job_event, other, Event, mounts, unmounts, opens, receives, closes, errors, fires, step,
  run,
}

abbrev pub is_paced : Timer → Bool
is_paced t = leb 1000 t.delay && leb t.delay 30000

abbrev pub IsPaced : Hook → Type 0
IsPaced h = all is_paced h.timers ≡ true

backoff_delay_bounds : (n : ℕ) → (1000 ≤ backoff_delay n) × (backoff_delay n ≤ 30000)
unfolding backoff_delay
backoff_delay_bounds n =
    let positive : 1 ≤ 2 ^ n = one-le-pow n 2 (omega arith) in
    let p = 2 ^ n in (ground arith, ground arith)

all-append_one :
    (ts : List Timer) (t : Timer)
    → all is_paced ts ≡ true
    → is_paced t ≡ true
    → all is_paced (ts ++ t ∷ []) ≡ true
all-append_one [] t h k = ground arith
all-append_one (x ∷ ts) t h k = ground (arith, all-append_one ts t)

all-filter :
    (p : Timer → Bool) (ts : List Timer)
    → all is_paced ts ≡ true
    → all is_paced (filter p ts) ≡ true
all-filter p [] h = refl
all-filter p (x ∷ ts) h = ground (arith, all-filter p ts)

without-paced :
    (o : Option ℕ) (ts : List Timer)
    → all is_paced ts ≡ true
    → all is_paced (without_timer o ts) ≡ true
without-paced none ts h = h
without-paced (some t) ts h = all-filter (λ x. not (eqb x.id t)) ts h

schedule-IsPaced : (h : Hook) → IsPaced h → IsPaced (schedule_reconnect h)
unfolding schedule_reconnect
schedule-IsPaced h k = elim (Bool-cases h.unmounted) [
  | inl gone ↦ ground arith
  | inr here ↦
      let (low, high) = backoff_delay_bounds h.attempt in
      ground (
        arith,
        all-append_one h.timers (record { id = h.timers_made; delay = backoff_delay h.attempt }) k,
      )
]

close_current-timers : (h : Hook) → (close_current h).timers ≡ h.timers
unfolding close_current
close_current-timers h = elim (Option-cases h.ws) [
  | inl absent ↦ rw (absent, close_current) refl
  | inr (s, there) ↦ rw (there, close_current) refl
]

connect-timers : (h : Hook) → (connect h).timers ≡ h.timers
unfolding connect
connect-timers h = ground (arith, close_current-timers h)

step-IsPaced : (e : Event) (h : Hook) → IsPaced h → IsPaced (step e h)
unfolding step on_open on_close cleanup on_message
step-IsPaced mounts h k = ap (all is_paced) (connect-timers (record h { unmounted = false })) ∙ k
step-IsPaced unmounts h k =
    ap (all is_paced) (
      close_current-timers
        (record h { unmounted = true; timers = without_timer h.reconnect_timer h.timers }))
    ∙ without-paced h.reconnect_timer h.timers k
step-IsPaced (opens s) h k = ground arith
step-IsPaced (receives none) h k = k
step-IsPaced (receives (some (snapshot p))) h k = ground arith
step-IsPaced (receives (some (metrics p))) h k = ground arith
step-IsPaced (receives (some (job_event p))) h k = ground arith
step-IsPaced (receives (some other)) h k = ground arith
step-IsPaced (closes s w c) h k =
    ground (arith, schedule-IsPaced (record h { status = taskfire.Dashboard.Live.disconnected }) k)
step-IsPaced (errors s) h k = k
step-IsPaced (fires t) h k = elim (Bool-cases (is_pending t h.timers)) [
  | inl runs ↦ rw runs (
      ap (all is_paced) (connect-timers (record h { timers = without_timer (some t) h.timers }))
      ∙ without-paced (some t) h.timers k)
  | inr gone ↦ rw gone k
]

-- Where the timers of a hook wait between one second and thirty, so do all that it has after any
-- events.
pub run-IsPaced : (es : List Event) (h : Hook) → IsPaced h → IsPaced (run es h)
unfolding run
run-IsPaced [] h k = k
run-IsPaced (e ∷ es) h k = run-IsPaced es (step e h) (step-IsPaced e h k)

-- The late close event of each socket that the hook replaces, and the timer behind it, `n` times.
abbrev pub late_closes : ℕ → (old current sockets timers : ℕ) → List Event
late_closes zero old current sockets timers = []
late_closes (suc n) old current sockets timers =
    closes old true 1000 ∷ fires timers ∷ late_closes n current sockets (suc sockets) (suc timers)

-- What the rounds close: the present socket, then each that was made for it.
abbrev pub closed_by : ℕ → (current sockets : ℕ) → List ℕ
closed_by zero current sockets = []
closed_by (suc n) current sockets = current ∷ closed_by n sockets (suc sockets)
