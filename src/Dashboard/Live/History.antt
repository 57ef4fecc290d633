-- ===== src/Dashboard/Live/History.antt =====
-- What the hook remembers of the events, and that it does nothing once it is unmounted.
use taskfire.Prelude.{
  ℕ, zero, suc, ◌≤◌, Bool, true, false, ◌≡◌, refl, sym, ap, ◌∙◌, none, some, List, [], ◌∷◌, length,
  take, take_of_le, all, &&-eq-true, ltb, not, arith, Bool-cases, Option-cases, inl, inr,
}
use taskfire.Json.{Json}
use taskfire.Dashboard.Live.{
  snapshot, metrics, job_event, other, Hook, schedule_reconnect, close_current, connect, remember,
  on_message, on_open, on_close, without_timer, is_pending, Event, mounts, unmounts, opens,
  receives, closes, errors, fires, step, run,
}

take-take : {A : Type 0} (m n : ℕ) (xs : List A) → m ≤ n → take m (take n xs) ≡ take m xs
take-take zero n xs h = refl
take-take (suc m) zero xs h = absurd (omega arith)
take-take (suc m) (suc n) [] h = refl
take-take (suc m) (suc n) (x ∷ xs) h = ap (◌∷◌ x) (take-take m n xs (omega arith))

remember-take : (e : Json) (prev : List Json) → remember e prev ≡ take 100 (e ∷ prev)
unfolding remember
remember-take e prev = elim (Bool-cases (ltb 100 (length (e ∷ prev)))) [
  | inl long ↦ rw long refl
  | inr short ↦ rw short (sym (take_of_le 100 (e ∷ prev) (ground arith)))
]

-- The payloads of the job events of a run, newest first, before those of `older`.
abbrev pub heard : List Event → List Json → List Json
heard [] older = older
heard (receives (some (job_event p)) ∷ es) older = heard es (p ∷ older)
heard (_ ∷ es) older = heard es older

abbrev pub is_unmount : Event → Bool
is_unmount unmounts = true
is_unmount _ = false

-- What connecting leaves alone.
abbrev SameView : Hook → Hook → Type 0
SameView h h' = (h'.event_history ≡ h.event_history) × (h'.unmounted ≡ h.unmounted)

close_current-SameView : (h : Hook) → SameView h (close_current h)
unfolding close_current
close_current-SameView h = elim (Option-cases h.ws) [
  | inl absent ↦ rw (absent, close_current) (refl, refl)
  | inr (s, there) ↦ rw (there, close_current) (refl, refl)
]

connect-SameView : (h : Hook) → SameView h (connect h)
unfolding connect
connect-SameView h = ground (arith, (close_current-SameView h).0, (close_current-SameView h).1)

on_close-SameView : (w : Bool) (c : ℕ) (h : Hook) → SameView h (on_close w c h)
unfolding on_close schedule_reconnect
on_close-SameView w c h = ground arith

step-history :
    (e : Event) (h : Hook) (older : List Json)
    → not (is_unmount e) ≡ true
    → h.unmounted ≡ false
    → h.event_history ≡ take 100 older
    → ((step e h).event_history ≡ take 100 (heard (e ∷ []) older)) × ((step e h).unmounted ≡ false)
unfolding step on_open on_close schedule_reconnect on_message
step-history mounts h older n u k =
    let (view, mounted) = connect-SameView (record h { unmounted = false }) in (view ∙ k, mounted)
step-history unmounts h older n u k = cc
step-history (opens s) h older n u k = rw (u, step) (k, refl)
step-history (receives none) h older n u k = (k, u)
step-history (receives (some (snapshot p))) h older n u k = rw (u, step) (k, refl)
step-history (receives (some (metrics p))) h older n u k = rw (u, step) (k, refl)
step-history (receives (some (job_event p))) h older n u k =
    rw (u, step)
      (
        remember-take p h.event_history
            ∙ ap (λ xs. take 100 (p ∷ xs)) k
            ∙ ap (◌∷◌ p) (take-take 99 100 older (omega arith)),
        refl,
      )
step-history (receives (some other)) h older n u k = rw (u, step) (k, refl)
step-history (closes s w c) h older n u k =
    let (view, mounted) = on_close-SameView w c h in (view ∙ k, mounted ∙ u)
step-history (errors s) h older n u k = (k, u)
step-history (fires t) h older n u k =
    let (view, mounted) =
      connect-SameView (record h { timers = without_timer (some t) h.timers }) in
    elim (Bool-cases (is_pending t h.timers)) [
      | inl runs ↦ rw runs (view ∙ k, mounted ∙ u)
      | inr gone ↦ rw gone (k, u)
    ]

heard-cons :
    (e : Event) (es : List Event) (older : List Json)
    → heard (e ∷ es) older ≡ heard es (heard (e ∷ []) older)
heard-cons mounts es older = refl
heard-cons unmounts es older = refl
heard-cons (opens s) es older = refl
heard-cons (receives none) es older = refl
heard-cons (receives (some (snapshot p))) es older = refl
heard-cons (receives (some (metrics p))) es older = refl
heard-cons (receives (some (job_event p))) es older = refl
heard-cons (receives (some other)) es older = refl
heard-cons (closes s w c) es older = refl
heard-cons (errors s) es older = refl
heard-cons (fires t) es older = refl

-- Where the history of a mounted hook is the hundred newest of some events, and the hook stays
-- mounted, its history is then the hundred newest of these and of all job events that it received,
-- newest first, whatever else happens to its sockets and timers.
pub run-heard :
    (es : List Event) (h : Hook) (older : List Json)
    → all (λ e. not (is_unmount e)) es ≡ true
    → h.unmounted ≡ false
    → h.event_history ≡ take 100 older
    → (run es h).event_history ≡ take 100 (heard es older)
unfolding run
run-heard [] h older n u k = k
run-heard (e ∷ es) h older n u k =
    let (first, others) = &&-eq-true (not (is_unmount e)) (all (λ x. not (is_unmount x)) es) n in
    let (history, mounted) = step-history e h older first u k in
    run-heard es (step e h) (heard (e ∷ []) older) others mounted history
    ∙ ap (take 100) (sym (heard-cons e es older))
