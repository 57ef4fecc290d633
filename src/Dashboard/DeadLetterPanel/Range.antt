-- ===== src/Dashboard/DeadLetterPanel/Range.antt =====
-- The offset of the panel, and the range that its pagination announces.
use taskfire.Prelude.{
  ℕ, suc, ◌-◌, ◌*◌, ◌%◌, ◌≡◌, refl, List, [], ◌∷◌, length, take, drop, length-take, length-drop,
  arith, Option-cases, get_elem?, inl, inr,
}
use taskfire.Dashboard.DeadLetterPanel.View.{pagination}
use taskfire.Dashboard.DeadLetterPanel.{
  Panel, initial, page_of, total_of, handle_retry, handle_retry_all, settle, Event, clicks_retry,
  clicks_row, settles, clicks_retry_all, settles_all, clicks_prev, clicks_next, clicks_page, loads,
  step, run,
}

-- The offset is a whole number of pages.
abbrev IsAligned : Panel → Type 0
IsAligned p = p.offset % 25 ≡ 0

settle-offset : (k : ℕ) (p : Panel) → (settle k p).offset ≡ p.offset
unfolding settle
settle-offset k p = elim (Option-cases (get_elem? p.in_flight k)) [
  | inl absent ↦ rw (absent, settle) refl
  | inr (id, there) ↦ rw (there, settle) refl
]

step-IsAligned : (e : Event) (p : Panel) → IsAligned p → IsAligned (step e p)
unfolding step handle_retry handle_retry_all
step-IsAligned (clicks_retry id) p h = ground arith
step-IsAligned (clicks_row id) p h = h
step-IsAligned (settles k) p h = rw (settle-offset k p) h
step-IsAligned clicks_retry_all p h = ground arith
step-IsAligned settles_all p h = h
step-IsAligned clicks_prev p h = ground arith
step-IsAligned clicks_next p h = ground arith
step-IsAligned (clicks_page m) p h = ground arith
step-IsAligned (loads q) p h = h

run-IsAligned : (es : List Event) (p : Panel) → IsAligned p → IsAligned (run es p)
unfolding run
run-IsAligned [] p h = h
run-IsAligned (e ∷ es) p h = run-IsAligned es (step e p) (step-IsAligned e p h)

initial-IsAligned : IsAligned initial
unfolding initial
initial-IsAligned = refl

-- Whatever happens to the panel from its first render, it stands at the start of a page, and where
-- the answer's total is the size of the queue, the range that its pagination announces has as many
-- numbers as the queue has ranks from the panel's offset on, up to a page of them.
pub run-range {ℓ} :
    {A : Type ℓ} (es : List Event) (queue : List A)
    → total_of (run es initial) ≡ length queue
    → let p = run es initial in
      (p.offset ≡ (page_of p - 1) * 25)
      × (suc (pagination p).last - (pagination p).first ≡ length (take 25 (drop p.offset queue)))
unfolding page_of pagination
run-range es queue counted =
    let p = run es initial in
    let aligned : p.offset % 25 ≡ 0 = run-IsAligned es initial initial-IsAligned in
    (
      omega arith,
      omega (arith, counted, length-take 25 (drop p.offset queue), length-drop p.offset queue),
    )
