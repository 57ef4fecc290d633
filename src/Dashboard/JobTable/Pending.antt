-- ===== src/Dashboard/JobTable/Pending.antt =====
-- The requests that the job table has under way, and what its buttons know of them.
use taskfire.Prelude.{
  ℕ, zero, suc, ◌≡◌, refl, ap, ◌∙◌, String, true, false, ◌==◌, not, Option, none, some, List, [],
  ◌∷◌, ◌≤◌, length, get_elem?, if◌then◌else◌, arith, eq_iff, first, eqb, Bool-cases, Option-cases,
  inl, inr,
}
use taskfire.Job.{Job}
use taskfire.Dashboard.JobTable.View.{Button, button, same_op}
use taskfire.Dashboard.JobTable.{
  Op, cancel, retry, Pending, lookup, assign, remove, Request, Table, initial, remove_at, settle,
  is_busy, offers, handle_op, handle_row_click, Event, changes_filters, clicks_row, clicks, settles,
  clicks_prev, clicks_next, clicks_page, loads, step, run,
}

-- The operations under way for a job.
abbrev pub requests_of : String → List Request → List Op
requests_of id [] = []
requests_of id (r ∷ rs) = if r.id == id then r.op ∷ requests_of id rs else requests_of id rs

abbrev pub to_list {ℓ} : {A : Type ℓ} → Option A → List A
to_list none = []
to_list (some a) = a ∷ []

-- What `pendingOp` says of each job is what is under way for it, and so it is one request at most.
abbrev pub IsTracked : Table → Type 0
IsTracked t = (id : String) → requests_of id t.in_flight ≡ to_list (lookup id t.pending_op)

lookup-assign :
    (i id : String) (op : Op) (m : Pending)
    → lookup i (assign id op m) ≡ (if id == i then some op else lookup i m)
unfolding lookup assign
lookup-assign i id op [] = refl
lookup-assign i id op ((k, o) ∷ m) =
    ground (arith, eq_iff k id, eq_iff k i, eq_iff id i, lookup-assign i id op m)

lookup-remove :
    (i id : String) (m : Pending) → lookup i (remove id m) ≡ (if id == i then none else lookup i m)
unfolding lookup remove
lookup-remove i id [] = ground arith
lookup-remove i id ((k, o) ∷ m) =
    ground (arith, eq_iff k id, eq_iff k i, eq_iff id i, lookup-remove i id m)

requests-same :
    (k : ℕ) (id : String) (rs : List Request) (r : Request)
    → get_elem? rs k ≡ some r
    → (r.id == id) ≡ true
    → length (requests_of id rs) ≡ suc (length (requests_of id (remove_at k rs)))
requests-same k id [] r h e = cc
requests-same zero id (x ∷ rs) r h e = ground arith
requests-same (suc k) id (x ∷ rs) r h e = ground (arith, requests-same k id rs r h e)

requests-other :
    (k : ℕ) (id : String) (rs : List Request) (r : Request)
    → get_elem? rs k ≡ some r
    → (r.id == id) ≡ false
    → requests_of id (remove_at k rs) ≡ requests_of id rs
requests-other k id [] r h e = cc
requests-other zero id (x ∷ rs) r h e = ground arith
requests-other (suc k) id (x ∷ rs) r h e = ground (arith, requests-other k id rs r h e)

length-to_list : {A : Type 0} (o : Option A) → length (to_list o) ≤ 1
length-to_list none = omega arith
length-to_list (some a) = omega arith

no_elements : {A : Type 0} (xs : List A) → length xs ≡ 0 → xs ≡ []
no_elements [] h = refl
no_elements (x ∷ xs) h = absurd (omega arith)

settle-IsTracked : (k : ℕ) (t : Table) → IsTracked t → IsTracked (settle k t)
unfolding settle lookup
settle-IsTracked k t h id = elim (Option-cases (get_elem? t.in_flight k)) [
  | inl absent ↦ rw (absent, settle) (h id)
  | inr (r, there) ↦
      rw (there, settle, lookup-remove id r.id t.pending_op)
        (elim (Bool-cases (r.id == id)) [
          | inl same ↦ rw same (
              no_elements _ (
                omega (
                  arith,
                  requests-same k id t.in_flight r there same,
                  ap length (h id),
                  length-to_list (lookup id t.pending_op),
                )))
          | inr other ↦ rw other (requests-other k id t.in_flight r there other ∙ h id)
        ])
]

handle_op-IsTracked :
    (op : Op) (i : String) (t : Table)
    → is_busy i t ≡ false
    → IsTracked t
    → IsTracked (handle_op op i t)
unfolding handle_op is_busy
handle_op-IsTracked op i t idle h id =
    rw (lookup-assign id i op t.pending_op) (elim (Bool-cases (i == id)) [
      | inl same ↦ rw same (ground (arith, eq_iff i id, h id, h i))
      | inr other ↦ rw other (h id)
    ])

step-IsTracked : (e : Event) (t : Table) → IsTracked t → IsTracked (step e t)
unfolding step handle_row_click
step-IsTracked (changes_filters f) t h id = h id
step-IsTracked (clicks_row i) t h id = h id
step-IsTracked (clicks op job) t h id = elim (Bool-cases (offers op job.status)) [
  | inl shown ↦ elim (Bool-cases (is_busy job.id t)) [
    | inl busy ↦ rw (shown, busy) (h id)
    | inr idle ↦ rw (shown, idle) (handle_op-IsTracked op job.id t idle h id)
  ]
  | inr hidden ↦ rw hidden (h id)
]
step-IsTracked (settles k) t h id = settle-IsTracked k t h id
step-IsTracked clicks_prev t h id = ground (arith, h id)
step-IsTracked clicks_next t h id = ground (arith, h id)
step-IsTracked (clicks_page p) t h id = ground (arith, h id)
step-IsTracked (loads q) t h id = h id

run-IsTracked : (es : List Event) (t : Table) → IsTracked t → IsTracked (run es t)
unfolding run
run-IsTracked [] t h = h
run-IsTracked (e ∷ es) t h = run-IsTracked es (step e t) (step-IsTracked e t h)

initial-IsTracked : IsTracked initial
unfolding initial lookup
initial-IsTracked id = refl

-- The button of an operation as the requests under way for the job tell: enabled where there is
-- none, and with '…' for its label where the first is its own.
abbrev pub button_of : List Op → Op → Job → List Button
button_of requests op j =
    if offers op j.status
    then record {
      op = op;
      disabled = not (eqb (length requests) 0);
      waiting = elim (first requests) [ none ↦ false | some o ↦ same_op o op ];
    }
      ∷ []
    else []

button-requests :
    (op : Op) (j : Job) (t : Table)
    → IsTracked t
    → button op j t ≡ button_of (requests_of j.id t.in_flight) op j
unfolding button is_busy
button-requests op j t h = rw (h j.id) (elim (Option-cases (lookup j.id t.pending_op)) [
  | inl idle ↦ rw (idle, is_busy) refl
  | inr (o, busy) ↦ rw (busy, is_busy) refl
])

-- Whatever happens to the table from its first render, at most one request is under way for a job,
-- and each of the two buttons of the job is rendered as that request tells: disabled exactly while
-- there is one, and waiting exactly where it is the button's own.
pub run-initial-requests :
    (es : List Event) (j : Job)
    → let t = run es initial in
      let requests = requests_of j.id t.in_flight in
      (length requests ≤ 1)
      × (button retry j t ≡ button_of requests retry j)
      × (button cancel j t ≡ button_of requests cancel j)
run-initial-requests es j =
    let t = run es initial in
    let tracked = run-IsTracked es initial initial-IsTracked in
    let few : length (requests_of j.id t.in_flight) ≤ 1 =
      omega (arith, ap length (tracked j.id), length-to_list (lookup j.id t.pending_op)) in
    (few, button-requests retry j t tracked, button-requests cancel j t tracked)
