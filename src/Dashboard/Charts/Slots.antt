-- ===== src/Dashboard/Charts/Slots.antt =====
-- The slots of the chart of the workers.
use mathlib.Core.List.{append-nil}
use taskfire.Prelude.{
  ℕ, zero, suc, ◌+◌, ◌-◌, ◌≡◌, String, ◌∙◌, all, eqb, refl, sym, ap, Bool, true, false, Option,
  none, some, List, [], ◌∷◌, ◌++◌, length, map, length-append, arith, if◌then◌else◌, leb,
}
use taskfire.Prelude.Int.{ℤ, pos}
use taskfire.Routes.Metrics.Workers.{ActiveJobSummary}
use taskfire.Dashboard.Paging.{numbered}
use taskfire.Dashboard.Charts.{WorkerSlot, round_seconds, busy_slots, push_idle, worker_slots}

abbrev pub ids : List WorkerSlot → List ℕ
ids = map (λ s. s.id)

abbrev pub is_busy : WorkerSlot → Bool
is_busy s = elim s.job_type [ none ↦ false | some t ↦ true ]

-- The types of the jobs that the slots show.
abbrev pub job_types : List WorkerSlot → List (Option String)
job_types = map (λ s. s.job_type)

abbrev pub nones : ℕ → List (Option String)
nones zero = []
nones (suc n) = none ∷ nones n

-- How long the slots say that their jobs run.
abbrev pub seconds : List WorkerSlot → List ℤ
seconds = map (λ s. s.running_for_s)

abbrev pub zeros : ℕ → List ℤ
zeros zero = []
zeros (suc n) = pos 0 ∷ zeros n

-- A busy slot is used wholly, an idle one not at all.
abbrev pub is_consistent : WorkerSlot → Bool
is_consistent s = eqb s.utilization (if is_busy s then 100 else 0)

ids-busy_slots :
    (i : ℕ) (jobs : List ActiveJobSummary)
    → ids (busy_slots i jobs) ≡ numbered (suc i) (length jobs)
unfolding busy_slots numbered
ids-busy_slots i [] = refl
ids-busy_slots i (j ∷ jobs) = ap (◌∷◌ (suc i)) (ids-busy_slots (suc i) jobs)

job_types-busy_slots :
    (i : ℕ) (jobs : List ActiveJobSummary)
    → job_types (busy_slots i jobs) ≡ map (λ j. some j.job_type) jobs
unfolding busy_slots
job_types-busy_slots i [] = refl
job_types-busy_slots i (j ∷ jobs) = ap (◌∷◌ (some j.job_type)) (job_types-busy_slots (suc i) jobs)

seconds-busy_slots :
    (i : ℕ) (jobs : List ActiveJobSummary)
    → seconds (busy_slots i jobs) ≡ map (λ j. round_seconds j.running_for_ms) jobs
unfolding busy_slots
seconds-busy_slots i [] = refl
seconds-busy_slots i (j ∷ jobs) =
    ap (◌∷◌ (round_seconds j.running_for_ms)) (seconds-busy_slots (suc i) jobs)

busy_slots_consistent :
    (i : ℕ) (jobs : List ActiveJobSummary) → all is_consistent (busy_slots i jobs) ≡ true
unfolding busy_slots
busy_slots_consistent i [] = refl
busy_slots_consistent i (j ∷ jobs) = busy_slots_consistent (suc i) jobs

length-busy_slots :
    (i : ℕ) (jobs : List ActiveJobSummary) → length (busy_slots i jobs) ≡ length jobs
unfolding busy_slots
length-busy_slots i [] = refl
length-busy_slots i (j ∷ jobs) = ap suc (length-busy_slots (suc i) jobs)

numbered-last : (a n : ℕ) → numbered a n ++ (a + n) ∷ [] ≡ numbered a (suc n)
unfolding numbered
numbered-last a zero = ap (λ (k : ℕ). k ∷ []) (omega arith)
numbered-last a (suc n) = ap (◌∷◌ a) (
    ap (λ (k : ℕ). numbered (suc a) n ++ k ∷ []) {x = a + suc n} {y = suc a + n} (omega arith)
    ∙ numbered-last (suc a) n)

map-append_one :
    {A B : Type 0} (f : A → B) (xs : List A) (x : A) → map f (xs ++ x ∷ []) ≡ map f xs ++ f x ∷ []
map-append_one f [] x = refl
map-append_one f (y ∷ xs) x = ap (◌∷◌ (f y)) (map-append_one f xs x)

zeros-shift : (xs : List ℤ) (n : ℕ) → (xs ++ pos 0 ∷ []) ++ zeros n ≡ xs ++ zeros (suc n)
zeros-shift [] n = refl
zeros-shift (x ∷ xs) n = ap (◌∷◌ x) (zeros-shift xs n)

nones-shift :
    (xs : List (Option String)) (n : ℕ) → (xs ++ none ∷ []) ++ nones n ≡ xs ++ nones (suc n)
nones-shift [] n = refl
nones-shift (x ∷ xs) n = ap (◌∷◌ x) (nones-shift xs n)

all-append_one :
    (p : WorkerSlot → Bool) (xs : List WorkerSlot) (x : WorkerSlot)
    → all p xs ≡ true
    → p x ≡ true
    → all p (xs ++ x ∷ []) ≡ true
all-append_one p [] x h k = ground arith
all-append_one p (y ∷ xs) x h k = ground (arith, all-append_one p xs x)

abbrev idle : List WorkerSlot → WorkerSlot
idle slots = record {
  id = suc (length slots);
  utilization = 0;
  job_type = none;
  running_for_s = pos 0;
}

push_idle_lem :
    (n : ℕ) (slots : List WorkerSlot)
    → ids slots ≡ numbered 1 (length slots)
    → all is_consistent slots ≡ true
    → (ids (push_idle n slots) ≡ numbered 1 (length slots + n))
      × (job_types (push_idle n slots) ≡ job_types slots ++ nones n)
      × (all is_consistent (push_idle n slots) ≡ true)
      × (seconds (push_idle n slots) ≡ seconds slots ++ zeros n)
unfolding push_idle
push_idle_lem zero slots h k = (
  h ∙ ap (numbered 1) {y = length slots + 0} (omega arith),
  sym (append-nil (job_types slots)),
  k,
  sym (append-nil (seconds slots)),
)
push_idle_lem (suc n) slots h k =
    let more = slots ++ idle slots ∷ [] in
    let longer : length more ≡ suc (length slots) =
      omega (arith, length-append slots (idle slots ∷ [])) in
    let numbers : ids more ≡ numbered 1 (length more) =
      map-append_one (λ s. s.id) slots (idle slots)
      ∙ ap (λ xs. xs ++ suc (length slots) ∷ []) h
      ∙ ap (λ (m : ℕ). numbered 1 (length slots) ++ m ∷ []) {y = 1 + length slots} (omega arith)
      ∙ numbered-last 1 (length slots)
      ∙ ap (numbered 1) (sym longer) in
    let (after, types, rest, times) =
      push_idle_lem n more numbers (all-append_one is_consistent slots (idle slots) k refl) in
    (
      after ∙ ap (numbered 1) (omega arith),
      types
          ∙ ap (λ xs. xs ++ nones n) (map-append_one (λ s. s.job_type) slots (idle slots))
          ∙ nones-shift (job_types slots) n,
      rest,
      times
          ∙ ap (λ xs. xs ++ zeros n) (map-append_one (λ s. s.running_for_s) slots (idle slots))
          ∙ zeros-shift (seconds slots) n,
    )

-- The slots are numbered from 1, one for every worker of the pool, and more only where more jobs
-- run; the first show the jobs in order, wholly used and with their rounded seconds, and the others
-- are idle.
pub worker_slots_lem :
    (total_workers : ℕ) (jobs : List ActiveJobSummary)
    → let slots = worker_slots total_workers jobs in
      (ids slots
        ≡ numbered 1 (if leb total_workers (length jobs) then length jobs else total_workers))
      × (job_types slots ≡ map (λ j. some j.job_type) jobs ++ nones (total_workers - length jobs))
      × (all is_consistent slots ≡ true)
      × (seconds slots
          ≡ map (λ j. round_seconds j.running_for_ms) jobs ++ zeros (total_workers - length jobs))
unfolding worker_slots
worker_slots_lem total_workers jobs =
    let busy = busy_slots 0 jobs in
    let many = length-busy_slots 0 jobs in
    let (numbers, types, rest, times) =
      push_idle_lem (total_workers - length busy) busy
        (ids-busy_slots 0 jobs ∙ ap (numbered 1) (sym many)) (busy_slots_consistent 0 jobs) in
    (
      numbers ∙ ap (numbered 1) (ground (arith, many)),
      types
          ∙ ap (λ xs. xs ++ nones (total_workers - length busy)) (job_types-busy_slots 0 jobs)
          ∙ ap (λ (m : ℕ). map (λ j. some j.job_type) jobs ++ nones (total_workers - m)) many,
      rest,
      times
          ∙ ap (λ xs. xs ++ zeros (total_workers - length busy)) (seconds-busy_slots 0 jobs)
          ∙ ap
              (λ (m : ℕ).
                map (λ j. round_seconds j.running_for_ms) jobs ++ zeros (total_workers - m))
              many,
    )
