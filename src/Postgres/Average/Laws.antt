-- ===== src/Postgres/Average/Laws.antt =====
-- The average of `getAvgProcessingMs` of api/src/services/postgres.ts as the mean of the table's
-- rows.
use taskfire.Prelude.{
  ℕ, zero, suc, ◌+◌, ◌-◌, ◌*◌, ◌/◌, ◌≤◌, ◌<◌, ◌≡◌, ◌==◌, refl, false, Option, none, some, List, [],
  ◌∷◌, length, eqb, leb, if◌then◌else◌, inl, inr, Bool-cases, Option-cases, arith,
}
use taskfire.Prelude.Int.{ℤ, pos, negsuc, sub_ℕ}
use taskfire.Job.{JobStatus, pending, active, completed, failed, dead, status_text}
use taskfire.Postgres.Row.{Row}
use taskfire.Postgres.Average.{is_completed, run_of, runs, starts, ends, round_quotient, avg_ms}
use native.Mathlib.Nat.{mul-div-le, lt-mul-div-succ}

-- What a completed row that has both dates adds to a sum, by its start and its end.
abbrev ran : (ℕ → ℕ → ℕ) → Row → ℕ
ran f r =
    if status_text r.status == "completed"
    then elim r.started_at [
      | none ↦ 0
      | some started ↦ elim r.completed_at [ none ↦ 0 | some done ↦ f started done ]
    ]
    else 0

abbrev pub total_of : (ℕ → ℕ → ℕ) → List Row → ℕ
total_of f [] = 0
total_of f (r ∷ rows) = ran f r + total_of f rows

-- Whether a number of hundredths is the mean of `n` differences whose ends sum up to `e` and whose
-- starts sum up to `s`, rounded to the nearest, a half away from zero. No difference has no mean.
abbrev pub IsMean : (n s e : ℕ) → Option ℤ → Type 0
IsMean n s e none = n ≡ 0
IsMean n s e (some (pos q)) =
    (0 < n) × (n * 2 * q + 200 * s ≤ 200 * e + n) × (200 * e < 200 * s + n * 2 * q + n)
IsMean n s e (some (negsuc k)) =
    (0 < n) × (n * 2 * suc k + 200 * e ≤ 200 * s + n) × (200 * s < 200 * e + n * 2 * suc k + n)

completed_iff : (s : JobStatus) → is_completed s ≡ (status_text s == "completed")
unfolding is_completed status_text
completed_iff completed = refl
completed_iff pending = refl
completed_iff active = refl
completed_iff failed = refl
completed_iff dead = refl

total_of-runs :
    (rows : List Row)
    → (length (runs rows) ≡ total_of (λ s e. 1) rows)
      × (starts (runs rows) ≡ total_of (λ s e. s) rows)
      × (ends (runs rows) ≡ total_of (λ s e. e) rows)
unfolding runs run_of
total_of-runs [] = (refl, refl, refl)
total_of-runs (r ∷ rows) =
    let (n, s, e) = total_of-runs rows in
    elim (Bool-cases (status_text r.status == "completed")) [
      | inr other ↦
          rw (runs, run_of, completed_iff r.status, other) (omega arith, omega arith, omega arith)
      | inl done ↦ elim (Option-cases r.started_at) [
        | inl absent ↦
            rw (runs, run_of, completed_iff r.status, done, absent)
              (omega arith, omega arith, omega arith)
        | inr (a, started) ↦ elim (Option-cases r.completed_at) [
          | inl absent ↦
              rw (runs, run_of, completed_iff r.status, done, started, absent)
                (omega arith, omega arith, omega arith)
          | inr (b, ended) ↦
              rw (runs, run_of, completed_iff r.status, done, started, ended)
                (omega arith, omega arith, omega arith)
        ]
      ]
    ]

quotient-bounds :
    (n x : ℕ)
    → 0 < n
    → (n * 2 * ((x * 2 + n) / (n * 2)) ≤ x * 2 + n) × (x * 2 < n * 2 * ((x * 2 + n) / (n * 2)) + n)
quotient-bounds n x h =
    let q = (x * 2 + n) / (n * 2) in
    let above = mul-div-le (x * 2 + n) (n * 2) in
    let below = lt-mul-div-succ (x * 2 + n) {b = n * 2} (omega arith) in (above, omega arith)

below_zero-IsMean :
    (n s e k : ℕ)
    → 0 < n
    → e < s
    → n * 2 * k + 200 * e ≤ 200 * s + n
    → 200 * s < 200 * e + n * 2 * k + n
    → IsMean n s e (some (sub_ℕ 0 k))
below_zero-IsMean n s e zero h less above below = (h, omega arith, omega arith)
below_zero-IsMean n s e (suc k) h less above below =
    let negative : leb (suc k) 0 ≡ false = ground arith in
    let same : suc k - 0 - 1 ≡ k = omega arith in rw (negative, same) (h, above, below)

-- A rounded difference of two sums is their mean.
round_quotient-IsMean :
    (n s e : ℕ) → 0 < n → IsMean n s e (some (round_quotient (sub_ℕ (e * 100) (s * 100)) n))
unfolding round_quotient
round_quotient-IsMean n s e h = elim (Bool-cases (leb (s * 100) (e * 100))) [
  | inl later ↦
      let (above, below) = quotient-bounds n (e * 100 - s * 100) h in
      let ordered : s * 100 ≤ e * 100 = ground arith in rw later (h, omega arith, omega arith)
  | inr earlier ↦
      let ordered : e * 100 < s * 100 = ground arith in
      let m = s * 100 - e * 100 - 1 in
      let (above, below) = quotient-bounds n (suc m) h in
      rw earlier (
        below_zero-IsMean n s e ((suc m * 2 + n) / (n * 2)) h (omega arith) (omega arith)
          (omega arith))
]

-- The average of the table is the mean of the runs of its completed rows.
pub avg_ms-IsMean :
    (rows : List Row)
    → IsMean
        (total_of (λ s e. 1) rows)
        (total_of (λ s e. s) rows)
        (total_of (λ s e. e) rows)
        (avg_ms rows)
unfolding avg_ms
avg_ms-IsMean rows =
    let (n, s, e) = total_of-runs rows in
    rw (← n, ← s, ← e)
      (elim (Bool-cases (eqb (length (runs rows)) 0)) [
        | inl empty ↦ rw (empty, avg_ms) (ground arith)
        | inr some_run ↦
            rw (some_run, avg_ms)
              (round_quotient-IsMean (length (runs rows)) (starts (runs rows)) (ends (runs rows))
                (ground arith))
      ])
