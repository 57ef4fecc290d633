-- ===== src/Routes/Metrics/Minutes.antt =====
-- The counts of GET /throughput are those of the table: the groups of its statement, and the
-- series.
use taskfire.Prelude.{
  ℕ, ◌+◌, ◌≤◌, ◌<◌, ◌≡◌, refl, ◌∙◌, true, false, Option, none, some, List, [], ◌∷◌, all, ltb, eqb,
  if◌then◌else◌, arith, Bool-cases, Option-cases, inl, inr, &&-eq-true, ◌&&◌,
}
use taskfire.Job.{JobStatus}
use taskfire.Postgres.Row.{Row}
use taskfire.Routes.Metrics.{by_minute}
use taskfire.Postgres.Throughput.{
  ThroughputRow, minute_of, new_group, join_group, group_row, throughput_rows,
}

abbrev IsAfter : ℕ → List ThroughputRow → Type 0
IsAfter m gs = all (λ g. ltb m g.time) gs ≡ true

abbrev IsAscending : List ThroughputRow → Type 0
IsAscending [] = Unit {0}
IsAscending (g ∷ gs) = IsAfter g.time gs × IsAscending gs

by_minute-other :
    (g : ThroughputRow) (gs : List ThroughputRow) (k : ℕ)
    → eqb g.time k ≡ false
    → by_minute (g ∷ gs) k ≡ by_minute gs k
unfolding by_minute
by_minute-other g gs k h = elim (Option-cases (by_minute gs k)) [
  | inl absent ↦ rw (absent, by_minute, h) refl
  | inr (f, there) ↦ rw (there, by_minute) refl
]

by_minute-head :
    (g : ThroughputRow) (gs : List ThroughputRow) (k : ℕ)
    → by_minute gs k ≡ none
    → eqb g.time k ≡ true
    → by_minute (g ∷ gs) k ≡ some g
unfolding by_minute
by_minute-head g gs k absent h = rw (absent, by_minute, h) refl

by_minute-IsAfter :
    (m k : ℕ) (gs : List ThroughputRow) → IsAfter m gs → k ≤ m → by_minute gs k ≡ none
unfolding by_minute
by_minute-IsAfter m k [] h le = refl
by_minute-IsAfter m k (g ∷ gs) h le =
    let (first, others) = &&-eq-true (ltb m g.time) (all (λ x. ltb m x.time) gs) h in
    by_minute-other g gs k (ground arith) ∙ by_minute-IsAfter m k gs others le

IsAfter-mono : (m n : ℕ) (gs : List ThroughputRow) → m ≤ n → IsAfter n gs → IsAfter m gs
IsAfter-mono m n [] le h = refl
IsAfter-mono m n (g ∷ gs) le h = ground (arith, IsAfter-mono m n gs le)

group_row-IsAfter :
    (k m : ℕ) (s : JobStatus) (gs : List ThroughputRow)
    → k < m
    → IsAfter k gs
    → IsAfter k (group_row m s gs)
unfolding group_row
group_row-IsAfter k m s [] lt h = ground arith
group_row-IsAfter k m s (g ∷ gs) lt h = ground (arith, group_row-IsAfter k m s gs lt)

group_row-IsAscending :
    (m : ℕ) (s : JobStatus) (gs : List ThroughputRow)
    → IsAscending gs
    → IsAscending (group_row m s gs)
unfolding group_row
group_row-IsAscending m s [] h = (refl, tt)
group_row-IsAscending m s (g ∷ gs) (after, rest) = elim (Bool-cases (ltb m g.time)) [
  | inl before ↦
      rw before (ground (arith, IsAfter-mono m g.time gs (ground arith) after), (after, rest))
  | inr not_before ↦ elim (Bool-cases (eqb m g.time)) [
    | inl same ↦ rw (not_before, same) (after, rest)
    | inr later ↦
        rw (not_before, later)
          (group_row-IsAfter g.time m s gs (ground arith) after, group_row-IsAscending m s gs rest)
  ]
]

-- One of the two counts.
abbrev pub read : (ThroughputRow → ℕ) → Option ThroughputRow → ℕ
read f none = 0
read f (some g) = f g

module _ (f : ThroughputRow → ℕ) (amount : JobStatus → ℕ)
    (f_new : (m : ℕ) (s : JobStatus) → f (new_group m s) ≡ amount s)
    (f_join : (s : JobStatus) (g : ThroughputRow) → f (join_group s g) ≡ f g + amount s) where
  group_row-read :
      (m k : ℕ) (s : JobStatus) (gs : List ThroughputRow)
      → IsAscending gs
      → read f (by_minute (group_row m s gs) k)
        ≡ read f (by_minute gs k) + (if eqb m k then amount s else 0)
  unfolding group_row by_minute
  group_row-read m k s [] h = elim (Bool-cases (eqb m k)) [
    | inl here ↦ rw (by_minute-head (new_group m s) [] k refl here, here) (omega (arith, f_new m s))
    | inr elsewhere ↦ rw (by_minute-other (new_group m s) [] k elsewhere, elsewhere) refl
  ]
  group_row-read m k s (g ∷ gs) (after, rest) = elim (Bool-cases (ltb m g.time)) [
    | inl before ↦ elim (Bool-cases (eqb m k)) [
      | inl here ↦
          let behind : IsAfter k (g ∷ gs) =
            ground (arith, IsAfter-mono k g.time gs (ground arith) after) in
          let absent = by_minute-IsAfter k k (g ∷ gs) behind (omega arith) in
          rw (before, by_minute-head (new_group m s) (g ∷ gs) k absent here, absent, here)
            (omega (arith, f_new m s))
      | inr elsewhere ↦
          rw (before, by_minute-other (new_group m s) (g ∷ gs) k elsewhere, elsewhere) (omega arith)
    ]
    | inr not_before ↦ elim (Bool-cases (eqb m g.time)) [
      | inl same ↦ elim (Bool-cases (eqb m k)) [
        | inl here ↦
            let absent = by_minute-IsAfter g.time k gs after (ground arith) in
            let found : eqb g.time k ≡ true = ground arith in
            rw
              (
                not_before,
                same,
                by_minute-head (join_group s g) gs k absent found,
                by_minute-head g gs k absent found,
                here,
              )
              (f_join s g)
        | inr elsewhere ↦
            let other : eqb g.time k ≡ false = ground arith in
            rw
              (
                not_before,
                same,
                by_minute-other (join_group s g) gs k other,
                by_minute-other g gs k other,
                elsewhere,
              )
              (omega arith)
      ]
      | inr later ↦ elim (Bool-cases (eqb g.time k)) [
        | inl here ↦
            let absent = by_minute-IsAfter g.time k gs after (ground arith) in
            let joined = group_row-IsAfter g.time m s gs (ground arith) after in
            let absent' = by_minute-IsAfter g.time k (group_row m s gs) joined (ground arith) in
            let elsewhere : eqb m k ≡ false = ground arith in
            rw
              (
                not_before,
                later,
                by_minute-head g (group_row m s gs) k absent' here,
                by_minute-head g gs k absent here,
                elsewhere,
              )
              (omega arith)
        | inr elsewhere ↦
            rw
              (
                not_before,
                later,
                by_minute-other g (group_row m s gs) k elsewhere,
                by_minute-other g gs k elsewhere,
              )
              (group_row-read m k s gs rest)
      ]
    ]
  ]

-- What a row counts for a minute, at a time of the database: only a row with a completion date in
-- that minute, less than an hour ago.
abbrev pub counts_for : (JobStatus → ℕ) → ℕ → ℕ → Row → ℕ
counts_for amount now k r = elim r.completed_at [
  | none ↦ 0
  | some t ↦ if ltb now (t + 3600000) && eqb (minute_of t) k then amount r.status else 0
]

abbrev pub sum_rows : (Row → ℕ) → List Row → ℕ
sum_rows f [] = 0
sum_rows f (r ∷ rs) = sum_rows f rs + f r

throughput_rows-IsAscending : (now : ℕ) (rows : List Row) → IsAscending (throughput_rows now rows)
unfolding throughput_rows
throughput_rows-IsAscending now [] = tt
throughput_rows-IsAscending now (r ∷ rs) = elim (Option-cases r.completed_at) [
  | inl absent ↦ rw (absent, throughput_rows) (throughput_rows-IsAscending now rs)
  | inr (t, there) ↦ elim (Bool-cases (ltb now (t + 3600000))) [
    | inl recent ↦
        rw (there, throughput_rows, recent)
          (group_row-IsAscending (minute_of t) r.status (throughput_rows now rs)
            (throughput_rows-IsAscending now rs))
    | inr old ↦ rw (there, throughput_rows, old) (throughput_rows-IsAscending now rs)
  ]
]

module _ (f : ThroughputRow → ℕ) (amount : JobStatus → ℕ)
    (f_new : (m : ℕ) (s : JobStatus) → f (new_group m s) ≡ amount s)
    (f_join : (s : JobStatus) (g : ThroughputRow) → f (join_group s g) ≡ f g + amount s) where
  pub throughput_rows-read :
      (now k : ℕ) (rows : List Row)
      → read f (by_minute (throughput_rows now rows) k) ≡ sum_rows (counts_for amount now k) rows
  unfolding throughput_rows by_minute
  throughput_rows-read now k [] = refl
  throughput_rows-read now k (r ∷ rs) = elim (Option-cases r.completed_at) [
    | inl absent ↦ rw (absent, throughput_rows) (omega (arith, throughput_rows-read now k rs))
    | inr (t, there) ↦ elim (Bool-cases (ltb now (t + 3600000))) [
      | inl recent ↦
          rw (there, throughput_rows, recent)
            (group_row-read f amount f_new f_join (minute_of t) k r.status (throughput_rows now rs)
                (throughput_rows-IsAscending now rs)
              ∙ omega (arith, throughput_rows-read now k rs))
      | inr old ↦ rw (there, throughput_rows, old) (omega (arith, throughput_rows-read now k rs))
    ]
  ]
