-- ===== src/Postgres/Average.antt =====
-- `getAvgProcessingMs` of api/src/services/postgres.ts. The average is in hundredths of a
-- millisecond; PostgreSQL's ROUND takes a half away from zero.
pub mod Laws
use taskfire.Prelude.{
  ℕ, suc, ◌+◌, ◌*◌, ◌/◌, Bool, true, false, Option, none, some, List, [], ◌∷◌, length, eqb,
  if◌then◌else◌,
}
use taskfire.Prelude.Int.{ℤ, pos, negsuc, sub_ℕ}
use taskfire.Async.{Async, resolve, ◌>>=◌}
use taskfire.Job.{JobStatus, completed}
use taskfire.Postgres.Row.{Row}
use taskfire.Postgres.Session.{query}
use taskfire.World.{World, Env}

unfoldable pub is_completed : JobStatus → Bool
is_completed completed = true
is_completed _ = false

-- `status = 'completed' AND started_at IS NOT NULL AND completed_at IS NOT NULL`: its start and its
-- end.
unfoldable pub run_of : Row → Option (ℕ × ℕ)
unfolding is_completed
run_of r =
    if is_completed r.status
    then elim r.started_at [
      | none ↦ none
      | some started ↦ elim r.completed_at [ none ↦ none | some done ↦ some (started, done) ]
    ]
    else none

unfoldable pub runs : List Row → List (ℕ × ℕ)
unfolding run_of
runs [] = []
runs (r ∷ rows) = let rest = runs rows in elim (run_of r) [ none ↦ rest | some run ↦ run ∷ rest ]

abbrev pub starts : List (ℕ × ℕ) → ℕ
starts [] = 0
starts ((started, done) ∷ rs) = started + starts rs

abbrev pub ends : List (ℕ × ℕ) → ℕ
ends [] = 0
ends ((started, done) ∷ rs) = done + ends rs

-- `ROUND` of a quotient, for a divisor of at least 1
unfoldable pub round_quotient : ℤ → ℕ → ℤ
round_quotient (pos s) n = pos ((s * 2 + n) / (n * 2))
round_quotient (negsuc m) n = sub_ℕ 0 ((suc m * 2 + n) / (n * 2))

-- `SELECT ROUND(AVG(…) * 1000 …, 2)`: the average of the differences is the one of their sum; of no
-- row it is null.
unfoldable pub avg_ms : List Row → Option ℤ
unfolding round_quotient runs
avg_ms rows =
    let rs = runs rows in
    if eqb (length rs) 0
    then none
    else some (round_quotient (sub_ℕ (ends rs * 100) (starts rs * 100)) (length rs))

-- `rows[0]?.avg_ms`
unfoldable pub first_value : List (Option ℤ) → Option ℤ
first_value [] = none
first_value (v ∷ vs) = v

module _ {Store : Type 0} (env : Env Store) where
  -- `getAvgProcessingMs`
  unfoldable pub get_avg_processing_ms : Async (World Store) (Option ℤ)
  unfolding avg_ms first_value
  get_avg_processing_ms = do
    rows ← query env (λ now rows. some (avg_ms rows ∷ [], rows))
    resolve (first_value rows)
