-- ===== src/Job/Laws.antt =====
-- Priorities as labels and as numbers.
use taskfire.Prelude.{ℕ, ◌≤◌, ◌≡◌, refl, some, arith}
use taskfire.Job.{
  JobPriority, high, medium, low, priority_value, priority_label_table, priority_label,
}

-- A label survives the way to its number and back, by the thresholds and by the table alike.
pub priority_label-value :
    (p : JobPriority)
    → (priority_label (priority_value p) ≡ p) × (priority_label_table (priority_value p) ≡ some p)
unfolding priority_label priority_value priority_label_table
priority_label-value high = (refl, refl)
priority_label-value medium = (refl, refl)
priority_label-value low = (refl, refl)

-- A label's number never passes the number that it was given for, unless that is below every lane.
pub priority_value-label : (n : ℕ) → 100 ≤ n → priority_value (priority_label n) ≤ n
unfolding priority_label priority_value
priority_value-label n h = ground arith
