-- ===== src/Postgres/Active.antt =====
-- `getActiveJobs` of api/src/services/postgres.ts. Rows with one start stand in the order of the
-- table; nothing below depends on it.
use taskfire.Prelude.{
  ℕ, suc, ◌+◌, ◌==◌, String, Bool, true, false, ◌≡◌, refl, Option, none, some, List, [], ◌∷◌,
  length, leb, if◌then◌else◌, arith, Bool-cases, inl, inr,
}
use taskfire.Async.{Async}
use taskfire.Job.{active, status_text}
use taskfire.Postgres.Row.{Row}
use taskfire.Postgres.Metrics.{count_of}
use taskfire.Postgres.Session.{query}
use taskfire.World.{World, Env}

-- `ActiveJobRow`. The column of the start is nullable.
pub record ActiveJobRow : Type 0 where
  pub id : String
  pub type : String
  pub started_at : Option ℕ

-- The ascending order of a nullable column has its nulls last.
unfoldable pub not_after : Option ℕ → Option ℕ → Bool
not_after (some t) (some u) = leb t u
not_after (some t) none = true
not_after none (some u) = false
not_after none none = true

unfoldable pub insert_active : ActiveJobRow → List ActiveJobRow → List ActiveJobRow
unfolding not_after
insert_active r [] = r ∷ []
insert_active r (s ∷ ss) =
    let rest = insert_active r ss in
    if not_after r.started_at s.started_at then r ∷ s ∷ ss else s ∷ rest

abbrev pub selected : Row → ActiveJobRow
selected r = record { id = r.id; type = r.type; started_at = r.started_at }

-- `SELECT id, type, started_at FROM jobs WHERE status = 'active' ORDER BY started_at`
unfoldable pub active_rows : List Row → List ActiveJobRow
unfolding insert_active status_text
active_rows [] = []
active_rows (r ∷ rs) =
    let rest = active_rows rs in
    if status_text r.status == status_text active then insert_active (selected r) rest else rest

-- `getActiveJobs`
unfoldable pub get_active_jobs :
    {Store : Type 0} → Env Store → Async (World Store) (List ActiveJobRow)
unfolding active_rows
get_active_jobs env = query env (λ now rows. some (active_rows rows, rows))

length-insert_active :
    (r : ActiveJobRow) (ss : List ActiveJobRow) → length (insert_active r ss) ≡ suc (length ss)
unfolding insert_active
length-insert_active r [] = refl
length-insert_active r (s ∷ ss) = ground (arith, length-insert_active r ss)

pub length-active_rows : (rows : List Row) → length (active_rows rows) ≡ count_of active rows
unfolding active_rows
length-active_rows [] = refl
length-active_rows (r ∷ rs) =
    ground (arith, length-active_rows rs, length-insert_active (selected r) (active_rows rs))

-- No start in a list is before a given one.
abbrev pub NoneBefore : Option ℕ → List ActiveJobRow → Type 0
NoneBefore t [] = Unit {0}
NoneBefore t (s ∷ ss) = (not_after t s.started_at ≡ true) × NoneBefore t ss

abbrev pub IsOldestFirst : List ActiveJobRow → Type 0
IsOldestFirst [] = Unit {0}
IsOldestFirst (s ∷ ss) = NoneBefore s.started_at ss × IsOldestFirst ss

not_after_trans :
    (t u v : Option ℕ) → not_after t u ≡ true → not_after u v ≡ true → not_after t v ≡ true
unfolding not_after
not_after_trans (some t) (some u) (some v) h k = ground arith
not_after_trans (some t) (some u) none h k = refl
not_after_trans (some t) none (some v) h k = absurd (ground arith)
not_after_trans (some t) none none h k = refl
not_after_trans none (some u) v h k = absurd (ground arith)
not_after_trans none none v h k = k

not_after_total : (t u : Option ℕ) → not_after t u ≡ false → not_after u t ≡ true
unfolding not_after
not_after_total (some t) (some u) h = ground arith
not_after_total (some t) none h = absurd (ground arith)
not_after_total none (some u) h = refl
not_after_total none none h = absurd (ground arith)

earlier-NoneBefore :
    (t u : Option ℕ) (ss : List ActiveJobRow)
    → not_after t u ≡ true
    → NoneBefore u ss
    → NoneBefore t ss
earlier-NoneBefore t u [] h n = tt
earlier-NoneBefore t u (s ∷ ss) h n =
    (not_after_trans t u s.started_at h n.0, earlier-NoneBefore t u ss h n.1)

insert-NoneBefore :
    (t : Option ℕ) (r : ActiveJobRow) (ss : List ActiveJobRow)
    → not_after t r.started_at ≡ true
    → NoneBefore t ss
    → NoneBefore t (insert_active r ss)
unfolding insert_active
insert-NoneBefore t r [] h n = (h, tt)
insert-NoneBefore t r (s ∷ ss) h n = elim (Bool-cases (not_after r.started_at s.started_at)) [
  | inl first ↦ rw first (h, n)
  | inr later ↦ rw later (n.0, insert-NoneBefore t r ss h n.1)
]

insert-IsOldestFirst :
    (r : ActiveJobRow) (ss : List ActiveJobRow)
    → IsOldestFirst ss
    → IsOldestFirst (insert_active r ss)
unfolding insert_active
insert-IsOldestFirst r [] o = (tt, tt)
insert-IsOldestFirst r (s ∷ ss) o = elim (Bool-cases (not_after r.started_at s.started_at)) [
  | inl first ↦ rw first ((first, earlier-NoneBefore r.started_at s.started_at ss first o.0), o)
  | inr later ↦ rw later (
    insert-NoneBefore s.started_at r ss (not_after_total r.started_at s.started_at later) o.0,
    insert-IsOldestFirst r ss o.1,
  )
]

pub active_rows-IsOldestFirst : (rows : List Row) → IsOldestFirst (active_rows rows)
unfolding active_rows
active_rows-IsOldestFirst [] = tt
active_rows-IsOldestFirst (r ∷ rs) =
    elim (Bool-cases (status_text r.status == status_text active)) [
      | inl chosen ↦
          rw chosen
            (insert-IsOldestFirst (selected r) (active_rows rs) (active_rows-IsOldestFirst rs))
      | inr other ↦ rw other (active_rows-IsOldestFirst rs)
    ]

-- A sum over the rows does not depend on their order.
abbrev pub total : (ActiveJobRow → ℕ) → List ActiveJobRow → ℕ
total f [] = 0
total f (s ∷ ss) = f s + total f ss

total-insert_active :
    (f : ActiveJobRow → ℕ) (r : ActiveJobRow) (ss : List ActiveJobRow)
    → total f (insert_active r ss) ≡ f r + total f ss
unfolding insert_active
total-insert_active f r [] = refl
total-insert_active f r (s ∷ ss) = ground (arith, total-insert_active f r ss)

-- The sum over the rows of a table that are active.
abbrev pub total_active : (ActiveJobRow → ℕ) → List Row → ℕ
total_active f [] = 0
total_active f (r ∷ rs) =
    (if status_text r.status == "active"
      then f (record { id = r.id; type = r.type; started_at = r.started_at })
      else 0)
    + total_active f rs

pub total-active_rows :
    (f : ActiveJobRow → ℕ) (rows : List Row) → total f (active_rows rows) ≡ total_active f rows
unfolding active_rows status_text
total-active_rows f [] = refl
total-active_rows f (r ∷ rs) = elim (Bool-cases (status_text r.status == "active")) [
  | inl chosen ↦
      rw (chosen, total-insert_active f (selected r) (active_rows rs), total-active_rows f rs) refl
  | inr other ↦ rw (other, total-active_rows f rs) (omega arith)
]
