-- ===== src/Postgres/Table/Laws.antt =====
-- What the statements keep of the table, and what they do to one row.
use taskfire.Prelude.{
  ℕ, String, Bool, true, false, ◌||◌, ◌==◌, ◌≡◌, refl, some, List, [], ◌∷◌, ◌++◌, map, filter, all,
  arith, eq_iff,
}
use taskfire.Postgres.Row.{Row}
use taskfire.Postgres.Table.{
  Statement, has_id, checks, CreateJobParams, new_row, insert_statement, select_by_id, touch,
  replace_where, update_statement, set_cancelled, where_cancellable, cancel_statement, set_requeued,
  where_retriable, requeue_statement,
}

-- The primary key and the CHECK hold of every row.
abbrev pub IsTable : List Row → Type 0
IsTable [] = Unit {0}
IsTable (r ∷ rows) = (has_id r.id rows ≡ false) × (checks r ≡ true) × IsTable rows

-- A statement keeps `J` wherever the database accepts it.
pub record KeepsRows {A : Type 0} (J : List Row → Type 0) (stmt : Statement A) : Type 0 where
  pub accepted :
      (now : ℕ) (rows : List Row) (a : A) (rows' : List Row)
      → stmt now rows ≡ some (a, rows')
      → J rows
      → J rows'

-- The statements of the service keep `J`.
pub record KeptByStatements (J : List Row → Type 0) : Type 0 where
  pub inserts : (params : CreateJobParams) → KeepsRows J (insert_statement params)
  pub selects : (id : String) → KeepsRows J (select_by_id id)
  pub cancels : (id : String) → KeepsRows J (cancel_statement id)
  pub requeues : (id : String) (reset : Bool) → KeepsRows J (requeue_statement id reset)

abbrev pub KeepsTable : {A : Type 0} → Statement A → Type 0
KeepsTable stmt = KeepsRows IsTable stmt

has_id-append :
    (id : String) (rows : List Row) (r : Row)
    → has_id id (rows ++ r ∷ []) ≡ (has_id id rows || r.id == id)
unfolding has_id
has_id-append id [] r = ground arith
has_id-append id (s ∷ rows) r = ground (arith, has_id-append id rows r)

append-IsTable :
    (rows : List Row) (r : Row)
    → IsTable rows
    → has_id r.id rows ≡ false
    → checks r ≡ true
    → IsTable (rows ++ r ∷ [])
unfolding has_id
append-IsTable [] r t fresh ok = ground arith
append-IsTable (s ∷ rows) r t fresh ok = ground (
  arith,
  append-IsTable rows r t.2,
  has_id-append s.id rows r,
  eq_iff s.id r.id,
  eq_iff r.id s.id,
)

insert-KeepsTable : (params : CreateJobParams) → KeepsTable (insert_statement params)
unfolding insert_statement
insert-KeepsTable params = record {
  accepted = λ now rows a rows' e t. ground (arith, append-IsTable rows (new_row params now) t);
}

select-KeepsTable : (id : String) → KeepsTable (select_by_id id)
unfolding select_by_id
select-KeepsTable id = record { accepted = λ now rows a rows' e t. ground arith }

-- An assignment that leaves the primary key alone.
abbrev pub SameId : (Row → Row) → Type 0
SameId f = (r : Row) → (f r).id ≡ r.id

module _ (p : Row → Bool) (f : Row → Row) (same : SameId f) where
  has_id-replace :
      (id : String) (rows : List Row) → has_id id (replace_where p f rows) ≡ has_id id rows
  unfolding has_id
  has_id-replace id [] = refl
  has_id-replace id (r ∷ rows) = ground (arith, has_id-replace id rows, same r)

  replace-IsTable :
      (rows : List Row)
      → IsTable rows
      → all checks (map f (filter p rows)) ≡ true
      → IsTable (replace_where p f rows)
  replace-IsTable [] t c = tt
  replace-IsTable (r ∷ rows) t c =
      ground (arith, replace-IsTable rows t.2, has_id-replace r.id rows, same r)

module _ (p : Row → Bool) (f : ℕ → Row → Row) (same : (now : ℕ) → SameId (f now)) where
  update-KeepsTable : KeepsTable (update_statement p f)
  unfolding update_statement
  update-KeepsTable = record {
    accepted = λ now rows a rows' e t.
        ground (arith, replace-IsTable p (λ r. touch now (f now r)) (λ r. same now r) rows t);
  }

cancel-KeepsTable : (id : String) → KeepsTable (cancel_statement id)
unfolding cancel_statement
cancel-KeepsTable id = update-KeepsTable (where_cancellable id) set_cancelled (λ now r. refl)

requeue-KeepsTable : (id : String) (reset : Bool) → KeepsTable (requeue_statement id reset)
unfolding requeue_statement
requeue-KeepsTable id reset =
    update-KeepsTable (where_retriable id) (set_requeued reset) (λ now r. refl)

pub IsTable-KeptByStatements : KeptByStatements IsTable
IsTable-KeptByStatements = record {
  inserts = insert-KeepsTable;
  selects = select-KeepsTable;
  cancels = cancel-KeepsTable;
  requeues = requeue-KeepsTable;
}
