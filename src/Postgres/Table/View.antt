-- ===== src/Postgres/Table/View.antt =====
-- The table as a map from ids to rows: what the statements with `WHERE id = $1` do to it.
use taskfire.Prelude.{
  ℕ, String, Bool, true, false, ◌&&◌, ◌==◌, ◌≡◌, refl, Option, none, some, List, [], ◌∷◌, map,
  filter, all, arith, if◌then◌else◌, eq_iff,
}
use taskfire.Postgres.Row.{Row}
use taskfire.Postgres.Table.{has_id, checks, touch, replace_where, update_statement}
use taskfire.Postgres.Table.Laws.{IsTable, SameId}

-- The row of an id, if there is one.
unfoldable pub lookup : String → List Row → Option Row
lookup id [] = none
lookup id (r ∷ rows) = if r.id == id then some r else lookup id rows

-- The rows that a WHERE clause on the id and on `q` finds.
abbrev pub found : (Row → Bool) → Option Row → List Row
found q none = []
found q (some r) = if q r then r ∷ [] else []

-- What an UPDATE by `f` leaves in the place of a row.
abbrev pub updated : (Row → Bool) → (Row → Row) → Option Row → Option Row
updated q f none = none
updated q f (some r) = some (if q r then f r else r)

pub lookup-has_id : (id : String) (rows : List Row) → has_id id rows ≡ false → lookup id rows ≡ none
unfolding lookup has_id
lookup-has_id id [] h = refl
lookup-has_id id (r ∷ rows) h = ground (arith, lookup-has_id id rows)

module _ (q : Row → Bool) (id : String) where
  filter-absent :
      (rows : List Row) → has_id id rows ≡ false → filter (λ r. r.id == id && q r) rows ≡ []
  unfolding has_id
  filter-absent [] h = refl
  filter-absent (r ∷ rows) h = ground (arith, filter-absent rows)

  pub filter-lookup :
      (rows : List Row)
      → IsTable rows
      → filter (λ r. r.id == id && q r) rows ≡ found q (lookup id rows)
  unfolding lookup
  filter-lookup [] t = refl
  filter-lookup (r ∷ rows) t =
      ground (arith, filter-lookup rows t.2, eq_iff r.id id, filter-absent rows)

  pub lookup-replace :
      (f : Row → Row)
      → SameId f
      → (j : String) (rows : List Row)
      → lookup j (replace_where (λ r. r.id == id && q r) f rows)
        ≡ (if id == j then updated q f (lookup j rows) else lookup j rows)
  unfolding lookup
  lookup-replace f same j [] = ground arith
  lookup-replace f same j (r ∷ rows) =
      ground
        (arith, lookup-replace f same j rows, same r, eq_iff r.id id, eq_iff r.id j, eq_iff id j)

pub lookup-checks :
    (id : String) (rows : List Row) (r : Row)
    → IsTable rows
    → lookup id rows ≡ some r
    → checks r ≡ true
unfolding lookup
lookup-checks id [] r t e = cc
lookup-checks id (s ∷ rows) r t e = ground (arith, lookup-checks id rows r t.2)

module _ (q : Row → Bool) (id : String) (f : ℕ → Row → Row) where
  all-checks-found :
      (now : ℕ) (o : Option Row)
      → ((r : Row) → o ≡ some r → checks (f now r) ≡ true)
      → all checks (map (λ r. touch now (f now r)) (found q o)) ≡ true
  unfolding checks
  all-checks-found now none h = refl
  all-checks-found now (some r) h = ground (arith, h r refl)

  -- An UPDATE by id gives back the row that it found, and touches no other.
  pub update_by_id :
      (keeps : (now : ℕ) (r : Row) → checks r ≡ true → checks (f now r) ≡ true) (now : ℕ)
      (rows : List Row)
      → IsTable rows
      → update_statement (λ r. r.id == id && q r) f now rows
        ≡ some (
          map (λ r. touch now (f now r)) (found q (lookup id rows)),
          replace_where (λ r. r.id == id && q r) (λ r. touch now (f now r)) rows,
        )
  unfolding update_statement
  update_by_id keeps now rows t =
      rw
        (
          filter-lookup q id rows t,
          all-checks-found now (lookup id rows) (λ r e. keeps now r (lookup-checks id rows r t e)),
        )
        refl
