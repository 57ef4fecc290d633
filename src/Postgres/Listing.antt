-- ===== src/Postgres/Listing.antt =====
-- `listJobs` of api/src/services/postgres.ts: the WHERE clause with its numbered parameters, and
-- the two statements of the transaction.
pub mod Laws
pub mod Pages
pub mod Clauses
pub mod Alone
use taskfire.Prelude.{
  ℕ, suc, ◌+◌, ◌-◌, ◌*◌, String, Bool, true, false, ◌==◌, ◌&&◌, Option, none, some, List, [], ◌∷◌,
  ◌++◌, map, filter, length, take, drop, all, get_elem?, eqb, if◌then◌else◌,
}
use taskfire.Prelude.Int.{ℤ, pos, negsuc, sub_ℕ}
use taskfire.Async.{Async, resolve, ◌>>=◌}
use taskfire.Job.{Job, JobStatus, priority_value, status_text}
use taskfire.Job.Schema.{ListJobsQuery}
use taskfire.Postgres.Row.{Row, row_to_job}
use taskfire.Postgres.Table.{Statement}
use taskfire.Postgres.Session.{client_query, with_transaction}
use taskfire.World.{World, Env}

-- What a parameter of a statement can be here.
pub data SqlValue : Type 0 where
  text : String → SqlValue
  number : ℕ → SqlValue
  integer : ℤ → SqlValue

pub data Column : Type 0 where
  status priority type : Column

-- `column = $index`
pub record Condition : Type 0 where
  pub column : Column
  pub index : ℕ

-- The loop variables `conditions`, `params` and `idx`.
pub record Where : Type 0 where
  pub conditions : List Condition
  pub params : List SqlValue
  pub idx : ℕ

abbrev pub no_where : Where
no_where = record { conditions = []; params = []; idx = 1 }

-- `conditions.push(…$${idx++}); params.push(value)`
unfoldable pub push : Column → SqlValue → Where → Where
push column value b = record {
  conditions = b.conditions ++ record { column = column; index = b.idx } ∷ [];
  params = b.params ++ value ∷ [];
  idx = suc b.idx;
}

unfoldable pub push_some {ℓ} : {A : Type ℓ} → Column → (A → SqlValue) → Option A → Where → Where
push_some column value none b = b
push_some column value (some a) b = push column (value a) b

unfoldable pub build_where : ListJobsQuery → Where
unfolding push push_some
build_where opts = push_some type text opts.type (
    push_some priority (λ p. number (priority_value p)) opts.priority
      (push_some status (λ s. text (status_text s)) opts.status no_where))

-- `$index`, counted from 1
abbrev pub param : List SqlValue → ℕ → Option SqlValue
param params index = get_elem? params (index - 1)

-- Whether a row's column equals a parameter; types that do not fit are never equal.
unfoldable pub equals : Column → SqlValue → Row → Bool
equals status (text s) r = status_text r.status == s
equals priority (number n) r = eqb r.priority n
equals type (text s) r = r.type == s
equals _ _ r = false

unfoldable pub holds : List SqlValue → Row → Condition → Bool
unfolding equals
holds params r c = elim (param params c.index) [ none ↦ false | some v ↦ equals c.column v r ]

abbrev pub matching : Where → List SqlValue → List Row → List Row
matching b params rows = filter (λ r. all (holds params r) b.conditions) rows

-- `SELECT COUNT(*) AS count FROM jobs WHERE …`
unfoldable pub count_statement : Where → Statement ℕ
unfolding holds
count_statement b now rows = some (length (matching b b.params rows), rows)

-- LIMIT and OFFSET; the database refuses a negative offset, and what is no number.
unfoldable pub cut : Option SqlValue → Option SqlValue → List Row → Option (List Row)
cut (some (number limit)) (some (integer (pos offset))) rows = some (take limit (drop offset rows))
cut _ _ rows = none

module _ {Store : Type 0} (env : Env Store) where
  -- `SELECT * FROM jobs WHERE … ORDER BY created_at DESC LIMIT $idx OFFSET $idx+1`
  unfoldable pub page_statement : Where → ℕ → ℤ → Statement (List Row)
  unfolding holds cut
  page_statement b limit offset now rows =
      let params = b.params ++ number limit ∷ integer offset ∷ [] in
      elim (cut (param params b.idx) (param params (b.idx + 1))
        (env.created_desc (matching b params rows))) [ none ↦ none | some page ↦ some (page, rows) ]

  -- The callback of the transaction.
  unfoldable pub list_body : Where → ℕ → ℤ → Async (World Store) (List Job × ℕ)
  list_body b limit offset = do
    total ← client_query env (count_statement b)
    rows ← client_query env (page_statement b limit offset)
    resolve (map row_to_job rows, total)

  -- `listJobs`, also exported as `getJobs`. The offset `(page - 1) * limit` is an integer.
  unfoldable pub list_jobs : ListJobsQuery → Async (World Store) (List Job × ℕ)
  unfolding build_where
  list_jobs opts =
      with_transaction env
        (list_body (build_where opts) opts.limit (sub_ℕ (opts.page * opts.limit) opts.limit))
