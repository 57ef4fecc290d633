-- ===== src/Postgres/Listing/Clauses.antt =====
-- The WHERE clause that `listJobs` builds, and the pages that LIMIT and OFFSET cut out.
use Prim.Native.Nat.mul
use taskfire.Prelude.{
  zero, ℕ, suc, ◌+◌, ◌-◌, ◌*◌, ◌≤◌, String, Bool, true, ◌==◌, ◌≡◌, refl, ap, ◌↔◌, Option, none,
  some, List, [], ◌∷◌, ◌++◌, filter, take, drop, all, arith, eq_iff, if◌then◌else◌,
}
use taskfire.Prelude.Int.{ℤ, pos, sub_ℕ}
use taskfire.Job.{
  JobStatus, pending, active, completed, failed, dead, JobPriority, priority_value, status_text,
}
use taskfire.Job.Schema.{ListJobsQuery}
use taskfire.Postgres.Row.{Row}
use taskfire.Postgres.Listing.{
  SqlValue, text, number, integer, Column, no_where, push, push_some, build_where, param, holds,
  cut,
}

-- What a filter of the query, if it is given, asks of a row.
abbrev pub Asked : {A : Type 0} → (A → Type 0) → Option A → Type 0
Asked P none = Unit {0}
Asked P (some a) = P a

abbrev pub Selected : ListJobsQuery → Row → Type 0
Selected opts r =
    Asked (λ s. r.status ≡ s) opts.status
    × Asked (λ p. r.priority ≡ priority_value p) opts.priority
    × Asked (λ t. r.type ≡ t) opts.type

pub status_of_text : String → Option JobStatus
status_of_text t =
    if t == "pending"
    then some pending
    else if t == "active"
    then some active
    else if t == "completed"
    then some completed
    else if t == "failed"
    then some failed
    else if t == "dead"
    then some dead
    else none

pub status_of_text-text : (s : JobStatus) → status_of_text (status_text s) ≡ some s
unfolding status_of_text status_text
status_of_text-text pending = refl
status_of_text-text active = refl
status_of_text-text completed = refl
status_of_text-text failed = refl
status_of_text-text dead = refl

pub status_text_iff : (s t : JobStatus) → ((status_text s == status_text t) ≡ true) ↔ (s ≡ t)
status_text_iff s t = (
  λ e. cc (
    status_of_text-text s,
    status_of_text-text t,
    ap status_of_text ((eq_iff (status_text s) (status_text t)).0 e),
  ),
  λ e. (eq_iff (status_text s) (status_text t)).1 (ap status_text e),
)

-- The test of the built clause, on its own parameters with any more behind them.
abbrev pub clause : ListJobsQuery → List SqlValue → Row → Bool
clause opts more r = let b = build_where opts in all (holds (b.params ++ more) r) b.conditions

pub where_lem :
    (st : Option JobStatus) (p : Option JobPriority) (t : Option String) (more : List SqlValue)
    (r : Row)
    → let b = push_some Column.type text t (
        push_some Column.priority
          (λ p. number (priority_value p))
          p
          (push_some Column.status (λ s. text (status_text s)) st no_where)) in
      (all (holds (b.params ++ more) r) b.conditions ≡ true) ↔ (
        Asked (λ s. r.status ≡ s) st
        × Asked (λ p. r.priority ≡ priority_value p) p
        × Asked (λ t. r.type ≡ t) t)
unfolding push_some push holds
where_lem none none none more r = ground arith
where_lem none none (some t) more r = ground (arith, eq_iff r.type t)
where_lem none (some p) none more r = ground arith
where_lem none (some p) (some t) more r = ground (arith, eq_iff r.type t)
where_lem (some s) none none more r = ground (arith, status_text_iff r.status s)
where_lem (some s) none (some t) more r =
    ground (arith, eq_iff r.type t, status_text_iff r.status s)
where_lem (some s) (some p) none more r = ground (arith, status_text_iff r.status s)
where_lem (some s) (some p) (some t) more r =
    ground (arith, eq_iff r.type t, status_text_iff r.status s)

-- The parameters of LIMIT and OFFSET stand behind those of the clause, where its counter points.
pub cut_params :
    (opts : ListJobsQuery) (limit : ℕ) (offset : ℤ)
    → let b = build_where opts in
      let params = b.params ++ number limit ∷ integer offset ∷ [] in
      (param params b.idx ≡ some (number limit))
      × (param params (b.idx + 1) ≡ some (integer offset))
unfolding build_where
cut_params opts limit offset = go opts.status opts.priority opts.type
  where
    go :
        (st : Option JobStatus) (p : Option JobPriority) (t : Option String)
        → let b = push_some Column.type text t (
            push_some Column.priority
              (λ p. number (priority_value p))
              p
              (push_some Column.status (λ s. text (status_text s)) st no_where)) in
          let params = b.params ++ number limit ∷ integer offset ∷ [] in
          (param params b.idx ≡ some (number limit))
          × (param params (b.idx + 1) ≡ some (integer offset))
    go none none none = (refl, refl)
    go none none (some t) = (refl, refl)
    go none (some p) none = (refl, refl)
    go none (some p) (some t) = (refl, refl)
    go (some s) none none = (refl, refl)
    go (some s) none (some t) = (refl, refl)
    go (some s) (some p) none = (refl, refl)
    go (some s) (some p) (some t) = (refl, refl)

-- The built WHERE clause holds of a row exactly when the row has the status, the priority number
-- and the type that the query gives, also with the parameters of LIMIT and OFFSET behind its own.
pub clause_iff :
    (opts : ListJobsQuery) (more : List SqlValue) (r : Row)
    → (clause opts more r ≡ true) ↔ Selected opts r
unfolding build_where
clause_iff opts more r = where_lem opts.status opts.priority opts.type more r

pub page_times : (page limit : ℕ) → 1 ≤ page → page * limit ≡ limit + (page - 1) * limit
page_times zero limit h = absurd (omega arith)
page_times (suc p) limit h = rw (mul.suc p limit) (ground arith)

pub offset_lem : (page limit : ℕ) → 1 ≤ page → sub_ℕ (page * limit) limit ≡ pos ((page - 1) * limit)
offset_lem page limit h = ground (arith, page_times page limit h)

pub cut_lem :
    (a b : Option SqlValue) (limit offset : ℕ) (rows : List Row)
    → a ≡ some (number limit)
    → b ≡ some (integer (pos offset))
    → cut a b rows ≡ some (take limit (drop offset rows))
unfolding cut
cut_lem a b limit offset rows p q = rw (p, q) refl

-- Two tests that hold of the same rows filter alike.
pub filter_congr :
    (p q : Row → Bool) (P : Row → Type 0)
    → ((r : Row) → (p r ≡ true) ↔ P r)
    → ((r : Row) → (q r ≡ true) ↔ P r)
    → (rows : List Row) → filter p rows ≡ filter q rows
filter_congr p q P hp hq [] = refl
filter_congr p q P hp hq (r ∷ rows) =
    let to : p r ≡ true → q r ≡ true = λ e. (hq r).1 ((hp r).0 e) in
    let from : q r ≡ true → p r ≡ true = λ e. (hp r).1 ((hq r).0 e) in
    ground (arith, filter_congr p q P hp hq rows)
