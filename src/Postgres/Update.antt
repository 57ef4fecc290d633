-- ===== src/Postgres/Update.antt =====
-- `updateJobStatus` of api/src/services/postgres.ts: the SET clauses and the parameters of its
-- UPDATE. A value is what the driver is handed.
use mathlib.Core.List.{append_assoc}
use taskfire.Prelude.{
  ℕ, suc, ◌+◌, ◌-◌, String, Bool, ◌==◌, ◌||◌, ◌≡◌, refl, sym, ap, ◌∙◌, Option, some, List, [], ◌∷◌,
  ◌++◌, map, filter, length, get_elem?, if◌then◌else◌, arith, Bool-cases, inl, inr,
}
use taskfire.Json.{Json, text}
use taskfire.Job.{JobStatus, status_text}

-- `MUTABLE_COLUMNS.has`
unfoldable pub mutable_column : String → Bool
mutable_column c =
    c == "status"
    || c == "retry_count"
    || c == "error"
    || c == "started_at"
    || c == "completed_at"
    || c == "failed_at"
    || c == "scheduled_at"
    || c == "dependencies"

-- A clause `column = $parameter`.
pub record SetClause : Type 0 where
  pub column : String
  pub parameter : ℕ

-- The loop over the entries of `extra`, from the parameter number `idx` on.
unfoldable pub set_loop : ℕ → List (String × Json) → List SetClause × List Json
unfolding mutable_column
set_loop idx [] = ([], [])
set_loop idx ((col, val) ∷ extra) =
    let skipped = set_loop idx extra in
    let rest = set_loop (suc idx) extra in
    if mutable_column col
    then (record { column = col; parameter = idx } ∷ rest.0, val ∷ rest.1)
    else skipped

-- The clauses and the values of the UPDATE.
unfoldable pub update_job_status :
    String → JobStatus → List (String × Json) → List SetClause × List Json
unfolding set_loop status_text
update_job_status id status extra =
    let rest = set_loop 3 extra in
    (
      record { column = "status"; parameter = 2 } ∷ rest.0,
      text id ∷ text (status_text status) ∷ rest.1,
    )

-- What a clause sets its column to: the parameters count from 1.
abbrev pub assigned : List Json → SetClause → String × Option Json
assigned values c = (c.column, get_elem? values (c.parameter - 1))

abbrev pub wanted : String × Json → String × Option Json
wanted e = (e.0, some e.1)

abbrev is_mutable : String × Json → Bool
is_mutable e = mutable_column e.0

get_elem-length :
    (before : List Json) (v : Json) (after : List Json)
    → get_elem? (before ++ v ∷ after) (length before) ≡ some v
get_elem-length [] v after = refl
get_elem-length (x ∷ before) v after = get_elem-length before v after

length-append_one :
    (before : List Json) (v : Json) → length (before ++ v ∷ []) ≡ suc (length before)
length-append_one [] v = refl
length-append_one (x ∷ before) v = ap suc (length-append_one before v)

set_loop-assigned :
    (before : List Json) (idx : ℕ) (extra : List (String × Json))
    → length before + 1 ≡ idx
    → map (assigned (before ++ (set_loop idx extra).1)) (set_loop idx extra).0
      ≡ map wanted (filter is_mutable extra)
unfolding set_loop
set_loop-assigned before idx [] h = refl
set_loop-assigned before idx ((col, val) ∷ extra) h = elim (Bool-cases (mutable_column col)) [
  | inr fixed ↦ rw (set_loop, fixed) (set_loop-assigned before idx extra h)
  | inl open_ ↦
      let rest = set_loop (suc idx) extra in
      let at : idx - 1 ≡ length before = omega arith in
      let later =
        set_loop-assigned (before ++ val ∷ []) (suc idx) extra
          (ground (arith, length-append_one before val)) in
      let shifted = append_assoc before (val ∷ []) rest.1 in
      rw (set_loop, open_, at, get_elem-length before val rest.1)
        (ap (λ xs. (col, some val) ∷ xs)
          (ap (λ vs. map (assigned vs) rest.0) (sym shifted) ∙ later))
]

-- The UPDATE sets the status to the given one, and each entry of `extra` on a mutable column to its
-- value, in their order, and nothing else: the parameter number of every clause finds that value.
pub update_job_status-assigned :
    (id : String) (status : JobStatus) (extra : List (String × Json))
    → map (assigned (update_job_status id status extra).1) (update_job_status id status extra).0
      ≡ ("status", some (text (status_text status))) ∷ map wanted (filter is_mutable extra)
unfolding update_job_status
update_job_status-assigned id status extra =
    ap (λ xs. ("status", some (text (status_text status))) ∷ xs)
      (set_loop-assigned (text id ∷ text (status_text status) ∷ []) 3 extra (omega arith))
