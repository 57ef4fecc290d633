-- ===== src/Dashboard/DeadLetterPanel/View.antt =====
-- What `DeadLetterPanel` renders, as data: its rows, its pagination and its states.
use taskfire.Prelude.{
  ℕ, ◌+◌, min, String, Bool, true, false, ◌==◌, Option, none, some, List, [], ◌∷◌, map, length, ltb,
  eqb, if◌then◌else◌,
}
use taskfire.Json.{Json}
use taskfire.Job.{JobPriority}
use taskfire.Dashboard.Paging.{panel_buttons}
use taskfire.Dashboard.JobTable.Details.{present}
use taskfire.Dashboard.DeadLetterPanel.{
  page_size, DlqEntry, Panel, total_of, jobs_of, pages_of, page_of, is_retrying,
}

-- `DLQRow`
pub record DlqRow : Type 0 where
  pub id : String
  pub type : String
  pub priority_label : JobPriority
  -- `entry.error ?? '—'`
  pub error : Option String
  pub retry_count : ℕ
  pub max_retries : ℕ
  pub failed_at : Option ℕ
  pub retrying : Bool
  -- the open part: created, failed, priority, the payload and an error that is not empty
  pub details : Option (ℕ × Option ℕ × ℕ × Json × Option String)

abbrev is_expanded : String → List String → Bool
is_expanded id [] = false
is_expanded id (x ∷ xs) = if x == id then true else is_expanded id xs

unfoldable pub dlq_row : Panel → DlqEntry → DlqRow
unfolding present
dlq_row p e = record {
  id = e.id;
  type = e.type;
  priority_label = e.priority_label;
  error = e.error;
  retry_count = e.retry_count;
  max_retries = e.max_retries;
  failed_at = e.failed_at;
  retrying = is_retrying e.id p;
  details =
      if is_expanded e.id p.expanded
      then some (e.created_at, e.failed_at, e.priority, e.payload, present e.error)
      else none;
}

-- The numbers of the pagination: `first`–`last` of `total`.
pub record Pagination : Type 0 where
  pub first : ℕ
  pub last : ℕ
  pub total : ℕ
  pub page : ℕ
  pub prev_disabled : Bool
  pub buttons : List ℕ
  pub next_disabled : Bool

pub data View : Type 0 where
  placeholder failed : View
  -- 'Dead-letter queue is empty', below the count of the header
  empty_state : (total : ℕ) → View
  -- the count, whether Retry all is disabled, the rows and the pagination
  table : (total : ℕ) (retrying_all : Bool) → List DlqRow → Option Pagination → View

unfoldable pub pagination : Panel → Pagination
pagination p = record {
  first = p.offset + 1;
  last = min (p.offset + page_size) (total_of p);
  total = total_of p;
  page = page_of p;
  prev_disabled = eqb (page_of p) 1;
  buttons = panel_buttons (pages_of p);
  next_disabled = eqb (page_of p) (pages_of p);
}

-- `DeadLetterPanel`
unfoldable pub view : Panel → View
unfolding jobs_of pagination dlq_row
view p =
    if p.query.is_loading
    then placeholder
    else if p.query.error
    then failed
    else if eqb (length (jobs_of p)) 0
    then empty_state (total_of p)
    else table (total_of p) p.retrying_all (map (dlq_row p) (jobs_of p))
        (if ltb 1 (pages_of p) then some (pagination p) else none)
