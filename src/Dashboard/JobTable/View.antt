-- ===== src/Dashboard/JobTable/View.antt =====
-- What `JobTable` renders of its state and of the list query, as data: texts, buttons and whether
-- they are disabled. Class names and the layout are left out.
use taskfire.Prelude.{
  ℕ, String, Bool, true, false, ◌==◌, ◌&&◌, ◌||◌, not, Option, none, some, List, [], ◌∷◌, ◌++◌, map,
  length, ltb, leb, eqb, if◌then◌else◌,
}
use taskfire.Job.{
  Job, JobStatus, pending, active, completed, failed, dead, JobPriority, high, medium, low,
}
use taskfire.Dashboard.Paging.{page_buttons}
use taskfire.Dashboard.JobTable.{
  Op, cancel, retry, Filters, no_filters, jobs_of, total_of, pages_of, lookup, Table, offers,
  is_busy,
}
use taskfire.Dashboard.JobTable.Details.{
  Duration, fmt_duration, truncate, LogQuery, ExpandedRow, expanded_row,
}

pub record Button : Type 0 where
  pub op : Op
  pub disabled : Bool
  -- '…' in place of the label
  pub waiting : Bool

abbrev pub same_op : Op → Op → Bool
same_op cancel cancel = true
same_op retry retry = true
same_op _ _ = false

unfoldable pub button : Op → Job → Table → List Button
unfolding is_busy
button op j t =
    if offers op j.status
    then record {
      op = op;
      disabled = is_busy j.id t;
      waiting = elim (lookup j.id t.pending_op) [ none ↦ false | some o ↦ same_op o op ];
    }
      ∷ []
    else []

pub record RowView : Type 0 where
  pub id : List ℕ
  pub type : String
  pub priority_label : JobPriority
  pub status : JobStatus
  pub retry_count : ℕ
  pub max_retries : ℕ
  pub created_at : ℕ
  pub duration : Duration
  pub buttons : List Button
  pub details : Option ExpandedRow

pub data Body : Type 0 where
  -- rows and columns of the placeholder
  skeleton : (rows columns : ℕ) → Body
  rows : List RowView → Body
  -- 'No jobs match the current filters.'
  no_match : Body

pub record Pagination : Type 0 where
  pub page : ℕ
  pub pages : ℕ
  pub total : ℕ
  pub prev_disabled : Bool
  pub buttons : List ℕ
  pub next_disabled : Bool

-- `hasActive` of the filter bar
unfoldable pub has_active : Filters → Bool
has_active f =
    elim f.status [ none ↦ false | some s ↦ true ]
    || elim f.priority [ none ↦ false | some p ↦ true ]
    || not (f.type == "")

-- `STATUS_LABELS`
unfoldable pub status_labels : List JobStatus
status_labels = pending ∷ active ∷ completed ∷ failed ∷ dead ∷ []

-- `PRIORITY_LABELS`
unfoldable pub priority_labels : List JobPriority
priority_labels = high ∷ medium ∷ low ∷ []

-- What the filter bar shows, and for each of its controls the filters that it passes on; `none` is
-- the option for all.
pub record FilterBar : Type 0 where
  pub status : Option JobStatus
  pub status_options : List (Option JobStatus)
  pub on_status : Option JobStatus → Filters
  pub priority : Option JobPriority
  pub priority_options : List (Option JobPriority)
  pub on_priority : Option JobPriority → Filters
  pub type : String
  pub on_type : String → Filters
  -- the Clear button, where it is shown
  pub on_clear : Option Filters

-- `FilterBar`
unfoldable pub filter_bar : Filters → FilterBar
unfolding has_active status_labels priority_labels
filter_bar f = record {
  status = f.status;
  status_options = none ∷ map some status_labels;
  on_status = λ s. record f { status = s };
  priority = f.priority;
  priority_options = none ∷ map some priority_labels;
  on_priority = λ p. record f { priority = p };
  type = f.type;
  on_type = λ t. record f { type = t };
  on_clear = if has_active f then some no_filters else none;
}

pub record View : Type 0 where
  pub total : ℕ
  pub refreshing : Bool
  pub filter_bar : FilterBar
  pub body : Body
  pub pagination : Option Pagination

-- `useJobLogs(id)`, the UTF-16 units of a text, and `Date.now()` at the render.
module _ (job_logs : String → LogQuery) (units : String → List ℕ) (now : ℕ) where
  unfoldable pub row_view : Table → Job → RowView
  unfolding fmt_duration truncate button expanded_row
  row_view t j = record {
    id = truncate (units j.id) 8;
    type = j.type;
    priority_label = j.priority_label;
    status = j.status;
    retry_count = j.retry_count;
    max_retries = j.max_retries;
    created_at = j.created_at;
    duration = fmt_duration now j;
    buttons = button retry j t ++ button cancel j t;
    details = elim t.expanded_id [
      | none ↦ none
      | some id ↦ if id == j.id then some (expanded_row (job_logs j.id) j) else none
    ];
  }

  unfoldable pub body_view : Table → Body
  body_view t =
      if t.query.is_loading
      then skeleton 6 8
      else if eqb (length (jobs_of t.query)) 0
      then no_match
      else rows (map (row_view t) (jobs_of t.query))

  -- The pagination stands below the table where there is more than one page.
  unfoldable pub pagination_view : Table → Option Pagination
  pagination_view t =
      let pages = pages_of t.query in
      if ltb 1 pages
      then some (record {
        page = t.page;
        pages = pages;
        total = total_of t.query;
        prev_disabled = leb t.page 1;
        buttons = page_buttons t.page pages;
        next_disabled = leb pages t.page;
      })
      else none

  -- `JobTable`
  unfoldable pub view : Table → View
  unfolding row_view body_view pagination_view filter_bar
  view t = record {
    total = total_of t.query;
    refreshing = t.query.is_fetching && not t.query.is_loading;
    filter_bar = filter_bar t.filters;
    body = body_view t;
    pagination = pagination_view t;
  }
