-- ===== src/Dashboard/JobTable.antt =====
-- `JobTable` of dashboard/src/components/JobTable.tsx and the values that it takes from `useJobs`:
-- its state, its callbacks and what the browser may do with its buttons, as the steps of a machine.
-- The requests that its callbacks have sent and that are not settled stand beside the state.
pub mod Details
pub mod View
pub mod Pages
pub mod Pending
pub mod Actions
use taskfire.Prelude.{
  ℕ, zero, suc, ◌+◌, ◌-◌, String, Bool, true, false, ◌==◌, ◌&&◌, ◌||◌, not, Option, none, some,
  List, [], ◌∷◌, ◌++◌, filter, ltb, leb, get_elem?, if◌then◌else◌,
}
use taskfire.Job.{JobStatus, pending, failed, dead, JobPriority, Job}
use taskfire.Dashboard.Paging.{page_buttons, contains}

-- 'cancel' | 'retry'
pub data Op : Type 0 where
  cancel retry : Op

-- `''` of the two selects is `none`.
pub record Filters : Type 0 where
  pub status : Option JobStatus
  pub priority : Option JobPriority
  pub type : String

unfoldable pub no_filters : Filters
no_filters = record { status = none; priority = none; type = "" }

-- `JobListResponse` of the dashboard's types.
pub record JobPage : Type 0 where
  pub jobs : List Job
  pub total : ℕ
  pub page : ℕ
  pub limit : ℕ
  pub pages : ℕ

-- What the list query holds; `answer` is its `data`.
pub record Query : Type 0 where
  pub answer : Option JobPage
  pub is_loading : Bool
  pub is_fetching : Bool

unfoldable pub jobs_of : Query → List Job
jobs_of q = elim q.answer [ none ↦ [] | some d ↦ d.jobs ]

unfoldable pub total_of : Query → ℕ
total_of q = elim q.answer [ none ↦ 0 | some d ↦ d.total ]

unfoldable pub pages_of : Query → ℕ
pages_of q = elim q.answer [ none ↦ 1 | some d ↦ d.pages ]

abbrev pub Pending : Type 0
Pending = List (String × Op)

-- `pendingOp[id]`
unfoldable pub lookup : String → Pending → Option Op
lookup id [] = none
lookup id ((k, op) ∷ m) = if k == id then some op else lookup id m

-- `{ ...prev, [id]: op }`
unfoldable pub assign : String → Op → Pending → Pending
assign id op [] = (id, op) ∷ []
assign id op ((k, o) ∷ m) = if k == id then (k, op) ∷ m else (k, o) ∷ assign id op m

-- `const n = { ...prev }; delete n[id]; return n`
unfoldable pub remove : String → Pending → Pending
remove id m = filter (λ e. not (e.0 == id)) m

pub record Request : Type 0 where
  pub id : String
  pub op : Op

pub record Table : Type 0 where
  pub filters : Filters
  pub page : ℕ
  pub expanded_id : Option String
  pub pending_op : Pending
  pub query : Query
  pub in_flight : List Request

-- The first render.
unfoldable pub initial : Table
unfolding no_filters
initial = record {
  filters = no_filters;
  page = 1;
  expanded_id = none;
  pending_op = [];
  query = record { answer = none; is_loading = true; is_fetching = true };
  in_flight = [];
}

-- The parameters of the list request: `x || undefined`.
pub record ListJobsParams : Type 0 where
  pub status : Option JobStatus
  pub priority : Option JobPriority
  pub type : Option String
  pub page : Option ℕ
  pub limit : Option ℕ

unfoldable pub list_params : Table → ListJobsParams
list_params t = record {
  status = t.filters.status;
  priority = t.filters.priority;
  type = if t.filters.type == "" then none else some t.filters.type;
  page = some t.page;
  limit = some 25;
}

-- `handleFilterChange`
unfoldable pub handle_filter_change : Filters → Table → Table
handle_filter_change f t = record t { filters = f; page = 1; expanded_id = none }

-- `handleRowClick`
unfoldable pub handle_row_click : String → Table → Table
handle_row_click id t = record t {
  expanded_id = elim t.expanded_id [
    | none ↦ some id
    | some prev ↦ if prev == id then none else some id
  ];
}

-- `handleCancel` and `handleRetry`, up to the request
unfoldable pub handle_op : Op → String → Table → Table
unfolding assign
handle_op op id t = record t {
  pending_op = assign id op t.pending_op;
  in_flight = record { id = id; op = op } ∷ t.in_flight;
}

abbrev pub remove_at {ℓ} : {A : Type ℓ} → ℕ → List A → List A
remove_at k [] = []
remove_at zero (x ∷ xs) = xs
remove_at (suc k) (x ∷ xs) = x ∷ remove_at k xs

-- Their `finally`, when the request at a position is settled, whether it failed or not.
unfoldable pub settle : ℕ → Table → Table
unfolding remove
settle k t = elim (get_elem? t.in_flight k) [
  | none ↦ t
  | some r ↦ record t { pending_op = remove r.id t.pending_op; in_flight = remove_at k t.in_flight }
]

-- The buttons of a job's row: `failed` and `dead` give Retry, `pending` gives Cancel.
unfoldable pub offers : Op → JobStatus → Bool
offers retry failed = true
offers retry dead = true
offers cancel pending = true
offers _ _ = false

-- `Boolean(pendingOp[job.id])`
unfoldable pub is_busy : String → Table → Bool
unfolding lookup
is_busy id t = elim (lookup id t.pending_op) [ none ↦ false | some op ↦ true ]

pub data Event : Type 0 where
  changes_filters : Filters → Event
  clicks_row : String → Event
  clicks : Op → Job → Event
  settles : ℕ → Event
  clicks_prev clicks_next : Event
  clicks_page : ℕ → Event
  -- the query holds something new
  loads : Query → Event

-- A click on a button that the table does not show, or shows disabled, does nothing.
unfoldable pub step : Event → Table → Table
unfolding handle_filter_change handle_row_click handle_op settle offers is_busy pages_of
    page_buttons
step (changes_filters f) t = handle_filter_change f t
step (clicks_row id) t = handle_row_click id t
step (clicks op job) t =
    if offers op job.status && not (is_busy job.id t) then handle_op op job.id t else t
step (settles k) t = settle k t
step clicks_prev t =
    if leb (pages_of t.query) 1 || leb t.page 1 then t else record t { page = t.page - 1 }
step clicks_next t =
    if leb (pages_of t.query) 1 || leb (pages_of t.query) t.page
    then t
    else record t { page = t.page + 1 }
step (clicks_page p) t =
    if ltb 1 (pages_of t.query) && contains p (page_buttons t.page (pages_of t.query))
    then record t { page = p }
    else t
step (loads q) t = record t { query = q }

unfoldable pub run : List Event → Table → Table
unfolding step
run [] t = t
run (e ∷ es) t = run es (step e t)
