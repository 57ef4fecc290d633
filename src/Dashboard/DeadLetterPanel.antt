-- ===== src/Dashboard/DeadLetterPanel.antt =====
-- `DeadLetterPanel` of dashboard/src/components/DeadLetterPanel.tsx: its state and callbacks as the
-- steps of a machine. A retry that is sent and not settled stands in `in_flight`; the retries of
-- one click on Retry all are settled together, with the refetch behind them.
pub mod View
pub mod Range
use taskfire.Prelude.{
  ℕ, zero, suc, ◌+◌, ◌-◌, ◌*◌, ◌/◌, min, String, Bool, true, false, ◌==◌, ◌&&◌, not, Option, none,
  some, List, [], ◌∷◌, map, filter, length, take, ltb, eqb, get_or, get_elem?, if◌then◌else◌,
}
use taskfire.Json.{Json}
use taskfire.Job.{JobPriority}
use taskfire.Dashboard.Paging.{panel_buttons, contains}
use taskfire.Dashboard.JobTable.{remove_at}
use taskfire.Dashboard.JobTable.Details.{present}

abbrev pub page_size : ℕ
page_size = 25

-- `DLQEntry` of the dashboard's types.
pub record DlqEntry : Type 0 where
  pub id : String
  pub type : String
  pub payload : Json
  pub priority : ℕ
  pub priority_label : JobPriority
  pub error : Option String
  pub retry_count : ℕ
  pub max_retries : ℕ
  pub failed_at : Option ℕ
  pub created_at : ℕ

-- `DLQListResponse`
pub record DlqPage : Type 0 where
  pub jobs : List DlqEntry
  pub total : ℕ
  pub limit : ℕ
  pub offset : ℕ

-- What the query holds; `answer` is its `data`.
pub record DlqQuery : Type 0 where
  pub answer : Option DlqPage
  pub is_loading : Bool
  pub error : Bool

pub record Panel : Type 0 where
  pub offset : ℕ
  pub retrying_all : Bool
  pub retrying_id : Option String
  -- the rows that are open: the `expanded` of each `DLQRow`
  pub expanded : List String
  pub query : DlqQuery
  pub in_flight : List String

unfoldable pub initial : Panel
initial = record {
  offset = 0;
  retrying_all = false;
  retrying_id = none;
  expanded = [];
  query = record { answer = none; is_loading = true; error = false };
  in_flight = [];
}

unfoldable pub total_of : Panel → ℕ
total_of p = elim p.query.answer [ none ↦ 0 | some d ↦ d.total ]

unfoldable pub jobs_of : Panel → List DlqEntry
jobs_of p = elim p.query.answer [ none ↦ [] | some d ↦ d.jobs ]

-- `Math.ceil(total / PAGE_SIZE)`
unfoldable pub pages_of : Panel → ℕ
unfolding total_of
pages_of p = (total_of p + 24) / page_size

unfoldable pub page_of : Panel → ℕ
page_of p = p.offset / page_size + 1

-- Whether the table with its pagination is shown: no early return, entries, and more than one page.
unfoldable pub has_table : Panel → Bool
unfolding jobs_of
has_table p = not p.query.is_loading && not p.query.error && ltb 0 (length (jobs_of p))

unfoldable pub has_pages : Panel → Bool
unfolding has_table pages_of
has_pages p = has_table p && ltb 1 (pages_of p)

abbrev pub is_retrying : String → Panel → Bool
is_retrying id p = elim p.retrying_id [ none ↦ false | some i ↦ i == id ]

-- `handleRetry`, up to the request, and its `finally`
unfoldable pub handle_retry : String → Panel → Panel
handle_retry id p = record p { retrying_id = some id; in_flight = id ∷ p.in_flight }

unfoldable pub settle : ℕ → Panel → Panel
settle k p = elim (get_elem? p.in_flight k) [
  | none ↦ p
  | some id ↦ record p { retrying_id = none; in_flight = remove_at k p.in_flight }
]

-- `handleRetryAll`, up to the requests, one for each entry shown
unfoldable pub retry_all_ids : Panel → List String
unfolding jobs_of
retry_all_ids p = map (λ j. j.id) (jobs_of p)

unfoldable pub handle_retry_all : Panel → Panel
unfolding retry_all_ids
handle_retry_all p =
    if eqb (length (retry_all_ids p)) 0 then p else record p { retrying_all = true }

-- `setExpanded((e) => !e)` of a row
unfoldable pub toggle : String → List String → List String
toggle id [] = id ∷ []
toggle id (x ∷ xs) = if x == id then xs else x ∷ toggle id xs

pub data Event : Type 0 where
  clicks_retry clicks_row : String → Event
  settles : ℕ → Event
  clicks_retry_all settles_all clicks_prev clicks_next : Event
  clicks_page : ℕ → Event
  loads : DlqQuery → Event

-- A click on a button that is not shown, or shown disabled, does nothing.
unfoldable pub step : Event → Panel → Panel
unfolding has_table has_pages handle_retry settle handle_retry_all toggle page_of pages_of
    panel_buttons
step (clicks_retry id) p = if has_table p && not (is_retrying id p) then handle_retry id p else p
step (clicks_row id) p = record p { expanded = toggle id p.expanded }
step (settles k) p = settle k p
step clicks_retry_all p = if has_table p && not p.retrying_all then handle_retry_all p else p
step settles_all p = record p { retrying_all = false }
step clicks_prev p =
    if has_pages p && not (eqb (page_of p) 1) then record p { offset = p.offset - page_size } else p
step clicks_next p =
    if has_pages p && not (eqb (page_of p) (pages_of p))
    then record p { offset = p.offset + page_size }
    else p
step (clicks_page n) p =
    if has_pages p && contains n (panel_buttons (pages_of p))
    then record p { offset = (n - 1) * page_size }
    else p
step (loads q) p = record p { query = q }

unfoldable pub run : List Event → Panel → Panel
unfolding step
run [] p = p
run (e ∷ es) p = run es (step e p)
