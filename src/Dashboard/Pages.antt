-- ===== src/Dashboard/Pages.antt =====
-- The pages around the components: dashboard/src/App.tsx.
pub mod Shown
use taskfire.Prelude.{
  ℕ, ◌/◌, ◌%◌, String, Bool, true, false, not, ◌==◌, Option, none, some, List, [], ◌∷◌, map, take,
  ltb, leb, if◌then◌else◌,
}
use taskfire.Prelude.Int.{ℤ, pos, negsuc}
use taskfire.Routes.Metrics.Workers.{ActiveJobSummary, WorkersResponse}
use taskfire.Dashboard.Live.{WsStatus, connected, reconnecting}
use taskfire.Dashboard.Charts.{round_seconds, LiveMetrics}

-- The state of `useDarkMode` at the first render, by what is stored and by the preferred scheme.
unfoldable pub initial_dark : Option String → Bool → Bool
initial_dark stored prefers_dark = elim stored [ none ↦ prefers_dark | some s ↦ s == "true" ]

-- What its effect stores: `String(dark)`.
unfoldable pub stored_dark : Bool → String
stored_dark true = "true"
stored_dark false = "false"

-- `Page`
pub data Page : Type 0 where
  overview jobs deadletter workers : Page

-- The ids and labels of `NAV_ITEMS`
unfoldable pub nav_items : List (Page × String)
nav_items =
    (overview, "Overview")
    ∷ (jobs, "Jobs")
    ∷ (deadletter, "Dead Letter")
    ∷ (workers, "Workers")
    ∷ []

-- A `MetricCard` of a page: its value, and whether a higher one is better.
pub record Card : Type 0 where
  pub value : ℕ
  pub higher_is_better : Bool

abbrev card : ℕ → Bool → Card
card value higher_is_better = record { value = value; higher_is_better = higher_is_better }

-- `liveMetrics ?? snapshot`
unfoldable pub shown_metrics : Option LiveMetrics → Option LiveMetrics → Option LiveMetrics
shown_metrics (some live) snapshot = some live
shown_metrics none snapshot = snapshot

-- The cards of `OverviewPage`: queue depth, active jobs, dead letters and completed jobs. The
-- subtitle of the first is the depths of the three lanes.
pub record Overview : Type 0 where
  pub cards : List Card
  pub lanes : Option (ℕ × ℕ × ℕ)

unfoldable pub overview_page : Option LiveMetrics → Option LiveMetrics → Overview
unfolding shown_metrics
overview_page live snapshot = elim (shown_metrics live snapshot) [
  | none ↦ record {
    cards = card 0 false ∷ card 0 true ∷ card 0 false ∷ card 0 true ∷ [];
    lanes = none;
  }
  | some m ↦ record {
    cards =
        card m.queue_depth.total false
        ∷ card m.active_jobs true
        ∷ card m.dlq_depth false
        ∷ card m.counts.completed true
        ∷ [];
    lanes = some (m.queue_depth.high, m.queue_depth.medium, m.queue_depth.low);
  }
]

-- The text of a job's run time: minutes and seconds, or seconds.
pub data RunTime : Type 0 where
  minutes : (minutes seconds : ℕ) → RunTime
  seconds : ℤ → RunTime

unfoldable pub run_time : ℤ → RunTime
run_time (negsuc n) = seconds (negsuc n)
run_time (pos s) = if leb 60 s then minutes (s / 60) (s % 60) else seconds (pos s)

pub record ActiveRow : Type 0 where
  pub job_id : List ℕ
  pub job_type : String
  pub started_at : ℕ
  pub run_time : RunTime

pub data WorkersView : Type 0 where
  placeholder failed : WorkersView
  -- the three cards, whether the discrepancy is shown in red, and the table
  shown : (active in_flight discrepancy : ℕ) (red : Bool) → List ActiveRow → WorkersView

module _ (units : String → List ℕ) where
  unfoldable pub active_row : ActiveJobSummary → ActiveRow
  unfolding run_time round_seconds
  active_row j = record {
    job_id = take 8 (units j.job_id);
    job_type = j.job_type;
    started_at = j.started_at;
    run_time = run_time (round_seconds j.running_for_ms);
  }

  -- `WorkersPage`, by `isLoading`, `error` and `data`; `data!` is never absent there.
  unfoldable pub workers_page : Bool → Option WorkersResponse → WorkersView
  unfolding active_row
  workers_page is_loading answer = if is_loading then placeholder else elim answer [
    | none ↦ failed
    | some w ↦
        shown w.active_workers w.in_flight_redis w.discrepancy (ltb 0 w.discrepancy)
          (map active_row w.active_jobs)
  ]

-- The text beside the dot of the sidebar.
pub data Footer : Type 0 where
  live_text reconnecting_text connecting_text : Footer

unfoldable pub footer : WsStatus → Footer
footer connected = live_text
footer reconnecting = reconnecting_text
footer _ = connecting_text

-- The state of `Shell`: its page, the mode of `useDarkMode`, and what its effect has stored.
pub record Shell : Type 0 where
  pub page : Page
  pub dark : Bool
  pub stored : String

unfoldable pub first_render : (stored : Option String) (prefers_dark : Bool) → Shell
unfolding initial_dark stored_dark
first_render stored prefers_dark = record {
  page = overview;
  dark = initial_dark stored prefers_dark;
  stored = stored_dark (initial_dark stored prefers_dark);
}

pub data Click : Type 0 where
  -- a button of the sidebar
  goes_to : Page → Click
  toggles_dark : Click

-- A click, and the effect behind its render.
unfoldable pub click : Click → Shell → Shell
unfolding stored_dark
click (goes_to page) s = record s { page = page }
click toggles_dark s = record s { dark = not s.dark; stored = stored_dark (not s.dark) }

abbrev pub same_page : Page → Page → Bool
same_page overview overview = true
same_page jobs jobs = true
same_page deadletter deadletter = true
same_page workers workers = true
same_page _ _ = false

-- `NAV_ITEMS.find((n) => n.id === page)?.label`
unfoldable pub label_of : Page → List (Page × String) → Option String
label_of page [] = none
label_of page ((id, label) ∷ items) = if same_page id page then some label else label_of page items

pub record ShellView : Type 0 where
  -- the labels of the sidebar, and whether they are highlighted
  pub nav : List (String × Bool)
  pub footer : Footer
  -- the text of the button for the mode
  pub mode : String
  pub title : Option String
  -- the one of the four pages that is rendered
  pub content : Page

unfoldable pub shell_view : WsStatus → Shell → ShellView
unfolding footer nav_items label_of
shell_view status s = record {
  nav = map (λ (id, label). (label, same_page s.page id)) nav_items;
  footer = footer status;
  mode = if s.dark then "Light mode" else "Dark mode";
  title = label_of s.page nav_items;
  content = s.page;
}
