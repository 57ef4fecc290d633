-- ===== src/Tests/Panels.antt =====
-- The results on the tables of the dashboard at concrete inputs.
use taskfire.Prelude.{
  ℕ, ◌≡◌, ◌≤◌, zero, suc, ◌-◌, ◌*◌, refl, ◌||◌, true, false, none, some, List, [], ◌∷◌, length,
  take, drop, get_or, if◌then◌else◌, arith,
}
use taskfire.Async.{resolve}
use taskfire.Job.{Job, dead, medium}
use taskfire.Json.{null}
use taskfire.Postgres.Listing.Pages.{page_count}
use taskfire.Routes.Reply.{conflict}
use taskfire.Routes.Jobs.{
  uncancellable, retry_refusal, delete_existing, retry_existing, requeue, cancel as cancel_row,
}
use taskfire.Dashboard.JobTable.{
  cancel, retry, offers, Table, initial, pages_of, Event, clicks, settles, clicks_row, clicks_next,
  clicks_page, run,
}
use taskfire.Dashboard.JobTable.View.{button}
use taskfire.Dashboard.JobTable.Pending.{requests_of, button_of, run-initial-requests}
use taskfire.Dashboard.JobTable.Actions.{handlers-offers}
use taskfire.Dashboard.JobTable.Pages.{IsOnPage, run-IsOnPage, walk, walk-page_count}
use taskfire.Dashboard.DeadLetterPanel.{
  initial as empty_panel, total_of, page_of, clicks_next as panel_next, loads as panel_loads,
  run as panel_run, Event as PanelEvent, DlqEntry,
}
use taskfire.Dashboard.DeadLetterPanel.View.{pagination}
use taskfire.Dashboard.DeadLetterPanel.Range.{run-range}
use taskfire.Tests.Store.{server}
use taskfire.Tests.Samples.{zod, calm}

abbrev stuck : Job
stuck = record {
  id = "b";
  type = "email";
  payload = null;
  priority = 200;
  priority_label = medium;
  status = dead;
  max_retries = 3;
  retry_count = 3;
  created_at = 1000;
  started_at = some 1500;
  completed_at = none;
  failed_at = some 2500;
  error = some "timeout";
  scheduled_at = none;
  dependencies = [];
}

-- Two clicks on Retry, the second while the first is under way, and a third after it is settled.
abbrev clicking : List Event
clicking = clicks retry stuck ∷ clicks retry stuck ∷ settles 0 ∷ clicks retry stuck ∷ []

run-initial-requests_example :
    let t = run clicking initial in
    let requests = requests_of "b" t.in_flight in
    (length requests ≤ 1)
    × (button retry stuck t ≡ button_of requests retry stuck)
    × (button cancel stuck t ≡ button_of requests cancel stuck)
run-initial-requests_example = run-initial-requests clicking stuck

one_request : requests_of "b" (run clicking initial).in_flight ≡ retry ∷ []
unfolding run initial
one_request = refl

handlers-offers_example :
    (retry_existing zod server calm "b" true stuck ≡ (
      if offers retry dead
      then requeue zod server calm "b" true
      else resolve (conflict (retry_refusal dead))))
    × (delete_existing zod server calm 1 "b" stuck ≡ (
        if offers cancel dead || offers retry dead
        then cancel_row zod server calm 1 "b" stuck
        else resolve (conflict (get_or (uncancellable dead) ""))))
handlers-offers_example = handlers-offers zod server calm 1 "b" true stuck

abbrev three_pages : Table
three_pages = record {
  filters = record { status = none; priority = none; type = "" };
  page = 1;
  expanded_id = none;
  pending_op = [];
  query = record {
    answer = some (record { jobs = stuck ∷ []; total = 60; page = 1; limit = 25; pages = 3 });
    is_loading = false;
    is_fetching = false;
  };
  in_flight = [];
}

abbrev turning : List Event
turning = clicks_next ∷ clicks_page 3 ∷ clicks_next ∷ clicks_row "b" ∷ []

three_pages-IsOnPage : IsOnPage three_pages
unfolding pages_of
three_pages-IsOnPage = (omega arith, omega arith)

run-IsOnPage_example : IsOnPage (run turning three_pages)
run-IsOnPage_example = run-IsOnPage turning three_pages refl three_pages-IsOnPage

-- A list of n numbers.
abbrev numbers : ℕ → List ℕ
numbers zero = []
numbers (suc k) = k ∷ numbers k

three_counted : pages_of three_pages.query ≡ page_count (length (numbers 60)) 25
unfolding pages_of page_count
three_counted = refl

walk-page_count_example : walk (pages_of three_pages.query) three_pages (numbers 60) ≡ numbers 60
walk-page_count_example = walk-page_count three_pages (numbers 60) refl three_counted

abbrev letter : DlqEntry
letter = record {
  id = "b";
  type = "email";
  payload = null;
  priority = 200;
  priority_label = medium;
  error = some "timeout";
  retry_count = 3;
  max_retries = 3;
  failed_at = some 2500;
  created_at = 1000;
}

abbrev leafing : List PanelEvent
leafing =
    panel_loads (record {
      answer = some (record { jobs = letter ∷ []; total = 30; limit = 25; offset = 0 });
      is_loading = false;
      error = false;
    })
    ∷ panel_next
    ∷ []

thirty : total_of (panel_run leafing empty_panel) ≡ length (numbers 30)
unfolding panel_run empty_panel total_of
thirty = refl

run-range_example :
    let p = panel_run leafing empty_panel in
    (p.offset ≡ (page_of p - 1) * 25)
    × (suc (pagination p).last - (pagination p).first
        ≡ length (take 25 (drop p.offset (numbers 30))))
run-range_example = run-range leafing (numbers 30) thirty
