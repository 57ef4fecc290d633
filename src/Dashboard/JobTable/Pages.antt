-- ===== src/Dashboard/JobTable/Pages.antt =====
-- The pages that the job table can show, and the way between them.
use taskfire.Prelude.{
  ℕ, suc, ◌+◌, ◌≡◌, refl, Bool, true, false, not, ◌≤◌, ◌<◌, List, [], ◌∷◌, all, length, min, arith,
  Bool-cases, inl, inr, eqb, &&-eq-true, subst, zero, ◌++◌, ap, ◌∙◌, get_or,
}
use taskfire.Dashboard.Paging.{
  first_button, page_buttons, contains, is_page, numbered-within, numbered-contains,
  length-numbered,
}
use taskfire.Dashboard.JobTable.{
  Table, pages_of, handle_filter_change, handle_row_click, handle_op, settle, Event,
  changes_filters, clicks_row, clicks, settles, clicks_prev, clicks_next, clicks_page, loads, step,
  run, list_params,
}
use taskfire.Postgres.Listing.Pages.{page_count, page_of, pages_to, pages_to-page_count}

-- For a page among the pages, the buttons of the table are five, or as many as there are pages,
-- each leads to a page, and the page itself is one of them.
pub page_buttons_lem :
    (page pages : ℕ)
    → 1 ≤ page
    → page ≤ pages
    → (length (page_buttons page pages) ≡ min pages 5)
      × (all (is_page pages) (page_buttons page pages) ≡ true)
      × (contains page (page_buttons page pages) ≡ true)
unfolding page_buttons first_button
page_buttons_lem page pages h k = (
  length-numbered (first_button page pages) (min pages 5),
  numbered-within pages (first_button page pages) (min pages 5) (ground arith) (ground arith),
  numbered-contains page (first_button page pages) (min pages 5) (ground arith) (ground arith),
)

contains-all :
    (q : ℕ → Bool) (p : ℕ) (xs : List ℕ) → all q xs ≡ true → contains p xs ≡ true → q p ≡ true
contains-all q p [] h k = cc
contains-all q p (x ∷ xs) h k = elim (Bool-cases (eqb x p)) [
  | inl same ↦
      let e : x ≡ p = ground arith in subst (λ y. q y ≡ true) e (&&-eq-true (q x) (all q xs) h).0
  | inr other ↦ contains-all q p xs (&&-eq-true (q x) (all q xs) h).1 (ground arith)
]

-- Whether an event is an answer to the list query.
abbrev pub is_load : Event → Bool
is_load (loads q) = true
is_load _ = false

-- The page shown is one that the pagination counts.
abbrev pub IsOnPage : Table → Type 0
IsOnPage t = (1 ≤ t.page) × (t.page ≤ pages_of t.query)

step-IsOnPage : (e : Event) (t : Table) → is_load e ≡ false → IsOnPage t → IsOnPage (step e t)
unfolding step handle_filter_change handle_row_click handle_op settle
step-IsOnPage (changes_filters f) t n h = (omega arith, omega (arith, h.0, h.1))
step-IsOnPage (clicks_row i) t n h = h
step-IsOnPage (clicks op job) t n h = ground arith
step-IsOnPage (settles k) t n h = ground arith
step-IsOnPage clicks_prev t n h = ground arith
step-IsOnPage clicks_next t n h = ground arith
step-IsOnPage (clicks_page p) t n h =
    let pages = pages_of t.query in
    let (count, within, there) = page_buttons_lem t.page pages h.0 h.1 in
    elim (Bool-cases (contains p (page_buttons t.page pages))) [
      | inl shown ↦
          let page : is_page pages p ≡ true =
            contains-all (is_page pages) p (page_buttons t.page pages) within shown in
          ground arith
      | inr hidden ↦ ground arith
    ]
step-IsOnPage (loads q) t n h = cc

-- Between two answers to the list query, whatever the user does and whichever requests are settled,
-- a table on one of the pages stays on one of them.
pub run-IsOnPage :
    (es : List Event) (t : Table)
    → all (λ e. not (is_load e)) es ≡ true
    → IsOnPage t
    → IsOnPage (run es t)
unfolding run
run-IsOnPage [] t n h = h
run-IsOnPage (e ∷ es) t n h =
    let (first, others) = &&-eq-true (not (is_load e)) (all (λ x. not (is_load x)) es) n in
    run-IsOnPage es (step e t) others (step-IsOnPage e t (ground arith) h)

-- n clicks on Next.
abbrev pub nexts : ℕ → List Event
nexts zero = []
nexts (suc n) = clicks_next ∷ nexts n

step-clicks_next :
    (t : Table)
    → 1 ≤ t.page
    → t.page < pages_of t.query
    → ((step clicks_next t).page ≡ suc t.page) × ((step clicks_next t).query ≡ t.query)
unfolding step
step-clicks_next t h k = ground arith

run-nexts :
    (n : ℕ) (t : Table)
    → 1 ≤ t.page
    → t.page + n ≤ pages_of t.query
    → (run (nexts n) t).page ≡ t.page + n
unfolding run
run-nexts zero t h k = omega arith
run-nexts (suc n) t h k =
    let (page, same) = step-clicks_next t h (omega arith) in
    let further : (step clicks_next t).page + n ≤ pages_of (step clicks_next t).query =
      rw (page, same) (omega arith) in
    run-nexts n (step clicks_next t) (omega (arith, page)) further ∙ omega (arith, page)

-- The rows behind the page that a table asks for, where the database has these rows in its order.
abbrev pub asked_rows {ℓ} : {A : Type ℓ} → Table → List A → List A
asked_rows t rows = page_of (get_or (list_params t).page 1) (get_or (list_params t).limit 20) rows

-- What the table shows before each of n clicks on Next, one behind the other.
abbrev pub walk {ℓ} : {A : Type ℓ} → ℕ → Table → List A → List A
walk zero t rows = []
walk (suc n) t rows = walk n t rows ++ asked_rows (run (nexts n) t) rows

walk-pages_to {ℓ} :
    {A : Type ℓ} (n : ℕ) (t : Table) (rows : List A)
    → t.page ≡ 1
    → n ≤ pages_of t.query
    → walk n t rows ≡ pages_to n 25 rows
unfolding list_params
walk-pages_to zero t rows first h = refl
walk-pages_to (suc n) t rows first h =
    let page : (run (nexts n) t).page ≡ suc n =
      run-nexts n t (omega arith) (omega arith) ∙ omega arith in
    rw (walk-pages_to n t rows first (omega arith), page) refl

-- From the first page, where the answer counts the pages of twenty-five rows as the server does,
-- the pages that the user sees by clicking Next up to the last are the whole listing, each row in
-- its place.
pub walk-page_count {ℓ} :
    {A : Type ℓ} (t : Table) (rows : List A)
    → t.page ≡ 1
    → pages_of t.query ≡ page_count (length rows) 25
    → walk (pages_of t.query) t rows ≡ rows
walk-page_count t rows first counted =
    walk-pages_to (pages_of t.query) t rows first (omega arith)
    ∙ ap (λ (n : ℕ). pages_to n 25 rows) counted
    ∙ (pages_to-page_count 25 (suc (page_count (length rows) 25)) rows (omega arith)
        (omega arith)).0
