-- ===== src/Dashboard/Paging.antt =====
-- The page buttons of the job table and of the dead-letter panel:
-- dashboard/src/components/JobTable.tsx and DeadLetterPanel.tsx.
use taskfire.Prelude.{
  ℕ, zero, suc, ◌+◌, ◌-◌, ◌*◌, ◌/◌, ◌≤◌, ◌<◌, ◌≡◌, refl, ap, Bool, true, ◌&&◌, List, [], ◌∷◌,
  length, all, leb, eqb, ltb, if◌then◌else◌, arith, min,
}

-- `Array.from({ length: n }, (_, i) => first + i)`
unfoldable pub numbered : ℕ → ℕ → List ℕ
numbered first zero = []
numbered first (suc n) = first ∷ numbered (suc first) n

abbrev pub max_of : ℕ → ℕ → ℕ
max_of a b = if leb a b then b else a

-- `Math.max(1, Math.min(page - 2, pages - 4))`. Where a difference of the source is negative, the
-- one here is 0, and the maximum is 1 for both.
unfoldable pub first_button : ℕ → ℕ → ℕ
first_button page pages = max_of 1 (min (page - 2) (pages - 4))

-- The buttons of the job table: up to five around the current page.
unfoldable pub page_buttons : ℕ → ℕ → List ℕ
unfolding numbered first_button
page_buttons page pages = numbered (first_button page pages) (min pages 5)

-- The buttons of the dead-letter panel: always the first five.
unfoldable pub panel_buttons : ℕ → List ℕ
unfolding numbered
panel_buttons pages = numbered 1 (min pages 5)

abbrev pub contains : ℕ → List ℕ → Bool
contains n [] = Bool.false
contains n (x ∷ xs) = if eqb x n then true else contains n xs

-- Whether a page number is one of the pages.
abbrev pub is_page : ℕ → ℕ → Bool
is_page pages p = leb 1 p && leb p pages

pub numbered-within :
    (pages first n : ℕ)
    → 1 ≤ first
    → first + n ≤ suc pages
    → all (is_page pages) (numbered first n) ≡ true
unfolding numbered
numbered-within pages first zero h k = refl
numbered-within pages first (suc n) h k =
    ground (arith, numbered-within pages (suc first) n (omega arith) (omega arith))

pub numbered-contains :
    (p first n : ℕ) → first ≤ p → p < first + n → contains p (numbered first n) ≡ true
unfolding numbered
numbered-contains p first zero h k = absurd (omega arith)
numbered-contains p first (suc n) h k = elim (taskfire.Prelude.Bool-cases (eqb first p)) [
  | taskfire.Prelude.inl same ↦ rw same refl
  | taskfire.Prelude.inr differs ↦
      rw differs (numbered-contains p (suc first) n (ground arith) (omega arith))
]

pub length-numbered : (first n : ℕ) → length (numbered first n) ≡ n
unfolding numbered
length-numbered first zero = refl
length-numbered first (suc n) = ap suc (length-numbered (suc first) n)
