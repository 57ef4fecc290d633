-- ===== src/Postgres/Listing/Pages.antt =====
-- Paging: the pages 1, 2, … of a listing, one behind the other, are the listing.
use Prim.Native.Nat.mul
use native.Mathlib.Nat.{div-add-mod', mod-lt}
use taskfire.Prelude.{
  ℕ, zero, suc, ◌+◌, ◌-◌, ◌*◌, ◌/◌, ◌%◌, ◌≤◌, ◌<◌, ◌≡◌, sym, ap, ◌∙◌, List, [], ◌++◌, length, take,
  drop, arith, take_of_le, drop_of_le, take-add,
}

-- `Math.ceil(total / limit)`
unfoldable pub page_count : ℕ → ℕ → ℕ
page_count total limit = (total + limit - 1) / limit

module _ {ℓ} {A : Type ℓ} where
  -- What LIMIT and OFFSET cut out for a page.
  abbrev pub page_of : ℕ → ℕ → List A → List A
  page_of page limit xs = take limit (drop ((page - 1) * limit) xs)

  -- The pages from 1 to n, in order.
  abbrev pub pages_to : ℕ → ℕ → List A → List A
  pages_to zero limit xs = []
  pages_to (suc n) limit xs = pages_to n limit xs ++ page_of (suc n) limit xs

  pages_to-take : (n limit : ℕ) (xs : List A) → pages_to n limit xs ≡ take (n * limit) xs
  pages_to-take zero limit xs = ap (λ (k : ℕ). take k xs) {x = zero} (omega arith)
  pages_to-take (suc n) limit xs =
      let before : suc n - 1 ≡ n = omega arith in
      let total : n * limit + limit ≡ suc n * limit = rw (mul.suc n limit) (omega arith) in
      rw (pages_to-take n limit xs, before)
        (sym (take-add (n * limit) limit xs) ∙ ap (λ (k : ℕ). take k xs) total)

-- Enough pages for every row, and no page without a row.
page_count_bounds :
    (total limit : ℕ)
    → 1 ≤ limit
    → (total ≤ page_count total limit * limit) × (page_count total limit * limit < total + limit)
unfolding page_count
page_count_bounds total limit h =
    let s = total + limit - 1 in
    let e : s / limit * limit + s % limit ≡ s = div-add-mod' s limit in
    let r = mod-lt s h in (omega arith, omega arith)

times_mono : (a b c : ℕ) → a ≤ b → a * c ≤ b * c
times_mono a b c h = grind arith

-- With a limit of at least 1, the pages from 1 to the page count, one behind the other, are the
-- whole listing, and a page with a number above the page count is empty.
pub pages_to-page_count {ℓ} :
    {A : Type ℓ} (limit page : ℕ) (xs : List A)
    → 1 ≤ limit
    → page_count (length xs) limit < page
    → (pages_to (page_count (length xs) limit) limit xs ≡ xs) × (page_of page limit xs ≡ [])
pages_to-page_count limit page xs h beyond = (
  pages_to-take (page_count (length xs) limit) limit xs
      ∙ take_of_le _ xs (page_count_bounds (length xs) limit h).0,
  (let pages = page_count (length xs) limit in
      let more : pages * limit ≤ (page - 1) * limit =
        times_mono pages (page - 1) limit (omega arith) in
      let enough = (page_count_bounds (length xs) limit h).0 in
      rw (drop_of_le ((page - 1) * limit) xs (omega arith)) (take_of_le limit [] (omega arith))),
)
