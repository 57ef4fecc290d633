-- ===== src/Routes/Metrics/Distinct.antt =====
-- The set of ids that GET /workers of api/src/routes/metrics.ts makes: `new Set(ids)` and its
-- spread.
use taskfire.Prelude.{
  ◌==◌, ◌||◌, String, Bool, false, ◌≡◌, refl, List, [], ◌∷◌, ◌++◌, if◌then◌else◌, arith, Bool-cases,
  inl, inr, eq_iff,
}

unfoldable pub contains : String → List String → Bool
contains x [] = false
contains x (y ∷ ys) = y == x || contains x ys

-- `new Set(ids)`, in insertion order: `seen` holds what is in the set.
unfoldable pub set_of : List String → List String → List String
unfolding contains
set_of seen [] = seen
set_of seen (x ∷ xs) =
    let more = set_of (seen ++ x ∷ []) xs in if contains x seen then set_of seen xs else more

-- No text comes twice.
abbrev pub IsDistinct : List String → Type 0
IsDistinct [] = Unit {0}
IsDistinct (x ∷ xs) = (contains x xs ≡ false) × IsDistinct xs

contains-append_one :
    (x y : String) (xs : List String) → contains x (xs ++ y ∷ []) ≡ (contains x xs || y == x)
unfolding contains
contains-append_one x y [] = ground arith
contains-append_one x y (z ∷ xs) = ground (arith, contains-append_one x y xs)

append-IsDistinct :
    (xs : List String) (y : String)
    → IsDistinct xs
    → contains y xs ≡ false
    → IsDistinct (xs ++ y ∷ [])
unfolding contains
append-IsDistinct [] y d h = (refl, tt)
append-IsDistinct (x ∷ xs) y d h = (
  ground (arith, contains-append_one x y xs, d.0, eq_iff x y, eq_iff y x),
  append-IsDistinct xs y d.1 (ground arith),
)

pub set_of-IsDistinct : (seen xs : List String) → IsDistinct seen → IsDistinct (set_of seen xs)
unfolding set_of
set_of-IsDistinct seen [] d = d
set_of-IsDistinct seen (x ∷ xs) d = elim (Bool-cases (contains x seen)) [
  | inl old ↦ rw (set_of, old) (set_of-IsDistinct seen xs d)
  | inr new ↦
      rw (set_of, new) (set_of-IsDistinct (seen ++ x ∷ []) xs (append-IsDistinct seen x d new))
]

pub contains-set_of :
    (y : String) (seen xs : List String)
    → contains y (set_of seen xs) ≡ (contains y seen || contains y xs)
unfolding set_of contains
contains-set_of y seen [] = ground arith
contains-set_of y seen (x ∷ xs) = elim (Bool-cases (contains x seen)) [
  | inl old ↦ rw (set_of, old) (ground (arith, contains-set_of y seen xs, eq_iff x y))
  | inr new ↦
      rw (set_of, new)
        (ground (arith, contains-set_of y (seen ++ x ∷ []) xs, contains-append_one y x seen))
]
