-- ===== src/Redis/Queue/Scan.antt =====
-- Searching the pages of a scan one behind the other.
use taskfire.Prelude.{
  ℕ, suc, String, Bool, true, false, ◌≡◌, refl, ◌⊎◌, inl, inr, Option, none, some, List, [], ◌∷◌,
  eqb, arith, Option-cases, Bool-cases, subst,
}
use taskfire.Redis.Member.{Member}
use taskfire.Redis.Server.{collect, Contains, InPages}
use taskfire.Redis.Queue.{is_job, find_job}

unfoldable pub find_pages : String → List (List Member) → Option Member
find_pages id [] = none
find_pages id (p ∷ ps) = elim (find_job id p) [ none ↦ find_pages id ps | some m ↦ some m ]

-- A found member is the job and stands in the page; where none is found, none is there.
abbrev pub Finds : String → (Member → Type 0) → Option Member → Type 0
Finds id P none = (m : Member) → P m → is_job id m ≡ false
Finds id P (some m) = P m × (is_job id m ≡ true)

pub Finds-mono :
    (id : String) (P Q : Member → Type 0) (o : Option Member)
    → Finds id P o
    → ((m : Member) → P m → Q m)
    → ((m : Member) → Q m → P m ⊎ (is_job id m ≡ false))
    → Finds id Q o
Finds-mono id P Q none h f g = λ m q. elim (g m q) [ inl p ↦ h m p | inr no_job ↦ no_job ]
Finds-mono id P Q (some m) h f g = (f m h.0, h.1)

pub find_job-Finds :
    (id : String) (ms : List Member) → Finds id (λ m. Contains m ms) (find_job id ms)
unfolding find_job
find_job-Finds id [] = λ m h. absurd h
find_job-Finds id (x ∷ xs) = elim (Bool-cases (is_job id x)) [
  | inl hit ↦ rw hit (inl refl, hit)
  | inr miss ↦ rw miss (
      Finds-mono id _ _ (find_job id xs) (find_job-Finds id xs) (λ m c. inr c)
        λ m c. elim c [
          | inl e ↦ inr (subst (λ y. is_job id y ≡ false) e miss)
          | inr later ↦ inl later
        ])
]

-- A page with no job of the id can be left out.
pub Finds-skip :
    (id : String) (p : List Member) (ps : List (List Member))
    → ((m : Member) → Contains m p → is_job id m ≡ false)
    → Finds id (λ m. InPages m ps) (find_pages id ps)
    → Finds id (λ m. InPages m (p ∷ ps)) (find_pages id ps)
Finds-skip id p ps no_job h =
    Finds-mono id _ _ (find_pages id ps) h (λ m c. inr c)
      λ m c. elim c [ inl here ↦ inr (no_job m here) | inr later ↦ inl later ]

pub find_pages-Finds :
    (id : String) (ps : List (List Member)) → Finds id (λ m. InPages m ps) (find_pages id ps)
unfolding find_pages
find_pages-Finds id [] = λ m h. absurd h
find_pages-Finds id (p ∷ ps) = elim (Option-cases (find_job id p)) [
  | inl e ↦
      let no_job = subst (Finds id (λ m. Contains m p)) e (find_job-Finds id p) in
      rw (e, find_pages) (Finds-skip id p ps no_job (find_pages-Finds id ps))
  | inr (m, e) ↦
      let hit = subst (Finds id (λ m. Contains m p)) e (find_job-Finds id p) in
      rw (e, find_pages) (inl hit.0, hit.1)
]

abbrev pub is_found : Option Member → Bool
is_found none = false
is_found (some m) = true

pub pages_of_collect :
    (scan : ℕ → ℕ × List Member) (fuel c : ℕ) (pages : List (List Member))
    → collect scan (suc fuel) c ≡ some pages
    → ((eqb (scan c).0 0 ≡ true) × (pages ≡ (scan c).1 ∷ []))
      ⊎ ((eqb (scan c).0 0 ≡ false)
          × ((ps : List (List Member)) × (collect scan fuel (scan c).0 ≡ some ps)
              × (pages ≡ (scan c).1 ∷ ps)))
unfolding collect
pages_of_collect scan fuel c pages e = elim (Bool-cases (eqb (scan c).0 0)) [
  | inl last ↦ inl (last, ground arith)
  | inr more ↦ elim (Option-cases (collect scan fuel (scan c).0)) [
    | inl none_left ↦ ground arith
    | inr (ps, rest) ↦ inr (more, (ps, rest, ground arith))
  ]
]
