-- ===== src/Redis/Server.antt =====
-- The Redis server, which the program calls: the commands on sorted sets and the hash, with the
-- documented behaviour that the program relies on.
use taskfire.Prelude.{
  ℕ, zero, suc, ◌+◌, ◌-◌, ◌≡◌, ◌≢◌, ◌⊎◌, ◌↔◌, Option, none, some, List, [], ◌∷◌, length, take, drop,
  eqb, if◌then◌else◌,
}
use taskfire.Prelude.Int.{ℤ, pos}
use taskfire.Redis.Member.{Key, Member}

-- The members that a full ZSCAN iteration collects: calls from cursor `c` until the next one is 0.
unfoldable pub collect : (ℕ → ℕ × List Member) → ℕ → ℕ → Option (List (List Member))
collect scan zero c = none
collect scan (suc fuel) c =
    let (next, elements) = scan c in
    let rest = collect scan fuel next in
    if eqb next 0
    then some (elements ∷ [])
    else elim rest [ none ↦ none | some pages ↦ some (elements ∷ pages) ]

abbrev pub Contains : Member → List Member → Type 0
Contains m [] = ⊥
Contains m (x ∷ xs) = (x ≡ m) ⊎ Contains m xs

abbrev pub InPages : Member → List (List Member) → Type 0
InPages m [] = ⊥
InPages m (p ∷ ps) = Contains m p ⊎ InPages m ps

pub record Redis (Store : Type 0) : Type 0 where
  pub zadd : Key → ℕ → Member → Store → Store
  pub zrem : Key → Member → Store → Store
  pub zcard : Key → Store → ℕ
  -- ZREVRANGE with its first and last rank
  pub zrevrange : Key → ℕ → ℤ → Store → List Member
  -- ZSCAN: a cursor gives the next cursor and some members
  pub zscan : Key → Store → ℕ → ℕ × List Member
  -- the values of HGETALL on the hash of jobs in flight
  pub hgetall : Store → List Member
  -- ZSCORE, by which the laws below speak of a set
  pub zscore : Key → Member → Store → Option ℕ
  pub zadd_self : (k : Key) (n : ℕ) (m : Member) (s : Store) → zscore k m (zadd k n m s) ≡ some n
  pub zadd_member :
      (k : Key) (n : ℕ) (m x : Member) (s : Store)
      → x ≢ m
      → zscore k x (zadd k n m s) ≡ zscore k x s
  pub zadd_key :
      (k j : Key) (n : ℕ) (m x : Member) (s : Store)
      → j ≢ k
      → zscore j x (zadd k n m s) ≡ zscore j x s
  pub zrem_self : (k : Key) (m : Member) (s : Store) → zscore k m (zrem k m s) ≡ none
  pub zrem_member :
      (k : Key) (m x : Member) (s : Store) → x ≢ m → zscore k x (zrem k m s) ≡ zscore k x s
  pub zrem_key :
      (k j : Key) (m x : Member) (s : Store) → j ≢ k → zscore j x (zrem k m s) ≡ zscore j x s
  -- A set that nobody changes is iterated in finitely many calls, which give all its members and
  -- no other.
  pub rounds : Key → Store → ℕ
  pub scan_pages :
      (k : Key) (s : Store)
      → (pages : List (List Member)) × (collect (zscan k s) (rounds k s) 0 ≡ some pages)
        × ((m : Member) → InPages m pages ↔ (zscore k m s ≢ none))
  -- The members by falling score, and the ranks that ZREVRANGE cuts out of them.
  pub ranking : Key → Store → List Member
  pub zcard_ranking : (k : Key) (s : Store) → zcard k s ≡ length (ranking k s)
  pub zrevrange_ranking :
      (k : Key) (start stop : ℕ) (s : Store)
      → zrevrange k start (pos stop) s ≡ take (stop + 1 - start) (drop start (ranking k s))
  pub zadd_ranking :
      (k j : Key) (n : ℕ) (m : Member) (s : Store) → j ≢ k → ranking j (zadd k n m s) ≡ ranking j s
  pub zrem_ranking :
      (k j : Key) (m : Member) (s : Store) → j ≢ k → ranking j (zrem k m s) ≡ ranking j s
