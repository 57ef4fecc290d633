-- ===== src/Tests/Store.antt =====
-- A Redis server whose sets are association lists, and whose ZSCAN gives the whole set at once.
use native.Mathlib.Decide.{ℕ_discrete}
use taskfire.Prelude.{
  ℕ, ◌+◌, ◌-◌, ◌≤◌, ◌≡◌, ◌≢◌, inl, inr, ◌↔◌, refl, ◌∙◌, String, Option, none, some, List, [], ◌∷◌,
  length, take, drop, arith, Bool, true, false, if◌then◌else◌, Bool-cases, ◌==◌, eq_iff,
}
use taskfire.Prelude.Int.{ℤ, pos, negsuc}
use taskfire.Redis.Member.{Key, processing, Member}
use taskfire.Redis.Server.{Redis, collect, Contains, InPages}

string-discrete : Discrete String
string-discrete s t = elim (Bool-cases (s == t)) [
  | inl same ↦ yes ((eq_iff s t).0 same)
  | inr other ↦ no λ e. ground (arith, eq_iff s t)
]

member-discrete : Discrete Member
member-discrete = hlevel (ℕ_discrete, string-discrete)

key-discrete : Discrete Key
key-discrete = hlevel

abbrev holds : {P : Type 0} → Dec P → Bool
holds (yes p) = true
holds (no n) = false

holds_iff : {P : Type 0} (d : Dec P) → (holds d ≡ true) ↔ P
holds_iff (yes p) = (λ _. p, λ _. refl)
holds_iff (no n) = (λ e. cc, λ p. absurd (n p))

unfoldable same : Member → Member → Bool
same x m = holds (member-discrete x m)

unfoldable same_key : Key → Key → Bool
same_key j k = holds (key-discrete j k)

same_iff : (x m : Member) → (same x m ≡ true) ↔ (x ≡ m)
unfolding same
same_iff x m = holds_iff (member-discrete x m)

same_key_iff : (j k : Key) → (same_key j k ≡ true) ↔ (j ≡ k)
unfolding same_key
same_key_iff j k = holds_iff (key-discrete j k)

abbrev pub Entries : Type 0
Entries = List (Member × ℕ)

abbrev pub Sets : Type 0
Sets = Key → Entries

unfoldable without : Member → Entries → Entries
without m [] = []
without m ((x, n) ∷ es) = let rest = without m es in if same x m then rest else (x, n) ∷ rest

unfoldable score : Member → Entries → Option ℕ
score m [] = none
score m ((x, n) ∷ es) = if same x m then some n else score m es

unfoldable at_key : Key → (Entries → Entries) → Sets → Sets
at_key k f s j = if same_key j k then f (s j) else s j

abbrev pub members : Entries → List Member
members [] = []
members ((x, n) ∷ es) = x ∷ members es

score-without : (m : Member) (es : Entries) → score m (without m es) ≡ none
unfolding score without
score-without m [] = refl
score-without m ((x, n) ∷ es) = ground (arith, score-without m es)

score-without-ne : (m x : Member) (es : Entries) → x ≢ m → score x (without m es) ≡ score x es
unfolding score without
score-without-ne m x [] h = refl
score-without-ne m x ((y, n) ∷ es) h =
    ground (arith, score-without-ne m x es h, same_iff y m, same_iff y x)

score-head : (m : Member) (n : ℕ) (es : Entries) → score m ((m, n) ∷ es) ≡ some n
unfolding score
score-head m n es = ground (arith, same_iff m m)

score-later : (m x : Member) (n : ℕ) (es : Entries) → x ≢ m → score x ((m, n) ∷ es) ≡ score x es
unfolding score
score-later m x n es h = ground (arith, same_iff m x)

at_key_self : (k : Key) (f : Entries → Entries) (s : Sets) → at_key k f s k ≡ f (s k)
unfolding at_key
at_key_self k f s = ground (arith, same_key_iff k k)

at_key_ne : (k j : Key) (f : Entries → Entries) (s : Sets) → j ≢ k → at_key k f s j ≡ s j
unfolding at_key
at_key_ne k j f s h = ground (arith, same_key_iff j k)

unequal : (x m : Member) → same x m ≡ false → x ≢ m
unequal x m miss e = ground (arith, same_iff x m)

Contains-score : (m : Member) (es : Entries) → Contains m (members es) ↔ (score m es ≢ none)
unfolding score
Contains-score m [] = (λ h. absurd h, λ h. absurd (h refl))
Contains-score m ((x, n) ∷ es) = elim (Bool-cases (same x m)) [
  | inl hit ↦ (λ _ e. ground arith, λ _. inl ((same_iff x m).0 hit))
  | inr miss ↦ (
    λ c. rw miss (elim c [
      | inl e ↦ absurd (unequal x m miss e)
      | inr later ↦ (Contains-score m es).0 later
    ]),
    λ h. inr ((Contains-score m es).1 (rw miss at h)),
  )
]

only : (m : Member) (ms : List Member) → InPages m (ms ∷ []) → Contains m ms
only m ms (inl c) = c
only m ms (inr n) = absurd n

scanned : (ms : List Member) → collect (λ c. (0, ms)) 1 0 ≡ some (ms ∷ [])
unfolding collect
scanned ms = refl

-- ZREVRANGE with a first rank from the front and a last rank from either end.
abbrev cut_ranks : ℕ → ℤ → List Member → List Member
cut_ranks start (pos stop) ms = take (stop + 1 - start) (drop start ms)
cut_ranks start (negsuc n) ms = take (length ms - n - start) (drop start ms)

abbrev add : ℕ → Member → Entries → Entries
add n m es = (m, n) ∷ without m es

-- The server.
pub server : Redis Sets
server = record {
  zadd = λ k n m s. at_key k (add n m) s;
  zrem = λ k m s. at_key k (without m) s;
  zcard = λ k s. length (members (s k));
  zrevrange = λ k start stop s. cut_ranks start stop (members (s k));
  zscan = λ k s c. (0, members (s k));
  hgetall = λ s. members (s processing);
  zscore = λ k m s. score m (s k);
  zadd_self = λ k n m s. rw (at_key_self k (add n m) s) (score-head m n _);
  zadd_member = λ k n m x s h.
      rw (at_key_self k (add n m) s) (score-later m x n _ h ∙ score-without-ne m x (s k) h);
  zadd_key = λ k j n m x s h. rw (at_key_ne k j (add n m) s h) refl;
  zrem_self = λ k m s. rw (at_key_self k (without m) s) (score-without m (s k));
  zrem_member = λ k m x s h. rw (at_key_self k (without m) s) (score-without-ne m x (s k) h);
  zrem_key = λ k j m x s h. rw (at_key_ne k j (without m) s h) refl;
  rounds = λ k s. 1;
  scan_pages = λ k s. (
    members (s k) ∷ [],
    scanned (members (s k)),
    λ m. (
      λ c. (Contains-score m (s k)).0 (only m (members (s k)) c),
      λ h. inl ((Contains-score m (s k)).1 h),
    ),
  );
  ranking = λ k s. members (s k);
  zcard_ranking = λ k s. refl;
  zrevrange_ranking = λ k start stop s. refl;
  zadd_ranking = λ k j n m s h. rw (at_key_ne k j (add n m) s h) refl;
  zrem_ranking = λ k j m s h. rw (at_key_ne k j (without m) s h) refl;
}

pub server-rounds : (k : Key) (s : Sets) → server.rounds k s ≤ 1
unfolding server
server-rounds k s = omega arith

pub server-hgetall : (s : Sets) → server.hgetall s ≡ members (s processing)
unfolding server
server-hgetall s = refl
