-- ===== src/World/Retry.antt =====
-- The loop that `connectPostgresWithRetry` of api/src/services/postgres.ts and
-- `connectRedisWithRetry` of api/src/services/redis.ts share: how it ends and how long it waits. A
-- round is given its `catch` block; it resolves to `true` where it returns from the function.
use taskfire.Prelude.{
  ℕ, zero, suc, ◌+◌, ◌-◌, ◌*◌, ◌≤◌, ◌<◌, Bool, true, false, ◌≡◌, ◌∙◌, ap, subst, arith,
  if◌then◌else◌, eqb,
}
use taskfire.Async.{
  Async, Error, Outcome, resolved, rejected, resolve, reject, ◌>>=◌, ◌>>◌, continue,
}
use taskfire.World.{World, Env, sleep}

abbrev pub Round : Type 0 → Type 0
Round Store = (Error → Async (World Store) Bool) → Async (World Store) Bool

module _ {Store : Type 0} (env : Env Store) (round : Round Store) where
  -- The loop with `left` attempts to go.
  unfoldable pub attempts : (max left : ℕ) → Async (World Store) (Unit {0})
  attempts max zero = resolve tt
  attempts max (suc k) =
      let rest = attempts max k in
      let number = max - k in
      do
        done ←
            round
              λ e. if eqb number max then reject e else do sleep env (number * 2000); resolve false
        if done then resolve tt else rest

-- The waits of the attempts 1 to n-1: 2000 ms times the number of the attempt.
unfoldable pub backoff : ℕ → ℕ
backoff zero = 0
backoff (suc n) = n * 2000 + backoff n

-- The waits that are left with k attempts to go after this one.
unfoldable waits : (max k : ℕ) → ℕ
waits max zero = 0
waits max (suc k) = (max - suc k) * 2000 + waits max k

waits-backoff : (max k : ℕ) → k ≤ max → waits max k + backoff (max - k) ≡ backoff max
unfolding waits backoff
waits-backoff max zero h =
    let e : backoff (max - 0) ≡ backoff max = ap backoff (omega arith) in ground arith
waits-backoff max (suc k) h =
    let one_more : max - k ≡ suc (max - suc k) = omega arith in
    let e : backoff (max - k) ≡ (max - suc k) * 2000 + backoff (max - suc k) =
      ap backoff one_more in
    ground (arith, waits-backoff max k (omega arith))

one_left : (k : ℕ) → suc k - k ≡ 1
one_left k = omega arith

module _ {Store : Type 0} (env : Env Store) (Good : World Store → World Store → Type 0) where
  abbrev SameClients : World Store → World Store → Type 0
  SameClients w v = v.connections ≡ w.connections

  -- How one round ends; `Good` holds between the worlds around one that succeeds.
  abbrev pub Attempted : Bool → ℕ → World Store → Outcome (World Store) Bool → Type 0
  Attempted last wait w (resolved true v) = Good w v × (v.slept ≡ w.slept) × SameClients w v
  Attempted last wait w (resolved false v) =
      (last ≡ false) × (w.steps ≤ v.steps) × (v.slept ≡ w.slept + wait) × SameClients w v
  Attempted last wait w (rejected e v) = (last ≡ true) × (v.slept ≡ w.slept) × SameClients w v

  abbrev pub on_error : Bool → ℕ → Error → Async (World Store) Bool
  on_error last wait e = if last then reject e else (do sleep env wait; resolve false)

  -- How the loop ends where it waits `total` when every round fails.
  abbrev pub Connected : ℕ → World Store → Outcome (World Store) (Unit {0}) → Type 0
  Connected total w (resolved _ v) =
      ((u : World Store) × (w.steps ≤ u.steps) × Good u v)
      × (v.slept ≤ w.slept + total)
      × (v.connections ≡ w.connections)
  Connected total w (rejected e v) = (v.slept ≡ w.slept + total) × (v.connections ≡ w.connections)

  Connected-later :
      (wait total : ℕ) (w v : World Store) (o : Outcome (World Store) (Unit {0}))
      → w.steps ≤ v.steps
      → v.slept ≡ w.slept + wait
      → v.connections ≡ w.connections
      → Connected total v o
      → Connected (wait + total) w o
  Connected-later wait total w v (resolved _ x) h s c ((u, a, good), b, d) =
      ((u, omega arith, good), omega arith, d ∙ c)
  Connected-later wait total w v (rejected _ u) h s c (b, d) = (omega arith, d ∙ c)

  abbrev step_total : Bool → ℕ → ℕ → ℕ
  step_total true wait total = 0
  step_total false wait total = wait + total

  -- A failed round adds its wait to what the other rounds wait.
  Connected-step :
      (last : Bool) (wait total : ℕ) (w : World Store) (rest : Async (World Store) (Unit {0}))
      (o : Outcome (World Store) Bool)
      → Attempted last wait w o
      → ((v : World Store) → last ≡ false → Connected total v (rest v))
      → Connected
          (step_total last wait total)
          w
          (continue o (λ done. if done then resolve tt else rest))
  unfolding resolve
  Connected-step last wait total w rest (resolved true v) (a, b, c) next =
      ((w, omega arith, a), omega arith, c)
  Connected-step last wait total w rest (rejected e v) (a, b, c) next = rw a (ground arith)
  Connected-step last wait total w rest (resolved false v) (a, b, c, d) next =
      rw a (Connected-later wait total w v (rest v) b c d (next v a))

  module _ (round : Round Store)
      (tries : (last : Bool) (wait : ℕ) (w : World Store)
        → Attempted last wait w (round (on_error last wait) w)) where
    attempts-Connected :
        (max k : ℕ) (w : World Store)
        → k < max
        → Connected (waits max k) w (attempts env round max (suc k) w)
    unfolding attempts ◌>>=◌ waits
    attempts-Connected max zero w h =
        let last = eqb (max - 0) max in
        let wait = (max - 0) * 2000 in
        let is_last : last ≡ true = ground arith in
        subst (λ t. Connected t w (attempts env round max 1 w))
          (ap (λ b. step_total b wait 0) is_last)
          (Connected-step last wait 0 w (attempts env round max zero) (round (on_error last wait) w)
            (tries last wait w) λ v e. cc)
    attempts-Connected max (suc k) w h =
        let last = eqb (max - suc k) max in
        let wait = (max - suc k) * 2000 in
        let is_not_last : last ≡ false = ground arith in
        subst (λ t. Connected t w (attempts env round max (suc (suc k)) w))
          (ap (λ b. step_total b wait (waits max k)) is_not_last)
          (Connected-step last wait (waits max k) w (attempts env round max (suc k))
            (round (on_error last wait) w) (tries last wait w)
            λ v e. attempts-Connected max k v (omega arith))

    pub attempts_all-Connected :
        (max : ℕ) (w : World Store)
        → 0 < max
        → Connected (backoff max) w (attempts env round max max w)
    unfolding waits backoff
    attempts_all-Connected zero w h = absurd (omega arith)
    attempts_all-Connected (suc k) w h =
        let all : waits (suc k) k + backoff (suc k - k) ≡ backoff (suc k) =
          waits-backoff (suc k) k (omega arith) in
        let first : backoff (suc k - k) ≡ 0 = ap backoff (one_left k) ∙ omega arith in
        subst (λ t. Connected t w (attempts env round (suc k) (suc k) w)) (ground arith)
          (attempts-Connected (suc k) k w (omega arith))
