-- ===== src/Redis/Queue/Held.antt =====
-- Whether a job is in a queue that leads to its run: what enqueueing and removing other jobs keep.
use taskfire.Prelude.{
  ℕ, String, Bool, true, false, ◌==◌, ◌≡◌, ◌≢◌, sym, subst, ◌∙◌, none, ◌⊎◌, inl, inr, arith, eq_iff,
  Option-cases,
}
use taskfire.Redis.Member.{Key, delayed, Member, parse}
use taskfire.Redis.Server.{Redis}
use taskfire.Redis.Queue.{lane_key, is_job}
use taskfire.Redis.Queue.Enqueue.{Adds}
use taskfire.Redis.Queue.Removal.{Removed}

-- A member is a job of one id at most.
is_job_unique : (a b : String) (m : Member) → is_job a m ≡ true → is_job b m ≡ true → a ≡ b
unfolding is_job
is_job_unique a b m h k = elim (Option-cases (parse m)) [
  | inl bad ↦ let h' = rw (bad, is_job) at h in cc
  | inr (d, good) ↦ elim (Option-cases d.id) [
    | inl unnamed ↦ let h' = rw (good, is_job, unnamed) at h in cc
    | inr (id, named) ↦
        let h' : (id == a) ≡ true = rw (good, is_job, named) at h in
        let k' : (id == b) ≡ true = rw (good, is_job, named) at k in
        ground (arith, eq_iff id a, eq_iff id b)
  ]
]

module _ {Store : Type 0} (redis : Redis Store) where
  -- The lane of the priority, or the delayed set, has a member that is the job.
  abbrev pub InQueue : String → ℕ → Store → Type 0
  InQueue id priority s =
      (k : Key) × (m : Member) × ((k ≡ lane_key priority) ⊎ (k ≡ delayed))
      × (is_job id m ≡ true)
      × (redis.zscore k m s ≢ none)

  pub Adds-InQueue :
      (id : String) (priority score : ℕ) (key : Key) (s s' : Store)
      → (key ≡ lane_key priority) ⊎ (key ≡ delayed)
      → Adds redis id key score s s'
      → InQueue id priority s'
  Adds-InQueue id priority score key s s' leads (m, is, e, scored) =
      (key, m, leads, is, λ absent. let bad = sym scored ∙ absent in cc)

  zadd_same :
      (key : Key) (n : ℕ) (m x : Member) (s : Store)
      → redis.zscore key m s ≢ none
      → redis.zscore key m (redis.zadd key n x s) ≢ none
  zadd_same key n m x s there absent =
      there
        (sym (redis.zadd_member key n x m s λ is. let e = redis.zadd_self key n x s in cc) ∙ absent)

  zadd-keeps :
      (k key : Key) (n : ℕ) (m x : Member) (s : Store)
      → redis.zscore k m s ≢ none
      → redis.zscore k m (redis.zadd key n x s) ≢ none
  zadd-keeps k key n m x s there absent = there (
      sym (
        redis.zadd_key key k n x m s λ same.
          subst (λ j. redis.zscore j m s ≢ none → redis.zscore j m (redis.zadd key n x s) ≢ none)
            (sym same) (zadd_same key n m x s) there absent)
      ∙ absent)

  zrem-keeps :
      (k key : Key) (m x : Member) (s : Store)
      → m ≢ x
      → redis.zscore k m s ≢ none
      → redis.zscore k m (redis.zrem key x s) ≢ none
  zrem-keeps k key m x s differs there absent = there (
      sym (
        redis.zrem_key key k x m s λ same.
          subst (λ j. redis.zscore j m s ≢ none → redis.zscore j m (redis.zrem key x s) ≢ none)
            (sym same) (λ here gone. here (sym (redis.zrem_member key x m s differs) ∙ gone)) there
            absent)
      ∙ absent)

  -- Adding a member takes no other job out of the queues.
  pub Adds-keeps :
      (id other : String) (priority score : ℕ) (key : Key) (s s' : Store)
      → Adds redis other key score s s'
      → InQueue id priority s
      → InQueue id priority s'
  Adds-keeps id other priority score key s s' (x, _, e, _) (k, m, leads, is, there) = (
    k,
    m,
    leads,
    is,
    subst (λ t. redis.zscore k m t ≢ none) (sym e) (zadd-keeps k key score m x s there),
  )

  -- Removing a job takes no other job out of the queues.
  pub Removed-keeps :
      (id other : String) (priority : ℕ) (key : Key) (s s' : Store) (b : Bool)
      → id ≢ other
      → Removed redis key other s s' b
      → InQueue id priority s
      → InQueue id priority s'
  Removed-keeps id other priority key s s' false differs (same, _) held = rw same held
  Removed-keeps id other priority key s s' true differs (x, _, is', e) (k, m, leads, is, there) = (
    k,
    m,
    leads,
    is,
    subst (λ t. redis.zscore k m t ≢ none) (sym e)
        (zrem-keeps k key m x s
          (λ same. differs (is_job_unique id other x (subst (λ y. is_job id y ≡ true) same is) is'))
          there),
  )
